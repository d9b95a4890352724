-- ===== src/Authz/Classification.antt =====
-- src/depthfusion/authz/classification.py: the taxonomy of records and its handling rules.
use depthfusion.Common.{ℕ, String, Bool, true, false, Option, List, [], ◌∷◌, leb, map}
use depthfusion.Common.Enum.{member_of}

pub data Role : Type 0 where
  admin data_engineer analyst member viewer external : Role

unfoldable pub role_value : Role → String
role_value admin = "admin"
role_value data_engineer = "data_engineer"
role_value analyst = "analyst"
role_value member = "member"
role_value viewer = "viewer"
role_value external = "external"

pub data ClassificationLevel : Type 0 where
  public internal confidential restricted : ClassificationLevel

unfoldable pub level_value : ClassificationLevel → String
level_value public = "public"
level_value internal = "internal"
level_value confidential = "confidential"
level_value restricted = "restricted"

-- `_LEVEL_ORDER`
abbrev pub level_order : List ClassificationLevel
level_order = public ∷ internal ∷ confidential ∷ restricted ∷ []

-- `ClassificationLevel(s)`; `none` is the `ValueError`.
unfoldable pub level_of : String → Option ClassificationLevel
unfolding member_of level_value
level_of s = member_of level_value level_order s

pub record HandlingRules : Type 0 where
  pub export_allowed : Bool
  pub cache_allowed : Bool
  pub redact_in_search : Bool
  pub allowed_roles : List Role

-- `CLASSIFICATION_POLICY`, which maps every level: `get_handling_rules` never raises on one.
unfoldable pub get_handling_rules : ClassificationLevel → HandlingRules
get_handling_rules public = record {
  export_allowed = true;
  cache_allowed = true;
  redact_in_search = false;
  allowed_roles = admin ∷ data_engineer ∷ analyst ∷ member ∷ viewer ∷ external ∷ [];
}
get_handling_rules internal = record {
  export_allowed = false;
  cache_allowed = true;
  redact_in_search = false;
  allowed_roles = admin ∷ data_engineer ∷ analyst ∷ member ∷ viewer ∷ [];
}
get_handling_rules confidential = record {
  export_allowed = false;
  cache_allowed = false;
  redact_in_search = true;
  allowed_roles = admin ∷ data_engineer ∷ [];
}
get_handling_rules restricted = record {
  export_allowed = false;
  cache_allowed = false;
  redact_in_search = true;
  allowed_roles = admin ∷ [];
}

-- The role values that may read a level.
unfoldable pub allowed_role_values : ClassificationLevel → List String
unfolding get_handling_rules role_value
allowed_role_values level = map role_value (get_handling_rules level).allowed_roles

unfoldable pub level_rank : ClassificationLevel → ℕ
level_rank public = 0
level_rank internal = 1
level_rank confidential = 2
level_rank restricted = 3

unfoldable pub is_within_ceiling : ClassificationLevel → ClassificationLevel → Bool
unfolding level_rank
is_within_ceiling level ceiling = leb (level_rank level) (level_rank ceiling)
