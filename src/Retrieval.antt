-- ===== src/Retrieval.antt =====
-- src/depthfusion/retrieval/acl_verifier.py: the last check of a result list against the caller's
-- ids. `json.loads` is a parameter.
pub mod Leaks
use depthfusion.Authz.Principals.{Principal}
use depthfusion.Common.{
  String_eq, none, contains, any, some, if◌then◌else◌, true, ◌∷◌, [], Option, Bool, List, String,
}

-- The value that a result holds under `acl_allow`, its entries by `str`; `no_acl` stands for a
-- missing value and for one of any other type.
pub data RawAcl : Type 0 where
  no_acl : RawAcl
  acl_text : String → RawAcl
  acl_list : List String → RawAcl

-- `is_malformed` is whether the check of this element raises, as it does where it is no dictionary.
pub record SearchResult : Type 0 where
  pub is_malformed : Bool
  pub record_id : String
  pub raw_acl : RawAcl

-- What `json.loads` makes of a text: an error, a list, its entries by `str`, or anything else.
pub data Json : Type 0 where
  not_json not_a_list : Json
  json_list : List String → Json

-- `set(acl_allow) & allowed_ids` is not empty, or there is no `acl_allow`
unfoldable pub principal_can_access : List String → List String → Bool
principal_can_access [] allowed_ids = true
principal_can_access (id ∷ acl_allow) allowed_ids =
    any (λ entry. contains entry allowed_ids) (id ∷ acl_allow)

-- What a text holds; one that is no JSON is its own single entry.
unfoldable pub parsed : String → Json → List String
parsed raw not_json = raw ∷ []
parsed raw not_a_list = []
parsed raw (json_list entries) = entries

-- What a list pass returns, and the ids for which it counts `acl_leak_prevented`.
pub record Verified : Type 0 where
  pub clean : List SearchResult
  pub leaked : List String

module _ (loads : String → Json) where
  -- The normalised `acl_allow`; the empty list stands for `None` too, which is tested alike.
  unfoldable pub normalise_acl : RawAcl → List String
  normalise_acl no_acl = []
  normalise_acl (acl_list entries) = entries
  normalise_acl (acl_text raw) = parsed raw (loads raw)

  -- The body of the loop, whose result is not malformed
  unfoldable pub verify_result : List String → SearchResult → Verified → Verified
  verify_result allowed_ids result rest =
      if principal_can_access (normalise_acl result.raw_acl) allowed_ids
      then record rest { clean = result ∷ rest.clean }
      else record rest { leaked = result.record_id ∷ rest.leaked }

  -- `_run_verify`, with `none` for an exception
  unfoldable pub verify_results : List String → List SearchResult → Option Verified
  verify_results allowed_ids [] = some (record { clean = []; leaked = [] })
  verify_results allowed_ids (result ∷ results) =
      let rest = verify_results allowed_ids results in
      if result.is_malformed then none else elim rest [
        | none ↦ none
        | some verified ↦ some (verify_result allowed_ids result verified)
      ]

  -- An exception leaves the results unfiltered.
  unfoldable pub verify_acl : List SearchResult → Option Principal → Verified
  verify_acl results none = record { clean = results; leaked = [] }
  verify_acl results (some principal) =
      elim (verify_results (principal.principal_id ∷ principal.groups) results) [
        | none ↦ record { clean = results; leaked = [] }
        | some verified ↦ verified
      ]
