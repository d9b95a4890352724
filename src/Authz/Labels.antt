-- ===== src/Authz/Labels.antt =====
-- src/depthfusion/authz/label_mapping.py: Microsoft sensitivity labels to classification levels.
-- The YAML reader is third-party code: the model starts from the value that it returns. Python's
-- `str` and `str.lower` are parameters, `str` of the values that are no text.
use depthfusion.Authz.Classification.{
  level_of, level_value, restricted, confidential, ClassificationLevel,
}
use depthfusion.Common.Dict.{lookup-put, put, keys, lookup, Dict}
use depthfusion.Common.{
  inr, inl, Option-cases, ◌∷◌, refl, ◌==◌, ◌⊎◌, String_eq, arith, if◌then◌else◌, [], contains, none,
  some, Bool, ℕ, List, ◌≡◌, String, Option,
}

-- A YAML value, as far as the parser looks into it.
pub data Yaml : Type 0 where
  null : Yaml
  text : String → Yaml
  scalar : ℕ → Yaml
  mapping : List (String × String) → Yaml

-- The top level of the file: not a mapping, or the two keys that are read.
pub data Config : Type 0 where
  not_a_mapping : Config
  entries : (default_level mappings : Option Yaml) → Config

pub data LabelMappingConfigError : Type 0 where
  not_mapping invalid_default missing_mappings mappings_not_mapping : LabelMappingConfigError
  unknown_level : String → LabelMappingConfigError

pub record LabelMapper : Type 0 where
  pub mappings : Dict String ClassificationLevel
  pub default_level : ClassificationLevel

pub data Parsed {ℓ} (A : Type ℓ) : Type ℓ where
  ok : A → Parsed A
  raised : LabelMappingConfigError → Parsed A

infixl 5 ◌>>=◌
abbrev pub ◌>>=◌ {ℓ κ} : {A : Type ℓ} {B : Type κ} → Parsed A → (A → Parsed B) → Parsed B
ok a >>= f = f a
raised e >>= f = raised e

-- `raw_default not in _SAFE_DEFAULTS`, where an absent key stands for `confidential`
unfoldable pub parse_default : Option Yaml → Parsed ClassificationLevel
parse_default none = ok confidential
parse_default (some (text s)) =
    if s == level_value confidential
    then ok confidential
    else if s == level_value restricted
    then ok restricted
    else raised invalid_default
parse_default (some _) = raised invalid_default

-- The level of a label that the file gives a level, or does not name.
abbrev pub Labelled : Option ClassificationLevel → ClassificationLevel → Type 0
Labelled (some level) l = l ≡ level
Labelled none l = (l ≡ confidential) ⊎ (l ≡ restricted)

module _ (lower : String → String) where
  unfoldable pub normalise :
      Dict String ClassificationLevel
      → List (String × String)
      → Parsed (Dict String ClassificationLevel)
  normalise seen [] = ok seen
  normalise seen ((label, level) ∷ rest) = elim (level_of level) [
    | none ↦ raised (unknown_level level)
    | some l ↦ normalise (put (lower label) l seen) rest
  ]

  unfoldable pub parse_mappings : Option Yaml → Parsed (Dict String ClassificationLevel)
  parse_mappings none = raised missing_mappings
  parse_mappings (some null) = raised missing_mappings
  parse_mappings (some (mapping items)) = normalise [] items
  parse_mappings (some _) = raised mappings_not_mapping

  -- `_parse_config`, and the constructor of `LabelMapper`
  unfoldable pub parse_config : Config → Parsed LabelMapper
  parse_config not_a_mapping = raised not_mapping
  parse_config (entries default_level mappings) = do
    d ← parse_default default_level
    m ← parse_mappings mappings
    ok (record { mappings = m; default_level = d })

  unfoldable pub map_label : LabelMapper → String → ClassificationLevel
  map_label mapper label = elim (lookup (lower label) mapper.mappings) [
    | none ↦ mapper.default_level
    | some level ↦ level
  ]

  unfoldable pub is_known : LabelMapper → String → Bool
  is_known mapper label = contains (lower label) (keys mapper.mappings)

  -- The last level that a list of items gives to a label, its case aside.
  pub last_level : String → List (String × String) → Option ClassificationLevel
  last_level label [] = none
  last_level label ((j, level) ∷ rest) = elim (last_level label rest) [
    | some l ↦ some l
    | none ↦ if lower j == lower label then level_of level else none
  ]

  lookup-normalise :
      (seen : Dict String ClassificationLevel) (items : List (String × String))
      (m : Dict String ClassificationLevel) (label : String)
      → normalise seen items ≡ ok m
      → lookup (lower label) m
        ≡ elim (last_level label items) [ some l ↦ some l | none ↦ lookup (lower label) seen ]
  unfolding normalise last_level
  lookup-normalise seen [] m label h = ground arith
  lookup-normalise seen ((j, level) ∷ rest) m label h = elim (Option-cases (level_of level)) [
    | inl unknown ↦ absurd (ground arith)
    | inr (l, named) ↦ ground (
      arith,
      lookup-normalise (put (lower j) l seen) rest m label,
      lookup-put (lower j) (lower label) l seen,
    )
  ]

  parse_default-safe :
      (o : Option Yaml) (d : ClassificationLevel)
      → parse_default o ≡ ok d
      → (d ≡ confidential) ⊎ (d ≡ restricted)
  unfolding parse_default
  parse_default-safe none d h = ground arith
  parse_default-safe (some (text s)) d h = ground arith
  parse_default-safe (some _) d h = ground arith

  parse_config-ok :
      (default_level : Option Yaml) (items : List (String × String)) (mapper : LabelMapper)
      → parse_config (entries default_level (some (mapping items))) ≡ ok mapper
      → (parse_default default_level ≡ ok mapper.default_level)
        × (normalise [] items ≡ ok mapper.mappings)
  unfolding parse_config parse_mappings
  parse_config-ok default_level items mapper h = (ground arith, ground arith)

  map_label-lookup :
      (mapper : LabelMapper) (items : List (String × String)) (label : String)
      (o : Option ClassificationLevel)
      → normalise [] items ≡ ok mapper.mappings
      → (mapper.default_level ≡ confidential) ⊎ (mapper.default_level ≡ restricted)
      → last_level label items ≡ o
      → Labelled o (map_label mapper label)
  unfolding map_label lookup
  map_label-lookup mapper items label none m d e =
      ground (arith, lookup-normalise [] items mapper.mappings label)
  map_label-lookup mapper items label (some l) m d e =
      ground (arith, lookup-normalise [] items mapper.mappings label)

  -- A mapper that was read from a file gives a label the level that the file states last for it,
  -- in any case, and gives a label that the file does not name a level that is confidential or
  -- restricted.
  pub map_label-parse_config :
      (default_level : Option Yaml) (items : List (String × String)) (mapper : LabelMapper)
      (label : String)
      → parse_config (entries default_level (some (mapping items))) ≡ ok mapper
      → Labelled (last_level label items) (map_label mapper label)
  map_label-parse_config default_level items mapper label h =
      let (default, parsed) = parse_config-ok default_level items mapper h in
      map_label-lookup mapper items label (last_level label items) parsed
        (parse_default-safe default_level mapper.default_level default) refl
