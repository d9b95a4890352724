-- ===== src/Authz/Export/Decisions.antt =====
-- What the export check decides.
use depthfusion.Common.Dict.{lookup}
use depthfusion.Common.{
  inl, inr, String_eq, arith, some, ◌⊎◌, ◌↔◌, false, refl, none, true, ◌≡◌, String, any, Option,
}
use depthfusion.Authz.Classification.{
  level_rank, is_within_ceiling, confidential, public, internal, restricted, level_value,
  get_handling_rules, ClassificationLevel,
}
use depthfusion.Authz.Export.{
  has_format, json, missing, default_policy, format_value, ExportPolicy, default_matrix,
  ExportFormat, ExportPolicyMatrix, check_export_allowed, get_policy,
}

abbrev pub policy_in_force : Option ExportPolicyMatrix → ClassificationLevel → ExportPolicy
policy_in_force matrix level = get_policy (elim matrix [ none ↦ default_matrix | some m ↦ m ]) level

-- An export is allowed exactly if its approval is there or not required, and the policy lists its
-- format. The decision always carries the watermark that the policy asks for.
pub check_export_allowed_iff :
    (level : ClassificationLevel) (f : ExportFormat) (m : Option ExportPolicyMatrix)
    (token : Option String)
    → (((check_export_allowed level f m token).allowed ≡ true) ↔ (
        (((policy_in_force m level).approval_required ≡ false) ⊎ (missing token ≡ false))
        × (has_format f (policy_in_force m level).allowed_export_formats ≡ true)))
      × ((check_export_allowed level f m token).watermark_required
          ≡ (policy_in_force m level).watermark_required)
unfolding check_export_allowed
check_export_allowed_iff level f none token = (
  (
    λ h. ground arith,
    λ (approved, listed). elim approved [ inl a ↦ ground arith | inr b ↦ ground arith ],
  ),
  ground arith,
)
check_export_allowed_iff level f (some m) token = (
  (
    λ h. ground arith,
    λ (approved, listed). elim approved [ inl a ↦ ground arith | inr b ↦ ground arith ],
  ),
  ground arith,
)

-- A level that a matrix leaves out cannot be exported in any format, with any token.
pub check_export_allowed-unlisted :
    (level : ClassificationLevel) (f : ExportFormat) (m : ExportPolicyMatrix)
    (token : Option String)
    → lookup (level_value level) m.policies ≡ none
    → ((check_export_allowed level f (some m) token).allowed ≡ false)
      × ((check_export_allowed level f (some m) token).watermark_required ≡ true)
unfolding check_export_allowed get_policy any has_format
check_export_allowed-unlisted level f m token absent = (ground arith, ground arith)

get_policy-default :
    (level : ClassificationLevel) → get_policy default_matrix level ≡ default_policy level
unfolding get_policy default_matrix lookup level_value default_policy
get_policy-default public = refl
get_policy-default _ = refl

-- Under the default matrix, an export that a level allows is allowed for each less sensitive level.
pub default_exports_mono :
    (l k : ClassificationLevel) (f : ExportFormat) (token : Option String)
    → is_within_ceiling l k ≡ true
    → (check_export_allowed k f none token).allowed ≡ true
    → (check_export_allowed l f none token).allowed ≡ true
unfolding check_export_allowed default_policy any is_within_ceiling level_rank has_format
default_exports_mono public k f token le h =
    ground (arith, get_policy-default public, get_policy-default k)
default_exports_mono l k f token le h = ground (arith, get_policy-default l, get_policy-default k)

-- Under the default matrix, whatever token comes with it, a restricted record is never exported
-- and a confidential one only with a watermark.
pub default_exports :
    (f : ExportFormat) (token : Option String)
    → ((check_export_allowed restricted f none token).allowed ≡ false)
      × ((check_export_allowed confidential f none token).watermark_required ≡ true)
unfolding check_export_allowed default_policy any has_format
default_exports f token =
    (ground (arith, get_policy-default restricted), ground (arith, get_policy-default confidential))

-- The two policies of the package disagree: a JSON export of an internal or a confidential record
-- passes the check, and the handling rules of its level forbid export.
pub export_against_rules :
    (level : ClassificationLevel) (token : Option String)
    → (level ≡ internal) ⊎ (level ≡ confidential)
    → ((check_export_allowed level json none token).allowed ≡ true)
      × ((get_handling_rules level).export_allowed ≡ false)
unfolding check_export_allowed get_handling_rules any format_value default_policy has_format
export_against_rules level token which =
    ground (arith, get_policy-default internal, get_policy-default confidential)
