-- ===== src/Authz/Export.antt =====
-- src/depthfusion/authz/export_controls.py: which records may leave the platform, in which format.
-- Its own `ClassificationLevel` has the members of the one in classification.py.
pub mod Decisions
use depthfusion.Common.Dict.{Dict, lookup}
use depthfusion.Common.{
  not, ◌&&◌, if◌then◌else◌, none, String_eq, false, [], some, ◌==◌, true, ◌∷◌, any, ℕ, List, String,
  Bool, map, Option,
}
use depthfusion.Authz.Classification.{
  restricted, confidential, internal, public, level_order, level_value, ClassificationLevel,
}

pub data ExportFormat : Type 0 where
  json csv markdown pdf raw : ExportFormat

unfoldable pub format_value : ExportFormat → String
format_value json = "json"
format_value csv = "csv"
format_value markdown = "markdown"
format_value pdf = "pdf"
format_value raw = "raw"

pub record ExportPolicy : Type 0 where
  pub allowed_export_formats : List ExportFormat
  pub watermark_required : Bool
  pub approval_required : Bool

-- `DEFAULT_POLICY_MATRIX`
unfoldable pub default_policy : ClassificationLevel → ExportPolicy
default_policy public = record {
  allowed_export_formats = json ∷ csv ∷ markdown ∷ pdf ∷ raw ∷ [];
  watermark_required = false;
  approval_required = false;
}
default_policy internal = record {
  allowed_export_formats = json ∷ csv ∷ markdown ∷ [];
  watermark_required = false;
  approval_required = false;
}
default_policy confidential = record {
  allowed_export_formats = json ∷ csv ∷ [];
  watermark_required = true;
  approval_required = false;
}
default_policy restricted = record {
  allowed_export_formats = [];
  watermark_required = true;
  approval_required = true;
}

pub record ExportPolicyMatrix : Type 0 where
  pub version : ℕ
  pub policies : Dict String ExportPolicy

-- `ExportPolicyMatrix()`; the keys are the values of the levels.
unfoldable pub default_matrix : ExportPolicyMatrix
default_matrix = record {
  version = 1;
  policies = map (λ level. (level_value level, default_policy level)) level_order;
}

-- The policy of a level, or the most restrictive one.
unfoldable pub get_policy : ExportPolicyMatrix → ClassificationLevel → ExportPolicy
get_policy matrix level = elim (lookup (level_value level) matrix.policies) [
  | none ↦ record {
    allowed_export_formats = [];
    watermark_required = true;
    approval_required = true;
  }
  | some policy ↦ policy
]

-- The texts of `reason`, by the facts that they name.
pub data ExportReason : Type 0 where
  requires_approval : ClassificationLevel → ExportReason
  format_not_permitted : ExportFormat → ClassificationLevel → ExportReason
  permitted : ExportReason

pub record ExportDecision : Type 0 where
  pub allowed : Bool
  pub reason : ExportReason
  pub watermark_required : Bool
  pub approval_required : Bool

-- `not approval_token`
abbrev pub missing : Option String → Bool
missing none = true
missing (some token) = token == ""

unfoldable pub has_format : ExportFormat → List ExportFormat → Bool
has_format f formats = any (λ g. format_value g == format_value f) formats

unfoldable pub check_export_allowed :
    ClassificationLevel → ExportFormat → Option ExportPolicyMatrix → Option String → ExportDecision
check_export_allowed classification export_format matrix approval_token =
    let policy = get_policy (elim matrix [ none ↦ default_matrix | some m ↦ m ]) classification in
    if policy.approval_required && missing approval_token
    then record {
      allowed = false;
      reason = requires_approval classification;
      watermark_required = policy.watermark_required;
      approval_required = true;
    }
    else if not (has_format export_format policy.allowed_export_formats)
    then record {
      allowed = false;
      reason = format_not_permitted export_format classification;
      watermark_required = policy.watermark_required;
      approval_required = policy.approval_required;
    }
    else record {
      allowed = true;
      reason = permitted;
      watermark_required = policy.watermark_required;
      approval_required = false;
    }
