-- ===== src/Offline/Admission.antt =====
-- src/depthfusion/cache/admission.py: which records may be cached on a device.
pub mod Filter
use depthfusion.Authz.Classification.{is_within_ceiling, ClassificationLevel}
use depthfusion.Common.{
  String_eq, contains, not, select, false, if◌then◌else◌, true, List, Bool, String,
}

pub record CacheableRecord : Type 0 where
  pub record_id : String
  pub classification : ClassificationLevel
  pub acl_allow : List String

-- `AdmissionDecision`, by its reason
pub data Reason : Type 0 where
  admitted acl_denied ceiling_exceeded : Reason

-- `AdmissionDecision.admitted`
unfoldable pub is_admitted : Reason → Bool
is_admitted admitted = true
is_admitted acl_denied = false
is_admitted ceiling_exceeded = false

unfoldable pub is_admissible : CacheableRecord → String → ClassificationLevel → Reason
is_admissible candidate principal_id offline_ceiling =
    if not (contains principal_id candidate.acl_allow)
    then acl_denied
    else if not (is_within_ceiling candidate.classification offline_ceiling)
    then ceiling_exceeded
    else admitted

unfoldable pub filter_admissible :
    List CacheableRecord → String → ClassificationLevel → List CacheableRecord
filter_admissible records principal_id offline_ceiling =
    select (λ r. is_admitted (is_admissible r principal_id offline_ceiling)) records
