-- ===== src/Offline/Admission/Filter.antt =====
-- What admission lets onto a device.
use depthfusion.Authz.Classification.{is_within_ceiling, ClassificationLevel}
use depthfusion.Common.{IsIn-select, IsIn, String_eq, arith, contains, true, ◌≡◌, String, ◌↔◌, List}
use depthfusion.Offline.Admission.{is_admitted, is_admissible, CacheableRecord, filter_admissible}

-- The records that may be cached are those of the candidates whose ACL names the principal and
-- whose classification is within the ceiling.
pub filter_admissible_iff :
    (records : List CacheableRecord) (r : CacheableRecord) (principal_id : String)
    (ceiling : ClassificationLevel)
    → IsIn r (filter_admissible records principal_id ceiling)
      ↔ IsIn r records
        × (contains principal_id r.acl_allow ≡ true)
        × (is_within_ceiling r.classification ceiling ≡ true)
unfolding filter_admissible is_admissible is_admitted
filter_admissible_iff records r principal_id ceiling =
    ground (arith, IsIn-select (λ c. is_admitted (is_admissible c principal_id ceiling)) r records)
