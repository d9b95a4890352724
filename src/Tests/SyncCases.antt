-- ===== src/Tests/SyncCases.antt =====
-- A record on the server, and devices that push and pull.
use depthfusion.Tests.Samples.{alice}
use depthfusion.Common.Dict.{lookup}
use depthfusion.Sync.{classification_rank, Change, sync_pull, SyncRecord, SyncStore}
use depthfusion.Common.Texts.{codes}
use depthfusion.Common.Ranks.{chars_le}
use depthfusion.Common.{
  refl, String_eq, ◌≤◌, arith, false, true, not, contains, any, some, [], ◌↔◌, ◌≡◌, String, ◌∷◌,
  IsIn, List,
}
use depthfusion.Sync.Authority.{after_pushes, after_pushes_authority, Push}
use depthfusion.Sync.Pulls.{sync_pull_iff}

abbrev shared : List String → String → SyncRecord
shared readers label = record {
  record_id = "r";
  principal_id = "alice";
  acl_allow = readers;
  classification = label;
  payload = "{}";
  updated_at = codes "2026-01-05";
}

abbrev server_record : SyncRecord
server_record = shared ("alice" ∷ "bob" ∷ []) "internal"

abbrev server : SyncStore
server = record {
  records = ("r", server_record) ∷ [];
  changelog = record { record_id = "r"; changed_at = codes "2026-01-05" } ∷ [];
}

abbrev sample_pushes : List Push
sample_pushes =
    record {
      principal = alice;
      delta = (shared ("alice" ∷ "eve" ∷ []) "public", codes "2026-01-07") ∷ [];
    }
    ∷ record {
      principal = alice;
      delta = (shared ("alice" ∷ []) "restricted", codes "2026-01-08") ∷ [];
    }
    ∷ []

after_pushes_authority_example :
    (t : SyncRecord) × (lookup "r" (after_pushes server sample_pushes).records ≡ some t)
    × (any (λ p. not (contains p server_record.acl_allow)) t.acl_allow ≡ false)
    × (classification_rank t.classification ≤ classification_rank server_record.classification)
unfolding lookup
after_pushes_authority_example = after_pushes_authority server sample_pushes "r" server_record refl

sync_pull_iff_example : IsIn server_record (sync_pull server alice (codes "2026-01-04") 10) ↔ (
    (change : Change) × IsIn change server.changelog
    × (chars_le change.changed_at (codes "2026-01-04") ≡ false)
    × (lookup change.record_id server.records ≡ some server_record)
    × (contains alice.principal_id server_record.acl_allow ≡ true))
sync_pull_iff_example =
    sync_pull_iff server alice (codes "2026-01-04") 10 server_record (omega arith)
