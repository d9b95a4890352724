-- ===== src/Tests/PolicyCases.antt =====
-- Signed policies, exports and labels.
use depthfusion.Authz.Roles.{read_own_records}
use depthfusion.Authz.Engine.{evaluate, evaluate_offline}
use depthfusion.Tests.Samples.{note, alice, sample_hmac, sample_signing}
use depthfusion.Common.{
  pos, inr, inl, String_eq, refl, nat_eq, eq_iff, Bool-cases, arith, ◌≢◌, false, some, ◌≡◌, ◌==◌,
  String,
}
use depthfusion.Authz.Snapshot.{
  current_payload, canonical_body, sort_roles, Body, SignedPolicySnapshot, sign_policy_snapshot,
}
use depthfusion.Authz.Engine.OfflinePolicy.{evaluate_offline-signed}

text-nonempty : (s : String) → (s == "") ≡ false → s ≢ ""
text-nonempty s h e = ground (arith, eq_iff s "")

sample_hmac-nonempty : (k : String) (b : Body) → sample_hmac k b ≢ ""
sample_hmac-nonempty k b e = elim (Bool-cases (nat_eq b.version 0)) [
  | inl initial ↦ absurd (ground (arith, e, initial, text-nonempty "first" refl))
  | inr next ↦ absurd (ground (arith, e, next, text-nonempty "later" refl))
]

abbrev signed_snapshot : SignedPolicySnapshot
signed_snapshot = record {
  version = 3;
  issued_at = 100;
  expires_at = 3700;
  policy = sort_roles current_payload;
  signature = "later";
}

evaluate_offline-signed_example :
    (evaluate_offline sample_signing alice read_own_records note
      (record { snapshot = signed_snapshot; snapshot_key = (some "key") })
      200).allow
    ≡ (evaluate alice read_own_records note).allow
unfolding sign_policy_snapshot canonical_body
evaluate_offline-signed_example =
    evaluate_offline-signed sample_signing (λ k b. sample_hmac-nonempty k b) 3 100 200 (some "key")
      (pos 3600) (omega arith) alice read_own_records note signed_snapshot refl
