-- ===== src/Authz/Snapshot.antt =====
-- src/depthfusion/authz/policy_snapshot.py: the classification policy that a server signs for
-- devices that are offline. Times are whole numbers of one unit. The hash, the serialisation and
-- the reading of keys are those of Python's library, and parameters here.
use depthfusion.Common.{
  ℕ, ◌+◌, String, Option, none, some, List, [], ◌∷◌, map, leb, not, ◌==◌, String_eq, ℤ, max_zero,
  if◌then◌else◌,
}
use depthfusion.Common.Dict.{Dict, lookup}
use depthfusion.Common.Sort.{sorted, str_le}
use depthfusion.Authz.Classification.{level_order, level_value, allowed_role_values}

pub data SnapshotVerification : Type 0 where
  verified unsigned tampered expired : SnapshotVerification

pub record SignedPolicySnapshot : Type 0 where
  pub version : ℕ
  pub issued_at : ℕ
  pub expires_at : ℕ
  pub policy : Dict String (List String)
  pub signature : String

-- What is signed: the version, the two times, and the policy with its keys and role lists sorted.
pub record Body : Type 0 where
  pub version : ℕ
  pub issued_at : ℕ
  pub expires_at : ℕ
  pub policy : Dict String (List String)

-- `{level: sorted(roles) ...}`
unfoldable pub sort_roles : Dict String (List String) → Dict String (List String)
sort_roles [] = []
sort_roles ((level, roles) ∷ policy) = (level, sorted str_le roles) ∷ sort_roles policy

-- `json.dumps(..., sort_keys=True)` puts the levels in order.
unfoldable pub canonical_body : ℕ → ℕ → ℕ → Dict String (List String) → Body
canonical_body version issued_at expires_at policy = record {
  version = version;
  issued_at = issued_at;
  expires_at = expires_at;
  policy = sorted (λ a b. str_le a.0 b.0) (sort_roles policy);
}

unfoldable pub allowed_roles_for : SignedPolicySnapshot → String → Option (List String)
allowed_roles_for snapshot classification = lookup classification snapshot.policy

-- `current_classification_policy_payload`
unfoldable pub current_payload : Dict String (List String)
current_payload =
    map (λ level. (level_value level, sorted str_le (allowed_role_values level))) level_order

-- HMAC-SHA256 over the JSON text of a body, and the key of the caller or of the environment.
pub record Signing : Type 1 where
  pub Key : Type 0
  pub hmac : Key → Body → String
  -- `_coerce_key`; `none` is its `PolicySnapshotError`.
  pub coerce_key : Option String → Option Key

module _ (S : Signing) where
  open S use {hmac, coerce_key}

  -- `none` where no key can be found. `policy` is the argument, or `none` for the live policy.
  unfoldable pub sign_policy_snapshot :
      ℕ → Option String → Option (Dict String (List String)) → ℕ → ℤ → Option SignedPolicySnapshot
  sign_policy_snapshot version key policy now ttl_seconds = elim (coerce_key key) [
    | none ↦ none
    | some signing_key ↦
        let body_policy : Dict String (List String) = elim policy [
          | none ↦ current_payload
          | some p ↦ p
        ] in
        some (record {
          version = version;
          issued_at = now;
          expires_at = now + max_zero ttl_seconds;
          policy = sort_roles body_policy;
          signature =
              hmac signing_key
                (canonical_body version now (now + max_zero ttl_seconds) body_policy);
        })
  ]

  unfoldable pub verify_policy_snapshot :
      SignedPolicySnapshot → Option String → ℕ → SnapshotVerification
  verify_policy_snapshot snapshot key now =
      if snapshot.signature == "" then unsigned else elim (coerce_key key) [
        | none ↦ tampered
        | some signing_key ↦
            if not (
              hmac signing_key (
                canonical_body snapshot.version snapshot.issued_at snapshot.expires_at
                  snapshot.policy)
              == snapshot.signature)
            then tampered
            else if leb snapshot.expires_at now
            then expired
            else verified
      ]
