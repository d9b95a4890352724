-- ===== src/Authz/Engine/OfflinePolicy.antt =====
-- Decisions from a signed snapshot, on a device that is offline.
use depthfusion.Authz.Classification.{
  public, ClassificationLevel, role_value, get_handling_rules, level_of, allowed_role_values,
  level_value,
}
use depthfusion.Common.Sort.{contains-sorted, insert, str_le, sorted}
use depthfusion.Common.Dict.{lookup}
use depthfusion.Authz.Roles.{Capability}
use depthfusion.Authz.Principals.{Principal}
use depthfusion.Common.{
  sym, subst, String_eq, fun_ext, refl, any, inr, Bool, ap, eq_iff, inl, max_zero, List,
  Option-cases, ◌+◌, ℤ, ◌<◌, false, ◌↔◌, arith, ◌≢◌, none, some, ◌≡◌, ℕ, String, Option,
}
use depthfusion.Authz.Engine.{
  finish, check_classification, has_role, Offline, Resource, check_classification_offline,
  evaluate_with, evaluate, evaluate_offline,
}
use depthfusion.Authz.Snapshot.{
  sign_policy_snapshot, current_payload, allowed_roles_for, sort_roles, Body, canonical_body,
  verified, SignedPolicySnapshot, verify_policy_snapshot, Signing,
}

module _ (S : Signing) where
  open S use {Key, hmac, coerce_key}

  -- Where the snapshot does not verify, every access to a record with a label is denied.
  pub evaluate_offline-refuses :
      (p : Principal) (c : Capability) (r : Resource) (o : Offline) (now : ℕ) (label : String)
      → r.classification ≡ some label
      → verify_policy_snapshot S o.snapshot o.snapshot_key now ≢ verified
      → (evaluate_offline S p c r o now).allow ≡ false
  unfolding evaluate_offline evaluate_with check_classification_offline
  evaluate_offline-refuses p c r o now label labelled refused = ground arith

  -- Of a record without a label the snapshot is not read: whatever it is, tampered or expired,
  -- the decision is that of the evaluation without a snapshot.
  pub evaluate_offline-unlabelled :
      (p : Principal) (c : Capability) (r : Resource) (o : Offline) (now : ℕ)
      → r.classification ≡ none
      → evaluate_offline S p c r o now ≡ evaluate p c r
  unfolding evaluate_offline evaluate evaluate_with
  evaluate_offline-unlabelled p c r o now unlabelled = ground arith

  -- A snapshot verifies exactly if it carries the signature of its content and has not expired.
  pub verify_policy_snapshot_iff :
      (s : SignedPolicySnapshot) (key : Option String) (now : ℕ)
      → (verify_policy_snapshot S s key now ≡ verified) ↔ (
          (s.signature ≢ "")
          × ((k : Key) × (coerce_key key ≡ some k)
              × (hmac k (canonical_body s.version s.issued_at s.expires_at s.policy) ≡ s.signature))
          × (now < s.expires_at))
  unfolding verify_policy_snapshot
  verify_policy_snapshot_iff s key now = (
    λ h. elim (Option-cases (coerce_key key)) [
      | inl missing ↦ absurd (ground (arith, eq_iff s.signature ""))
      | inr (k, found) ↦ (
        λ e. ground (arith, eq_iff s.signature ""),
        (k, found, ground (arith, eq_iff (hmac k (signed s)) s.signature)),
        ground arith,
      )
    ],
    λ (signature, (k, found, matches), fresh).
        ground (arith, eq_iff s.signature "", eq_iff (hmac k (signed s)) s.signature),
  )
    where
      signed : SignedPolicySnapshot → Body
      signed t = canonical_body t.version t.issued_at t.expires_at t.policy

  -- A snapshot of the live policy, as the server signs it.
  live_snapshot : Key → ℕ → ℕ → ℤ → SignedPolicySnapshot
  live_snapshot k version issued ttl = record {
    version = version;
    issued_at = issued;
    expires_at = issued + max_zero ttl;
    policy = sort_roles current_payload;
    signature = hmac k (canonical_body version issued (issued + max_zero ttl) current_payload);
  }

  canonical_body-current_payload :
      (version issued expires : ℕ)
      → canonical_body version issued expires (sort_roles current_payload)
        ≡ canonical_body version issued expires current_payload
  unfolding canonical_body sort_roles current_payload sorted insert level_value allowed_role_values
      get_handling_rules role_value
  canonical_body-current_payload version issued expires = refl

  allowed_roles_for-live_snapshot :
      (k : Key) (version issued : ℕ) (ttl : ℤ) (level : ClassificationLevel)
      → allowed_roles_for (live_snapshot k version issued ttl) (level_value level)
        ≡ some (sorted str_le (allowed_role_values level))
  unfolding allowed_roles_for live_snapshot lookup sort_roles current_payload sorted insert
      level_value allowed_role_values get_handling_rules role_value
  allowed_roles_for-live_snapshot k version issued ttl public = refl
  allowed_roles_for-live_snapshot k version issued ttl _ = refl

  has_role-sorted :
      (groups values : List String)
      → has_role groups (sorted str_le values) ≡ has_role groups values
  unfolding has_role
  has_role-sorted groups values =
      ap (λ (q : String → Bool). any q groups) (fun_ext λ g. contains-sorted str_le g values)

  module _ (nonempty : (k : Key) (b : Body) → hmac k b ≢ "") (version issued now : ℕ)
      (key : Option String) (ttl : ℤ) (fresh : now < issued + max_zero ttl) where
    live_snapshot-verified :
        (k : Key)
        → coerce_key key ≡ some k
        → verify_policy_snapshot S (live_snapshot k version issued ttl) key now ≡ verified
    unfolding live_snapshot
    live_snapshot-verified k found =
        (verify_policy_snapshot_iff (live_snapshot k version issued ttl) key now).1 (
          nonempty k _,
          (k, found, ap (hmac k) (canonical_body-current_payload version issued _)),
          fresh,
        )

    check-live_snapshot :
        (k : Key) (p : Principal) (c : Capability) (label : String)
        → coerce_key key ≡ some k
        → (finish c (
            check_classification_offline S p c
              (record { snapshot = live_snapshot k version issued ttl; snapshot_key = key })
              now
              label)).allow
          ≡ (finish c (check_classification p c label)).allow
    unfolding check_classification_offline check_classification
    check-live_snapshot k p c label found = elim (Option-cases (level_of label)) [
      | inl unknown ↦ ground (arith, live_snapshot-verified k found)
      | inr (level, named) ↦ ground (
        arith,
        live_snapshot-verified k found,
        allowed_roles_for-live_snapshot k version issued ttl level,
        has_role-sorted p.groups (allowed_role_values level),
      )
    ]

    signed_by :
        (s : SignedPolicySnapshot)
        → sign_policy_snapshot S version key none issued ttl ≡ some s
        → (k : Key) × (coerce_key key ≡ some k) × (s ≡ live_snapshot k version issued ttl)
    unfolding sign_policy_snapshot live_snapshot
    signed_by s signed = elim (Option-cases (coerce_key key)) [
      | inl missing ↦ absurd (ground arith)
      | inr (k, found) ↦ (k, found, ground arith)
    ]

    evaluate_offline-live :
        (k : Key) (p : Principal) (c : Capability) (r : Resource)
        → coerce_key key ≡ some k
        → (evaluate_offline S p c r
            (record { snapshot = live_snapshot k version issued ttl; snapshot_key = key })
            now).allow
          ≡ (evaluate p c r).allow
    unfolding evaluate_offline evaluate evaluate_with
    evaluate_offline-live k p c r found = elim (Option-cases r.classification) [
      | inl unlabelled ↦ ground arith
      | inr (label, labelled) ↦ ground (arith, check-live_snapshot k p c label found)
    ]

    -- While it is fresh, a snapshot that was signed from the live policy allows what the live
    -- policy allows and denies what it denies.
    pub evaluate_offline-signed :
        (p : Principal) (c : Capability) (r : Resource) (s : SignedPolicySnapshot)
        → sign_policy_snapshot S version key none issued ttl ≡ some s
        → (evaluate_offline S p c r (record { snapshot = s; snapshot_key = key }) now).allow
          ≡ (evaluate p c r).allow
    evaluate_offline-signed p c r s signed =
        let (k, found, e) = signed_by s signed in
        subst
          (λ (t : SignedPolicySnapshot).
            (evaluate_offline S p c r (record { snapshot = t; snapshot_key = key }) now).allow
            ≡ (evaluate p c r).allow)
          (sym e) (evaluate_offline-live k p c r found)
