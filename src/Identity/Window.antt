-- ===== src/Identity/Window.antt =====
-- The window of a device credential.
use depthfusion.Common.{
  refl, negsuc, pos, false, arith, ◌*◌, ◌+◌, ◌≤◌, some, ◌↔◌, ◌≡◌, none, Option, ℕ,
}
use depthfusion.Mcp.RateLimit.{not_an_integer, blank, integer, Setting}
use depthfusion.Identity.{
  is_status_valid, needs_reenrollment, read_lease_hours_from_env, check, device_lease,
}

-- Whatever the environment holds, the lease that is read from it is at least an hour.
read_lease_hours_from_env-positive : (env : Setting) → 1 ≤ read_lease_hours_from_env env
unfolding read_lease_hours_from_env
read_lease_hours_from_env-positive blank = omega arith
read_lease_hours_from_env-positive not_an_integer = omega arith
read_lease_hours_from_env-positive (integer (pos n)) = ground arith
read_lease_hours_from_env-positive (integer (negsuc n)) = omega arith

-- A device needs no re-enrollment exactly if its credential was issued and at most the configured lease, which
-- is at least an hour whatever the environment holds, and the skew have passed since.
pub needs_reenrollment_iff :
    (env : Setting) (skew : ℕ) (issued_at : Option ℕ) (now : ℕ)
    → ((needs_reenrollment (device_lease env none skew) issued_at now ≡ false)
        ↔ (t : ℕ) × (issued_at ≡ some t) × (now ≤ t + read_lease_hours_from_env env * 3600 + skew))
      × (1 ≤ read_lease_hours_from_env env)
unfolding needs_reenrollment is_status_valid device_lease check
needs_reenrollment_iff env skew none now =
    ((λ h. absurd (cc), λ h. absurd (cc)), read_lease_hours_from_env-positive env)
needs_reenrollment_iff env skew (some t) now =
    ((λ h. (t, refl, ground arith), λ h. ground arith), read_lease_hours_from_env-positive env)
