-- ===== src/Identity.antt =====
-- src/depthfusion/identity/device_lease.py (`DeviceLease`): whether a device credential is still
-- within its lease window. Times are whole seconds and the lease whole hours.
pub mod Window
pub mod Jwks
pub mod Tokens
pub mod Registry
use depthfusion.Mcp.RateLimit.{not_an_integer, blank, integer, Setting}
use depthfusion.Common.{
  not, ◌+◌, negsuc, false, ltb, nat_eq, none, true, pos, if◌then◌else◌, Bool, some, ◌*◌, ℕ, Option,
}

pub data LeaseStatus : Type 0 where
  valid expired missing : LeaseStatus

-- `DEFAULT_LEASE_HOURS` and `CLOCK_SKEW_TOLERANCE_SECONDS`
abbrev pub default_lease_hours : ℕ
default_lease_hours = 24

abbrev pub clock_skew_tolerance_seconds : ℕ
clock_skew_tolerance_seconds = 300

pub record DeviceLease : Type 0 where
  pub lease_seconds : ℕ
  pub skew : ℕ

-- `_read_lease_hours_from_env`, for a variable that is blank or not a number, or an integer
unfoldable pub read_lease_hours_from_env : Setting → ℕ
read_lease_hours_from_env blank = default_lease_hours
read_lease_hours_from_env not_an_integer = default_lease_hours
read_lease_hours_from_env (integer (pos n)) = if nat_eq n 0 then default_lease_hours else n
read_lease_hours_from_env (integer (negsuc n)) = default_lease_hours

-- `DeviceLease.__init__`
unfoldable pub device_lease : Setting → Option ℕ → ℕ → DeviceLease
device_lease env none skew = record {
  lease_seconds = read_lease_hours_from_env env * 3600;
  skew = skew;
}
device_lease env (some hours) skew = record { lease_seconds = hours * 3600; skew = skew }

unfoldable pub check : DeviceLease → Option ℕ → ℕ → LeaseStatus
check lease none now = missing
check lease (some issued_at) now =
    if ltb (issued_at + lease.lease_seconds + lease.skew) now then expired else valid

-- `status is LeaseStatus.VALID`
unfoldable pub is_status_valid : LeaseStatus → Bool
is_status_valid valid = true
is_status_valid expired = false
is_status_valid missing = false

unfoldable pub is_valid : DeviceLease → Option ℕ → ℕ → Bool
is_valid lease issued_at now = is_status_valid (check lease issued_at now)

unfoldable pub needs_reenrollment : DeviceLease → Option ℕ → ℕ → Bool
needs_reenrollment lease issued_at now = not (is_status_valid (check lease issued_at now))
