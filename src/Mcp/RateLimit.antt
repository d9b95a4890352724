-- ===== src/Mcp/RateLimit.antt =====
-- src/depthfusion/mcp/ratelimit.py: fixed windows of calls, per principal and bucket.
pub mod Windows
pub mod Retries
use depthfusion.Authz.Roles.{Capability_eq, read_own_records}
use Prim.Native.String.{◌++◌ as str_append}
use depthfusion.Mcp.ToolAccess.{tool_capabilities}
use depthfusion.Common.Dict.{put, lookup, Dict}
use depthfusion.Common.{
  ◌==◌, nat_eq, some, negsuc, none, pos, String_eq, true, max, false, ltb, ◌%◌, if◌then◌else◌, ◌-◌,
  ◌+◌, String, Bool, ℤ, ℕ,
}

abbrev pub window_seconds : ℕ
window_seconds = 60

abbrev pub default_rate_limit_publish : ℕ
default_rate_limit_publish = 60

abbrev pub default_rate_limit_recall : ℕ
default_rate_limit_recall = 300

-- What `int(raw.strip())` makes of an environment variable.
pub data Setting : Type 0 where
  blank not_an_integer : Setting
  integer : ℤ → Setting

unfoldable pub resolve_positive_int : Setting → ℕ → ℕ
resolve_positive_int blank default = default
resolve_positive_int not_an_integer default = default
resolve_positive_int (integer (pos n)) default = if ltb 0 n then n else default
resolve_positive_int (integer (negsuc n)) default = default

pub data Bucket : Type 0 where
  publish recall : Bucket

-- The two environment variables.
pub record Environment : Type 0 where
  pub publish_limit : Setting
  pub recall_limit : Setting

unfoldable pub classify_tool_call : Environment → String → Bucket × ℕ
classify_tool_call env tool_name =
    if elim (lookup tool_name tool_capabilities) [ none ↦ false | some c ↦ c == read_own_records ]
    then (recall, resolve_positive_int env.recall_limit default_rate_limit_recall)
    else (publish, resolve_positive_int env.publish_limit default_rate_limit_publish)

pub record RateLimitResult : Type 0 where
  pub allowed : Bool
  pub retry_after_seconds : ℕ

-- `now - (now % _WINDOW_SECONDS)`
unfoldable pub window_of : ℕ → ℕ
window_of now = now - now % window_seconds

-- `InMemoryRateLimitBackend._windows`: the start of the window and the count, for each key
abbrev pub Windows : Type 0
Windows = Dict String (ℕ × ℕ)

-- The count before the call: that of the stored window if it is the current one.
unfoldable pub count_before : Windows → String → ℕ → ℕ
count_before windows key start = elim (lookup key windows) [
  | none ↦ 0
  | some (stored_start, count) ↦ if nat_eq stored_start start then count else 0
]

unfoldable pub bucket_value : Bucket → String
bucket_value publish = "publish"
bucket_value recall = "recall"

-- `f"{principal_id}:{bucket}"`
unfoldable pub window_key : String → Bucket → String
window_key principal_id bucket = str_append principal_id (str_append ":" (bucket_value bucket))

unfoldable pub check : Windows → String → Bucket → ℕ → ℕ → Windows × RateLimitResult
check windows principal_id bucket limit now =
    let key = window_key principal_id bucket in
    let start = window_of now in
    let count = count_before windows key start + 1 in
    (
      put key (start, count) windows,
      if ltb limit count
          then record {
            allowed = false;
            retry_after_seconds = max (start + window_seconds - now) 1;
          }
          else record { allowed = true; retry_after_seconds = 0 },
    )
