-- ===== src/Identity/Jwks.antt =====
-- `JwksCache` of src/depthfusion/identity/jwks_cache.py: a provider's signing keys, refreshed when
-- they are stale or a key is missing. The lock makes a call one step. A call is given the answer
-- of the provider, which it reads only when it fetches: `none` is a failed request, malformed JSON
-- or a document without a `keys` array. Times are numbers of one unit.

use depthfusion.Common.Dict.{lookup, keys, put, Dict}
use depthfusion.Common.{
  contains, ◌&&◌, ◌-◌, not, leb, none, ◌==◌, [], ◌||◌, some, is_empty, ◌∷◌, if◌then◌else◌, List,
  Bool, Option, String, ℕ, String_eq,
}
pub mod Keys

pub record Jwk : Type 0 where
  pub kid : String
  pub kty : String
  pub n : Option String
  pub e : Option String

pub record JwksCache : Type 0 where
  pub ttl_seconds : ℕ
  pub keys : Dict String Jwk
  pub fetched_at : ℕ

-- An entry of the `keys` array that is an object with a `kid`, or `none`
abbrev pub Document : Type 0
Document = List (Option Jwk)

unfoldable pub is_stale : JwksCache → ℕ → Bool
is_stale cache now = is_empty cache.keys || leb cache.ttl_seconds (now - cache.fetched_at)

unfoldable pub collect_keys : Dict String Jwk → Document → Dict String Jwk
collect_keys keys [] = keys
collect_keys keys (none ∷ entries) = collect_keys keys entries
collect_keys keys (some jwk ∷ entries) =
    if jwk.kid == "" then collect_keys keys entries else collect_keys (put jwk.kid jwk keys) entries

-- `none` is the `JwksFetchError`.
unfoldable pub refresh : JwksCache → ℕ → Option Document → Option JwksCache
refresh cache now none = none
refresh cache now (some entries) =
    let keys = collect_keys [] entries in
    if is_empty keys then none else some (record cache { keys = keys; fetched_at = now })

unfoldable pub get_key : JwksCache → ℕ → Option Document → String → JwksCache × Option Jwk
get_key cache now answer kid =
    if kid == ""
    then (cache, none)
    else if not (is_stale cache now) && contains kid (keys cache.keys)
    then (cache, lookup kid cache.keys)
    else elim (refresh cache now answer) [
      | none ↦ (cache, none)
      | some fetched ↦ (fetched, lookup kid fetched.keys)
    ]
