-- ===== src/Mcp/RateLimit/Windows.antt =====
-- The limiter against the history of its calls.
use depthfusion.Authz.Roles.{capability_beq_iff, read_own_records}
use depthfusion.Mcp.ToolAccess.{tool_capabilities}
use depthfusion.Common.Dict.{lookup-put, lookup}
use depthfusion.Mcp.RateLimit.{
  default_rate_limit_recall, not_an_integer, blank, default_rate_limit_publish, integer, recall,
  Setting, Environment, resolve_positive_int, RateLimitResult, classify_tool_call, window_seconds,
  window_key, Bucket, check, Windows, count_before, window_of,
}
use depthfusion.Common.{
  inr, inl, Option-cases, negsuc, pos, some, ◌-◌, max, false, eq_iff, ◌↔◌, true, String_eq, ◌+◌,
  nat_eq, ◌&&◌, ◌==◌, refl, [], ◌≡◌, arith, if◌then◌else◌, ◌<◌, ◌∷◌, ◌≤◌, String, List, ℕ,
}

pub record Call : Type 0 where
  pub principal_id : String
  pub bucket : Bucket
  pub limit : ℕ
  pub time : ℕ

abbrev pub key_of : Call → String
key_of c = window_key c.principal_id c.bucket

-- The windows after a history of calls, the latest call first.
unfoldable pub after : List Call → Windows
after [] = []
after (c ∷ earlier) = (check (after earlier) c.principal_id c.bucket c.limit c.time).0

-- How many calls with the key a history has in a window.
unfoldable pub calls_in : String → ℕ → List Call → ℕ
calls_in key start [] = 0
calls_in key start (c ∷ earlier) =
    (if key_of c == key && nat_eq (window_of c.time) start then 1 else 0)
    + calls_in key start earlier

-- No call of the history came later than `now`, and none before one that came earlier.
abbrev pub IsOrdered : ℕ → List Call → Type 0
IsOrdered now [] = Unit
IsOrdered now (c ∷ earlier) = (c.time ≤ now) × IsOrdered c.time earlier

pub window_of_mono : (s t : ℕ) → s ≤ t → window_of s ≤ window_of t
unfolding window_of
window_of_mono s t h = omega arith

pub calls_in_later :
    (key : String) (start now : ℕ) (h : List Call)
    → IsOrdered now h
    → window_of now < start
    → calls_in key start h ≡ 0
unfolding calls_in
calls_in_later key start now [] o lt = refl
calls_in_later key start now (c ∷ h) o lt =
    ground (arith, window_of_mono c.time now o.0, calls_in_later key start c.time h o.1)

IsOrdered-weaken : (s t : ℕ) (h : List Call) → s ≤ t → IsOrdered s h → IsOrdered t h
IsOrdered-weaken s t [] le o = tt
IsOrdered-weaken s t (c ∷ h) le o = (omega arith, o.1)

count_before-after :
    (key : String) (now : ℕ) (h : List Call)
    → IsOrdered now h
    → count_before (after h) key (window_of now) ≡ calls_in key (window_of now) h
unfolding count_before after calls_in check
count_before-after key now [] o = unfold lookup in refl
count_before-after key now (c ∷ h) o = ground (
  arith,
  eq_iff (key_of c) key,
  lookup-put (key_of c) key
      (window_of c.time, count_before (after h) (key_of c) (window_of c.time) + 1) (after h),
  count_before-after key c.time h o.1,
  count_before-after key now h (IsOrdered-weaken c.time now h o.0 o.1),
  window_of_mono c.time now o.0,
  calls_in_later key (window_of now) c.time h o.1,
)

abbrev pub result_after : List Call → Call → RateLimitResult
result_after h c = (check (after h) c.principal_id c.bucket c.limit c.time).1

-- After any history that the clock ordered, a call is allowed exactly while its principal has
-- made fewer than `limit` calls of the bucket in the current window.
pub check-after_iff :
    (h : List Call) (c : Call)
    → IsOrdered c.time h
    → ((result_after h c).allowed ≡ true) ↔ (calls_in (key_of c) (window_of c.time) h < c.limit)
unfolding check
check-after_iff h c o = (
  λ a. ground (arith, count_before-after (key_of c) c.time h o),
  λ b. ground (arith, count_before-after (key_of c) c.time h o),
)

wait_bounds :
    (now : ℕ)
    → (1 ≤ max (window_of now + window_seconds - now) 1)
      × (max (window_of now + window_seconds - now) 1 ≤ window_seconds)
      × (window_of (now + max (window_of now + window_seconds - now) 1)
          ≡ window_of now + window_seconds)
unfolding window_of
wait_bounds now = omega arith

-- A refused call is told to wait between 1 and 60 seconds, and that wait ends at the start of the
-- next window.
pub check-refused :
    (h : List Call) (c : Call)
    → (result_after h c).allowed ≡ false
    → (1 ≤ (result_after h c).retry_after_seconds)
      × ((result_after h c).retry_after_seconds ≤ window_seconds)
      × (window_of (c.time + (result_after h c).retry_after_seconds)
          ≡ window_of c.time + window_seconds)
unfolding check
check-refused h c refused = ground (arith, wait_bounds c.time)

resolve_positive_int-positive :
    (s : Setting) (default : ℕ) → 0 < default → 0 < resolve_positive_int s default
unfolding resolve_positive_int
resolve_positive_int-positive blank d h = h
resolve_positive_int-positive not_an_integer d h = h
resolve_positive_int-positive (integer (pos n)) d h = ground arith
resolve_positive_int-positive (integer (negsuc n)) d h = h

-- A tool falls into the generous bucket exactly if the table of tools requires no more for it than
-- reading one's own records; whatever the environment holds, the limit of a tool is positive.
pub classify_tool_call_lem :
    (env : Environment) (tool : String)
    → (((classify_tool_call env tool).0 ≡ recall)
        ↔ (lookup tool tool_capabilities ≡ some read_own_records))
      × (0 < (classify_tool_call env tool).1)
unfolding classify_tool_call
classify_tool_call_lem env tool = elim (Option-cases (lookup tool tool_capabilities)) [
  | inl absent ↦ ((λ h. ground arith, λ h. ground arith), ground (arith, publish_positive))
  | inr (c, found) ↦ (
    (
      λ h. ground (arith, capability_beq_iff c read_own_records),
      λ h. ground (arith, capability_beq_iff c read_own_records),
    ),
    ground (arith, publish_positive, recall_positive),
  )
]
  where
    publish_positive : 0 < resolve_positive_int env.publish_limit default_rate_limit_publish
    publish_positive =
        resolve_positive_int-positive env.publish_limit default_rate_limit_publish (omega arith)

    recall_positive : 0 < resolve_positive_int env.recall_limit default_rate_limit_recall
    recall_positive =
        resolve_positive_int-positive env.recall_limit default_rate_limit_recall (omega arith)
