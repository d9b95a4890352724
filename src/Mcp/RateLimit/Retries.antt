-- ===== src/Mcp/RateLimit/Retries.antt =====
-- A refused call of src/depthfusion/mcp/ratelimit.py that is made again.
use depthfusion.Mcp.RateLimit.{window_seconds, window_of}
use depthfusion.Mcp.RateLimit.Windows.{
  check-after_iff, calls_in_later, check-refused, key_of, IsOrdered, result_after, Call, calls_in,
}
use depthfusion.Common.{
  ◌≤◌, true, [], ◌∷◌, arith, false, ◌≡◌, ◌<◌, ◌+◌, ◌++◌, String, List, ℕ, String_eq,
}

calls_in-append :
    (key : String) (start : ℕ) (xs ys : List Call)
    → calls_in key start (xs ++ ys) ≡ calls_in key start xs + calls_in key start ys
unfolding calls_in
calls_in-append key start [] ys = omega arith
calls_in-append key start (c ∷ xs) ys = omega (arith, calls_in-append key start xs ys)

-- The call, made again after the wait that its refusal names
abbrev pub retry_of : List Call → Call → Call
retry_of h c = record c { time = c.time + (result_after h c).retry_after_seconds }

-- Whoever is refused waits a minute at most: the call is allowed when it is made again after the wait
-- that the refusal names, whatever was called before it and whoever calls in between, if the clock
-- orders all calls, the limit is not zero, and the principal has not yet called with the bucket in
-- the window of the second try.
pub check-retried :
    (h between : List Call) (c : Call)
    → 0 < c.limit
    → (result_after h c).allowed ≡ false
    → IsOrdered c.time h
    → IsOrdered (retry_of h c).time (between ++ c ∷ h)
    → calls_in (key_of c) (window_of (retry_of h c).time) between ≡ 0
    → ((result_after (between ++ c ∷ h) (retry_of h c)).allowed ≡ true)
      × (c.time < (retry_of h c).time)
      × ((retry_of h c).time ≤ c.time + window_seconds)
check-retried h between c positive refused before ordered free =
    let wait = check-refused h c refused in
    let later = window_of (retry_of h c).time in
    let old =
      calls_in_later (key_of c) later c.time (c ∷ h) (omega arith, before) (omega (arith, wait)) in
    (
      (check-after_iff (between ++ c ∷ h) (retry_of h c) ordered).1
          (omega (arith, calls_in-append (key_of c) later between (c ∷ h), old, free, positive)),
      omega (arith, wait),
      omega (arith, wait),
    )
