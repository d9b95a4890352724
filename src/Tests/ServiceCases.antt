-- ===== src/Tests/ServiceCases.antt =====
-- Rate limits, audit events, result lists and chains.
use depthfusion.Mcp.RateLimit.Retries.{check-retried, retry_of}
use depthfusion.Common.Dict.{put, lookup}
use depthfusion.Tests.Samples.{alice}
use depthfusion.Mcp.RateLimit.{
  window_seconds, window_key, bucket_value, count_before, check, window_of, recall,
}
use depthfusion.Retrieval.{not_json, acl_text, verify_acl, SearchResult}
use depthfusion.Common.{
  any, false, ◌⊎◌, refl, ◌≤◌, ◌<◌, arith, ◌+◌, length, ◌↔◌, some, true, [], ◌∷◌, ◌≡◌, IsIn, List, ℕ,
}
use depthfusion.Mcp.RateLimit.Windows.{after, key_of, calls_in, Call, result_after, check-after_iff}
use depthfusion.Retrieval.Leaks.{IsOpen, verify_acl_iff}

abbrev call_at : ℕ → Call
call_at now = record { principal_id = "alice"; bucket = recall; limit = 2; time = now }

abbrev sample_calls : List Call
sample_calls = call_at 125 ∷ call_at 121 ∷ []

abbrev found_result : SearchResult
found_result = record { is_malformed = false; record_id = "r"; raw_acl = acl_text "member" }

check-after_iff_example : ((result_after sample_calls (call_at 130)).allowed ≡ true) ↔ (
    calls_in (key_of (call_at 130)) (window_of (call_at 130).time) sample_calls
    < (call_at 130).limit)
check-after_iff_example =
    check-after_iff sample_calls (call_at 130) (omega arith, (omega arith, tt))

verify_acl_iff_example :
    (IsIn found_result (verify_acl (λ s. not_json) (found_result ∷ []) (some alice)).clean
      ↔ IsIn found_result (found_result ∷ [])
        × ((any (λ (r : SearchResult). r.is_malformed) (found_result ∷ []) ≡ true)
            ⊎ IsOpen (λ s. not_json) found_result.raw_acl (alice.principal_id ∷ alice.groups)))
    × (length (verify_acl (λ s. not_json) (found_result ∷ []) (some alice)).clean
          + length (verify_acl (λ s. not_json) (found_result ∷ []) (some alice)).leaked
        ≡ length (found_result ∷ []))
verify_acl_iff_example = verify_acl_iff (λ s. not_json) alice found_result (found_result ∷ [])

abbrev other_call : Call
other_call = record { principal_id = "bob"; bucket = recall; limit = 2; time = 150 }

check-retried_example :
    ((result_after
        (other_call ∷ call_at 130 ∷ sample_calls)
        (retry_of sample_calls (call_at 130))).allowed
      ≡ true)
    × (130 < (retry_of sample_calls (call_at 130)).time)
    × ((retry_of sample_calls (call_at 130)).time ≤ 130 + window_seconds)
unfolding check count_before after window_of bucket_value window_key calls_in lookup put
check-retried_example =
    check-retried sample_calls (other_call ∷ []) (call_at 130) (omega arith) refl
      (omega arith, (omega arith, tt))
      (omega arith, (omega arith, (omega arith, (omega arith, tt)))) refl
