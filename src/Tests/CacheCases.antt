-- ===== src/Tests/CacheCases.antt =====
-- A full decision cache.
use depthfusion.Tests.Samples.{allowed_decision, cache_key, full_cache}
use depthfusion.Authz.DecisionCache.{put_decision, key_beq}
use depthfusion.Common.{String_eq, refl, ◌≤◌, length, contains}
use depthfusion.Authz.DecisionCache.Eviction.{capacity, IsDict, put_decision-bounded}

put_decision-bounded_example :
    IsDict (put_decision full_cache (cache_key "carol") allowed_decision 10 10)
    × (length (put_decision full_cache (cache_key "carol") allowed_decision 10 10).store
        ≤ capacity full_cache.max_size)
unfolding contains key_beq
put_decision-bounded_example =
    put_decision-bounded full_cache (cache_key "carol") allowed_decision 10 10 (refl, (refl, tt))
