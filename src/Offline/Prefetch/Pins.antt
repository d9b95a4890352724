-- ===== src/Offline/Prefetch/Pins.antt =====
-- Pinned candidates come first in a plan of src/depthfusion/cache/prefetch_scheduler.py.

use depthfusion.Offline.Prefetch.{
  PrefetchPlan, mark, is_pinned, PrefetchScheduler, Admitted, PrefetchCandidate,
}
use depthfusion.Offline.Prefetch.Plans.{total_of}
use depthfusion.Common.{◌+◌, ◌<◌, ◌⊎◌, true, IsIn, ◌-◌, ◌++◌, ◌∷◌, [], ◌≡◌, List}

-- The two outcomes of one candidate
abbrev taken : Admitted → PrefetchCandidate → Admitted
taken before c = record before {
  selected = before.selected ++ c ∷ [];
  budget_remaining = before.budget_remaining - c.size_bytes;
}

abbrev left_out : Admitted → PrefetchCandidate → Admitted
left_out before c = record before { skipped = before.skipped ++ c ∷ [] }

-- What a pass over the pinned candidates selects of the whole budget, as `first`: each of them is
-- selected, or it is skipped and larger than what the selected pinned ones leave.
abbrev pub TakesPins :
    PrefetchScheduler → List PrefetchCandidate → PrefetchPlan → List PrefetchCandidate → Type 0
TakesPins s candidates plan first =
    (c : PrefetchCandidate)
    → IsIn c candidates
    → is_pinned s c ≡ true
    → IsIn (mark c) first
      ⊎ (IsIn (mark c) plan.skipped_over_budget × (s.budget_bytes < total_of first + c.size_bytes))
