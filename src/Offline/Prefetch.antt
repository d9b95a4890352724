-- ===== src/Offline/Prefetch.antt =====
-- `PrefetchScheduler` of src/depthfusion/cache/prefetch_scheduler.py, which plans what an idle
-- device fetches ahead within a budget of bytes. Scores and times are numbers of one unit; a set
-- of pins is a list.

use depthfusion.Common.Sort.{sorted}
use depthfusion.Common.{
  some, false, ◌==◌, none, ◌++◌, not, leb, String_eq, ◌||◌, ◌-◌, true, select, ◌∷◌, contains, map,
  [], if◌then◌else◌, Option, String, List, Bool, ℕ,
}
pub mod Plans
pub mod Pins

pub record PrefetchCandidate : Type 0 where
  pub path : String
  pub score : ℕ
  pub size_bytes : ℕ
  pub pinned : Bool
  pub project : Option String

pub record PrefetchPlan : Type 0 where
  pub selected : List PrefetchCandidate
  pub skipped_over_budget : List PrefetchCandidate
  pub budget_bytes : ℕ
  pub budget_used_bytes : ℕ
  pub generated_at : ℕ

pub record PrefetchScheduler : Type 0 where
  pub budget_bytes : ℕ
  pub pinned_projects : List String
  pub pinned_paths : List String

-- `c in` the union with one element, and the difference
abbrev with_pin : String → List String → List String
with_pin pin pins = if contains pin pins then pins else pin ∷ pins

abbrev without_pin : String → List String → List String
without_pin pin pins = select (λ p. not (p == pin)) pins

unfoldable pub add_pin : PrefetchScheduler → String → PrefetchScheduler
add_pin s path = record s { pinned_paths = with_pin path s.pinned_paths }

unfoldable pub add_pinned_project : PrefetchScheduler → String → PrefetchScheduler
add_pinned_project s project = record s { pinned_projects = with_pin project s.pinned_projects }

unfoldable pub remove_pin : PrefetchScheduler → String → PrefetchScheduler
remove_pin s path = record s { pinned_paths = without_pin path s.pinned_paths }

unfoldable pub remove_pinned_project : PrefetchScheduler → String → PrefetchScheduler
remove_pinned_project s project = record s {
  pinned_projects = without_pin project s.pinned_projects;
}

unfoldable pub is_pinned : PrefetchScheduler → PrefetchCandidate → Bool
is_pinned s c =
    contains c.path s.pinned_paths
    || elim c.project [ none ↦ false | some project ↦ contains project s.pinned_projects ]

-- `sort(key=lambda c: c.score, reverse=True)`
unfoldable pub by_score : List PrefetchCandidate → List PrefetchCandidate
by_score candidates = sorted (λ c d. leb d.score c.score) candidates

-- The copy that the plan has of a pinned candidate
unfoldable pub mark : PrefetchCandidate → PrefetchCandidate
mark c = record c { pinned = true }

unfoldable pub pinned_candidates :
    PrefetchScheduler → List PrefetchCandidate → List PrefetchCandidate
pinned_candidates s candidates = map mark (select (is_pinned s) candidates)

unfoldable pub regular_candidates :
    PrefetchScheduler → List PrefetchCandidate → List PrefetchCandidate
regular_candidates s candidates = select (λ c. not (is_pinned s c)) candidates

-- The variables of the two loops
pub record Admitted : Type 0 where
  pub selected : List PrefetchCandidate
  pub skipped : List PrefetchCandidate
  pub budget_remaining : ℕ

unfoldable pub admit : Admitted → List PrefetchCandidate → Admitted
admit so_far [] = so_far
admit so_far (c ∷ candidates) =
    admit
      (if leb c.size_bytes so_far.budget_remaining
        then record so_far {
          selected = so_far.selected ++ c ∷ [];
          budget_remaining = so_far.budget_remaining - c.size_bytes;
        }
        else record so_far { skipped = so_far.skipped ++ c ∷ [] })
      candidates

unfoldable pub build_plan : PrefetchScheduler → List PrefetchCandidate → ℕ → PrefetchPlan
build_plan s candidates now =
    let start : Admitted = record {
      selected = [];
      skipped = [];
      budget_remaining = s.budget_bytes;
    } in
    let pinned = admit start (by_score (pinned_candidates s candidates)) in
    let done = admit pinned (by_score (regular_candidates s candidates)) in
    record {
      selected = done.selected;
      skipped_over_budget = done.skipped;
      budget_bytes = s.budget_bytes;
      budget_used_bytes = s.budget_bytes - done.budget_remaining;
      generated_at = now;
    }
