-- ===== src/Offline/Prefetch/Plans.antt =====
-- What the plans of src/depthfusion/cache/prefetch_scheduler.py promise.

use depthfusion.Common.Sort.{sorted, insert}
use depthfusion.Offline.Prefetch.{
  mark, regular_candidates, by_score, is_pinned, build_plan, PrefetchScheduler, pinned_candidates,
  Admitted, admit, PrefetchCandidate,
}
use depthfusion.Common.{
  map, sym, select, subst, IsIn-append, inr, ◌<◌, ◌-◌, leb, ◌⊎◌, Bool-cases, IsIn, refl, suc, [],
  inl, ◌≤◌, ◌+◌, if◌then◌else◌, ◌≡◌, arith, ◌∷◌, ◌++◌, Bool, List, ℕ,
}

abbrev pub total_of : List PrefetchCandidate → ℕ
total_of [] = 0
total_of (c ∷ cs) = c.size_bytes + total_of cs

-- The number of elements that pass a test
unfoldable pub count_of : (PrefetchCandidate → Bool) → List PrefetchCandidate → ℕ
count_of p [] = 0
count_of p (c ∷ cs) = if p c then suc (count_of p cs) else count_of p cs

total_of-append : (cs ds : List PrefetchCandidate) → total_of (cs ++ ds) ≡ total_of cs + total_of ds
total_of-append [] ds = omega arith
total_of-append (c ∷ cs) ds = omega (arith, total_of-append cs ds)

module _ (p : PrefetchCandidate → Bool) where
  count_of-append :
      (cs ds : List PrefetchCandidate) → count_of p (cs ++ ds) ≡ count_of p cs + count_of p ds
  unfolding count_of
  count_of-append [] ds = omega arith
  count_of-append (c ∷ cs) ds = ground (arith, count_of-append cs ds)

  count_of-insert :
      (before : PrefetchCandidate → PrefetchCandidate → Bool) (c : PrefetchCandidate)
      (cs : List PrefetchCandidate)
      → count_of p (insert before c cs) ≡ count_of p (c ∷ cs)
  unfolding count_of insert
  count_of-insert before c [] = refl
  count_of-insert before c (d ∷ cs) = ground (arith, count_of-insert before c cs)

  count_of-sorted :
      (before : PrefetchCandidate → PrefetchCandidate → Bool) (cs : List PrefetchCandidate)
      → count_of p (sorted before cs) ≡ count_of p cs
  unfolding count_of sorted
  count_of-sorted before [] = refl
  count_of-sorted before (c ∷ cs) =
      ground (arith, count_of-insert before c (sorted before cs), count_of-sorted before cs)

-- One pass over candidates: what it spends of the budget it selects, it loses no candidate, and
-- the candidates that it skips are too large for what it leaves.
pub record Admits (cs : List PrefetchCandidate) (before after : Admitted) : Type 0 where
  pub spent :
      total_of after.selected + after.budget_remaining
      ≡ total_of before.selected + before.budget_remaining
  pub counted :
      (p : PrefetchCandidate → Bool)
      → count_of p after.selected + count_of p after.skipped
        ≡ (count_of p before.selected + count_of p before.skipped) + count_of p cs
  pub shrunk : after.budget_remaining ≤ before.budget_remaining
  pub large :
      (c : PrefetchCandidate)
      → IsIn c after.skipped
      → IsIn c before.skipped ⊎ (after.budget_remaining < c.size_bytes)

pub admit-Admits :
    (cs : List PrefetchCandidate) (before : Admitted) → Admits cs before (admit before cs)
unfolding admit count_of
admit-Admits [] before = record {
  spent = refl;
  counted = λ p. omega arith;
  shrunk = omega arith;
  large = λ c m. inl m;
}
admit-Admits (c ∷ cs) before = elim (Bool-cases (leb c.size_bytes before.budget_remaining)) [
  | inl fits ↦
      let next : Admitted = record before {
        selected = before.selected ++ c ∷ [];
        budget_remaining = before.budget_remaining - c.size_bytes;
      } in
      let rest = admit-Admits cs next in
      rw fits (record {
        spent = ground (arith, rest.spent, total_of-append before.selected (c ∷ []));
        counted = λ p. ground (arith, rest.counted p, count_of-append p before.selected (c ∷ []));
        shrunk = omega (arith, rest.shrunk);
        large = λ d m. rest.large d m;
      })
  | inr over ↦
      let next : Admitted = record before { skipped = before.skipped ++ c ∷ [] } in
      let rest = admit-Admits cs next in
      rw over (record {
        spent = rest.spent;
        counted = λ p. ground (arith, rest.counted p, count_of-append p before.skipped (c ∷ []));
        shrunk = rest.shrunk;
        large = λ d m. elim (rest.large d m) [
          | inr big ↦ inr big
          | inl old ↦ elim ((IsIn-append d before.skipped (c ∷ [])).0 old) [
            | inl older ↦ inl older
            | inr (inr nothing) ↦ absurd (ground (arith, nothing))
            | inr (inl same) ↦ inr (
                subst (λ (x : PrefetchCandidate). (admit next cs).budget_remaining < x.size_bytes)
                  (sym same) (ground (arith, rest.shrunk)))
          ]
        ];
      })
]

-- What the plan holds of a candidate: a copy that is marked, where the candidate is pinned.
abbrev pub planned : PrefetchScheduler → PrefetchCandidate → PrefetchCandidate
planned s c = if is_pinned s c then mark c else c

count_of-split :
    (p : PrefetchCandidate → Bool) (s : PrefetchScheduler) (cs : List PrefetchCandidate)
    → count_of p (pinned_candidates s cs) + count_of p (regular_candidates s cs)
      ≡ count_of p (map (planned s) cs)
unfolding count_of pinned_candidates regular_candidates select
count_of-split p s [] = refl
count_of-split p s (c ∷ cs) = elim (Bool-cases (is_pinned s c)) [
  | inl pinned ↦ rw pinned (ground (arith, count_of-split p s cs))
  | inr regular ↦ rw regular (ground (arith, count_of-split p s cs))
]

module _ (s : PrefetchScheduler) (candidates : List PrefetchCandidate) (now : ℕ) where
  abbrev begun : Admitted
  begun = record { selected = []; skipped = []; budget_remaining = s.budget_bytes }

  abbrev pinned_done : Admitted
  pinned_done = admit begun (by_score (pinned_candidates s candidates))

  first_pass : Admits (by_score (pinned_candidates s candidates)) begun pinned_done
  first_pass = admit-Admits (by_score (pinned_candidates s candidates)) begun

  second_pass :
      Admits
        (by_score (regular_candidates s candidates))
        pinned_done
        (admit pinned_done (by_score (regular_candidates s candidates)))
  second_pass = admit-Admits (by_score (regular_candidates s candidates)) pinned_done

  -- A plan stays within its budget, and the bytes that it reports as used are the sum of the sizes
  -- of the selected candidates.
  pub build_plan-budget :
      (total_of (build_plan s candidates now).selected
        ≡ (build_plan s candidates now).budget_used_bytes)
      × ((build_plan s candidates now).budget_used_bytes ≤ s.budget_bytes)
  unfolding build_plan
  build_plan-budget = (omega (arith, first_pass.spent, second_pass.spent), omega arith)

  -- A plan accounts for every candidate once: for each test, the selected and the skipped
  -- candidates that pass it are as many as the given ones, of which the pinned ones are marked.
  pub build_plan_complete :
      (p : PrefetchCandidate → Bool)
      → count_of p (build_plan s candidates now).selected
          + count_of p (build_plan s candidates now).skipped_over_budget
        ≡ count_of p (map (planned s) candidates)
  unfolding build_plan by_score count_of
  build_plan_complete p = omega (
    arith,
    first_pass.counted p,
    second_pass.counted p,
    count_of-sorted p (λ c d. leb d.score c.score) (pinned_candidates s candidates),
    count_of-sorted p (λ c d. leb d.score c.score) (regular_candidates s candidates),
    count_of-split p s candidates,
  )

  -- A plan skips a candidate only for its size: each skipped one is larger than what the whole
  -- plan leaves of the budget.
  pub build_plan_maximal :
      (c : PrefetchCandidate)
      → IsIn c (build_plan s candidates now).skipped_over_budget
      → s.budget_bytes < (build_plan s candidates now).budget_used_bytes + c.size_bytes
  unfolding build_plan
  build_plan_maximal c skipped = elim (second_pass.large c skipped) [
    | inr big ↦ omega (arith, big)
    | inl before ↦ elim (first_pass.large c before) [
      | inr big ↦ omega (arith, big, second_pass.shrunk)
      | inl nothing ↦ absurd (ground (arith, nothing))
    ]
  ]
