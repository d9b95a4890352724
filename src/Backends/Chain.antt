-- ===== src/Backends/Chain.antt =====
-- How a fallback chain ends.
use depthfusion.Common.{
  inl, inr, ◌⊎◌, refl, map, select, if◌then◌else◌, ◌||◌, append-nil, true, arith, ◌++◌, not, ◌≡◌,
  Option, some, none, append_assoc, false, any, Bool, String, List, ◌∷◌, [],
}
use depthfusion.Backends.{
  try_chain, exhausted, FallbackError, Backend, Attempt, Ending, FallbackEvent, next_name,
  walk_chain, returns, raises, falls_back, returned, propagated,
}

module _ {ℓ} {A : Type ℓ} where
  unfoldable pub raises_fallback : Attempt A → Bool
  raises_fallback (returns a) = false
  raises_fallback (falls_back error) = true
  raises_fallback (raises error) = false

  -- The chain passes by this backend: it is unhealthy, or its attempt raises a fallback error.
  abbrev pub passes : Backend A → Bool
  passes backend = not backend.healthy || raises_fallback backend.attempt

  -- How an attempt ends the chain, if it does.
  unfoldable pub ending : Attempt A → Option (Ending A)
  ending (returns a) = some (returned a)
  ending (raises error) = some (propagated error)
  ending (falls_back error) = none

  -- The events of the backends that are passed by, in order.
  unfoldable pub fallback_events : List (Backend A) → List (Backend A) → List FallbackEvent
  fallback_events [] rest = []
  fallback_events (backend ∷ passed) rest =
      let later = fallback_events passed rest in
      if not backend.healthy then later else event backend.attempt later
    where
      event : Attempt A → List FallbackEvent → List FallbackEvent
      event (returns a) later = later
      event (raises error) later = later
      event (falls_back error) later =
          record {
            from_backend = backend.name;
            to_backend = next_name (passed ++ rest);
            error_type = error;
          }
          ∷ later

  attempt_cases :
      (a : Attempt A)
      → (raises_fallback a ≡ false) ⊎ ((error : FallbackError) × (a ≡ falls_back error))
  unfolding raises_fallback
  attempt_cases (returns a) = inl refl
  attempt_cases (falls_back error) = inr (error, refl)
  attempt_cases (raises error) = inl refl

  walk_chain_lem :
      (passed rest : List (Backend A)) (backend : Backend A) (tried skipped : List String)
      (events : List FallbackEvent)
      → any (λ b. not (passes b)) passed ≡ false
      → passes backend ≡ false
      → (ending backend.attempt
          ≡ some (walk_chain (passed ++ backend ∷ rest) tried skipped events).0)
        × ((walk_chain (passed ++ backend ∷ rest) tried skipped events).1
            ≡ events ++ fallback_events passed (backend ∷ rest))
  unfolding walk_chain raises_fallback fallback_events ending any
  walk_chain_lem [] rest b tried skipped events h stop = ground (arith, append-nil events)
  walk_chain_lem (p ∷ passed) rest b tried skipped events h stop = elim (attempt_cases p.attempt) [
    | inl ends ↦ ground (arith, walk_chain_lem passed rest b tried (skipped ++ p.name ∷ []) events)
    | inr (error, fell) ↦
        let event : FallbackEvent = record {
          from_backend = p.name;
          to_backend = next_name (passed ++ b ∷ rest);
          error_type = error;
        } in
        ground (
          arith,
          walk_chain_lem passed rest b tried (skipped ++ p.name ∷ []) events,
          walk_chain_lem passed rest b (tried ++ p.name ∷ []) skipped (events ++ event ∷ []),
          append_assoc events (event ∷ []) (fallback_events passed (b ∷ rest)),
        )
  ]

  -- The first backend that is healthy and does not raise a fallback error decides: the chain ends
  -- with what it returns or raises. One event has been emitted for every healthy backend before
  -- it, from that backend to the next by position.
  pub try_chain-first :
      (passed rest : List (Backend A)) (backend : Backend A)
      → any (λ b. not (passes b)) passed ≡ false
      → passes backend ≡ false
      → (ending backend.attempt ≡ some (try_chain (passed ++ backend ∷ rest)).0)
        × ((try_chain (passed ++ backend ∷ rest)).1 ≡ fallback_events passed (backend ∷ rest))
  unfolding try_chain
  try_chain-first passed rest backend h stop = walk_chain_lem passed rest backend [] [] [] h stop

  -- The names of the healthy backends of a chain, and those of the others.
  abbrev pub names_of : Bool → List (Backend A) → List String
  names_of wanted backends =
      map (λ b. b.name) (select (λ b. if wanted then b.healthy else not b.healthy) backends)

  walk_chain-exhausted :
      (backends : List (Backend A)) (tried skipped : List String) (events : List FallbackEvent)
      → any (λ b. not (passes b)) backends ≡ false
      → (walk_chain backends tried skipped events).0
        ≡ exhausted (tried ++ names_of true backends) (skipped ++ names_of false backends)
  unfolding walk_chain raises_fallback any select
  walk_chain-exhausted [] tried skipped events h =
      ground (arith, append-nil tried, append-nil skipped)
  walk_chain-exhausted (p ∷ backends) tried skipped events h = elim (attempt_cases p.attempt) [
    | inl ends ↦ ground (
      arith,
      walk_chain-exhausted backends tried (skipped ++ p.name ∷ []) events,
      append_assoc skipped (p.name ∷ []) (names_of false backends),
    )
    | inr (error, fell) ↦
        let event : FallbackEvent = record {
          from_backend = p.name;
          to_backend = next_name backends;
          error_type = error;
        } in
        ground (
          arith,
          walk_chain-exhausted backends tried (skipped ++ p.name ∷ []) events,
          append_assoc skipped (p.name ∷ []) (names_of false backends),
          walk_chain-exhausted backends (tried ++ p.name ∷ []) skipped (events ++ event ∷ []),
          append_assoc tried (p.name ∷ []) (names_of true backends),
        )
  ]

  -- Where every backend is unhealthy or raises a fallback error, the chain is exhausted: the error
  -- names each healthy backend as tried and each other one as skipped, in order.
  pub try_chain-exhausted :
      (backends : List (Backend A))
      → any (λ b. not (passes b)) backends ≡ false
      → (try_chain backends).0 ≡ exhausted (names_of true backends) (names_of false backends)
  unfolding try_chain
  try_chain-exhausted backends h = walk_chain-exhausted backends [] [] [] h
