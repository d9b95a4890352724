-- ===== src/Backends.antt =====
-- `FallbackChain` of src/depthfusion/backends/chain.py. What a backend answers to the attempt at
-- hand is given; the names of the chain stand in its order, as do the events it emits.
pub mod Chain
use depthfusion.Common.{◌++◌, not, if◌then◌else◌, [], ◌∷◌, Bool, List, String}

-- `RateLimitError`, `BackendOverloadError` and `BackendTimeoutError`
pub data FallbackError : Type 0 where
  rate_limit overload timeout : FallbackError

module _ {ℓ} (A : Type ℓ) where
  -- What `attempt(backend)` does: return, raise a fallback error, or raise another exception.
  pub data Attempt : Type ℓ where
    returns : A → Attempt
    falls_back : FallbackError → Attempt
    raises : String → Attempt

  pub record Backend : Type ℓ where
    pub name : String
    pub healthy : Bool
    pub attempt : Attempt

  -- How `_try_chain` ends; `exhausted` is `BackendExhaustedError`, with the names tried and those
  -- skipped.
  pub data Ending : Type ℓ where
    returned : A → Ending
    propagated : String → Ending
    exhausted : List String → List String → Ending

-- `backend.runtime_fallback`
pub record FallbackEvent : Type 0 where
  pub from_backend : String
  pub to_backend : String
  pub error_type : FallbackError

module _ {ℓ} {A : Type ℓ} where
  -- The name of the next link, by position.
  unfoldable pub next_name : List (Backend A) → String
  next_name [] = "exhausted"
  next_name (backend ∷ rest) = backend.name

  -- The loop of `_try_chain`, with the names tried and skipped so far and the events emitted
  unfoldable pub walk_chain :
      List (Backend A)
      → List String
      → List String
      → List FallbackEvent
      → Ending A × List FallbackEvent
  walk_chain [] tried skipped events = (exhausted tried skipped, events)
  walk_chain (backend ∷ rest) tried skipped events =
      if not backend.healthy
      then walk_chain rest tried (skipped ++ backend.name ∷ []) events
      else elim backend.attempt [
        | returns a ↦ (returned a, events)
        | raises error ↦ (propagated error, events)
        | falls_back error ↦ walk_chain rest (tried ++ backend.name ∷ []) skipped (
            events
            ++ record {
              from_backend = backend.name;
              to_backend = next_name rest;
              error_type = error;
            }
              ∷ [])
      ]

  unfoldable pub try_chain : List (Backend A) → Ending A × List FallbackEvent
  try_chain backends = walk_chain backends [] [] []
