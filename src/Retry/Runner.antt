-- ===== src/Retry/Runner.antt =====
-- table_retry.with_retries: the loop around the worker. The worker, `replan` and the policy's `finished` are
-- what the caller passes in; the loop only orders their calls.
use lakefed_ingest.Prelude.{ℕ, zero, suc, Option, none, some, Bool, true, false}

-- How one call of the worker ends: it returns, raises `Retry`, or raises another error.
pub data Attempt (O E : Type 0) : Type 0 where
  returns : O → Attempt O E
  asks_again : Attempt O E
  raises : E → Attempt O E

-- How `run(plan)` ends.
pub data Ending (O E : Type 0) : Type 0 where
  returned : O → Ending O E
  raised : E → Ending O E

-- The waiting and the planning of the next attempt.
pub data Replanned (P E : Type 0) : Type 0 where
  planned : P → Replanned P E
  stopped : E → Replanned P E

pub data Outcome (S O E : Type 0) : Type 0 where
  ended : Ending O E → S → Outcome S O E

module _ {S P O E : Type 0} (worker : P → ℕ → S → Attempt O E × S)
    (replan : P → S → Replanned P E × S) (finished : Bool → ℕ → S → S) where
  unfoldable pub after_replan :
      (P → ℕ → S → Option (Outcome S O E)) → ℕ → Replanned P E × S → Option (Outcome S O E)
  after_replan rest attempt (planned plan, s) = rest plan attempt s
  after_replan rest attempt (stopped e, s) = some (ended (raised e) (finished false attempt s))

  unfoldable pub after_attempt :
      (P → ℕ → S → Option (Outcome S O E)) → P → ℕ → Attempt O E × S → Option (Outcome S O E)
  unfolding after_replan
  after_attempt rest plan attempt (returns out, s) =
      some (ended (returned out) (finished true attempt s))
  after_attempt rest plan attempt (raises e, s) = some (ended (raised e) (finished false attempt s))
  after_attempt rest plan attempt (asks_again, s) = after_replan rest (suc attempt) (replan plan s)

  -- Passes of the loop; `none`: the fuel is used up.
  unfoldable pub loop : ℕ → P → ℕ → S → Option (Outcome S O E)
  unfolding after_attempt
  loop zero plan attempt s = none
  loop (suc fuel) plan attempt s = after_attempt (loop fuel) plan attempt (worker plan attempt s)

  -- The first attempt is attempt 0, and a worker that asks again only below `retries` ends within
  -- `suc retries` passes.
  unfoldable pub run : ℕ → P → S → Option (Outcome S O E)
  unfolding loop
  run retries plan s = loop (suc retries) plan 0 s
