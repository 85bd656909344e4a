-- ===== src/Batches/Write.antt =====
-- batch_append.write_with_bisect: one write per group, a failed group split in halves.
use lakefed_ingest.Prelude.{
  ℕ, zero, suc, ◌+◌, ◌*◌, ◌/◌, Bool, false, not, ◌||◌, List, [], ◌∷◌, ◌++◌, Text, ◌==◌, filter_by,
  Option, none, some, take, drop, length,
}

-- What a write of a group comes to.
pub data Written : Type 0 where
  committed : Written
  lock_lost : Written
  failed : Text → Written

-- What the sink answers on the members whose rows are in it.
pub data Landed : Type 0 where
  found : List ℕ → Landed
  check_failed : Text → Landed

-- How the members came out, by their control ids.
pub record Split : Type 0 where
  pub written : List ℕ
  pub single : List ℕ
  pub unknown : List (ℕ × (Text × Text))

pub data Ending : Type 0 where
  finished : Split → Ending
  lost_lock : Ending

unfoldable pub has : ℕ → List ℕ → Bool
has i [] = false
has i (x ∷ xs) = x == i || has i xs

abbrev pub with_errors : Text → Text → List ℕ → List (ℕ × (Text × Text))
with_errors error check [] = []
with_errors error check (m ∷ ms) = (m, (error, check)) ∷ with_errors error check ms

-- The groups still to write, the next one at the head, and what is settled.
pub record Work : Type 0 where
  pub stack : List (List ℕ)
  pub done : Split

unfoldable pub split_rest : List ℕ → Work → Work
split_rest [] w = w
split_rest (m ∷ []) w = record w { done = record (w.done) { single = w.done.single ++ m ∷ [] } }
split_rest (m ∷ n ∷ ms) w =
    let rest = m ∷ n ∷ ms in
    let half = length rest / 2 in record w { stack = take half rest ∷ drop half rest ∷ w.stack }

unfoldable pub after_check : List ℕ → Text → Landed → Work → Work
unfolding split_rest has
after_check group error (check_failed check) w = record w {
  done = record (w.done) { unknown = w.done.unknown ++ with_errors error check group };
}
after_check group error (found ids) w =
    split_rest (filter_by (λ m. not (has m ids)) group) (record w {
      done = record (w.done) { written = w.done.written ++ filter_by (λ m. has m ids) group };
    })

-- `write` and `committed` answer from the sink as it is by then: their calls go by the number of the pass.
module _ (write : ℕ → List ℕ → Written) (landed : ℕ → List ℕ → Landed) where
  unfoldable pub after_write : (Work → Option Ending) → ℕ → List ℕ → Written → Work → Option Ending
  unfolding after_check
  after_write rest n group lock_lost w = some lost_lock
  after_write rest n group committed w =
      rest (record w { done = record (w.done) { written = w.done.written ++ group } })
  after_write rest n group (failed error) w = rest (after_check group error (landed n group) w)

  unfoldable pub pass : (Work → Option Ending) → ℕ → List (List ℕ) → Split → Option Ending
  unfolding after_write
  pass rest n [] done = some (finished done)
  pass rest n (group ∷ stack) done =
      after_write rest n group (write n group) (record { stack = stack; done = done })

  -- Passes of the loop; `none`: the fuel is used up.
  unfoldable pub bisect : ℕ → ℕ → Work → Option Ending
  unfolding pass
  bisect zero n w = none
  bisect (suc fuel) n w = pass (bisect fuel (suc n)) n w.stack w.done

  unfoldable pub write_with_bisect : List ℕ → Option Ending
  unfolding bisect
  write_with_bisect members =
      bisect (2 + 2 * length members) 0
        (record { stack = members ∷ []; done = record { written = []; single = []; unknown = [] } })
