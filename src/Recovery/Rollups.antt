-- ===== src/Recovery/Rollups.antt =====
-- state_store.RollupQueue: databases whose rollup rows are due a rewrite, written in batches. The store's write
-- runs outside the queue's lock: taking names and the write's outcome are steps of their own.
use lakefed_ingest.Prelude.{
  ℕ, zero, suc, ◌-◌, Bool, true, false, ◌||◌, List, [], ◌∷◌, ◌++◌, Text, add_text, if◌then◌else◌,
  leb, length,
}

-- `taken` holds the batches whose write is going, and `done` the names that a write has rewritten.
pub record Queue : Type 0 where
  pub batch_size : ℕ
  pub max_age : ℕ
  pub pending : List Text
  pub last_write : ℕ
  pub taken : List (List Text)
  pub done : List Text

unfoldable pub new_queue : (batch_size max_age now : ℕ) → Queue
new_queue batch_size max_age now = record {
  batch_size = if leb batch_size 1 then 1 else batch_size;
  max_age = max_age;
  pending = [];
  last_write = now;
  taken = [];
  done = [];
}

-- `self._pending.update(names)`
unfoldable pub update : List Text → List Text → List Text
update [] pending = pending
update (t ∷ ts) pending = update ts (add_text t pending)

-- `_take_locked`
unfoldable pub take_pending : ℕ → Queue → Queue
take_pending now q = elim q.pending [
  | [] ↦ q
  | t ∷ ts ↦ record q { pending = []; last_write = now; taken = (t ∷ ts) ∷ q.taken }
]

-- `_take_if_due_locked`
unfoldable pub take_if_due : ℕ → Queue → Queue
unfolding take_pending
take_if_due now q =
    if leb q.batch_size (length q.pending) || leb q.max_age (now - q.last_write)
    then take_pending now q
    else q

unfoldable pub add : ℕ → List Text → Queue → Queue
unfolding update take_if_due
add now names q = take_if_due now (record q { pending = update names q.pending })

unfoldable pub flush : ℕ → Queue → Queue
unfolding take_pending
flush now q = take_pending now q

unfoldable pub nth_batch : ℕ → List (List Text) → List Text
nth_batch i [] = []
nth_batch zero (b ∷ bs) = b
nth_batch (suc i) (b ∷ bs) = nth_batch i bs

unfoldable pub without_nth : ℕ → List (List Text) → List (List Text)
without_nth i [] = []
without_nth zero (b ∷ bs) = bs
without_nth (suc i) (b ∷ bs) = b ∷ without_nth i bs

-- The `i`-th write that is going ends; one that fails puts its names back.
unfoldable pub write : ℕ → (success : Bool) → Queue → Queue
unfolding update nth_batch without_nth
write i true q = record q { taken = without_nth i q.taken; done = q.done ++ nth_batch i q.taken }
write i false q = record q {
  taken = without_nth i q.taken;
  pending = update (nth_batch i q.taken) q.pending;
}

pub data Step : Type 0 where
  adding : ℕ → List Text → Step
  flushing : ℕ → Step
  writing : ℕ → Bool → Step

unfoldable pub step : Step → Queue → Queue
unfolding add flush write
step (adding now names) q = add now names q
step (flushing now) q = flush now q
step (writing i success) q = write i success q

unfoldable pub steps : List Step → Queue → Queue
unfolding step
steps [] q = q
steps (s ∷ ss) q = steps ss (step s q)
