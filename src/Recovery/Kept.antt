-- ===== src/Recovery/Kept.antt =====
-- state_store.RollupQueue: the names in the queue, over adds, flushes and writes.
use lakefed_ingest.Prelude.{
  ℕ, zero, suc, Bool, true, false, ◌||◌, List, [], ◌∷◌, ◌++◌, Text, text_mem, add_text,
  text_mem-add_text, ◌≡◌, refl, arith,
}
use lakefed_ingest.Recovery.Rollups.{
  Queue, new_queue, update, take_pending, take_if_due, add, flush, nth_batch, without_nth, write,
  Step, adding, flushing, writing, step, steps,
}

-- A database's name is in the queue, in a write that is going, or rewritten.
in_taken : Text → List (List Text) → Bool
in_taken t [] = false
in_taken t (b ∷ bs) = text_mem t b || in_taken t bs

pub is_kept : Text → Queue → Bool
unfolding in_taken
is_kept t q = text_mem t q.pending || in_taken t q.taken || text_mem t q.done

text_mem-append :
    (t : Text) (xs ys : List Text) → text_mem t (xs ++ ys) ≡ (text_mem t xs || text_mem t ys)
unfolding text_mem
text_mem-append t [] ys = refl
text_mem-append t (x ∷ xs) ys = ground (arith, text_mem-append t xs ys)

text_mem-update :
    (t : Text) (xs ys : List Text) → text_mem t (update xs ys) ≡ (text_mem t xs || text_mem t ys)
unfolding text_mem update
text_mem-update t [] ys = refl
text_mem-update t (x ∷ xs) ys =
    ground (arith, text_mem-update t xs (add_text x ys), text_mem-add_text t x ys)

in_taken-nth :
    (t : Text) (i : ℕ) (bs : List (List Text))
    → in_taken t bs ≡ (text_mem t (nth_batch i bs) || in_taken t (without_nth i bs))
unfolding in_taken nth_batch without_nth text_mem
in_taken-nth t i [] = ground arith
in_taken-nth t zero (b ∷ bs) = refl
in_taken-nth t (suc i) (b ∷ bs) = ground (arith, in_taken-nth t i bs)

take_pending-keeps : (t : Text) (now : ℕ) (q : Queue) → is_kept t (take_pending now q) ≡ is_kept t q
unfolding take_pending is_kept text_mem
take_pending-keeps t now q = ground arith

take_if_due-keeps : (t : Text) (now : ℕ) (q : Queue) → is_kept t (take_if_due now q) ≡ is_kept t q
unfolding take_if_due is_kept
take_if_due-keeps t now q = ground (arith, take_pending-keeps t now q)

add-keeps :
    (t : Text) (now : ℕ) (names : List Text) (q : Queue)
    → is_kept t (add now names q) ≡ (text_mem t names || is_kept t q)
unfolding add is_kept
add-keeps t now names q = ground (
  arith,
  take_if_due-keeps t now (record q { pending = update names q.pending }),
  text_mem-update t names q.pending,
)

write-keeps :
    (t : Text) (i : ℕ) (success : Bool) (q : Queue) → is_kept t (write i success q) ≡ is_kept t q
unfolding write is_kept
write-keeps t i true q =
    ground (arith, in_taken-nth t i q.taken, text_mem-append t q.done (nth_batch i q.taken))
write-keeps t i false q =
    ground (arith, in_taken-nth t i q.taken, text_mem-update t (nth_batch i q.taken) q.pending)

-- The names that some steps add.
pub added : Text → List Step → Bool
added t [] = false
added t (adding now names ∷ ss) = text_mem t names || added t ss
added t (flushing now ∷ ss) = added t ss
added t (writing i success ∷ ss) = added t ss

steps-keep :
    (t : Text) (ss : List Step) (q : Queue) → is_kept t (steps ss q) ≡ (added t ss || is_kept t q)
unfolding steps step added flush
steps-keep t [] q = refl
steps-keep t (adding now names ∷ ss) q =
    ground (arith, steps-keep t ss (add now names q), add-keeps t now names q)
steps-keep t (flushing now ∷ ss) q =
    ground (arith, steps-keep t ss (flush now q), take_pending-keeps t now q)
steps-keep t (writing i success ∷ ss) q =
    ground (arith, steps-keep t ss (write i success q), write-keeps t i success q)

-- However the workers' calls, the flushes and the ends of the writes interleave, and whichever writes fail: a database
-- is queued, in a write that is going or rewritten exactly when some call added it.
pub steps-is_kept :
    (batch_size max_age start : ℕ) (ss : List Step) (t : Text)
    → is_kept t (steps ss (new_queue batch_size max_age start)) ≡ added t ss
unfolding new_queue is_kept text_mem in_taken
steps-is_kept batch_size max_age start ss t =
    ground (arith, steps-keep t ss (new_queue batch_size max_age start))
