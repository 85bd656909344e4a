-- ===== src/Batches/Account.antt =====
-- batch_append.write_with_bisect: its rounds, and what becomes of each member.
use lakefed_ingest.Prelude.{
  ℕ, zero, suc, ◌+◌, ◌*◌, ◌/◌, ◌≤◌, ◌<◌, Bool, not, List, [], ◌∷◌, ◌++◌, Text, ◌≡◌, refl, arith,
  filter_by, Option, none, some, take, drop, length, count, count-append,
}
use lakefed_ingest.Batches.Write.{
  Written, committed, lock_lost, failed, Landed, found, check_failed, Split, Ending, finished,
  lost_lock, has, with_errors, Work, split_rest, after_check, after_write, pass, bisect,
  write_with_bisect,
}

ids : List (ℕ × (Text × Text)) → List ℕ
ids [] = []
ids ((m, e) ∷ rest) = m ∷ ids rest

-- How often a member stands among the settled ones, and on the stack.
settled : ℕ → Split → ℕ
unfolding ids
settled i s = count i s.written + count i s.single + count i (ids s.unknown)

stacked : ℕ → List (List ℕ) → ℕ
stacked i [] = 0
stacked i (g ∷ gs) = count i g + stacked i gs

-- The passes that a group takes at most.
cost : List ℕ → ℕ
cost [] = 1
cost (m ∷ ms) = 1 + 2 * length ms

costs : List (List ℕ) → ℕ
unfolding cost
costs [] = 0
costs (g ∷ gs) = cost g + costs gs

ids-append :
    (i : ℕ) (xs ys : List (ℕ × (Text × Text)))
    → count i (ids (xs ++ ys)) ≡ count i (ids xs) + count i (ids ys)
unfolding ids
ids-append i [] ys = omega arith
ids-append i ((m, e) ∷ xs) ys = ground (arith, ids-append i xs ys)

ids-with_errors :
    (i : ℕ) (error check : Text) (ms : List ℕ)
    → count i (ids (with_errors error check ms)) ≡ count i ms
unfolding ids
ids-with_errors i error check [] = refl
ids-with_errors i error check (m ∷ ms) = ground (arith, ids-with_errors i error check ms)

count-halves : (i n : ℕ) (ms : List ℕ) → count i (take n ms) + count i (drop n ms) ≡ count i ms
count-halves i zero ms = omega arith
count-halves i (suc n) [] = omega arith
count-halves i (suc n) (m ∷ ms) = ground (arith, count-halves i n ms)

count-parts :
    (i : ℕ) (p : ℕ → Bool) (ms : List ℕ)
    → count i (filter_by p ms) + count i (filter_by (λ m. not (p m)) ms) ≡ count i ms
count-parts i p [] = omega arith
count-parts i p (m ∷ ms) = ground (arith, count-parts i p ms)

length-filter_by : (p : ℕ → Bool) (ms : List ℕ) → length (filter_by p ms) ≤ length ms
length-filter_by p [] = omega arith
length-filter_by p (m ∷ ms) = ground (arith, length-filter_by p ms)

length-take-drop :
    (n : ℕ) (ms : List ℕ)
    → n ≤ length ms
    → (length (take n ms) ≡ n) × (length (drop n ms) + n ≡ length ms)
length-take-drop zero ms h = (refl, omega arith)
length-take-drop (suc n) [] h = absurd (omega arith)
length-take-drop (suc n) (m ∷ ms) h =
    let rest = length-take-drop n ms (omega arith) in (omega (arith, rest.0), omega (arith, rest.1))

cost-bound : (g : List ℕ) → 0 < length g → cost g + 1 ≡ 2 * length g
unfolding cost
cost-bound [] h = absurd (omega arith)
cost-bound (m ∷ ms) h = omega arith

-- A settled write keeps every member's count, and it lowers the cost.
split_rest-stacked :
    (i : ℕ) (rest : List ℕ) (w : Work)
    → stacked i (split_rest rest w).stack + settled i (split_rest rest w).done
      ≡ count i rest + stacked i w.stack + settled i w.done
unfolding split_rest stacked settled
split_rest-stacked i [] w = omega arith
split_rest-stacked i (m ∷ []) w = ground (arith, count-append i w.done.single (m ∷ []))
split_rest-stacked i (m ∷ n ∷ ms) w =
    ground (arith, count-halves i (length (m ∷ n ∷ ms) / 2) (m ∷ n ∷ ms))

split_rest-costs :
    (rest : List ℕ) (w : Work) → costs (split_rest rest w).stack + 1 ≤ cost rest + costs w.stack
unfolding split_rest costs cost
split_rest-costs [] w = omega arith
split_rest-costs (m ∷ []) w = omega arith
split_rest-costs (m ∷ n ∷ ms) w =
    let half = length (m ∷ n ∷ ms) / 2 in
    let sizes = length-take-drop half (m ∷ n ∷ ms) (omega arith) in
    omega (
      arith,
      sizes.0,
      sizes.1,
      cost-bound (take half (m ∷ n ∷ ms)) (omega (arith, sizes.0)),
      cost-bound (drop half (m ∷ n ∷ ms)) (omega (arith, sizes.1)),
    )

cost_mono : (g h : List ℕ) → length g ≤ length h → cost g ≤ cost h
unfolding cost
cost_mono [] [] k = omega arith
cost_mono [] (m ∷ ms) k = omega arith
cost_mono (m ∷ ms) [] k = absurd (omega arith)
cost_mono (m ∷ ms) (n ∷ ns) k = omega arith

after_check-stacked :
    (i : ℕ) (group : List ℕ) (error : Text) (l : Landed) (w : Work)
    → stacked i (after_check group error l w).stack + settled i (after_check group error l w).done
      ≡ count i group + stacked i w.stack + settled i w.done
unfolding after_check settled
after_check-stacked i group error (check_failed check) w = omega (
  arith,
  ids-append i w.done.unknown (with_errors error check group),
  ids-with_errors i error check group,
)
after_check-stacked i group error (found seen) w = omega (
  arith,
  split_rest-stacked i (filter_by (λ m. not (has m seen)) group) (record w {
    done = record (w.done) { written = w.done.written ++ filter_by (λ m. has m seen) group };
  }),
  count-append i w.done.written (filter_by (λ m. has m seen) group),
  count-parts i (λ m. has m seen) group,
)

cost-pos : (g : List ℕ) → 1 ≤ cost g
unfolding cost
cost-pos [] = omega arith
cost-pos (m ∷ ms) = omega arith

cost-upper : (g : List ℕ) → cost g ≤ 1 + 2 * length g
unfolding cost
cost-upper [] = omega arith
cost-upper (m ∷ ms) = omega arith

after_check-costs :
    (group : List ℕ) (error : Text) (l : Landed) (w : Work)
    → costs (after_check group error l w).stack + 1 ≤ cost group + costs w.stack
unfolding after_check
after_check-costs group error (check_failed check) w = omega (arith, cost-pos group)
after_check-costs group error (found seen) w = omega (
  arith,
  split_rest-costs (filter_by (λ m. not (has m seen)) group) (record w {
    done = record (w.done) { written = w.done.written ++ filter_by (λ m. has m seen) group };
  }),
  cost_mono (filter_by (λ m. not (has m seen)) group) group
      (length-filter_by (λ m. not (has m seen)) group),
)

-- The loop ended, and unless the run lost its lock, each member is settled as often as it was given.
pub Accounts : (ℕ → ℕ) → Option Ending → Type 0
unfolding settled
Accounts c none = ⊥
Accounts c (some lost_lock) = Unit
Accounts c (some (finished s)) = (i : ℕ) → settled i s ≡ c i

-- The members on the stack and the settled ones of a state.
abbrev held : ℕ → Work → ℕ
held i w = stacked i w.stack + settled i w.done

module _ (write : ℕ → List ℕ → Written) (landed : ℕ → List ℕ → Landed) where
  after_write-Accounts :
      (c : ℕ → ℕ) (rest : Work → Option Ending) (fuel n : ℕ) (group : List ℕ) (r : Written)
      (w : Work)
      → ((i : ℕ) → count i group + held i w ≡ c i)
      → cost group + costs w.stack ≤ fuel
      → ((v : Work) → ((i : ℕ) → held i v ≡ c i) → costs v.stack < fuel → Accounts c (rest v))
      → Accounts c (after_write write landed rest n group r w)
  unfolding after_write Accounts settled
  after_write-Accounts c rest fuel n group lock_lost w h k next = tt
  after_write-Accounts c rest fuel n group committed w h k next =
      next (record w { done = record (w.done) { written = w.done.written ++ group } })
        (λ i. omega (arith, h i, count-append i w.done.written group))
        (omega (arith, cost-pos group))
  after_write-Accounts c rest fuel n group (failed error) w h k next =
      next (after_check group error (landed n group) w)
        (λ i. omega (arith, h i, after_check-stacked i group error (landed n group) w))
        (omega (arith, after_check-costs group error (landed n group) w))

  pass-Accounts :
      (c : ℕ → ℕ) (rest : Work → Option Ending) (fuel n : ℕ) (stack : List (List ℕ)) (done : Split)
      → ((i : ℕ) → stacked i stack + settled i done ≡ c i)
      → costs stack ≤ fuel
      → ((v : Work) → ((i : ℕ) → held i v ≡ c i) → costs v.stack < fuel → Accounts c (rest v))
      → Accounts c (pass write landed rest n stack done)
  unfolding pass Accounts stacked costs
  pass-Accounts c rest fuel n [] done h k next = λ i. omega (arith, h i)
  pass-Accounts c rest fuel n (group ∷ stack) done h k next =
      after_write-Accounts c rest fuel n group (write n group)
        (record { stack = stack; done = done }) (λ i. omega (arith, h i)) k next

  bisect-Accounts :
      (c : ℕ → ℕ) (fuel n : ℕ) (w : Work)
      → ((i : ℕ) → held i w ≡ c i)
      → costs w.stack < fuel
      → Accounts c (bisect write landed fuel n w)
  unfolding bisect
  bisect-Accounts c zero n w h k = absurd (omega arith)
  bisect-Accounts c (suc fuel) n w h k =
      pass-Accounts c (bisect write landed fuel (suc n)) fuel n w.stack w.done h (omega arith)
        (λ v g l. bisect-Accounts c fuel (suc n) v g l)

  -- Whatever the writes and the checks answer: `write_with_bisect` ends, and unless the run lost its lock every
  -- member is settled exactly as often as it was given: as written, as one for the per-table worker, or as one
  -- whose outcome is unknown.
  pub write_with_bisect-Accounts :
      (members : List ℕ) → Accounts (λ i. count i members) (write_with_bisect write landed members)
  unfolding write_with_bisect stacked settled costs cost ids
  write_with_bisect-Accounts members =
      bisect-Accounts (λ i. count i members) (2 + 2 * length members) 0
        (record { stack = members ∷ []; done = record { written = []; single = []; unknown = [] } })
        (λ i. omega arith) (omega (arith, cost-upper members))
