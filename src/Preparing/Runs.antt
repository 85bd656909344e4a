-- ===== src/Preparing/Runs.antt =====
-- The app's preparing.py: what main.py does to a job's record one after another, and what holds of the record then.
-- main.py moves a record that is there to no state but Ready (`_move_prepare`'s calls name a stage or none).
use lakefed_ingest.Prelude.{
  text_eq_iff, ℕ, ◌≤◌, ◌<◌, Bool, true, false, List, [], ◌∷◌, Text, Option, none, some, ◌==◌,
  filter_by, ◌≡◌, refl, arith, Bool-cases, inl, inr, map, ◌++◌, All,
}
use lakefed_ingest.Preparing.Data.{
  State, preparing, needs_you, ready_state, Stage, reading, Entry, Counts, Targets, Record,
  new_record, has, counts_of, waiting_count, refreshed_state, refreshed, entry_counts,
}
use lakefed_ingest.Preparing.{
  listed, asked, staged, with_set_aside, found, cleared, read_again, leave_out, change_targets,
  restarted, stop, with_turn_on, moved, ready,
}
use lakefed_ingest.Preparing.Sound.{
  Outside, others, kept_entries-Outside, others-kept_entries, leave-Sound, All-kept,
  others-filter_by,
}

pub data Op : Type 0 where
  sets_aside : List Entry → Op
  finds : List Entry → Counts → Op
  clears : List Text → Op
  reads_again : Option (List Text) → ℕ → Op
  leaves_out : List Entry → Op
  changes_targets : Option (Option Text) → Option (Option Text) → Option (Option Text) → Op
  moves : Option Stage → Op
  readies restarts stops : Op
  turns_on : Bool → Op

-- What the state says of how many databases wait for a choice.
abbrev pub Stands : State → ℕ → Type 0
Stands preparing waiting = waiting ≡ 0
Stands needs_you waiting = 0 < waiting
Stands ready_state waiting = Unit

-- No left-out database is set aside, few of the entries are no clashes, and the state is what the counts say.
pub record IsSound (r : Record) : Type 0 where
  pub outside : Outside r.left_out r.set_aside
  pub small : others r.set_aside ≤ listed
  pub stands : Stands r.state (waiting_count r)

refreshed_state-Stands : (s : State) (n : ℕ) → Stands (refreshed_state s n) n
unfolding refreshed_state
refreshed_state-Stands preparing n = elim (Bool-cases (n == 0)) [
  | inl none_waits ↦ rw none_waits (ground (arith, none_waits))
  | inr some_wait ↦ rw some_wait (ground (arith, some_wait))
]
refreshed_state-Stands needs_you n = elim (Bool-cases (n == 0)) [
  | inl none_waits ↦ rw none_waits (ground (arith, none_waits))
  | inr some_wait ↦ rw some_wait (ground (arith, some_wait))
]
refreshed_state-Stands ready_state n = tt

refreshed-IsSound :
    (r : Record)
    → Outside r.left_out r.set_aside
    → others r.set_aside ≤ listed
    → IsSound (refreshed r)
unfolding refreshed waiting_count counts_of
refreshed-IsSound r out small = record {
  outside = out;
  small = small;
  stands = refreshed_state-Stands r.state (waiting_count r);
}

staged-IsSound : (b : Bool) (st : Stage) (r : Record) → IsSound r → IsSound (staged b st r)
unfolding waiting_count counts_of
staged-IsSound b st r s = record { outside = s.outside; small = s.small; stands = s.stands }

-- A left-out database is not set aside.
Outside-has :
    (left d : List (Text × Entry)) (k : Text) → has k left ≡ true → Outside left d → has k d ≡ false
Outside-has left [] k h a = refl
Outside-has left ((j, e) ∷ d) k h a =
    ground (arith, Outside-has left d k h a.1, a.0, h, text_eq_iff j k)

-- A new job's record, as Create begins it.
abbrev pub begun : Targets → Bool → Record
begun targets turn_on =
    moved (some preparing) (some reading) (new_record targets turn_on ready_state none)

begun-IsSound : (targets : Targets) (turn_on : Bool) → IsSound (begun targets turn_on)
unfolding moved new_record waiting_count counts_of entry_counts
begun-IsSound targets turn_on = record { outside = tt; small = omega arith; stands = refl }

-- What was left out still is, and is not set aside.
abbrev pub StaysOut : List (Text × Entry) → Record → Type 0
StaysOut left r = All (λ e. has (e.0) r.left_out ≡ true × has (e.0) r.set_aside ≡ false) left

All-keys :
    (d : List (Text × Entry)) (Q : Text → Type 0)
    → ((k : Text) → has k d ≡ true → Q k)
    → All (λ e. Q (e.0)) d
All-keys [] Q f = tt
All-keys ((j, e) ∷ d) Q f =
    (f j (ground (arith, text_eq_iff j j)), All-keys d Q (λ k h. f k (ground (arith, h))))

module _ (key : Text → Text → Text) where
  unfoldable pub step : Op → Record → Record
  unfolding with_set_aside found cleared read_again leave_out change_targets moved ready restarted
      stop with_turn_on
  step (sets_aside es) r = with_set_aside key es none r
  step (finds es c) r = found key es c r
  step (clears keys) r = cleared keys r
  step (reads_again keys n) r = read_again keys n r
  step (leaves_out es) r = (leave_out key es r).0
  step (changes_targets catalog schema table) r = (change_targets catalog schema table r).0
  step (moves stage) r = moved none stage r
  step readies r = ready r
  step restarts r = restarted r
  step stops r = stop r
  step (turns_on b) r = with_turn_on b r

  unfoldable pub run : List Op → Record → Record
  unfolding step
  run [] r = r
  run (op ∷ ops) r = run ops (step op r)

  filtered-IsSound :
      (p : Text × Entry → Bool) (r : Record) (c : Option Counts) (n : ℕ) (targets : Targets)
      → IsSound r
      → IsSound (
          refreshed (record r {
            set_aside = filter_by p r.set_aside;
            counts = c;
            asks = n;
            targets = targets;
          }))
  filtered-IsSound p r c n targets s =
      refreshed-IsSound
        (record r { set_aside = filter_by p r.set_aside; counts = c; asks = n; targets = targets })
        (All-kept (λ e. has (e.0) r.left_out ≡ false) p r.set_aside s.outside)
        (omega (arith, others-filter_by p r.set_aside, s.small))

  step-IsSound : (op : Op) (r : Record) → IsSound r → IsSound (step op r)
  unfolding step with_set_aside found cleared read_again leave_out change_targets moved ready
      restarted stop with_turn_on asked counts_of waiting_count
  step-IsSound (sets_aside es) r s =
      let all = map (λ (e : Text × Entry). e.1) r.set_aside ++ es in
      refreshed-IsSound _ (kept_entries-Outside key all r.left_out)
        (others-kept_entries key all r.left_out)
  step-IsSound (finds es c) r s =
      refreshed-IsSound _ (kept_entries-Outside key es r.left_out)
        (others-kept_entries key es r.left_out)
  step-IsSound (clears keys) r s = filtered-IsSound _ r _ _ _ s
  step-IsSound (reads_again keys n) r s = staged-IsSound _ _ _ (filtered-IsSound _ r _ _ _ s)
  step-IsSound (leaves_out es) r s =
      let out = leave-Sound key es r.set_aside r.left_out (counts_of r) 0 s.outside s.small in
      refreshed-IsSound _ out.0 out.1
  step-IsSound (changes_targets catalog schema table) r s =
      staged-IsSound _ _ _ (filtered-IsSound _ r _ _ _ s)
  step-IsSound (moves stage) r s = record {
    outside = s.outside;
    small = s.small;
    stands = s.stands;
  }
  step-IsSound readies r s = record { outside = s.outside; small = s.small; stands = tt }
  step-IsSound restarts r s = refreshed-IsSound _ s.outside s.small
  step-IsSound stops r s = record { outside = s.outside; small = s.small; stands = s.stands }
  step-IsSound (turns_on b) r s = record { outside = s.outside; small = s.small; stands = s.stands }

  step-left_out :
      (op : Op) (r : Record) (k : Text)
      → IsSound r
      → has k r.left_out ≡ true
      → has k (step op r).left_out ≡ true
  unfolding step with_set_aside found cleared read_again leave_out change_targets moved ready
      restarted stop with_turn_on refreshed asked
  step-left_out (sets_aside es) r k s h = h
  step-left_out (finds es c) r k s h = h
  step-left_out (clears keys) r k s h = h
  step-left_out (reads_again keys n) r k s h = h
  step-left_out (leaves_out es) r k s h =
      (leave-Sound key es r.set_aside r.left_out (counts_of r) 0 s.outside s.small).2 k h
  step-left_out (changes_targets catalog schema table) r k s h = h
  step-left_out (moves stage) r k s h = h
  step-left_out readies r k s h = h
  step-left_out restarts r k s h = h
  step-left_out stops r k s h = h
  step-left_out (turns_on b) r k s h = h

  run-IsSound : (ops : List Op) (r : Record) → IsSound r → IsSound (run ops r)
  unfolding run
  run-IsSound [] r s = s
  run-IsSound (op ∷ ops) r s = run-IsSound ops (step op r) (step-IsSound op r s)

  run-left_out :
      (ops : List Op) (r : Record) (k : Text)
      → IsSound r
      → has k r.left_out ≡ true
      → has k (run ops r).left_out ≡ true
  unfolding run
  run-left_out [] r k s h = h
  run-left_out (op ∷ ops) r k s h =
      run-left_out ops (step op r) k (step-IsSound op r s) (step-left_out op r k s h)

  -- From the record that Create begins, after any operations `ops` and then any `more`: no set-aside database is one that
  -- was left out, at most 200 of the entries are no clashes, the job needs its user exactly while its counts have a database that waits
  -- for a choice (unless it is ready), and each database left out after `ops` is still left out, and not set aside.
  pub run-begun :
      (targets : Targets) (turn_on : Bool) (ops more : List Op)
      → let r = run ops (begun targets turn_on) in
        IsSound (run more r) × StaysOut r.left_out (run more r)
  run-begun targets turn_on ops more =
      let sound = run-IsSound ops _ (begun-IsSound targets turn_on) in
      let later = run-IsSound more _ sound in
      let r = run ops (begun targets turn_on) in
      let stays = λ (k : Text) (h : has k r.left_out ≡ true). run-left_out more r k sound h in
      (
        later,
        All-keys r.left_out
            (λ k. has k (run more r).left_out ≡ true × has k (run more r).set_aside ≡ false)
            (λ k h. (stays k h, Outside-has _ _ k (stays k h) later.outside)),
      )
