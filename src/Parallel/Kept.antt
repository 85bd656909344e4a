-- ===== src/Parallel/Kept.antt =====
-- parallel.WorkSlots: where the slots are, over sequences of turns.
use lakefed_ingest.Prelude.{
  ℕ, zero, suc, ◌+◌, ◌≤◌, Option, none, some, List, [], ◌∷◌, if◌then◌else◌, leb, ltb, length, count,
  count-append, length-append, ◌≡◌, refl, arith, ap,
}
use lakefed_ingest.Parallel.Slots.{
  Taking, WorkSlots, slots_from, new_slots, hold, acquire, begin_many, take_slot, nth_unit,
  without_unit, release, Turn, acquiring, gets, beginning, releasing, turn, turns,
}

-- How often a slot stands in running units, and how many slots those have.
pub in_units : ℕ → List (List ℕ) → ℕ
in_units i [] = 0
in_units i (u ∷ us) = count i u + in_units i us

pub sizes : List (List ℕ) → ℕ
sizes [] = 0
sizes (u ∷ us) = length u + sizes us

abbrev pub taken_of : Option Taking → List ℕ
taken_of none = []
taken_of (some t) = t.taken

-- What holds of the slots between two turns.
pub record IsSlotted (w : WorkSlots) : Type 0 where
  pub once :
      (i : ℕ)
      → count i w.free + count i (taken_of w.taking) + in_units i w.held
        ≡ (if ltb i w.capacity then 1 else 0)
  pub whole : length w.free + length (taken_of w.taking) + w.in_flight ≡ w.capacity
  pub flying : w.in_flight ≡ sizes w.held
  pub highest : w.peak ≤ w.capacity

in_units-without :
    (i k : ℕ) (us : List (List ℕ))
    → in_units i (without_unit k us) + count i (nth_unit k us) ≡ in_units i us
unfolding in_units without_unit nth_unit
in_units-without i k [] = omega arith
in_units-without i zero (u ∷ us) = omega arith
in_units-without i (suc k) (u ∷ us) = omega (arith, in_units-without i k us)

sizes-without :
    (k : ℕ) (us : List (List ℕ)) → sizes (without_unit k us) + length (nth_unit k us) ≡ sizes us
unfolding sizes without_unit nth_unit
sizes-without k [] = omega arith
sizes-without zero (u ∷ us) = omega arith
sizes-without (suc k) (u ∷ us) = omega (arith, sizes-without k us)

acquire-IsSlotted :
    (w : WorkSlots) (free : List ℕ) → w.free ≡ free → IsSlotted w → IsSlotted (acquire free w)
unfolding acquire hold in_units sizes
acquire-IsSlotted w [] e h = h
acquire-IsSlotted w (slot ∷ rest) e h = record {
  once = λ i. ground (arith, ap (count i) e, h.once i);
  whole = ground (arith, ap length e, h.whole);
  flying = ground (arith, h.flying);
  highest = ground (arith, ap length e, h.whole, h.highest);
}

begin_many-IsSlotted :
    (n : ℕ) (w : WorkSlots) (t : Option Taking)
    → w.taking ≡ t
    → IsSlotted w
    → IsSlotted (begin_many n t w)
unfolding begin_many
begin_many-IsSlotted n w (some t) e h = h
begin_many-IsSlotted n w none e h = record {
  once = λ i. omega (arith, ap (λ t. count i (taken_of t)) e, h.once i);
  whole = omega (arith, ap (λ t. length (taken_of t)) e, h.whole);
  flying = h.flying;
  highest = h.highest;
}

take_slot-IsSlotted :
    (w : WorkSlots) (o : Option Taking) (free : List ℕ)
    → w.taking ≡ o
    → w.free ≡ free
    → IsSlotted w
    → IsSlotted (take_slot o free w)
unfolding take_slot hold in_units sizes
take_slot-IsSlotted w none free e f h = h
take_slot-IsSlotted w (some t) [] e f h = h
take_slot-IsSlotted w (some t) (slot ∷ rest) e f h =
    let counts : (i : ℕ)
        → count i w.free + count i (taken_of w.taking) ≡ count i (slot ∷ rest) + count i t.taken =
      λ i. omega (arith, ap (count i) f, ap (λ x. count i (taken_of x)) e) in
    let lengths : length w.free + length (taken_of w.taking) ≡ suc (length rest) + length t.taken =
      omega (arith, ap length f, ap (λ x. length (taken_of x)) e) in
    record {
      once = λ i. ground (arith, counts i, h.once i, count-append i t.taken (slot ∷ []));
      whole = ground (arith, lengths, h.whole, length-append t.taken (slot ∷ []));
      flying = ground (arith, h.flying);
      highest = ground (arith, lengths, h.whole, h.highest, length-append t.taken (slot ∷ []));
    }

release-IsSlotted : (i : ℕ) (w : WorkSlots) → IsSlotted w → IsSlotted (release i w)
unfolding release
release-IsSlotted k w h = record {
  once = λ i.
      omega
        (arith, h.once i, in_units-without i k w.held, count-append i w.free (nth_unit k w.held));
  whole =
      omega (
        arith,
        h.whole,
        h.flying,
        sizes-without k w.held,
        length-append w.free (nth_unit k w.held),
      );
  flying = omega (arith, h.flying, sizes-without k w.held);
  highest = h.highest;
}

turn-IsSlotted : (t : Turn) (w : WorkSlots) → IsSlotted w → IsSlotted (turn t w)
unfolding turn
turn-IsSlotted acquiring w h = acquire-IsSlotted w w.free refl h
turn-IsSlotted gets w h = take_slot-IsSlotted w w.taking w.free refl refl h
turn-IsSlotted (beginning n) w h = begin_many-IsSlotted n w w.taking refl h
turn-IsSlotted (releasing i) w h = release-IsSlotted i w h

turns-IsSlotted : (ts : List Turn) (w : WorkSlots) → IsSlotted w → IsSlotted (turns ts w)
unfolding turns
turns-IsSlotted [] w h = h
turns-IsSlotted (t ∷ ts) w h = turns-IsSlotted ts (turn t w) (turn-IsSlotted t w h)

count-slots_from :
    (i k n : ℕ)
    → count i (slots_from k n) ≡ (if leb k i then (if ltb i (k + n) then 1 else 0) else 0)
unfolding slots_from
count-slots_from i k zero = ground arith
count-slots_from i k (suc n) = ground (arith, count-slots_from i (suc k) n)

length-slots_from : (k n : ℕ) → length (slots_from k n) ≡ n
unfolding slots_from
length-slots_from k zero = refl
length-slots_from k (suc n) = omega (arith, length-slots_from (suc k) n)

-- However the threads take turns: every slot is free, being taken or held by a running unit, once and in one place
-- only, so no two units share one; the slots in flight are those of the running units; and never were more in flight
-- than the capacity.
pub new_slots-turns : (capacity : ℕ) (ts : List Turn) → IsSlotted (turns ts (new_slots capacity))
unfolding new_slots in_units sizes
new_slots-turns capacity ts =
    let n = if leb capacity 1 then 1 else capacity in
    turns-IsSlotted ts (new_slots capacity) (record {
      once = λ i. ground (arith, count-slots_from i 0 n);
      whole = omega (arith, length-slots_from 0 n);
      flying = refl;
      highest = omega arith;
    })
