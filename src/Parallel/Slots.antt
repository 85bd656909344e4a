-- ===== src/Parallel/Slots.antt =====
-- parallel.WorkSlots: a run's concurrency budget. A blocking `get` is a move that does nothing while no slot is
-- free; `acquire_many` takes its slots one by one, and only one such call is taking at a time. FAIR pools, which
-- are named by the slots, are left out.
use lakefed_ingest.Prelude.{
  ℕ, zero, suc, ◌+◌, ◌-◌, Option, none, some, List, [], ◌∷◌, ◌++◌, if◌then◌else◌, leb, length,
}

-- The slots that a call of `acquire_many` has so far, and how many it takes besides.
pub record Taking : Type 0 where
  pub taken : List ℕ
  pub missing : ℕ

pub record WorkSlots : Type 0 where
  pub capacity : ℕ
  pub free : List ℕ
  pub taking : Option Taking
  pub held : List (List ℕ)
  pub in_flight : ℕ
  pub peak : ℕ

unfoldable pub slots_from : ℕ → ℕ → List ℕ
slots_from i zero = []
slots_from i (suc n) = i ∷ slots_from (suc i) n

-- `WorkSlots(capacity)`
unfoldable pub new_slots : ℕ → WorkSlots
unfolding slots_from
new_slots capacity =
    let n = if leb capacity 1 then 1 else capacity in
    record {
      capacity = n;
      free = slots_from 0 n;
      taking = none;
      held = [];
      in_flight = 0;
      peak = 0;
    }

-- Entering `_held`: the unit runs on its slots.
unfoldable pub hold : List ℕ → WorkSlots → WorkSlots
hold taken w =
    let flying = w.in_flight + length taken in
    record w {
      held = taken ∷ w.held;
      in_flight = flying;
      peak = if leb w.peak flying then flying else w.peak;
    }

-- `acquire`: one slot off the queue, if there is one.
unfoldable pub acquire : List ℕ → WorkSlots → WorkSlots
unfolding hold
acquire [] w = w
acquire (slot ∷ rest) w = hold (slot ∷ []) (record w { free = rest })

-- `max(1, min(n, capacity))`
abbrev pub slots_for : ℕ → ℕ → ℕ
slots_for n capacity =
    let most = if leb n capacity then n else capacity in if leb most 1 then 1 else most

-- `acquire_many` up to its first `get`, under the lock that lets one call through.
unfoldable pub begin_many : ℕ → Option Taking → WorkSlots → WorkSlots
begin_many n none w = record w {
  taking = some (record { taken = []; missing = slots_for n w.capacity });
}
begin_many n (some t) w = w

-- The next `get` of the call that is taking; with its last slot its unit runs.
unfoldable pub take_slot : Option Taking → List ℕ → WorkSlots → WorkSlots
unfolding hold
take_slot none free w = w
take_slot (some t) [] w = w
take_slot (some t) (slot ∷ rest) w =
    let taken = t.taken ++ slot ∷ [] in
    let left = record w { free = rest } in
    if leb t.missing 1
    then hold taken (record left { taking = none })
    else record left { taking = some (record { taken = taken; missing = t.missing - 1 }) }

unfoldable pub nth_unit : ℕ → List (List ℕ) → List ℕ
nth_unit i [] = []
nth_unit zero (u ∷ us) = u
nth_unit (suc i) (u ∷ us) = nth_unit i us

unfoldable pub without_unit : ℕ → List (List ℕ) → List (List ℕ)
without_unit i [] = []
without_unit zero (u ∷ us) = us
without_unit (suc i) (u ∷ us) = u ∷ without_unit i us

-- Leaving `_held`: the `i`-th running unit gives its slots back.
unfoldable pub release : ℕ → WorkSlots → WorkSlots
unfolding nth_unit without_unit
release i w =
    let taken = nth_unit i w.held in
    record w {
      held = without_unit i w.held;
      in_flight = w.in_flight - length taken;
      free = w.free ++ taken;
    }

pub data Turn : Type 0 where
  acquiring gets : Turn
  beginning releasing : ℕ → Turn

unfoldable pub turn : Turn → WorkSlots → WorkSlots
unfolding acquire begin_many take_slot release
turn acquiring w = acquire w.free w
turn gets w = take_slot w.taking w.free w
turn (beginning n) w = begin_many n w.taking w
turn (releasing i) w = release i w

unfoldable pub turns : List Turn → WorkSlots → WorkSlots
unfolding turn
turns [] w = w
turns (t ∷ ts) w = turns ts (turn t w)
