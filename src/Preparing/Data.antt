-- ===== src/Preparing/Data.antt =====
-- preparing.py: the record of a job while it prepares, with its counts, and its state once these changed.
use lakefed_ingest.Prelude.{
  ℕ, ◌+◌, Option, none, some, Bool, true, false, not, ◌||◌, List, [], ◌∷◌, Text, text_eq,
  if◌then◌else◌, ◌==◌, tally,
}

pub data State : Type 0 where
  preparing needs_you ready_state : State

pub data Stage : Type 0 where
  reading writing syncing : Stage

pub data Kind : Type 0 where
  unreadable clash closed : Kind

pub record Entry : Type 0 where
  pub server : Text
  pub database : Text
  pub kind : Kind

pub record Counts : Type 0 where
  pub unreadable_count : ℕ
  pub clash_count : ℕ
  pub closed_count : ℕ

-- The names of the job's targets: its catalog, schema and table templates.
pub record Targets : Type 0 where
  pub sink_catalog : Option Text
  pub sink_schema : Option Text
  pub sink_table : Option Text

-- A record; `set_aside` and `left_out` are dicts by key.
pub record Record : Type 0 where
  pub state : State
  pub stage : Option Stage
  pub writing_started : Bool
  pub set_aside : List (Text × Entry)
  pub left_out : List (Text × Entry)
  pub counts : Option Counts
  pub targets : Targets
  pub asks : ℕ
  pub stopped : Bool
  pub turn_on : Bool

unfoldable pub new_record : Targets → Bool → State → Option Stage → Record
new_record targets turn_on state stage = record {
  state = state;
  stage = elim state [ preparing ↦ stage | needs_you ↦ stage | ready_state ↦ none ];
  writing_started = false;
  set_aside = [];
  left_out = [];
  counts = none;
  targets = targets;
  asks = 0;
  stopped = false;
  turn_on = turn_on;
}

abbrev pub is_clash : Kind → Bool
is_clash unreadable = false
is_clash clash = true
is_clash closed = false

abbrev pub is_unreadable : Kind → Bool
is_unreadable unreadable = true
is_unreadable clash = false
is_unreadable closed = false

-- `NEEDS_ACTION`
abbrev pub needs_action : Kind → Bool
needs_action unreadable = true
needs_action clash = true
needs_action closed = false

unfoldable pub put : Text → Entry → List (Text × Entry) → List (Text × Entry)
put k e [] = (k, e) ∷ []
put k e ((j, f) ∷ d) = if text_eq j k then (k, e) ∷ d else (j, f) ∷ put k e d

unfoldable pub pop : Text → List (Text × Entry) → List (Text × Entry)
pop k [] = []
pop k ((j, f) ∷ d) = if text_eq j k then pop k d else (j, f) ∷ pop k d

abbrev pub has : Text → List (Text × Entry) → Bool
has k [] = false
has k ((j, f) ∷ d) = text_eq j k || has k d

unfoldable pub entry_counts : List (Text × Entry) → Counts
entry_counts d = record {
  unreadable_count = tally (λ e. is_unreadable (e.1).kind) d;
  clash_count = tally (λ e. is_clash (e.1).kind) d;
  closed_count = tally (λ e. not (needs_action (e.1).kind)) d;
}

abbrev or_entries : Option Counts → List (Text × Entry) → Counts
or_entries none d = entry_counts d
or_entries (some c) d = c

unfoldable pub counts_of : Record → Counts
unfolding entry_counts
counts_of r = or_entries r.counts r.set_aside

unfoldable pub waiting_count : Record → ℕ
unfolding counts_of
waiting_count r = (counts_of r).unreadable_count + (counts_of r).clash_count

-- The state of a record that is not ready, by how many wait.
unfoldable pub refreshed_state : State → ℕ → State
refreshed_state preparing waiting = if waiting == 0 then preparing else needs_you
refreshed_state needs_you waiting = if waiting == 0 then preparing else needs_you
refreshed_state ready_state waiting = ready_state

unfoldable pub refreshed : Record → Record
unfolding refreshed_state waiting_count
refreshed r = record r { state = refreshed_state r.state (waiting_count r) }
