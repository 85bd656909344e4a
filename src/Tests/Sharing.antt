-- ===== src/Tests/Sharing.antt =====
-- The theorems on slots, cycles' requests, results and job copies at concrete inputs.
use lakefed_ingest.Prelude.{
  ℕ, Bool, true, false, List, [], ◌∷◌, codes, Text, text_eq, map, ◌≡◌, refl,
}
use lakefed_ingest.Parallel.Slots.{Turn, acquiring, gets, beginning, releasing, turns, new_slots}
use lakefed_ingest.Parallel.Kept.{IsSlotted, new_slots-turns}
use lakefed_ingest.Parallel.Items.{Outcome, Status, good, failed}
use lakefed_ingest.Cycle.Shares.{Database, Checked}
use lakefed_ingest.Cycle.Launch.{Covered, whole}
use lakefed_ingest.Cycle.Requests.{cycle_requests}
use lakefed_ingest.Cycle.Deferred.{IsSplit, cycle_requests-IsSplit}
use lakefed_ingest.Batches.Planning.{Item, batch, table, changes}
use lakefed_ingest.Batches.Flat
use lakefed_ingest.Batches.Flat.{flatten, batch_results, failed_members}
use lakefed_ingest.Copies.{Schedule, plan}
use lakefed_ingest.Copies.Deletes.{IsPlan, plan-IsPlan}
use lakefed_ingest.Tests.Rows.{change_of}

abbrev played : List Turn
played = acquiring ∷ beginning 2 ∷ gets ∷ releasing 0 ∷ gets ∷ acquiring ∷ []

new_slots-turns_example : IsSlotted (turns played (new_slots 2))
new_slots-turns_example = new_slots-turns 2 played

abbrev database : Text → Text → ℕ → Database
database collection name tables = record {
  collection = collection;
  source = codes "s";
  name = name;
  tables = tables;
  first_loads = 0;
}

abbrev results : List Checked
results =
    record {
      collection = codes "a";
      weights = database (codes "a") (codes "x") 5 ∷ database (codes "a") (codes "y") 1 ∷ [];
    }
    ∷ record { collection = codes "b"; weights = database (codes "b") (codes "z") 2 ∷ [] }
    ∷ []

abbrev going : Covered
going = (codes "b", whole) ∷ []

abbrev is_small : Database → Bool
is_small d = text_eq d.source (codes "s")

cycle_requests-IsSplit_example : IsSplit going results is_small (cycle_requests results 3 going)
cycle_requests-IsSplit_example = cycle_requests-IsSplit is_small results 3 going

abbrev outcome_of : ℕ → Status → Outcome
outcome_of i status = record { item = i; pool = 0; status = status; detail = codes "d" }

abbrev work : List Item
work =
    batch (record { kind = changes; members = change_of 1 ∷ change_of 2 ∷ [] })
    ∷ table (change_of 3)
    ∷ []

abbrev answers : List Flat.Result
answers =
    record { outcome = outcome_of 0 failed; members = [] }
    ∷ record { outcome = outcome_of 3 good; members = [] }
    ∷ []

flatten_test : map (λ o. o.item) (flatten work answers) ≡ 1 ∷ 2 ∷ 3 ∷ []
unfolding flatten batch_results failed_members
flatten_test = refl

abbrev schedules : List Schedule
schedules =
    record { id = 1; deleted = false; cluster = true }
    ∷ record { id = 2; deleted = true; cluster = true }
    ∷ []

plan-IsPlan_example :
    IsPlan schedules
      ((codes "2", 77) ∷ [])
      []
      (codes "2")
      77
      (plan schedules ((codes "2", 77) ∷ []) [])
plan-IsPlan_example = plan-IsPlan schedules ((codes "2", 77) ∷ []) [] (codes "2") 77
