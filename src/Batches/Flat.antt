-- ===== src/Batches/Flat.antt =====
-- batch_append.flatten and describe: a run's results table by table, and its batches counted.
use lakefed_ingest.Prelude.{ℕ, suc, ◌+◌, List, [], ◌∷◌, ◌++◌, if◌then◌else◌, length}
use lakefed_ingest.Planner.Plans.{Plan}
use lakefed_ingest.Parallel.Items.{Outcome, Status, good, failed, stopped}
use lakefed_ingest.Batches.Planning.{Batch, Item, batch, table, Kind, kind_eq}

-- `run_parallel`'s result for a work item; `members` is its `detail["members"]`, of a batch that ended well.
pub record Result : Type 0 where
  pub outcome : Outcome
  pub members : List Outcome

-- A batch whose runner raised counts each member as failed.
unfoldable pub failed_members : Outcome → List Plan → List Outcome
failed_members r [] = []
failed_members r (m ∷ ms) =
    record { item = m.cfg.id; pool = r.pool; status = failed; detail = r.detail }
    ∷ failed_members r ms

unfoldable pub batch_results : Status → List Plan → Result → List Outcome
unfolding failed_members
batch_results good ms r = r.members
batch_results failed ms r = failed_members r.outcome ms
batch_results stopped ms r = failed_members r.outcome ms

unfoldable pub flatten : List Item → List Result → List Outcome
unfolding batch_results
flatten [] rs = []
flatten (w ∷ ws) [] = []
flatten (table p ∷ ws) (r ∷ rs) = r.outcome ∷ flatten ws rs
flatten (batch b ∷ ws) (r ∷ rs) = batch_results r.outcome.status b.members r ++ flatten ws rs

pub record Described : Type 0 where
  pub kind : Kind
  pub batches : ℕ
  pub tables : ℕ

unfoldable pub count_batch : Batch → List Described → List Described
count_batch b [] = record { kind = b.kind; batches = 1; tables = length b.members } ∷ []
count_batch b (d ∷ ds) =
    let later = count_batch b ds in
    if kind_eq d.kind b.kind
    then record d { batches = suc d.batches; tables = d.tables + length b.members } ∷ ds
    else d ∷ later

unfoldable pub describe_from : List Batch → List Described → List Described
unfolding count_batch
describe_from [] ds = ds
describe_from (b ∷ bs) ds = describe_from bs (count_batch b ds)

unfoldable pub describe : List Batch → List Described
unfolding describe_from
describe batches = describe_from batches []
