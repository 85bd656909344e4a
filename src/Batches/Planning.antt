-- ===== src/Batches/Planning.antt =====
-- batch_append.py: which plans batch, and the order of a run's work items.
use lakefed_ingest.Prelude.{
  ℕ, Option, none, some, Bool, true, false, not, ◌&&◌, ◌||◌, List, [], ◌∷◌, ◌++◌, Text, Result, ok,
  if◌then◌else◌, leb, filter_by, length, map,
}
use lakefed_ingest.Control.{Problem}
use lakefed_ingest.Control.Sink.{client_id, is_append}
use lakefed_ingest.Planner.Plans.{Plan, Route, merge, seed, full, sink_key, texts_eq}
use lakefed_ingest.Batches.Chunks.{even_chunks}

pub data Kind : Type 0 where
  changes seeds full_load : Kind

abbrev pub kind_eq : Kind → Kind → Bool
kind_eq changes changes = true
kind_eq seeds seeds = true
kind_eq full_load full_load = true
kind_eq _ _ = false

-- `KINDS.get(route)`
abbrev kind_of : Route → Option Kind
kind_of (merge cur begin) = some changes
kind_of seed = some seeds
kind_of full = some full_load
kind_of _ = none

-- A ValueError of the row's own columns, and a row that does not append for a client, run per table.
appends : Result Problem Bool → Result Problem (Option Text) → Bool
appends (ok true) (ok (some cid)) = true
appends _ _ = false

unfoldable pub batch_kind : Plan → Option Kind
unfolding appends
batch_kind p = elim (kind_of p.route) [
  | none ↦ none
  | some kind ↦
      if not (appends (is_append p.cfg) (client_id p.cfg)) || p.cfg.load_partitioned
      then none
      else some kind
]

pub record Batch : Type 0 where
  pub kind : Kind
  pub members : List Plan

pub record Group : Type 0 where
  pub sink : List Text
  pub kind : Kind
  pub members : List Plan

-- `groups.setdefault((sink, kind), []).append(p)`
unfoldable pub add_to_groups : List Text → Kind → Plan → List Group → List Group
add_to_groups sink kind p [] = record { sink = sink; kind = kind; members = p ∷ [] } ∷ []
add_to_groups sink kind p (g ∷ gs) =
    let later = add_to_groups sink kind p gs in
    if texts_eq sink g.sink && kind_eq kind g.kind
    then record g { members = g.members ++ p ∷ [] } ∷ gs
    else g ∷ later

-- The loop over the plans, which builds the groups and the rest.
pub record Grouped : Type 0 where
  pub groups : List Group
  pub rest : List Plan

unfoldable pub place : Plan → Option Kind → Grouped → Grouped
unfolding add_to_groups
place p none g = record g { rest = g.rest ++ p ∷ [] }
place p (some kind) g = record g { groups = add_to_groups (sink_key p.cfg) kind p g.groups }

unfoldable pub group_plans : List Plan → Grouped → Grouped
unfolding batch_kind place
group_plans [] g = g
group_plans (p ∷ ps) g = group_plans ps (place p (batch_kind p) g)

-- A chunk of one joins the rest.
unfoldable pub place_chunk : Kind → List Plan → List Batch × List Plan → List Batch × List Plan
place_chunk kind chunk made =
    if leb 2 (length chunk)
    then (made.0 ++ record { kind = kind; members = chunk } ∷ [], made.1)
    else (made.0, made.1 ++ chunk)

unfoldable pub place_chunks :
    Kind → List (List Plan) → List Batch × List Plan → List Batch × List Plan
unfolding place_chunk
place_chunks kind [] made = made
place_chunks kind (chunk ∷ chunks) made = place_chunks kind chunks (place_chunk kind chunk made)

unfoldable pub place_groups : ℕ → List Group → List Batch × List Plan → List Batch × List Plan
unfolding place_chunks even_chunks
place_groups size [] made = made
place_groups size (g ∷ gs) made =
    place_groups size gs (place_chunks g.kind (even_chunks g.members size) made)

abbrev pub batch_limit : ℕ → Option ℕ → ℕ
batch_limit batch_size none = if leb batch_size 1 then 1 else batch_size
batch_limit batch_size (some reads) =
    let size = if leb batch_size 1 then 1 else batch_size in if leb size reads then size else reads

unfoldable pub plan_batches : List Plan → ℕ → Option ℕ → List Batch × List Plan
unfolding group_plans place_groups
plan_batches plans batch_size max_reads =
    let size = batch_limit batch_size max_reads in
    let grouped = group_plans plans (record { groups = []; rest = [] }) in
    if leb size 1 then ([], plans) else place_groups size grouped.groups ([], grouped.rest)

-- A work item of the run.
pub data Item : Type 0 where
  batch : Batch → Item
  table : Plan → Item

unfoldable pub order_work : List Batch → List Plan → List Item
order_work batches plans =
    map batch (filter_by (λ b. not (kind_eq b.kind seeds)) batches)
    ++ (map table plans ++ map batch (filter_by (λ b. kind_eq b.kind seeds) batches))
