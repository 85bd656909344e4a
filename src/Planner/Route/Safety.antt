-- ===== src/Planner/Route/Safety.antt =====
-- planner.route_tables: the rows that it hands to change detection.
use lakefed_ingest.Prelude.{
  ℕ, Option, none, some, true, false, List, [], ◌∷◌, ◌≡◌, codes, ok, arith, >>=-eq-ok, ok-injective,
  subst, sym, OnOk, OnOk-ok, All, text_eq,
}
use lakefed_ingest.Control.{ControlRow, Checkpoint, strategy_name}
use lakefed_ingest.Planner.Rows.{moved}
use lakefed_ingest.Planner.Route.{
  Settings, Routed, planned, candidate, legacy, Routing, appended, row_problem, resumes,
  has_pending_append, route_ct, route_row, route_tables,
}

-- What makes it safe to carry on from a row's checkpoint.
pub record IsResumable (s : Settings) (cfg : ControlRow) (cp : Checkpoint) : Type 0 where
  pub runs : row_problem s cfg ≡ none
  pub not_full : text_eq (strategy_name cfg) (codes "full") ≡ false
  pub not_cursor : text_eq (strategy_name cfg) (codes "cursor") ≡ false
  pub seeded : resumes (codes "ct") cp ≡ true
  pub settled : has_pending_append cfg cp.pending_run_id ≡ ok false
  pub in_place : moved cfg (some cp) s.existing_sinks ≡ ok none

-- A row goes on with the checkpoint it had, and only if that is safe.
abbrev Detects : Settings → ControlRow → Option Checkpoint → Routed → Type 0
Detects s cfg cp (planned p) = Unit
Detects s cfg cp (candidate c k) = (c ≡ cfg) × (cp ≡ some k) × IsResumable s cfg k
Detects s cfg cp (legacy c k) = (c ≡ cfg) × (cp ≡ some k) × IsResumable s cfg k

route_ct-Detects :
    (s : Settings) (cfg : ControlRow) (cp : Option Checkpoint)
    → row_problem s cfg ≡ none
    → text_eq (strategy_name cfg) (codes "full") ≡ false
    → text_eq (strategy_name cfg) (codes "cursor") ≡ false
    → OnOk (Detects s cfg cp) (route_ct s cfg cp)
unfolding route_ct
route_ct-Detects s cfg none p f c = tt
route_ct-Detects s cfg (some cp) p f c = ground arith

route_row-Detects :
    (s : Settings) (cfg : ControlRow) (cp : Option Checkpoint)
    → OnOk (Detects s cfg cp) (route_row s cfg cp)
unfolding route_row
route_row-Detects s cfg cp = ground (arith, route_ct-Detects s cfg cp)

abbrev pub Detected : Settings → (ℕ → Option Checkpoint) → ControlRow × Checkpoint → Type 0
Detected s checkpoints c = (checkpoints c.0.id ≡ some c.1) × IsResumable s c.0 c.1

appended-Detected :
    (s : Settings) (checkpoints : ℕ → Option Checkpoint) (cfg : ControlRow) (x : Routed)
    (r : Routing)
    → Detects s cfg (checkpoints cfg.id) x
    → All (Detected s checkpoints) r.candidates × All (Detected s checkpoints) r.legacy_rows
    → All (Detected s checkpoints) (appended x r).candidates
      × All (Detected s checkpoints) (appended x r).legacy_rows
appended-Detected s checkpoints cfg (planned p) r d h = h
appended-Detected s checkpoints cfg (candidate c k) r d h =
    ((subst (λ z. Detected s checkpoints (z, k)) (sym d.0) (d.1, d.2), h.0), h.1)
appended-Detected s checkpoints cfg (legacy c k) r d h =
    (h.0, (subst (λ z. Detected s checkpoints (z, k)) (sym d.0) (d.1, d.2), h.1))

-- Every row that goes to change detection, or to the once-only check of its sink's columns, has the
-- checkpoint it goes on from, in the incremental phase of the ct strategy, with no append to settle,
-- and still reads from, writes to and matches by what that checkpoint was written for.
pub route_tables-Detected :
    (s : Settings) (checkpoints : ℕ → Option Checkpoint) (configs : List ControlRow) (r : Routing)
    → route_tables s checkpoints configs ≡ ok r
    → All (Detected s checkpoints) r.candidates × All (Detected s checkpoints) r.legacy_rows
unfolding route_tables
route_tables-Detected s checkpoints [] r h =
    subst
      (λ r. All (Detected s checkpoints) r.candidates × All (Detected s checkpoints) r.legacy_rows)
      (ok-injective h) (tt, tt)
route_tables-Detected s checkpoints (cfg ∷ rest) r h =
    let (x, routed, after) = >>=-eq-ok (route_row s cfg (checkpoints cfg.id)) _ h in
    let (later, routed_later, e) = >>=-eq-ok (route_tables s checkpoints rest) _ after in
    subst
      (λ r. All (Detected s checkpoints) r.candidates × All (Detected s checkpoints) r.legacy_rows)
      (ok-injective e)
      (appended-Detected s checkpoints cfg x later
        (OnOk-ok (Detects s cfg (checkpoints cfg.id)) routed
          (route_row-Detects s cfg (checkpoints cfg.id)))
        (route_tables-Detected s checkpoints rest later routed_later))
