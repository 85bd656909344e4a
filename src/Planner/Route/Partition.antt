-- ===== src/Planner/Route/Partition.antt =====
-- planner.route_tables: the rows in its three lists.
use mathlib.Core.List.{Perm, perm_middle}
use mathlib.Core.List.Perm
use lakefed_ingest.Prelude.{
  ℕ, Option, none, some, List, [], ◌∷◌, ◌++◌, map, ◌≡◌, refl, ok, arith, OnOk, OnOk-ok, >>=-eq-ok,
  ok-injective, subst,
}
use lakefed_ingest.Control.{ControlRow, Checkpoint}
use lakefed_ingest.Control.Positions.{CursorPosition, decode_position}
use lakefed_ingest.Planner.Route.{
  Settings, Routed, planned, candidate, legacy, Routing, appended, cursor_position, route_cursor,
  route_ct, route_row, route_tables,
}

-- The rows of a routing, by kind.
abbrev pub routed_rows : Routing → List ControlRow
routed_rows r =
    map (λ p. p.cfg) r.plans ++ (map (λ c. c.0) r.candidates ++ map (λ c. c.0) r.legacy_rows)

abbrev row_of : Routed → ControlRow
row_of (planned p) = p.cfg
row_of (candidate cfg cp) = cfg
row_of (legacy cfg cp) = cfg

appended-perm :
    (x : Routed) (r : Routing) → Perm (routed_rows (appended x r)) (row_of x ∷ routed_rows r)
appended-perm (planned p) r = Perm.rfl
appended-perm (candidate cfg cp) r =
    perm_middle {a = cfg} (map (λ p. p.cfg) r.plans)
      (map (λ c. c.0) r.candidates ++ map (λ c. c.0) r.legacy_rows)
appended-perm (legacy cfg cp) r =
    Perm.trans
      (Perm.append_left (map (λ p. p.cfg) r.plans)
        (perm_middle {a = cfg} (map (λ c. c.0) r.candidates) (map (λ c. c.0) r.legacy_rows)))
      (perm_middle {a = cfg} (map (λ p. p.cfg) r.plans)
        (map (λ c. c.0) r.candidates ++ map (λ c. c.0) r.legacy_rows))

module _ (s : Settings) (cfg : ControlRow) where
  cursor_position-row :
      (cp : Checkpoint) (pos : Option CursorPosition)
      → OnOk (λ p. p.cfg ≡ cfg) (cursor_position s cfg cp pos)
  unfolding cursor_position
  cursor_position-row cp none = refl
  cursor_position-row cp (some pos) = ground arith

  route_cursor-row : (cp : Option Checkpoint) → OnOk (λ p. p.cfg ≡ cfg) (route_cursor s cfg cp)
  unfolding route_cursor
  route_cursor-row none = refl
  route_cursor-row (some cp) = cursor_position-row cp (decode_position s.loads cp.position)

  route_ct-row : (cp : Option Checkpoint) → OnOk (λ x. row_of x ≡ cfg) (route_ct s cfg cp)
  unfolding route_ct
  route_ct-row none = refl
  route_ct-row (some cp) = ground arith

  route_row-row : (cp : Option Checkpoint) → OnOk (λ x. row_of x ≡ cfg) (route_row s cfg cp)
  unfolding route_row
  route_row-row cp = ground (arith, route_cursor-row cp, route_ct-row cp)

-- Every row is in exactly one of the three lists, as often as it was given.
pub route_tables-perm :
    (s : Settings) (checkpoints : ℕ → Option Checkpoint) (configs : List ControlRow) (r : Routing)
    → route_tables s checkpoints configs ≡ ok r
    → Perm (routed_rows r) configs
unfolding route_tables
route_tables-perm s checkpoints [] r h =
    subst (λ r. Perm (routed_rows r) []) (ok-injective h) Perm.rfl
route_tables-perm s checkpoints (cfg ∷ rest) r h =
    let (x, routed, after) = >>=-eq-ok (route_row s cfg (checkpoints cfg.id)) _ h in
    let (later, routed_later, e) = >>=-eq-ok (route_tables s checkpoints rest) _ after in
    let row = OnOk-ok (λ y. row_of y ≡ cfg) routed (route_row-row s cfg (checkpoints cfg.id)) in
    let kept = Perm.cons (row_of x) (route_tables-perm s checkpoints rest later routed_later) in
    subst (λ r. Perm (routed_rows r) (cfg ∷ rest)) (ok-injective e)
      (Perm.trans (appended-perm x later)
        (subst (λ c. Perm (row_of x ∷ routed_rows later) (c ∷ rest)) row kept))
