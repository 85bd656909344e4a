-- ===== src/Tests/Planning.antt =====
-- The planner's theorems on two rows of one database.
use lakefed_ingest.Prelude.{
  ℕ, none, List, [], ◌∷◌, codes, ok, err, ◌≡◌, refl, arith, All, count, strip, int_of_text, text_eq,
  lower, ok-injective, subst,
}
use mathlib.Core.List.{Perm}
use lakefed_ingest.Control.{ControlRow}
use lakefed_ingest.Control.Positions.{decode_position, ct_position}
use lakefed_ingest.Control.Identity.{identity_values, source_identity}
use lakefed_ingest.Strategies.{get_adapter}
use lakefed_ingest.Planner.Route.{Routing, route_tables}
use lakefed_ingest.Planner.Route.Partition.{routed_rows, route_tables-perm}
use lakefed_ingest.Planner.Route.Safety.{Detected, route_tables-Detected}
use lakefed_ingest.Planner.Route.Total.{HasTextColumn, route_tables-total}
use lakefed_ingest.Planner.Detect.{
  Output, Item, Answer, empty_output, located, not_reset, ahead, all_current, sorted_members,
  place_member, sort_member, unchanged_row, detect_group,
}
use lakefed_ingest.Planner.Detect.Accounts.{answered_ids}
use lakefed_ingest.Planner.Detect.Total.{row_ids, position_at, detect_group-answers}
use lakefed_ingest.Planner.Detect.Changes.{IsSound, IsQuiet, detect_group-IsQuiet}
use lakefed_ingest.Planner.Detect.Returned.{IsReadable, detect_group-total}
use lakefed_ingest.Tests.Rows.{row, at, checkpoints, settings, source, answered, members}

abbrev rows : List ControlRow
rows = row 1 ∷ row 2 ∷ row 3 ∷ []

routable : All (λ cfg. HasTextColumn settings (checkpoints cfg.id)) rows
unfolding decode_position
routable = (tt, (tt, (tt, tt)))

route_tables-total_example : (r : Routing) × (route_tables settings checkpoints rows ≡ ok r)
route_tables-total_example = route_tables-total settings checkpoints rows routable

-- What the three rows are routed to, with the run that finds it.
routing : (r : Routing) × (route_tables settings checkpoints rows ≡ ok r)
routing = route_tables-total settings checkpoints rows routable

route_tables-perm_example : Perm (routed_rows (routing.0)) rows
route_tables-perm_example = route_tables-perm settings checkpoints rows (routing.0) (routing.1)

route_tables-Detected_example :
    All (Detected settings checkpoints) (routing.0).candidates
    × All (Detected settings checkpoints) (routing.0).legacy_rows
route_tables-Detected_example =
    route_tables-Detected settings checkpoints rows (routing.0) (routing.1)

output : Output
output = elim (detect_group [] source members) as (λ x. Output) [
  | ok out ↦ out
  | err e ↦ empty_output
]

runs : detect_group [] source members ≡ ok output
unfolding output detect_group located ct_position strip int_of_text not_reset ahead all_current
    sorted_members place_member sort_member unchanged_row identity_values source_identity
    get_adapter text_eq lower
runs = refl

detect_group-answers_example : count 2 (answered_ids output) ≡ count 2 (row_ids members)
detect_group-answers_example =
    detect_group-answers [] source checkpoints members output 2 (refl, (refl, tt)) runs

-- Table 1 has a change of version 8, and no other table has any.
abbrev Changed : ℕ → ℕ → Type 0
Changed i v = (i ≡ 1) × (v ≡ 8)

items-IsSound : (items : List Item) → IsSound Changed 9 answered items
items-IsSound [] = tt
items-IsSound (it ∷ its) = ((λ mv e k v p q c. ground (arith, e, c.0)), items-IsSound its)

answers-IsSound :
    (items : List Item) (answer : Answer)
    → source.detect (row 1) items ≡ ok answer
    → IsSound Changed 9 answer items
answers-IsSound items answer h =
    subst (λ a. IsSound Changed 9 a items) (ok-injective h) (items-IsSound items)

detect_group-IsQuiet_example :
    All (IsQuiet Changed (λ i. position_at (checkpoints i)) 9) output.unchanged
detect_group-IsQuiet_example =
    detect_group-IsQuiet Changed [] source checkpoints (row 1, at (codes "7"))
      ((row 2, at (codes "9")) ∷ []) 9 none output refl answers-IsSound (refl, (refl, tt)) runs

readable : All IsReadable members
unfolding IsReadable ct_position strip int_of_text identity_values source_identity get_adapter
    text_eq lower
readable = ((tt, tt), ((tt, tt), tt))

detect_group-total_example : (out : Output) × (detect_group [] source members ≡ ok out)
detect_group-total_example =
    detect_group-total [] source (row 1, at (codes "7")) ((row 2, at (codes "9")) ∷ []) readable
