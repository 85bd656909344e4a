-- ===== src/Placement/Lightest.antt =====
-- placement.Lightest: the databases added to an existing job.
pub mod Stays
use lakefed_ingest.Prelude.{
  ℕ, zero, suc, ◌+◌, Option, none, some, Bool, true, false, not, ◌&&◌, List, [], ◌∷◌, Text, lower,
  text_eq, text_lt, if◌then◌else◌, ltb, sort_by,
}

-- `loads` has the groups of each server with their tables, and `placed` the group of each (server, database).
pub record Lightest : Type 0 where
  pub loads : List (Text × List (Text × ℕ))
  pub placed : List (Text × Text × Text)

-- `loads.get(server)`, where no groups count as none.
unfoldable pub loads_of : Text → List (Text × List (Text × ℕ)) → List (Text × ℕ)
loads_of server [] = []
loads_of server ((s, groups) ∷ rest) = if text_eq s server then groups else loads_of server rest

unfoldable pub knows : Lightest → Text → Bool
unfolding loads_of
knows l server = elim (loads_of server l.loads) [ [] ↦ false | g ∷ gs ↦ true ]

unfoldable pub group_of : Text → Text → List (Text × Text × Text) → Option Text
group_of server database [] = none
group_of server database ((s, d, g) ∷ rest) =
    if text_eq s server && text_eq d database then some g else group_of server database rest

-- The first of the least loads.
unfoldable pub least_group : Text × ℕ → List (Text × ℕ) → Text × ℕ
least_group best [] = best
least_group best (g ∷ groups) = least_group (if ltb (g.1) (best.1) then g else best) groups

-- `min(sorted(loads), key=...)`; there are groups.
unfoldable pub lightest_group : List (Text × ℕ) → Option Text
unfolding least_group
lightest_group [] = none
lightest_group (g ∷ groups) = some ((least_group g groups).0)

-- `loads[group] += tables`
unfoldable pub add_load : Text → ℕ → List (Text × ℕ) → List (Text × ℕ)
add_load group n [] = []
add_load group n ((g, m) ∷ groups) =
    if text_eq g group then (g, m + n) ∷ groups else (g, m) ∷ add_load group n groups

unfoldable pub add_server_load :
    Text → Text → ℕ → List (Text × List (Text × ℕ)) → List (Text × List (Text × ℕ))
unfolding add_load
add_server_load server group n [] = []
add_server_load server group n ((s, groups) ∷ rest) =
    if text_eq s server
    then (s, add_load group n groups) ∷ rest
    else (s, groups) ∷ add_server_load server group n rest

abbrev pub by_name : Text × ℕ → Text × ℕ → Bool
by_name g h = text_lt (g.0) (h.0)

unfoldable pub counted : Text → Text → ℕ → Lightest → Lightest
unfolding add_server_load
counted server group n l = record l { loads = add_server_load server group n l.loads }

-- A new database is placed in the group found, if there is one.
unfoldable pub place_new : Text → Text → ℕ → Lightest → Option Text → Option Text × Lightest
unfolding counted
place_new server database n l none = (none, l)
place_new server database n l (some group) = (
  some group,
  counted server group n (record l { placed = (server, database, group) ∷ l.placed }),
)

-- The group that a database keeps, or a new database's.
unfoldable pub place_kept : Text → Text → ℕ → Lightest → Option Text → Option Text × Lightest
unfolding counted loads_of lightest_group place_new
place_kept server database n l (some group) = (some group, counted server group n l)
place_kept server database n l none =
    place_new server database n l (lightest_group (sort_by by_name (loads_of server l.loads)))

unfoldable pub place : Text → Text → ℕ → Lightest → Option Text × Lightest
unfolding knows place_kept group_of
place server database n l =
    if knows l server
    then place_kept server (lower database) n l (group_of server (lower database) l.placed)
    else (none, l)
