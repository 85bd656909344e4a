-- ===== src/Check/Groups.antt =====
-- planner.group_by_source: one detection group per source database and strategy.
use lakefed_ingest.Prelude.{
  Bool, ◌&&◌, List, [], ◌∷◌, ◌++◌, Text, Result, ok, ◌>>=◌, text_eq, option_text_eq, if◌then◌else◌,
  ◌==◌,
}
use lakefed_ingest.Control.{ControlRow, Checkpoint, Problem, strategy_name}
use lakefed_ingest.Control.Identity.{GroupKey, source_group_key}
use lakefed_ingest.Planner.Rows.{as_problem}

pub record Group : Type 0 where
  pub key : GroupKey
  pub strategy : Text
  pub members : List (ControlRow × Checkpoint)

abbrev pub same_group : GroupKey → GroupKey → Bool
same_group k l =
    text_eq k.host l.host
    && k.port == l.port
    && option_text_eq k.database l.database
    && text_eq k.credential l.credential

-- `groups.setdefault(key, []).append((cfg, cp))`
unfoldable pub add_member : GroupKey → Text → ControlRow × Checkpoint → List Group → List Group
add_member key strategy m [] = record { key = key; strategy = strategy; members = m ∷ [] } ∷ []
add_member key strategy m (g ∷ gs) =
    let later = add_member key strategy m gs in
    if same_group key g.key && text_eq strategy g.strategy
    then record g { members = g.members ++ m ∷ [] } ∷ gs
    else g ∷ later

unfoldable pub group_from :
    List (ControlRow × Checkpoint) → List Group → Result Problem (List Group)
unfolding add_member
group_from [] groups = ok groups
group_from ((cfg, cp) ∷ ms) groups = do
  key ← as_problem (source_group_key cfg)
  group_from ms (add_member key (strategy_name cfg) (cfg, cp) groups)

unfoldable pub group_by_source : List (ControlRow × Checkpoint) → Result Problem (List Group)
unfolding group_from
group_by_source candidates = group_from candidates []
