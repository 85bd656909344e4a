-- ===== src/Check/Covers.antt =====
-- initial_check.check_collection: the rows routed to work, and the work list.
use lakefed_ingest.Prelude.{
  ℕ, Option, none, true, ◌||◌, List, [], ◌∷◌, ◌++◌, map, Text, text_eq_refl, text_eq_iff, Result,
  filter_by, ◌≡◌, refl, arith, All, All-map, OnOk, OnOk-bind, ◌∙◌,
}
use lakefed_ingest.Control.{ControlRow, Checkpoint, Problem}
use lakefed_ingest.Planner.Route.{Settings, Routing}
use lakefed_ingest.Planner.Detect.{Output}
use lakefed_ingest.Planner.Stamps.{DatabaseKey, database_key, key_eq, key_mem, add_key, sorted_keys}
use lakefed_ingest.Planner.Stamps.Writes.{Stamps, keys_of, unchanged_writes}
use lakefed_ingest.Check.Groups.{group_by_source}
use lakefed_ingest.Check.{
  keys, plan_rows, is_forced, unless_listed, routed_keys, to_detect, detect_all, found_keys,
  unchanged_of, CheckResult, check_routed,
}

key_eq_refl : (k : DatabaseKey) → key_eq k k ≡ true
key_eq_refl k = ground (arith, text_eq_refl k.source, text_eq_refl k.database)

key_eq-swap : (k l m : DatabaseKey) → key_eq l m ≡ true → key_eq k l ≡ key_eq k m
key_eq-swap k l m h =
    let source = (text_eq_iff l.source m.source).0 (ground (arith, h)) in
    let database = (text_eq_iff l.database m.database).0 (ground (arith, h)) in
    cc (source, database)

key_mem-append :
    (k : DatabaseKey) (ks ls : List DatabaseKey)
    → key_mem k (ks ++ ls) ≡ (key_mem k ks || key_mem k ls)
unfolding key_mem
key_mem-append k [] ls = refl
key_mem-append k (l ∷ ks) ls = ground (arith, key_mem-append k ks ls)

key_mem-add_key :
    (k l : DatabaseKey) (ks : List DatabaseKey)
    → key_mem k (add_key l ks) ≡ (key_eq k l || key_mem k ks)
unfolding key_mem add_key
key_mem-add_key k l [] = refl
key_mem-add_key k l (m ∷ ks) = ground (arith, key_mem-add_key k l ks, key_eq-swap k l m)

key_mem-sorted_keys :
    (k : DatabaseKey) (ks : List DatabaseKey) → key_mem k (sorted_keys ks) ≡ key_mem k ks
unfolding key_mem sorted_keys
key_mem-sorted_keys k [] = refl
key_mem-sorted_keys k (l ∷ ks) =
    ground (arith, key_mem-add_key k l (sorted_keys ks), key_mem-sorted_keys k ks)

-- The rows' databases stand among their keys.
rows-mem : (cs : List ControlRow) → All (λ c. key_mem (database_key c) (keys cs) ≡ true) cs
unfolding key_mem
rows-mem [] = tt
rows-mem (c ∷ cs) = (
  ground (arith, key_eq_refl (database_key c)),
  All-map cs (λ d h. ground (arith, h)) (rows-mem cs),
)

-- Every row's database stands in the work list.
pub AreCovered : List DatabaseKey → List ControlRow → Type 0
AreCovered work = All (λ c. key_mem (database_key c) work ≡ true)

covered-sub :
    (work : List DatabaseKey) (ks : List DatabaseKey) (cs : List ControlRow)
    → ((k : DatabaseKey) → key_mem k ks ≡ true → key_mem k work ≡ true)
    → All (λ c. key_mem (database_key c) ks ≡ true) cs
    → AreCovered work cs
unfolding AreCovered
covered-sub work ks cs h c = All-map cs (λ d k. h (database_key d) k) c

-- The databases routed to work before detection are in the work list, and with the sinks unknown those of the
-- candidates are.
pub record IsThorough (s : Settings) (r : Routing) (res : CheckResult) : Type 0 where
  pub of_plans : AreCovered res.work (plan_rows r.plans)
  pub of_legacy : AreCovered res.work (map (λ m. m.0) r.legacy_rows)
  pub of_unknown : s.existing_sinks ≡ none → AreCovered res.work (map (λ m. m.0) r.candidates)

members-mem :
    (ms : List (ControlRow × Checkpoint))
    → All (λ c. key_mem (database_key c) (keys_of ms) ≡ true) (map (λ m. m.0) ms)
unfolding key_mem
members-mem [] = tt
members-mem (m ∷ ms) = (
  ground (arith, key_eq_refl (database_key (m.0))),
  All-map (map (λ x. x.0) ms) (λ d h. ground (arith, h)) (members-mem ms),
)

-- A key that routing found is in the sorted work list.
found-in-work :
    (k : DatabaseKey) (ks ls : List DatabaseKey)
    → key_mem k ks ≡ true
    → key_mem k (sorted_keys (ks ++ ls)) ≡ true
found-in-work k ks ls h =
    key_mem-sorted_keys k (ks ++ ls) ∙ ground (arith, key_mem-append k ks ls, h)

module _ (s : Settings) (force : List Text) (configs : List ControlRow) (r : Routing) where
  plans-routed :
      (k : DatabaseKey)
      → key_mem k (keys (plan_rows r.plans)) ≡ true
      → key_mem k (routed_keys s force configs r) ≡ true
  unfolding routed_keys
  plans-routed k h = key_mem-append k (keys (plan_rows r.plans)) _ ∙ ground (arith, h)

  legacy-routed :
      (k : DatabaseKey)
      → key_mem k (keys_of r.legacy_rows) ≡ true
      → key_mem k (routed_keys s force configs r) ≡ true
  unfolding routed_keys
  legacy-routed k h =
      key_mem-append k (keys (plan_rows r.plans)) _
      ∙ ground (
        arith,
        h,
        key_mem-append k (keys_of r.legacy_rows) (
            keys (filter_by (is_forced force) configs)
            ++ unless_listed s.existing_sinks (keys_of r.candidates)),
      )

  unknown-routed :
      s.existing_sinks ≡ none
      → (k : DatabaseKey) → key_mem k (keys_of r.candidates) ≡ true
      → key_mem k (routed_keys s force configs r) ≡ true
  unfolding routed_keys
  unknown-routed e k h =
      key_mem-append k (keys (plan_rows r.plans)) _
      ∙ ground (
        arith,
        h,
        e,
        key_mem-append k (keys_of r.legacy_rows) (
            keys (filter_by (is_forced force) configs)
            ++ unless_listed s.existing_sinks (keys_of r.candidates)),
        key_mem-append k (keys (filter_by (is_forced force) configs))
            (unless_listed s.existing_sinks (keys_of r.candidates)),
      )

-- Whatever the source answers: when the check ends, the work list has the database of every row that routing planned
-- and of every row it lists as legacy, and with the sinks unknown that of every candidate too.
pub check_routed-IsThorough :
    (s : Settings) (force : List Text) (checkpoints : ℕ → Option Checkpoint) (stamps : Stamps)
    (interval now : ℕ) (detect : List (ControlRow × Checkpoint) → Result Problem Output)
    (configs : List ControlRow) (r : Routing)
    → OnOk (IsThorough s r) (check_routed s force checkpoints stamps interval now detect configs r)
unfolding check_routed AreCovered
check_routed-IsThorough s force checkpoints stamps interval now detect configs r =
    OnOk-bind (IsThorough s r) (group_by_source r.candidates) _ λ groups e.
      OnOk-bind (IsThorough s r)
        (detect_all detect (to_detect (routed_keys s force configs r) groups)) _
        λ outputs f.
          OnOk-bind (IsThorough s r)
            (unchanged_writes checkpoints stamps [] interval now (unchanged_of outputs)) _
            λ writes g.
              let routed = routed_keys s force configs r in
              let found = found_keys outputs in
              record {
                of_plans =
                    All-map (plan_rows r.plans)
                      (λ d h.
                        found-in-work (database_key d) routed found
                          (plans-routed s force configs r (database_key d) h))
                      (rows-mem (plan_rows r.plans));
                of_legacy =
                    All-map (map (λ m. m.0) r.legacy_rows)
                      (λ d h.
                        found-in-work (database_key d) routed found
                          (legacy-routed s force configs r (database_key d) h))
                      (members-mem r.legacy_rows);
                of_unknown = λ unknown.
                    All-map (map (λ m. m.0) r.candidates)
                      (λ d h.
                        found-in-work (database_key d) routed found
                          (unknown-routed s force configs r unknown (database_key d) h))
                      (members-mem r.candidates);
              }
