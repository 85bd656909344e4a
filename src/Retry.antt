-- ===== src/Retry.antt =====
-- table_retry.py: the verdict on an error, one run's retry limits, and the loop around the worker.
pub mod Policy
pub mod Limits
pub mod Runner
pub mod Ends
use lakefed_ingest.Prelude.{
  ℕ, Option, none, some, Bool, true, false, ◌||◌, List, [], ◌∷◌, Text, any, if◌then◌else◌,
}

pub data Verdict : Type 0 where
  transient permanent unknown : Verdict

-- What `classify` finds in the text of an error and in its chain: one field for each of its tests.
-- The marker tables and the patterns are data of the source, matched by Python's `in` and `re`.
pub record Findings : Type 0 where
  pub never : Bool
  pub permanent_marker : Bool
  pub permanent_code : Bool
  pub permanent_sqlstate : Bool
  pub permanent_class : Bool
  pub permanent_type : Bool
  pub transient_marker : Bool
  pub transient_code : Bool
  pub transient_sqlstate : Bool
  pub fetch_aborted : Bool
  pub deadlock : Bool

abbrev rules_out : Findings → Bool
rules_out f =
    f.never || f.permanent_marker || f.permanent_code || f.permanent_sqlstate || f.permanent_class

abbrev may_pass : Findings → Bool
may_pass f =
    f.transient_marker || f.transient_code || f.transient_sqlstate || f.fetch_aborted || f.deadlock

unfoldable pub classify : Findings → Verdict
classify f =
    if rules_out f
    then permanent
    else (if f.permanent_type then permanent else (if may_pass f then transient else unknown))
