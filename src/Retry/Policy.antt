-- ===== src/Retry/Policy.antt =====
-- table_retry.RetryPolicy: the state that a run's threads share, and its two methods. Each runs under
-- the policy's lock, so a run is a sequence of them.
use lakefed_ingest.Prelude.{
  ℕ, suc, ◌-◌, Option, none, some, Bool, true, false, not, ◌&&◌, ◌||◌, List, [], ◌∷◌, ◌++◌, Text,
  text_eq, text_mem, if◌then◌else◌, leb, ltb, ◌==◌,
}
use lakefed_ingest.Retry.{Verdict, permanent, unknown}

-- `held` is the dict as its entries, and `by_class` the Counter as the names that it counts.
pub record Policy : Type 0 where
  pub retries : ℕ
  pub budget : ℕ
  pub per_source : ℕ
  pub left : ℕ
  pub held : List (ℕ × Text)
  pub failed_retries : Text → ℕ
  pub stopped : List Text
  pub by_class : List Text
  pub granted : ℕ
  pub recovered : ℕ
  pub failed_after_retry : ℕ
  pub exhausted : Bool

-- `RetryPolicy(retries, budget, per_source)`
unfoldable pub new_policy : ℕ → ℕ → ℕ → Policy
new_policy retries budget per_source = record {
  retries = retries;
  budget = budget;
  per_source = per_source;
  left = budget;
  held = [];
  failed_retries = λ source. 0;
  stopped = [];
  by_class = [];
  granted = 0;
  recovered = 0;
  failed_after_retry = 0;
  exhausted = false;
}

-- `_held.get(key)`
unfoldable pub held_source : ℕ → List (ℕ × Text) → Option Text
held_source key [] = none
held_source key ((k, source) ∷ rest) = if k == key then some source else held_source key rest

-- `_held` without `key`
unfoldable pub without : ℕ → List (ℕ × Text) → List (ℕ × Text)
without key [] = []
without key ((k, source) ∷ rest) =
    if k == key then without key rest else (k, source) ∷ without key rest

-- The source's count goes up, and it stops at `per_source`.
unfoldable pub count_failure : Text → Policy → Policy
count_failure source p =
    let failures = suc (p.failed_retries source) in
    let counted = record p {
      failed_retries = λ s. if text_eq s source then failures else p.failed_retries s;
    } in
    if leb p.per_source failures && not (text_mem source p.stopped)
    then record counted { stopped = p.stopped ++ source ∷ [] }
    else counted

unfoldable pub ended : ℕ → Bool → Option Text → Policy → Policy
unfolding count_failure
ended key success none p = p
ended key true (some source) p = record p { held = without key p.held }
ended key false (some source) p = count_failure source (record p { held = without key p.held })

-- `_retry_over`: the granted retry of `key` ended.
unfoldable pub retry_over : ℕ → Bool → Policy → Policy
unfolding ended held_source without
retry_over key success p = ended key success (held_source key p.held) p

abbrev pub is_permanent : Verdict → Bool
is_permanent permanent = true
is_permanent _ = false

abbrev pub is_unknown : Verdict → Bool
is_unknown unknown = true
is_unknown _ = false

-- What is granted: one retry out of the budget.
abbrev grant : ℕ → Text → Text → Policy → Policy
grant key source class p = record p {
  left = p.left - 1;
  granted = suc p.granted;
  by_class = class ∷ p.by_class;
  held = (key, source) ∷ without key p.held;
}

-- The tests of `claim` after the failed retry is counted. `true`: a retry is granted.
unfoldable pub decide : ℕ → Verdict → Text → Text → ℕ → Policy → Policy × Bool
unfolding without
decide key verdict source class attempt p =
    if is_permanent verdict || leb p.retries attempt || text_mem source p.stopped
    then (p, false)
    else (if is_unknown verdict && ltb 0 attempt
        then (p, false)
        else (if p.left == 0
            then (record p { exhausted = true }, false)
            else (grant key source class p, true)))

-- The verdict and the source are `none` where the error can't be judged.
unfoldable pub claim : ℕ → Option (Verdict × Text) → Text → ℕ → Policy → Policy × Bool
claim key judged class attempt p =
    if p.retries == 0 || p.budget == 0 then (p, false) else elim judged [
      | none ↦ (p, false)
      | some (verdict, source) ↦
          decide key verdict source class attempt
            (if ltb 0 attempt then retry_over key false p else p)
    ]

unfoldable pub finished : ℕ → Bool → ℕ → Policy → Policy
finished key success attempt p =
    if attempt == 0
    then p
    else (let after = retry_over key success p in
        if success
        then record after { recovered = suc after.recovered }
        else record after { failed_after_retry = suc after.failed_after_retry })
