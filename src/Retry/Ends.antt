-- ===== src/Retry/Ends.antt =====
-- table_retry.with_retries: the rounds of the loop and its reports to the policy.
use lakefed_ingest.Prelude.{
  ℕ, zero, suc, ◌+◌, ◌≤◌, ◌<◌, Option, some, Bool, true, false, ◌≡◌, refl, arith, ◌∙◌, ap, subst,
}
use lakefed_ingest.Retry.Runner.{
  Attempt, returns, asks_again, raises, Ending, returned, raised, Replanned, planned, stopped,
  Outcome, ended, after_replan, after_attempt, loop, run,
}

-- The loop ended with a state in which the counter reads `n`.
pub data EndsAt {S O E : Type 0} (count : S → ℕ) (n : ℕ) : Option (Outcome S O E) → Type 0 where
  ends : (e : Ending O E) (s : S) → count s ≡ n → EndsAt count n (some (ended e s))

-- `asks_again` is answered only below the limit, and the counter is as before.
unfoldable pub AsksBelow : {S O E : Type 0} → (S → ℕ) → ℕ → ℕ → ℕ → Attempt O E × S → Type 0
AsksBelow count n retries attempt (asks_again, s) = (attempt < retries) × (count s ≡ n)
AsksBelow count n retries attempt (returns o, s) = count s ≡ n
AsksBelow count n retries attempt (raises e, s) = count s ≡ n

module _ {S P O E : Type 0} (worker : P → ℕ → S → Attempt O E × S)
    (replan : P → S → Replanned P E × S) (finished : Bool → ℕ → S → S) (count : S → ℕ) (retries : ℕ)
    (worker_asks : (plan : P) (attempt : ℕ) (s : S)
      → AsksBelow count (count s) retries attempt (worker plan attempt s))
    (replan_keeps : (plan : P) (s : S) → count ((replan plan s).1) ≡ count s)
    (finished_counts : (b : Bool) (attempt : ℕ) (s : S)
      → count (finished b attempt s) ≡ suc (count s)) where
  after_replan-EndsAt :
      (rest : P → ℕ → S → Option (Outcome S O E)) (attempt n : ℕ) (r : Replanned P E × S)
      → count (r.1) ≡ n
      → ((plan : P) (s : S) → count s ≡ n → EndsAt count (suc n) (rest plan attempt s))
      → EndsAt count (suc n) (after_replan worker replan finished rest attempt r)
  unfolding after_replan
  after_replan-EndsAt rest attempt n (planned plan, s) h k = k plan s h
  after_replan-EndsAt rest attempt n (stopped e, s) h k =
      ends (raised e) (finished false attempt s) (finished_counts false attempt s ∙ ap suc h)

  after_attempt-EndsAt :
      (rest : P → ℕ → S → Option (Outcome S O E)) (plan : P) (attempt n : ℕ) (r : Attempt O E × S)
      → AsksBelow count n retries attempt r
      → (attempt < retries
          → (plan : P) (s : S) → count s ≡ n
          → EndsAt count (suc n) (rest plan (suc attempt) s))
      → EndsAt count (suc n) (after_attempt worker replan finished rest plan attempt r)
  unfolding after_attempt AsksBelow
  after_attempt-EndsAt rest plan attempt n (returns o, s) h k =
      ends (returned o) (finished true attempt s) (finished_counts true attempt s ∙ ap suc h)
  after_attempt-EndsAt rest plan attempt n (raises e, s) h k =
      ends (raised e) (finished false attempt s) (finished_counts false attempt s ∙ ap suc h)
  after_attempt-EndsAt rest plan attempt n (asks_again, s) (below, h) k =
      after_replan-EndsAt rest (suc attempt) n (replan plan s) (replan_keeps plan s ∙ h) (k below)

  loop-EndsAt :
      (fuel : ℕ) (plan : P) (attempt : ℕ) (s : S) (n : ℕ)
      → count s ≡ n
      → retries < attempt + fuel
      → attempt ≤ retries
      → EndsAt count (suc n) (loop worker replan finished fuel plan attempt s)
  unfolding loop
  loop-EndsAt zero plan attempt s n h below reached = absurd (omega arith)
  loop-EndsAt (suc fuel) plan attempt s n h below reached =
      after_attempt-EndsAt (loop worker replan finished fuel) plan attempt n (worker plan attempt s)
        (subst (λ m. AsksBelow count m retries attempt (worker plan attempt s)) h
          (worker_asks plan attempt s))
        (λ more p t k. loop-EndsAt fuel p (suc attempt) t n k (omega arith) (omega arith))

  -- With a worker that asks for a retry only while attempts are left, `with_retries` ends within one pass per
  -- attempt, and it calls the policy's `finished` exactly once: of all calls of the loop, only that one moves the
  -- counter.
  pub run-EndsAt :
      (plan : P) (s : S) → EndsAt count (suc (count s)) (run worker replan finished retries plan s)
  unfolding run
  run-EndsAt plan s = loop-EndsAt (suc retries) plan 0 s (count s) refl (omega arith) (omega arith)
