-- ===== src/Retry/Limits.antt =====
-- table_retry.RetryPolicy: the retries granted, over sequences of calls.
use lakefed_ingest.Prelude.{
  ℕ, suc, ◌+◌, ◌≤◌, ◌<◌, Option, none, some, Bool, true, false, ◌||◌, List, [], ◌∷◌, ◌++◌, Text,
  text_eq, text_mem, if◌then◌else◌, ltb, ◌==◌, ◌≡◌, arith, text_eq_iff, le→leb,
}
use lakefed_ingest.Retry.{Verdict}
use lakefed_ingest.Retry.Policy.{
  Policy, new_policy, count_failure, ended, without, held_source, retry_over, is_permanent,
  is_unknown, decide, claim, finished,
}

-- What holds of a policy between two calls of its methods.
pub record Inv (p : Policy) : Type 0 where
  pub spent : p.granted + p.left ≡ p.budget
  pub reached : (s : Text) → text_mem s p.stopped ≡ true → p.per_source ≤ p.failed_retries s
  pub stops :
      (s : Text)
      → 0 < p.per_source
      → p.per_source ≤ p.failed_retries s
      → text_mem s p.stopped ≡ true

text_mem-snoc :
    (s t : Text) (l : List Text) → text_mem s (l ++ t ∷ []) ≡ (text_mem s l || text_eq t s)
unfolding text_mem
text_mem-snoc s t [] = ground arith
text_mem-snoc s t (x ∷ l) = ground (arith, text_mem-snoc s t l)

new_policy-Inv : (retries budget per_source : ℕ) → Inv (new_policy retries budget per_source)
unfolding new_policy text_mem
new_policy-Inv retries budget per_source = record {
  spent = omega arith;
  reached = λ s h. absurd (ground arith);
  stops = λ s h k. absurd (omega arith);
}

count_failure-Inv : (source : Text) (p : Policy) → Inv p → Inv (count_failure source p)
unfolding count_failure
count_failure-Inv source p h = record {
  spent = ground (arith, h.spent);
  reached = λ s k. ground (
    arith,
    h.reached s,
    h.reached source,
    text_mem-snoc s source p.stopped,
    text_eq_iff s source,
    text_eq_iff source s,
  );
  stops = λ s k l. ground (
    arith,
    h.stops s,
    h.stops source,
    text_mem-snoc s source p.stopped,
    text_eq_iff s source,
    text_eq_iff source s,
  );
}

-- `success` is a clause apart so that the caller's Boolean need not be split.
ended-Inv :
    (key : ℕ) (success : Bool) (o : Option Text) (p : Policy) → Inv p → Inv (ended key success o p)
unfolding ended
ended-Inv key success none p h = h
ended-Inv key true (some source) p h = record {
  spent = h.spent;
  reached = λ s k. h.reached s k;
  stops = λ s k l. h.stops s k l;
}
ended-Inv key false (some source) p h =
    count_failure-Inv source (record p { held = without key p.held })
      (record { spent = h.spent; reached = λ s k. h.reached s k; stops = λ s k l. h.stops s k l })

retry_over-Inv : (key : ℕ) (success : Bool) (p : Policy) → Inv p → Inv (retry_over key success p)
unfolding retry_over
retry_over-Inv key success p h = ended-Inv key success (held_source key p.held) p h

decide-Inv :
    (key : ℕ) (verdict : Verdict) (source class : Text) (attempt : ℕ) (p : Policy)
    → Inv p
    → Inv ((decide key verdict source class attempt p).0)
unfolding decide
decide-Inv key verdict source class attempt p h = record {
  spent = ground (arith, h.spent);
  reached = λ s k. ground (arith, h.reached s);
  stops = λ s k l. ground (arith, h.stops s);
}

if-Inv : (b : Bool) (p q : Policy) → Inv p → Inv q → Inv (if b then p else q)
if-Inv true p q h k = h
if-Inv false p q h k = k

either-Inv : (b : Bool) (p q : Policy × Bool) → Inv (p.0) → Inv (q.0) → Inv ((if b then p else q).0)
either-Inv true p q h k = h
either-Inv false p q h k = k

claim-Inv :
    (key : ℕ) (judged : Option (Verdict × Text)) (class : Text) (attempt : ℕ) (p : Policy)
    → Inv p
    → Inv ((claim key judged class attempt p).0)
unfolding claim
claim-Inv key none class attempt p h = record {
  spent = ground (arith, h.spent);
  reached = λ s k. ground (arith, h.reached s);
  stops = λ s k l. ground (arith, h.stops s);
}
claim-Inv key (some (verdict, source)) class attempt p h =
    let start = if ltb 0 attempt then retry_over key false p else p in
    let counted =
      if-Inv (ltb 0 attempt) (retry_over key false p) p (retry_over-Inv key false p h) h in
    either-Inv (p.retries == 0 || p.budget == 0) (p, false)
      (decide key verdict source class attempt start) h
      (decide-Inv key verdict source class attempt start counted)

finished-Inv :
    (key : ℕ) (success : Bool) (attempt : ℕ) (p : Policy)
    → Inv p
    → Inv (finished key success attempt p)
unfolding finished
finished-Inv key success attempt p h =
    let after = retry_over-Inv key success p h in
    record {
      spent = ground (arith, h.spent, after.spent);
      reached = λ s k. ground (arith, h.reached s, after.reached s);
      stops = λ s k l. ground (arith, h.stops s, after.stops s);
    }

-- A call that a table's thread makes.
pub data Call : Type 0 where
  claiming : ℕ → Option (Verdict × Text) → Text → ℕ → Call
  finishing : ℕ → Bool → ℕ → Call

unfoldable pub perform : Call → Policy → Policy
unfolding claim finished
perform (claiming key judged class attempt) p = (claim key judged class attempt p).0
perform (finishing key success attempt) p = finished key success attempt p

-- The calls of all threads, in the order in which they take the lock.
unfoldable pub perform_all : List Call → Policy → Policy
unfolding perform
perform_all [] p = p
perform_all (c ∷ cs) p = perform_all cs (perform c p)

perform-Inv : (c : Call) (p : Policy) → Inv p → Inv (perform c p)
unfolding perform
perform-Inv (claiming key judged class attempt) p h = claim-Inv key judged class attempt p h
perform-Inv (finishing key success attempt) p h = finished-Inv key success attempt p h

perform_all-Inv : (cs : List Call) (p : Policy) → Inv p → Inv (perform_all cs p)
unfolding perform_all
perform_all-Inv [] p h = h
perform_all-Inv (c ∷ cs) p h = perform_all-Inv cs (perform c p) (perform-Inv c p h)

-- Whatever calls a run's threads make, and in whatever order: the retries granted and those left add up
-- to the budget, a source is stopped only after `per_source` failed retries, and with a positive
-- `per_source` every source that reached that number is stopped.
pub new_policy-perform_all :
    (retries budget per_source : ℕ) (calls : List Call)
    → Inv (perform_all calls (new_policy retries budget per_source))
new_policy-perform_all retries budget per_source calls =
    perform_all-Inv calls (new_policy retries budget per_source)
      (new_policy-Inv retries budget per_source)

-- What a granted retry tells of the error and of the limits; `q` is the state it leaves.
pub record IsGrant (verdict : Verdict) (source : Text) (attempt : ℕ) (p q : Policy) : Type 0 where
  pub can_pass : is_permanent verdict ≡ false
  pub once : is_unknown verdict ≡ true → attempt ≡ 0
  pub under : attempt < p.retries
  pub paid : suc q.left ≡ p.left
  pub counted : q.granted ≡ suc p.granted
  pub going : text_mem source q.stopped ≡ false

decide-IsGrant :
    (key : ℕ) (verdict : Verdict) (source class : Text) (attempt : ℕ) (p : Policy)
    → (decide key verdict source class attempt p).1 ≡ true
    → IsGrant verdict source attempt p ((decide key verdict source class attempt p).0)
unfolding decide
decide-IsGrant key verdict source class attempt p h = record {
  can_pass = ground arith;
  once = ground arith;
  under = ground (arith, le→leb p.retries attempt);
  paid = ground arith;
  counted = ground arith;
  going = ground arith;
}

-- A claim that grants a retry judged the error, which is not permanent, and unknown only at the first
-- attempt; attempts are left, one retry of the budget is spent, and the source is not stopped, the failure
-- of the retry before included.
pub claim-IsGrant :
    (key : ℕ) (verdict : Verdict) (source class : Text) (attempt : ℕ) (p : Policy)
    → (claim key (some (verdict, source)) class attempt p).1 ≡ true
    → IsGrant verdict source attempt
        (if ltb 0 attempt then retry_over key false p else p)
        ((claim key (some (verdict, source)) class attempt p).0)
unfolding claim
claim-IsGrant key verdict source class attempt p h =
    let start = if ltb 0 attempt then retry_over key false p else p in
    let h1 = decide-IsGrant key verdict source class attempt start (ground arith) in
    record {
      can_pass = h1.can_pass;
      once = h1.once;
      under = h1.under;
      paid = ground (arith, h1.paid);
      counted = ground (arith, h1.counted);
      going = ground (arith, h1.going);
    }
