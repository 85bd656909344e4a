-- ===== src/Planner/Budget/Bounds.antt =====
-- planner.apply_seed_budget: the plans kept and deferred, and their number.
use lakefed_ingest.Prelude.{
  ℕ, zero, suc, ◌+◌, ◌≤◌, ◌<◌, Bool, true, false, not, ◌&&◌, ◌||◌, List, [], ◌∷◌, map,
  if◌then◌else◌, leb, ◌==◌, filter_by, length, take, sort_by, tally, arith, ◌≡◌, refl, leb→le,
}
use lakefed_ingest.Planner.Plans.{Plan}
use lakefed_ingest.Planner.Budget.{
  is_seed_route, Numbered, number, is_seed, has_failed, unnumbered, chosen, is_chosen,
  apply_seed_budget,
}

abbrev pub seed_plan : Plan → Bool
seed_plan p = is_seed_route p.route

tally-number :
    (p : Plan → Bool) (n : ℕ) (ps : List Plan) → tally p (unnumbered (number n ps)) ≡ tally p ps
unfolding number
tally-number p n [] = refl
tally-number p n (x ∷ xs) = omega (arith, tally-number p (suc n) xs)

-- What is kept and what is deferred, over any numbered plans.
tally-split :
    (p : Plan → Bool) (run : List ℕ) (ps : List Numbered)
    → tally p (unnumbered (filter_by (λ q. not (is_seed q) || is_chosen run q) ps))
        + tally p (unnumbered (filter_by (λ q. not (is_chosen run q)) (filter_by is_seed ps)))
      ≡ tally p (unnumbered ps)
tally-split p run [] = refl
tally-split p run (q ∷ qs) = ground (arith, tally-split p run qs)

deferred-seeds :
    (run : List ℕ) (ps : List Numbered)
    → tally seed_plan (unnumbered (filter_by (λ q. not (is_chosen run q)) (filter_by is_seed ps)))
      ≡ length (unnumbered (filter_by (λ q. not (is_chosen run q)) (filter_by is_seed ps)))
deferred-seeds run [] = refl
deferred-seeds run (q ∷ qs) = ground (arith, deferred-seeds run qs)

-- A number stands once among numbered plans.
tally-number-once :
    (i n : ℕ) (ps : List Plan) → tally (λ q. i == q.0) (number n ps) ≤ (if leb n i then 1 else 0)
unfolding number
tally-number-once i n [] = omega arith
tally-number-once i n (x ∷ xs) = ground (arith, tally-number-once i (suc n) xs)

tally-chosen-cons :
    (i : ℕ) (run : List ℕ) (ps : List Numbered)
    → tally (is_chosen (i ∷ run)) ps ≤ tally (λ q. i == q.0) ps + tally (is_chosen run) ps
tally-chosen-cons i run [] = omega arith
tally-chosen-cons i run (q ∷ qs) = ground (arith, tally-chosen-cons i run qs)

tally-never : (ps : List Numbered) → tally (is_chosen []) ps ≡ 0
tally-never [] = refl
tally-never (q ∷ qs) = omega (arith, tally-never qs)

tally-chosen : (run : List ℕ) (ps : List Plan) → tally (is_chosen run) (number 0 ps) ≤ length run
tally-chosen [] ps = omega (arith, tally-never (number 0 ps))
tally-chosen (i ∷ run) ps =
    ground
      (arith, tally-chosen-cons i run (number 0 ps), tally-chosen run ps, tally-number-once i 0 ps)

kept-seeds :
    (run : List ℕ) (ps : List Numbered)
    → tally seed_plan (unnumbered (filter_by (λ q. not (is_seed q) || is_chosen run q) ps))
      ≤ tally (is_chosen run) ps
kept-seeds run [] = omega arith
kept-seeds run (q ∷ qs) = ground (arith, kept-seeds run qs)

length-chosen : (seeds : List Numbered) (n : ℕ) → length (chosen seeds n) ≤ n
unfolding chosen
length-chosen seeds n = taken n (sort_by (λ p q. not (has_failed p) && has_failed q) seeds)
  where
    taken : (n : ℕ) (ps : List Numbered) → length (map (λ p. p.0) (take n ps)) ≤ n
    taken zero ps = omega arith
    taken (suc n) [] = omega arith
    taken (suc n) (p ∷ ps) = omega (arith, taken n ps)

-- What the budget promises of the plans it is given.
pub record IsBudget (plans : List Plan) (max_seeds : ℕ) (made : List Plan × List Plan)
    : Type 0 where
  pub whole : (p : Plan → Bool) → tally p (made.0) + tally p (made.1) ≡ tally p plans
  pub deferred : tally seed_plan (made.1) ≡ length (made.1)
  pub bounded : 0 < max_seeds → tally seed_plan (made.0) ≤ max_seeds

length-seeds :
    (n : ℕ) (ps : List Plan) → length (filter_by is_seed (number n ps)) ≡ tally seed_plan ps
unfolding number
length-seeds n [] = refl
length-seeds n (p ∷ ps) = ground (arith, length-seeds (suc n) ps)

either-IsBudget :
    (b : Bool) (plans : List Plan) (n : ℕ) (p q : List Plan × List Plan)
    → (b ≡ true → IsBudget plans n p)
    → IsBudget plans n q
    → IsBudget plans n (if b then p else q)
either-IsBudget true plans n p q h k = h refl
either-IsBudget false plans n p q h k = k

-- The plans kept and those deferred are the plans, each once; only seeds are deferred; and with a limit, no more
-- than `max_seeds` seeds are kept.
pub apply_seed_budget-IsBudget :
    (plans : List Plan) (max_seeds : ℕ)
    → IsBudget plans max_seeds (apply_seed_budget plans max_seeds)
unfolding apply_seed_budget
apply_seed_budget-IsBudget plans max_seeds =
    let numbered = number 0 plans in
    let seeds = filter_by is_seed numbered in
    let run = chosen seeds max_seeds in
    either-IsBudget (max_seeds == 0 || leb (length seeds) max_seeds) plans max_seeds (plans, [])
      (
        unnumbered (filter_by (λ p. not (is_seed p) || is_chosen run p) numbered),
        unnumbered (filter_by (λ p. not (is_chosen run p)) seeds),
      )
      (λ e. record {
        whole = λ p. omega arith;
        deferred = refl;
        bounded = λ h. ground (arith, length-seeds 0 plans, leb→le (length seeds) max_seeds);
      })
      (record {
        whole = λ p. omega (arith, tally-split p run numbered, tally-number p 0 plans);
        deferred = deferred-seeds run numbered;
        bounded = λ h.
            omega (
              arith,
              kept-seeds run numbered,
              tally-chosen run plans,
              length-chosen seeds max_seeds,
            );
      })
