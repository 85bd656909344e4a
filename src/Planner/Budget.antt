-- ===== src/Planner/Budget.antt =====
-- planner.apply_seed_budget: at most so many seeds in one run. `id(p)` of a plan is its place in the list.
pub mod Bounds
use lakefed_ingest.Prelude.{
  ℕ, zero, suc, ◌+◌, Option, none, some, Bool, true, false, not, ◌&&◌, ◌||◌, List, [], ◌∷◌, map,
  codes, text_eq, if◌then◌else◌, leb, ◌==◌, any, filter_by, length, take, sort_by,
}
use lakefed_ingest.Planner.Plans.{Plan, Route, seed, cursor_seed}

abbrev pub is_seed_route : Route → Bool
is_seed_route seed = true
is_seed_route cursor_seed = true
is_seed_route _ = false

abbrev pub Numbered : Type 0
Numbered = ℕ × Plan

unfoldable pub number : ℕ → List Plan → List Numbered
number n [] = []
number n (p ∷ ps) = (n, p) ∷ number (suc n) ps

abbrev pub is_seed : Numbered → Bool
is_seed p = is_seed_route (p.1).route

-- `(p.get("cp") or {}).get("status") == "failed"`
abbrev pub has_failed : Numbered → Bool
has_failed p = elim (p.1).cp [ none ↦ false | some cp ↦ text_eq cp.status (codes "failed") ]

abbrev pub unnumbered : List Numbered → List Plan
unnumbered ps = map (λ p. p.1) ps

-- The seeds that run: the first `max_seeds`, those whose last attempt failed at the end.
unfoldable pub chosen : List Numbered → ℕ → List ℕ
chosen seeds max_seeds =
    map (λ p. p.0) (take max_seeds (sort_by (λ p q. not (has_failed p) && has_failed q) seeds))

abbrev pub is_chosen : List ℕ → Numbered → Bool
is_chosen run p = any (λ n. n == p.0) run

unfoldable pub apply_seed_budget : List Plan → ℕ → List Plan × List Plan
unfolding number chosen
apply_seed_budget plans max_seeds =
    let numbered = number 0 plans in
    let seeds = filter_by is_seed numbered in
    let run = chosen seeds max_seeds in
    if max_seeds == 0 || leb (length seeds) max_seeds then (plans, []) else (
      unnumbered (filter_by (λ p. not (is_seed p) || is_chosen run p) numbered),
      unnumbered (filter_by (λ p. not (is_chosen run p)) seeds),
    )
