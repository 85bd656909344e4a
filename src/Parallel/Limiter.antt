-- ===== src/Parallel/Limiter.antt =====
-- parallel.SourceLimiter: permits per source. A `Counter` of sources is the list of the names it counts,
-- so `need.items()` runs over the names and each name's count in the list.
use lakefed_ingest.Prelude.{
  ℕ, zero, suc, ◌+◌, ◌-◌, Bool, true, false, not, ◌&&◌, ◌||◌, List, [], ◌∷◌, ◌++◌, Text, text_eq,
  text_mem, if◌then◌else◌, leb, ◌==◌, all, any, filter_by,
}

-- `min(a, b)` and `max(a, b)`
abbrev pub smaller : ℕ → ℕ → ℕ
smaller a b = if leb a b then a else b

abbrev pub larger : ℕ → ℕ → ℕ
larger a b = if leb a b then b else a

-- `need[source]`
unfoldable pub times : Text → List Text → ℕ
times source [] = 0
times source (s ∷ ss) = (if text_eq source s then 1 else 0) + times source ss

-- The limiter, and beside it the requests whose `with` block is running, in the order of their admission.
pub record Limiter : Type 0 where
  pub limits : Text → ℕ
  pub in_use : Text → ℕ
  pub waiting : List (List Text)
  pub running : List (List Text)
  pub peak : Text → ℕ

-- `SourceLimiter(limits)`; a source that `limits` has no entry for is 0: not capped.
unfoldable pub new_limiter : (Text → ℕ) → Limiter
new_limiter limits = record {
  limits = limits;
  in_use = λ source. 0;
  waiting = [];
  running = [];
  peak = λ source. 0;
}

abbrev pub fits_source : Limiter → List Text → Text → Bool
fits_source l need source =
    l.limits source == 0
    || leb (l.in_use source + smaller (times source need) (l.limits source)) (l.limits source)

-- `_fits`
unfoldable pub fits : Limiter → List Text → Bool
fits l need = all (fits_source l need) need

-- What one admission records.
unfoldable pub admitted : List Text → Limiter → Limiter
unfolding times
admitted need l = record l {
  in_use = λ source. l.in_use source + times source need;
  peak = λ source.
      if text_mem source need
      then larger (l.peak source) (l.in_use source + times source need)
      else l.peak source;
  running = l.running ++ need ∷ [];
}

unfoldable pub is_free : List Text → List Text → Bool
is_free blocked need = not (any (λ source. text_mem source blocked) need)

-- The loop of `_admit` over the waiting requests; `waiting` of the result is what it left.
unfoldable pub admit_from : List Text → List (List Text) → Limiter → Limiter
unfolding fits admitted is_free
admit_from blocked [] l = record l { waiting = [] }
admit_from blocked (need ∷ rest) l =
    let passes = is_free blocked need && fits l need in
    let after =
      admit_from (if passes then blocked else blocked ++ need) rest
        (if passes then admitted need l else l) in
    if passes then after else record after { waiting = need ∷ after.waiting }

-- `_admit`
unfoldable pub admit : Limiter → Limiter
unfolding admit_from
admit l = admit_from [] l.waiting l

abbrev pub is_empty : List Text → Bool
is_empty [] = true
is_empty (s ∷ ss) = false

unfoldable pub ask : List Text → Limiter → Limiter
unfolding admit
ask need l = if is_empty need then l else admit (record l { waiting = l.waiting ++ need ∷ [] })

-- Entering `hold(sources)`: an empty name counts for nothing, and a request for no source passes at once.
unfoldable pub enter : List Text → Limiter → Limiter
unfolding ask
enter sources l = ask (filter_by (λ s. not (text_eq s [])) sources) l

unfoldable pub nth : ℕ → List (List Text) → List Text
nth i [] = []
nth zero (x ∷ xs) = x
nth (suc i) (x ∷ xs) = nth i xs

unfoldable pub remove_nth : ℕ → List (List Text) → List (List Text)
remove_nth i [] = []
remove_nth zero (x ∷ xs) = xs
remove_nth (suc i) (x ∷ xs) = x ∷ remove_nth i xs

-- Leaving `hold`: the request that is `i`-th of those running gives its permits back.
unfoldable pub leave : ℕ → Limiter → Limiter
unfolding admit nth remove_nth times
leave i l = admit (record l {
  in_use = λ source. l.in_use source - times source (nth i l.running);
  running = remove_nth i l.running;
})

-- `set_limit`
unfoldable pub set_limit : Text → ℕ → Limiter → Limiter
unfolding admit
set_limit source n l =
    admit (record l { limits = λ s. if text_eq s source then larger 1 n else l.limits s })

pub data Move : Type 0 where
  entering : List Text → Move
  leaving : ℕ → Move
  setting : Text → ℕ → Move

unfoldable pub move : Move → Limiter → Limiter
unfolding enter leave set_limit
move (entering sources) l = enter sources l
move (leaving i) l = leave i l
move (setting source n) l = set_limit source n l

-- What the run's threads do, in the order in which they hold the condition.
unfoldable pub moves : List Move → Limiter → Limiter
unfolding move
moves [] l = l
moves (m ∷ ms) l = moves ms (move m l)
