-- ===== src/Parallel/Capped.antt =====
-- parallel.SourceLimiter: the permits in use, over sequences of moves.
use lakefed_ingest.Prelude.{
  ℕ, zero, suc, ◌+◌, ◌-◌, ◌≤◌, ◌<◌, Bool, true, false, not, ◌&&◌, List, [], ◌∷◌, ◌++◌, Text,
  text_eq, if◌then◌else◌, ◌==◌, all, ◌≡◌, refl, arith, subst, filter_by, leb→le, All, text_eq_iff,
  Bool-cases, inl, inr, sym,
}
use lakefed_ingest.Parallel.Limiter.{
  Limiter, new_limiter, times, fits, fits_source, smaller, admitted, is_free, admit_from, admit,
  ask, enter, leave, Move, entering, nth, remove_nth, leaving, setting, move, moves,
}

-- The permits that requests hold of a source together, and how many of them hold one.
unfoldable pub total : Text → List (List Text) → ℕ
total s [] = 0
total s (need ∷ rest) = times s need + total s rest

unfoldable pub holders : Text → List (List Text) → ℕ
holders s [] = 0
holders s (need ∷ rest) = (if times s need == 0 then 0 else 1) + holders s rest

total-snoc :
    (s : Text) (need : List Text) (rs : List (List Text))
    → total s (rs ++ need ∷ []) ≡ total s rs + times s need
unfolding total
total-snoc s need [] = omega arith
total-snoc s need (r ∷ rs) = omega (arith, total-snoc s need rs)

holders-snoc :
    (s : Text) (need : List Text) (rs : List (List Text))
    → holders s (rs ++ need ∷ []) ≡ holders s rs + (if times s need == 0 then 0 else 1)
unfolding holders
holders-snoc s need [] = ground arith
holders-snoc s need (r ∷ rs) = ground (arith, holders-snoc s need rs)

holders-idle : (s : Text) (rs : List (List Text)) → total s rs ≡ 0 → holders s rs ≡ 0
unfolding total holders
holders-idle s [] h = refl
holders-idle s (r ∷ rs) h = ground (arith, holders-idle s rs (omega arith))

total-remove :
    (s : Text) (i : ℕ) (rs : List (List Text))
    → total s (remove_nth i rs) + times s (nth i rs) ≡ total s rs
unfolding total remove_nth nth times
total-remove s i [] = ground arith
total-remove s zero (r ∷ rs) = omega arith
total-remove s (suc i) (r ∷ rs) = omega (arith, total-remove s i rs)

holders-remove :
    (s : Text) (i : ℕ) (rs : List (List Text)) → holders s (remove_nth i rs) ≤ holders s rs
unfolding holders remove_nth
holders-remove s i [] = omega arith
holders-remove s zero (r ∷ rs) = omega arith
holders-remove s (suc i) (r ∷ rs) = omega (arith, holders-remove s i rs)

-- A request that fits, fits at each source that it names.
fits-at-from :
    (l : Limiter) (need rest : List Text) (s : Text)
    → all (fits_source l need) rest ≡ true
    → 0 < times s rest
    → fits_source l need s ≡ true
unfolding times
fits-at-from l need [] s h k = absurd (omega arith)
fits-at-from l need (t ∷ ts) s h k = elim (Bool-cases (text_eq s t)) [
  | inl e ↦ subst (λ x. fits_source l need x ≡ true) (sym ((text_eq_iff s t).0 e)) (ground arith)
  | inr e ↦ fits-at-from l need ts s (ground arith) (ground arith)
]

fits-at :
    (l : Limiter) (need : List Text) (s : Text)
    → fits l need ≡ true
    → 0 < times s need
    → fits_source l need s ≡ true
unfolding fits
fits-at l need s h k = fits-at-from l need need s h k

-- What holds of a limiter whose limits do not change.
pub record IsWithin (l : Limiter) : Type 0 where
  pub accounted : (s : Text) → l.in_use s ≡ total s l.running
  pub capped : (s : Text) → 0 < l.limits s → l.limits s < l.in_use s → holders s l.running ≤ 1

admitted-IsWithin :
    (l : Limiter) (need : List Text) → fits l need ≡ true → IsWithin l → IsWithin (admitted need l)
unfolding admitted
admitted-IsWithin l need fit h = record {
  accounted = λ s. ground (arith, h.accounted s, total-snoc s need l.running);
  capped = λ s k over. ground (
    arith,
    h.capped s k,
    h.accounted s,
    holders-snoc s need l.running,
    holders-idle s l.running,
    fits-at l need s fit,
    leb→le (l.in_use s + smaller (times s need) (l.limits s)) (l.limits s),
  );
}

chosen-IsWithin :
    (b : Bool) (l : Limiter) (need : List Text)
    → (b ≡ true → fits l need ≡ true)
    → IsWithin l
    → IsWithin (if b then admitted need l else l)
chosen-IsWithin true l need fit h = admitted-IsWithin l need (fit refl) h
chosen-IsWithin false l need fit h = h

waiting-IsWithin :
    (b : Bool) (l : Limiter) (need : List Text)
    → IsWithin l
    → IsWithin (if b then l else record l { waiting = need ∷ l.waiting })
waiting-IsWithin true l need h = h
waiting-IsWithin false l need h = record { accounted = h.accounted; capped = h.capped }

admit_from-IsWithin :
    (blocked : List Text) (ws : List (List Text)) (l : Limiter)
    → IsWithin l
    → IsWithin (admit_from blocked ws l)
unfolding admit_from
admit_from-IsWithin blocked [] l h = record { accounted = h.accounted; capped = h.capped }
admit_from-IsWithin blocked (need ∷ rest) l h =
    let passes = is_free blocked need && fits l need in
    let chosen = if passes then admitted need l else l in
    let blocked' = if passes then blocked else blocked ++ need in
    waiting-IsWithin passes (admit_from blocked' rest chosen) need (
      admit_from-IsWithin blocked' rest chosen
        (chosen-IsWithin passes l need (λ e. ground arith) h))

admit-IsWithin : (l : Limiter) → IsWithin l → IsWithin (admit l)
unfolding admit
admit-IsWithin l h = admit_from-IsWithin [] l.waiting l h

ask-IsWithin : (need : List Text) (l : Limiter) → IsWithin l → IsWithin (ask need l)
unfolding ask
ask-IsWithin [] l h = h
ask-IsWithin (s ∷ ss) l h =
    admit-IsWithin (record l { waiting = l.waiting ++ (s ∷ ss) ∷ [] })
      (record { accounted = h.accounted; capped = h.capped })

leave-IsWithin : (i : ℕ) (l : Limiter) → IsWithin l → IsWithin (leave i l)
unfolding leave
leave-IsWithin i l h =
    admit-IsWithin
      (record l {
        in_use = λ source. l.in_use source - times source (nth i l.running);
        running = remove_nth i l.running;
      })
      (record {
        accounted = λ s. omega (arith, h.accounted s, total-remove s i l.running);
        capped =
            λ s k over. omega (arith, h.capped s k (omega arith), holders-remove s i l.running);
      })

-- A move that changes no limit.
pub data IsHold : Move → Type 0 where
  enters : (sources : List Text) → IsHold (entering sources)
  leaves : (i : ℕ) → IsHold (leaving i)

move-IsWithin : (m : Move) (l : Limiter) → IsHold m → IsWithin l → IsWithin (move m l)
unfolding move enter
move-IsWithin (entering sources) l k h =
    ask-IsWithin (filter_by (λ s. not (text_eq s [])) sources) l h
move-IsWithin (leaving i) l k h = leave-IsWithin i l h
move-IsWithin (setting source n) l k h = elim k [ ]

moves-IsWithin-from :
    (ms : List Move) (l : Limiter) → All IsHold ms → IsWithin l → IsWithin (moves ms l)
unfolding moves
moves-IsWithin-from [] l k h = h
moves-IsWithin-from (m ∷ ms) l k h = moves-IsWithin-from ms (move m l) k.1 (move-IsWithin m l k.0 h)

-- While the limits stay as they were set, after any entries and exits: the permits in use of a source are those
-- that its running requests asked for, and they are within its limit, or one request alone holds them.
pub moves-IsWithin :
    (limits : Text → ℕ) (ms : List Move) → All IsHold ms → IsWithin (moves ms (new_limiter limits))
unfolding new_limiter total
moves-IsWithin limits ms h =
    moves-IsWithin-from ms (new_limiter limits) h
      (record { accounted = λ s. refl; capped = λ s k over. absurd (omega arith) })
