-- ===== src/Parallel/Served.antt =====
-- parallel.SourceLimiter: the requests that wait, over sequences of moves.
use lakefed_ingest.Prelude.{
  ℕ, ◌-◌, ◌≤◌, true, false, not, List, [], ◌∷◌, ◌++◌, Text, text_eq, text_mem, if◌then◌else◌, all,
  any, ◌≡◌, refl, arith, ap, subst, ◌∙◌, filter_by, le→leb,
}
use lakefed_ingest.Parallel.Limiter.{
  Limiter, new_limiter, times, fits, fits_source, smaller, admitted, is_free, admit_from, admit,
  ask, enter, leave, set_limit, Move, entering, nth, remove_nth, larger, leaving, setting, move,
  moves,
}

-- With no permit in use every request fits.
fits-idle-from :
    (l : Limiter) (need rest : List Text)
    → ((s : Text) → l.in_use s ≡ 0)
    → all (fits_source l need) rest ≡ true
fits-idle-from l need [] h = refl
fits-idle-from l need (s ∷ ss) h = ground (
  arith,
  fits-idle-from l need ss h,
  h s,
  le→leb (smaller (times s need) (l.limits s)) (l.limits s),
)

fits-idle : (l : Limiter) (need : List Text) → ((s : Text) → l.in_use s ≡ 0) → fits l need ≡ true
unfolding fits
fits-idle l need h = fits-idle-from l need need h

admit_from-grows :
    (blocked : List Text) (ws : List (List Text)) (l : Limiter) (s : Text)
    → l.in_use s ≤ (admit_from blocked ws l).in_use s
unfolding admit_from admitted
admit_from-grows blocked [] l s = omega arith
admit_from-grows blocked (need ∷ rest) l s = ground (
  arith,
  admit_from-grows blocked rest (admitted need l) s,
  admit_from-grows (blocked ++ need) rest l s,
)

none-blocked : (need : List Text) → any (λ source. text_mem source []) need ≡ false
unfolding text_mem
none-blocked [] = refl
none-blocked (s ∷ ss) = none-blocked ss

is_free-none : (need : List Text) → is_free [] need ≡ true
unfolding is_free
is_free-none need = ground (arith, none-blocked need)

admit_from-passing :
    (blocked need : List Text) (rest : List (List Text)) (l : Limiter)
    → is_free blocked need ≡ true
    → fits l need ≡ true
    → admit_from blocked (need ∷ rest) l ≡ admit_from blocked rest (admitted need l)
unfolding admit_from
admit_from-passing blocked need rest l h k = ground arith

-- Whatever waits after an admission, not all permits are free.
admit_from-served :
    (ws : List (List Text)) (l : Limiter)
    → ((s : Text) → (admit_from [] ws l).in_use s ≡ 0)
    → (admit_from [] ws l).waiting ≡ []
unfolding admit_from
admit_from-served [] l h = refl
admit_from-served (need ∷ rest) l h =
    let idle : (s : Text) → l.in_use s ≡ 0 =
      λ s. ground (arith, h s, admit_from-grows [] (need ∷ rest) l s) in
    let passing = admit_from-passing [] need rest l (is_free-none need) (fits-idle l need idle) in
    ap (λ x. x.waiting) passing
    ∙ admit_from-served rest (admitted need l) (λ s. subst (λ x. x.in_use s ≡ 0) passing (h s))

-- Nothing waits while no permit is in use.
pub IsServed : Limiter → Type 0
IsServed l = ((s : Text) → l.in_use s ≡ 0) → l.waiting ≡ []

admit-IsServed : (l : Limiter) → IsServed (admit l)
unfolding admit IsServed
admit-IsServed l h = admit_from-served l.waiting l h

ask-IsServed : (need : List Text) (l : Limiter) → IsServed l → IsServed (ask need l)
unfolding ask
ask-IsServed [] l h = h
ask-IsServed (s ∷ ss) l h = admit-IsServed (record l { waiting = l.waiting ++ (s ∷ ss) ∷ [] })

move-IsServed : (m : Move) (l : Limiter) → IsServed l → IsServed (move m l)
unfolding move enter leave set_limit
move-IsServed (entering sources) l h =
    ask-IsServed (filter_by (λ s. not (text_eq s [])) sources) l h
move-IsServed (leaving i) l h = admit-IsServed (record l {
  in_use = λ source. l.in_use source - times source (nth i l.running);
  running = remove_nth i l.running;
})
move-IsServed (setting source n) l h =
    admit-IsServed (record l { limits = λ s. if text_eq s source then larger 1 n else l.limits s })

moves-IsServed-from : (ms : List Move) (l : Limiter) → IsServed l → IsServed (moves ms l)
unfolding moves
moves-IsServed-from [] l h = h
moves-IsServed-from (m ∷ ms) l h = moves-IsServed-from ms (move m l) (move-IsServed m l h)

-- No request is left waiting for nothing: after any entries, exits and changes of limits, whenever no permit of
-- any source is in use, no request waits, however large a request is against its source's limit.
pub moves-IsServed : (limits : Text → ℕ) (ms : List Move) → IsServed (moves ms (new_limiter limits))
unfolding IsServed new_limiter
moves-IsServed limits ms = moves-IsServed-from ms (new_limiter limits) (λ h. refl)
