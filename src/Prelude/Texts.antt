-- ===== src/Prelude/Texts.antt =====
-- Text as its code points. Case folding and trimming are those of ASCII.
use Prim.Native.Nat.{ℕ, zero, suc, ◌+◌, ◌-◌, ◌*◌, ◌/◌, ◌%◌}
use Prim.Native.Char.{code}
use Prim.Native.String.{String}
use mathlib.Core.Path.{◌≡◌, refl}
use mathlib.Core.Logic.{◌↔◌}
use mathlib.Core.Bool.{Bool, true, false, ◌&&◌, ◌||◌}
use mathlib.Core.Option.{Option, none, some}
use mathlib.Core.List.{List, [], ◌∷◌, ◌++◌, map, reverse}
use native.Mathlib.Omega.{arith}
use lakefed_ingest.Prelude.Tests.{ltb, leb, ◌==◌, if◌then◌else◌}

abbrev pub Text : Type 0
Text = List ℕ

abbrev pub codes : String → Text
codes String.[] = []
codes (String.◌∷◌ c s) = code c ∷ codes s

unfoldable pub text_eq : Text → Text → Bool
text_eq [] [] = true
text_eq [] (y ∷ ys) = false
text_eq (x ∷ xs) [] = false
text_eq (x ∷ xs) (y ∷ ys) = x == y && text_eq xs ys

pub text_eq_iff : (s t : Text) → (text_eq s t ≡ true) ↔ (s ≡ t)
unfolding text_eq
text_eq_iff [] [] = ground arith
text_eq_iff [] (y ∷ ys) = ground arith
text_eq_iff (x ∷ xs) [] = ground arith
text_eq_iff (x ∷ xs) (y ∷ ys) = ground (arith, text_eq_iff xs ys)

pub text_eq_refl : (s : Text) → text_eq s s ≡ true
text_eq_refl s = (text_eq_iff s s).1 refl

-- `str.lower`
unfoldable pub lower : Text → Text
lower = map (λ c. if leb b'A' c && leb c b'Z' then c + 32 else c)

unfoldable pub is_space : ℕ → Bool
is_space c = (leb 9 c && leb c 13) || (leb 28 c && leb c 32)

lstrip_by : (ℕ → Bool) → Text → Text
lstrip_by drops [] = []
lstrip_by drops (c ∷ s) = if drops c then lstrip_by drops s else c ∷ s

strip_by : (ℕ → Bool) → Text → Text
unfolding lstrip_by
strip_by drops s = reverse (lstrip_by drops (reverse (lstrip_by drops s)))

-- `str.strip()`
unfoldable pub strip : Text → Text
unfolding strip_by is_space
strip = strip_by is_space

-- `str.strip(" ")`
unfoldable pub strip_spaces : Text → Text
unfolding strip_by
strip_spaces = strip_by (λ c. c == b' ')

-- `str.split(",")`: the part read so far, reversed, and the rest.
split_from : Text → Text → List Text
split_from part [] = reverse part ∷ []
split_from part (c ∷ s) =
    if c == b',' then reverse part ∷ split_from [] s else split_from (c ∷ part) s

unfoldable pub split_commas : Text → List Text
unfolding split_from
split_commas s = split_from [] s

-- `sep.join(parts)`
unfoldable pub join : Text → List Text → Text
join sep [] = []
join sep (p ∷ []) = p
join sep (p ∷ q ∷ ps) = p ++ sep ++ join sep (q ∷ ps)

-- The decimal digits of `n`, in front of `rest`; the fuel `n` is enough, as a digit is dropped a round.
decimal_from : ℕ → ℕ → Text → Text
decimal_from zero n rest = (b'0' + n % 10) ∷ rest
decimal_from (suc fuel) n rest =
    let more = decimal_from fuel (n / 10) ((b'0' + n % 10) ∷ rest) in
    if ltb n 10 then (b'0' + n) ∷ rest else more

-- `str(n)`
unfoldable pub decimal : ℕ → Text
unfolding decimal_from
decimal n = decimal_from n n []

digits_value : ℕ → Text → Option ℕ
digits_value acc [] = some acc
digits_value acc (c ∷ s) =
    let more = digits_value (acc * 10 + (c - b'0')) s in
    if leb b'0' c && leb c b'9' then more else none

-- `int(text)` for text without a sign or underscores; `none` is the ValueError.
unfoldable pub int_of_text : Text → Option ℕ
unfolding digits_value strip
int_of_text s = elim (strip s) [ [] ↦ none | c ∷ t ↦ digits_value 0 (c ∷ t) ]

-- The truth value of a text that may be absent: `if text:`
abbrev pub is_truthy : Option Text → Bool
is_truthy none = false
is_truthy (some []) = false
is_truthy (some (c ∷ s)) = true

-- `value or default`
abbrev pub or_text : Option Text → Text → Text
or_text none d = d
or_text (some []) d = d
or_text (some (c ∷ s)) d = c ∷ s

-- `t in texts`
unfoldable pub text_mem : Text → List Text → Bool
text_mem t [] = false
text_mem t (s ∷ ss) = text_eq s t || text_mem t ss

-- `a == b` of values that may be None.
abbrev pub option_text_eq : Option Text → Option Text → Bool
option_text_eq none none = true
option_text_eq none (some t) = false
option_text_eq (some s) none = false
option_text_eq (some s) (some t) = text_eq s t
