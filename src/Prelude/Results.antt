-- ===== src/Prelude/Results.antt =====
-- A computation that may raise: the value, or what was raised.
use mathlib.Core.Path.{◌≡◌, refl, subst}
use mathlib.Core.Logic.{◌⊎◌, inl, inr}
use native.Mathlib.Omega.{arith}

pub data Result {ℓ κ} (E : Type ℓ) (A : Type κ) : Type (ℓ ⊔ κ) where
  err : E → Result E A
  ok : A → Result E A

infixl 5 ◌>>=◌
abbrev pub ◌>>=◌ {ℓ κ μ} :
    {E : Type ℓ} {A : Type κ} {B : Type μ} → Result E A → (A → Result E B) → Result E B
err raised >>= next = err raised
ok value >>= next = next value

infixl 5 ◌>>◌
abbrev pub ◌>>◌ {ℓ κ μ} :
    {E : Type ℓ} {A : Type κ} {B : Type μ} → Result E A → Result E B → Result E B
first >> second = first >>= λ value. second

pub >>=-eq-ok {ℓ κ μ} :
    {E : Type ℓ} {A : Type κ} {B : Type μ} (first : Result E A) (next : A → Result E B)
    → {out : B} → first >>= next ≡ ok out
    → (value : A) × (first ≡ ok value) × (next value ≡ ok out)
>>=-eq-ok (err raised) next h = ground arith
>>=-eq-ok (ok value) next h = (value, refl, h)

pub Result-cases {ℓ κ} :
    {E : Type ℓ} {A : Type κ} (m : Result E A) → ((a : A) × (m ≡ ok a)) ⊎ ((e : E) × (m ≡ err e))
Result-cases (ok a) = inl (a, refl)
Result-cases (err e) = inr (e, refl)

module _ {ℓ κ} {E : Type ℓ} {A : Type κ} where
  pub ok-injective : {a b : A} → ◌≡◌ {A = Result E A} (ok a) (ok b) → a ≡ b
  ok-injective h = ground arith

  -- What holds of the value, if there is one.
  abbrev pub OnOk {μ} : (A → Type μ) → Result E A → Type μ
  OnOk P (ok a) = P a
  OnOk P (err e) = Unit

  pub OnOk-ok {μ} : (P : A → Type μ) {m : Result E A} {a : A} → m ≡ ok a → OnOk P m → P a
  OnOk-ok P h p = subst (OnOk P) h p

-- A fact about what a bind returns, from the equation for its first part.
pub OnOk-bind {ℓ κ μ ν} :
    {E : Type ℓ} {A : Type κ} {B : Type μ} (Q : B → Type ν) (m : Result E A) (f : A → Result E B)
    → ((a : A) → m ≡ ok a → OnOk Q (f a))
    → OnOk Q (m >>= f)
OnOk-bind Q (ok a) f h = h a refl
OnOk-bind Q (err e) f h = tt

pub OnOk-map {ℓ κ μ ν} :
    {E : Type ℓ} {A : Type κ} (P : A → Type μ) (Q : A → Type ν)
    → ((a : A) → P a → Q a)
    → (m : Result E A) → OnOk P m
    → OnOk Q m
OnOk-map P Q f (ok a) h = f a h
OnOk-map P Q f (err e) h = tt
