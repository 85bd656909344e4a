-- ===== src/Batches/Chunks.antt =====
-- batch_append.even_chunks: the fewest chunks of at most a size, as even as possible.
use native.Mathlib.Nat.{suc-mul, mod-lt, le_of_mul-le-mul_left, lt_of_mul-lt-mul_left}
use native.Mathlib.Omega.{div_any}
use lakefed_ingest.Prelude.{
  ℕ, zero, suc, ◌+◌, ◌-◌, ◌*◌, ◌/◌, ◌%◌, ◌≤◌, ◌<◌, List, [], ◌∷◌, ◌++◌, if◌then◌else◌, leb, ltb,
  ◌≡◌, refl, arith, ap, ltb→lt, ◌∙◌, take, drop, length, All,
}

-- The chunks numbered from `k` on: the first `r` have one item more than `q`.
unfoldable pub chunks_from {ℓ} : {A : Type ℓ} → (q r k left : ℕ) → List A → List (List A)
chunks_from q r k zero items = []
chunks_from q r k (suc left) items =
    let step = q + (if ltb k r then 1 else 0) in
    take step items ∷ chunks_from q r (suc k) left (drop step items)

-- `max(1, size)`
abbrev pub at_least_one : ℕ → ℕ
at_least_one size = if leb size 1 then 1 else size

-- `math.ceil(len(items) / size)`
abbrev pub chunk_count : ℕ → ℕ → ℕ
chunk_count n size = (n + at_least_one size - 1) / at_least_one size

unfoldable pub even_chunks {ℓ} : {A : Type ℓ} → List A → ℕ → List (List A)
unfolding chunks_from
even_chunks [] size = []
even_chunks (x ∷ xs) size =
    let items = x ∷ xs in
    let n = chunk_count (length items) size in
    chunks_from (length items / n) (length items % n) 0 n items

unfoldable pub concat {ℓ} : {A : Type ℓ} → List (List A) → List A
concat [] = []
concat (xs ∷ xss) = xs ++ concat xss

take-drop {ℓ} : {A : Type ℓ} (n : ℕ) (xs : List A) → take n xs ++ drop n xs ≡ xs
take-drop zero xs = refl
take-drop (suc n) [] = refl
take-drop (suc n) (x ∷ xs) = ap (λ ys. x ∷ ys) (take-drop n xs)

length-drop {ℓ} : {A : Type ℓ} (n : ℕ) (xs : List A) → length (drop n xs) ≡ length xs - n
length-drop zero xs = omega arith
length-drop (suc n) [] = omega arith
length-drop (suc n) (x ∷ xs) = omega (arith, length-drop n xs)

length-take {ℓ} : {A : Type ℓ} (n : ℕ) (xs : List A) → length (take n xs) ≤ n
length-take zero xs = omega arith
length-take (suc n) [] = omega arith
length-take (suc n) (x ∷ xs) = omega (arith, length-take n xs)

-- What the chunks from `k` on hold altogether.
room : (q r k left : ℕ) → ℕ
room q r k zero = 0
room q r k (suc left) = q + (if ltb k r then 1 else 0) + room q r (suc k) left

room-eq : (q r k left : ℕ) → r ≤ k + left → room q r k left ≡ left * q + (r - k)
unfolding room
room-eq q r k zero h = omega arith
room-eq q r k (suc left) h = ground (arith, room-eq q r (suc k) left (omega arith), suc-mul left q)

concat-chunks_from {ℓ} :
    {A : Type ℓ} (q r k left : ℕ) (items : List A)
    → length items ≤ room q r k left
    → concat (chunks_from q r k left items) ≡ items
unfolding chunks_from concat room
concat-chunks_from q r k zero [] h = refl
concat-chunks_from q r k zero (x ∷ xs) h = absurd (omega arith)
concat-chunks_from q r k (suc left) items h =
    let step = q + (if ltb k r then 1 else 0) in
    ap (λ ys. take step items ++ ys)
      (concat-chunks_from q r (suc k) left (drop step items)
        (omega (arith, length-drop step items)))
    ∙ take-drop step items

-- No chunk is larger than `q`, or `suc q` while a remainder is left to hand out.
chunks_from-small {ℓ} :
    {A : Type ℓ} (q r k left size : ℕ) (items : List A)
    → (if ltb k r then suc q else q) ≤ size
    → All (λ c. length c ≤ size) (chunks_from q r k left items)
unfolding chunks_from
chunks_from-small q r k zero size items h = tt
chunks_from-small q r k (suc left) size items h =
    let step = q + (if ltb k r then 1 else 0) in
    (
      ground (arith, length-take step items),
      chunks_from-small q r (suc k) left size (drop step items) (ground arith),
    )

chunk_count-pos : (n size : ℕ) → 0 < n → 0 < chunk_count n size
chunk_count-pos n size h = ground arith

chunk_count-covers : (n size : ℕ) → n ≤ chunk_count n size * at_least_one size
chunk_count-covers n size = ground (arith, div_any (n + at_least_one size - 1) (at_least_one size))

-- The even size, and one more where there is a remainder, is at most `size`.
share-small :
    (n k size : ℕ) → 0 < k → n ≤ k * size → (if ltb 0 (n % k) then suc (n / k) else n / k) ≤ size
share-small n k size h b =
    let whole : n / k ≤ size = le_of_mul-le-mul_left (omega (arith, div_any n k)) h in
    let more : 0 < n % k → n / k < size =
      λ e. lt_of_mul-lt-mul_left k (omega (arith, div_any n k)) in
    ground (arith, whole, more, ltb→lt 0 (n % k))

-- The chunks in their order are the items, and no chunk is larger than `size` (taken as 1 below that).
pub even_chunks-concat {ℓ} :
    {A : Type ℓ} (items : List A) (size : ℕ)
    → (concat (even_chunks items size) ≡ items)
      × All (λ c. length c ≤ at_least_one size) (even_chunks items size)
unfolding even_chunks concat
even_chunks-concat [] size = (refl, tt)
even_chunks-concat (x ∷ xs) size =
    let items = x ∷ xs in
    let n = chunk_count (length items) size in
    let q = length items / n in
    let r = length items % n in
    let positive = chunk_count-pos (length items) size (omega arith) in
    let below : r ≤ 0 + n = omega (arith, mod-lt (length items) positive) in
    (
      concat-chunks_from q r 0 n items
          (omega (arith, room-eq q r 0 n below, div_any (length items) n)),
      chunks_from-small q r 0 n (at_least_one size) items (
          share-small (length items) n (at_least_one size) positive
            (chunk_count-covers (length items) size)),
    )
