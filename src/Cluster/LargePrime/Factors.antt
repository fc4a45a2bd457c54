-- ===== src/Cluster/LargePrime/Factors.antt =====
-- `mergeFactors`: the factors of a product.
use native.Mathlib.Nat.{pow-zero, pow-succ'}
use cuda_mpqs.Prelude.{
  ℕ, zero, suc, ◌+◌, ◌*◌, ◌%◌, ◌^◌, ◌<◌, ◌≡◌, sym, ap, ◌∙◌, List, [], ◌∷◌, map, arith, ltb, ◌==◌,
  if◌then◌else◌, Bool-cases, inl, inr, All, Ascending, Ascending-mono,
}
use cuda_mpqs.Cluster.LargePrime.{merge_factors}

-- The exponent of a factor base index.
abbrev pub exponent : ℕ → List (ℕ × ℕ) → ℕ
exponent p [] = 0
exponent p ((q, n) ∷ fs) = (if q == p then n else 0) + exponent p fs

abbrev pub indices : List (ℕ × ℕ) → List ℕ
indices fs = map (λ f. f.0) fs

-- The product of the factors, for a factor base.
abbrev pub product_of : (ℕ → ℕ) → List (ℕ × ℕ) → ℕ
product_of prime [] = 1
product_of prime ((q, n) ∷ fs) = prime q ^ n * product_of prime fs

exponent-merge_factors :
    (p : ℕ) (a b : List (ℕ × ℕ))
    → exponent p (merge_factors a b) % 2 ^ 8 ≡ (exponent p a + exponent p b) % 2 ^ 8
unfolding merge_factors
exponent-merge_factors p [] b = omega arith
exponent-merge_factors p (x ∷ a) [] = omega arith
exponent-merge_factors p ((x, n) ∷ a) ((y, m) ∷ b) = ground (
  arith,
  exponent-merge_factors p a ((y, m) ∷ b),
  exponent-merge_factors p ((x, n) ∷ a) b,
  exponent-merge_factors p a b,
)

merge_factors-Ascending :
    (lo : ℕ) (a b : List (ℕ × ℕ))
    → Ascending lo (indices a)
    → Ascending lo (indices b)
    → Ascending lo (indices (merge_factors a b))
unfolding merge_factors
merge_factors-Ascending lo [] b h k = k
merge_factors-Ascending lo (x ∷ a) [] h k = h
merge_factors-Ascending lo ((x, n) ∷ a) ((y, m) ∷ b) h k = elim (Bool-cases (ltb x y)) [
  | inl less ↦
      rw (less, merge_factors)
        (h.0, merge_factors-Ascending (suc x) a ((y, m) ∷ b) h.1 (ground arith, k.1))
  | inr more ↦ elim (Bool-cases (ltb y x)) [
    | inl greater ↦
        rw (more, greater, merge_factors)
          (k.0, merge_factors-Ascending (suc y) ((x, n) ∷ a) b (ground arith, h.1) k.1)
    | inr same' ↦
        let e : x ≡ y = ground arith in
        rw (more, same', merge_factors)
          (
            h.0,
            merge_factors-Ascending (suc x) a b h.1
                (Ascending-mono (suc y) (suc x) (indices b) (omega arith) k.1),
          )
  ]
]

-- Two lists sorted by index are merged into one that is sorted by index, and the exponent of every index is the sum of its exponents, modulo 256.
pub merge_factors_lem :
    (a b : List (ℕ × ℕ))
    → Ascending 0 (indices a)
    → Ascending 0 (indices b)
    → Ascending 0 (indices (merge_factors a b))
      × ((p : ℕ) → exponent p (merge_factors a b) % 2 ^ 8 ≡ (exponent p a + exponent p b) % 2 ^ 8)
merge_factors_lem a b h k = (merge_factors-Ascending 0 a b h k, λ p. exponent-merge_factors p a b)

power_sum : (x n m : ℕ) → x ^ (n + m) ≡ x ^ n * x ^ m
power_sum x zero m =
    ap (λ k. x ^ k) {x = 0 + m} {y = m} (omega arith)
    ∙ sym (ap (λ k. k * x ^ m) (pow-zero x) ∙ omega arith)
power_sum x (suc n) m =
    ap (λ k. x ^ k) {x = suc n + m} {y = suc (n + m)} (omega arith)
    ∙ pow-succ' x (n + m)
    ∙ ap (λ t. x * t) (power_sum x n m)
    ∙ grind arith
    ∙ ap (λ t. t * x ^ m) (sym (pow-succ' x n))

-- Counts for which no sum of two wraps.
abbrev pub HalfCounts : List (ℕ × ℕ) → Type 0
HalfCounts fs = All (λ f. f.1 < 2 ^ 7) fs

pub product_of-merge_factors :
    (prime : ℕ → ℕ) (a b : List (ℕ × ℕ))
    → HalfCounts a
    → HalfCounts b
    → product_of prime (merge_factors a b) ≡ product_of prime a * product_of prime b
unfolding merge_factors
product_of-merge_factors prime [] b h k = omega arith
product_of-merge_factors prime (x ∷ a) [] h k = omega arith
product_of-merge_factors prime ((x, n) ∷ a) ((y, m) ∷ b) h k = elim (Bool-cases (ltb x y)) [
  | inl less ↦
      rw (less, merge_factors)
        (ap (λ t. prime x ^ n * t) (product_of-merge_factors prime a ((y, m) ∷ b) h.1 k)
          ∙ grind arith)
  | inr more ↦ elim (Bool-cases (ltb y x)) [
    | inl greater ↦
        rw (more, greater, merge_factors)
          (ap (λ t. prime y ^ m * t) (product_of-merge_factors prime ((x, n) ∷ a) b h k.1)
            ∙ grind arith)
    | inr same' ↦
        let e : x ≡ y = ground arith in
        let fits : (n + m) % 2 ^ 8 ≡ n + m = omega (arith, h.0, k.0) in
        let power : prime x ^ ((n + m) % 2 ^ 8) ≡ prime x ^ n * prime y ^ m =
          ap (λ j. prime x ^ j) fits
          ∙ power_sum (prime x) n m
          ∙ ap (λ z. prime x ^ n * prime z ^ m) e in
        rw (more, same', merge_factors)
          (ap (λ t. prime x ^ ((n + m) % 2 ^ 8) * t) (product_of-merge_factors prime a b h.1 k.1)
            ∙ ap (λ t. t * (product_of prime a * product_of prime b)) power
            ∙ grind arith)
  ]
]
