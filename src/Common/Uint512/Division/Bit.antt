-- ===== src/Common/Uint512/Division/Bit.antt =====
-- The bits of a number in its limbs, and `msb`.
use native.Mathlib.Nat.{pow-succ', div-div-eq-div-mul, mul-add-div, zero-div, mul-le-mul}
use cuda_mpqs.Prelude.{
  ℕ, zero, suc, ◌+◌, ◌-◌, ◌*◌, ◌/◌, ◌%◌, ◌^◌, ◌≤◌, ◌<◌, ◌≡◌, refl, ap, sym, subst, ◌∙◌, [], ◌∷◌,
  arith, get_or, take, ltb→lt, power_pos, power_split, ltb, ◌==◌, Bool-cases, inl, inr,
}
use cuda_mpqs.Common.Uint512.{Limbs}
use cuda_mpqs.Common.Uint512.Value.{value, IsLimbs, none_left, limb, span, span_pos, take-IsLimbs}
use cuda_mpqs.Common.Uint512.Division.{bit, leading_zeros, msb_loop, msb}

-- The bits below 32 of a number are those of its first limb.
low_bit : (i x v : ℕ) → i < 32 → (x + 2 ^ 32 * v) / 2 ^ i % 2 ≡ x / 2 ^ i % 2
low_bit i x v h =
    let p = 2 ^ i in
    let half = 2 ^ (31 - i) in
    let e : 2 ^ 32 ≡ p * (2 * half) =
      ap (λ k. 2 ^ k) {x = 32} {y = i + suc (31 - i)} (omega arith)
      ∙ power_split i (suc (31 - i))
      ∙ ap (λ k. p * k) (pow-succ' 2 (31 - i)) in
    let e' : x + 2 ^ 32 * v ≡ p * (2 * (half * v)) + x = ap (λ k. x + k * v) e ∙ grind arith in
    ap (λ k. k / p % 2) e'
    ∙ ap (λ k. k % 2) (mul-add-div (power_pos i) (2 * (half * v)) x)
    ∙ omega arith

-- The others are those of the rest of the limbs.
high_bit : (i x v : ℕ) → x < 2 ^ 32 → 32 ≤ i → (x + 2 ^ 32 * v) / 2 ^ i ≡ v / 2 ^ (i - 32)
high_bit i x v h le =
    let e : 2 ^ i ≡ 2 ^ 32 * 2 ^ (i - 32) =
      ap (λ k. 2 ^ k) {x = i} {y = 32 + (i - 32)} (omega arith) ∙ power_split 32 (i - 32) in
    let w : (x + 2 ^ 32 * v) / 2 ^ 32 ≡ v = omega (arith, h) in
    ap (λ k. (x + 2 ^ 32 * v) / k) e
    ∙ sym (div-div-eq-div-mul (x + 2 ^ 32 * v) (2 ^ 32) (2 ^ (i - 32)))
    ∙ ap (λ k. k / 2 ^ (i - 32)) w

-- `bit` reads the binary digits of the number.
pub bit-value : (n i : ℕ) (xs : Limbs) → IsLimbs n xs → bit xs i ≡ value xs / 2 ^ i % 2
unfolding bit
bit-value _ i _ none_left = ap (λ k. k % 2) (zero-div (2 ^ (i % 32)) ∙ sym (zero-div (2 ^ i)))
bit-value _ i _ (limb {n} {x} {xs} f h) = elim (Bool-cases (ltb i 32)) [
  | inl low ↦
      let q : i / 32 ≡ 0 = ground arith in
      let r : i % 32 ≡ i = ground arith in rw (q, r) (sym (low_bit i x (value xs) (ground arith)))
  | inr high ↦
      let q : i / 32 ≡ suc ((i - 32) / 32) = ground arith in
      let r : i % 32 ≡ (i - 32) % 32 = ground arith in
      rw (q, r)
        (bit-value n (i - 32) xs h
          ∙ ap (λ k. k % 2) (sym (high_bit i x (value xs) f (ground arith))))
]

pub leading_zeros_lem :
    (k x : ℕ) → x < 2 ^ k → (leading_zeros k x ≤ k) × (x < 2 ^ (k - leading_zeros k x))
unfolding leading_zeros
leading_zeros_lem zero x h = (omega arith, h)
leading_zeros_lem (suc k) x h = elim (Bool-cases (ltb x (2 ^ k))) [
  | inl low ↦
      let (le, b) = leading_zeros_lem k x (ltb→lt _ _ low) in
      let e : suc k - (1 + leading_zeros k x) ≡ k - leading_zeros k x = omega arith in
      rw (low, e) (omega (arith, le), b)
  | inr high ↦ let e : suc k - 0 ≡ suc k = omega arith in rw (high, e) (omega arith, h)
]

pub span_power : (n : ℕ) → span n ≡ 2 ^ (n * 32)
span_power zero = refl
span_power (suc n) =
    ap (λ s. 2 ^ 32 * s) (span_power n)
    ∙ sym (power_split 32 (n * 32))
    ∙ ap (λ k. 2 ^ k) {x = 32 + n * 32} (omega arith)

-- The limbs below an index, and the next one.
pub value_next_limb :
    (i : ℕ) (xs : Limbs) → value (take (suc i) xs) ≡ value (take i xs) + span i * get_or xs i 0
value_next_limb zero [] = omega arith
value_next_limb (suc i) [] = omega arith
value_next_limb zero (x ∷ xs) = omega arith
value_next_limb (suc i) (x ∷ xs) = grind (arith, value_next_limb i xs)

pub value-take_bound : (n i : ℕ) (xs : Limbs) → IsLimbs n xs → value (take i xs) < span i
value-take_bound n zero xs h = omega arith
value-take_bound _ (suc i) _ none_left = omega (arith, span_pos i)
value-take_bound _ (suc i) _ (limb {n} {x} {xs} f h) = omega (arith, f, value-take_bound n i xs h)

pub get_or-IsLimbs : (n i : ℕ) (xs : Limbs) → IsLimbs n xs → get_or xs i 0 < 2 ^ 32
get_or-IsLimbs _ i _ none_left = omega arith
get_or-IsLimbs _ zero _ (limb f h) = f
get_or-IsLimbs _ (suc i) _ (limb {n} {x} {xs} f h) = get_or-IsLimbs n i xs h

top_limb :
    (i y low s b : ℕ) → low < s → s ≡ 2 ^ (i * 32) → y < 2 ^ b → low + s * y < 2 ^ (b + i * 32)
top_limb i y low s b h e k =
    let le : s * suc y ≤ s * 2 ^ b = mul-le-mul {n₂ = s} {m₂ = 2 ^ b} (omega arith) (omega arith) in
    let p : 2 ^ (b + i * 32) ≡ s * 2 ^ b = power_split b (i * 32) ∙ rw (sym e) (grind arith) in
    grind (arith, le, p)

msb_loop_lem : (n i : ℕ) (xs : Limbs) → IsLimbs n xs → value (take i xs) < 2 ^ (msb_loop i xs + 1)
unfolding msb_loop
msb_loop_lem n zero xs h = omega arith
msb_loop_lem n (suc i) xs h =
    let y = get_or xs i 0 in
    let e = value_next_limb i xs in
    elim (Bool-cases (y == 0)) [
      | inl z ↦
          let y0 : y ≡ 0 = ground arith in
          let e' : value (take (suc i) xs) ≡ value (take i xs) = e ∙ rw y0 (omega arith) in
          rw (z, e') (msb_loop_lem n i xs h)
      | inr nz ↦
          let (le, b) = leading_zeros_lem 32 y (get_or-IsLimbs n i xs h) in
          let lz = leading_zeros 32 y in
          let short : lz ≤ 31 = leading_short y lz b (ground arith) le in
          let w : 31 - lz + i * 32 + 1 ≡ 32 - lz + i * 32 = omega (arith, short) in
          rw (nz, e, w)
            (top_limb i y (value (take i xs)) (span i) (32 - lz) (value-take_bound n i xs h)
              (span_power i) b)
    ]
  where
    leading_short : (y lz : ℕ) → y < 2 ^ (32 - lz) → 0 < y → lz ≤ 32 → lz ≤ 31
    leading_short y lz b pos le = elim (Bool-cases (lz == 32)) [
      | inl all' ↦
          let e : 32 - lz ≡ 0 = ground arith in
          let b' : y < 1 = subst (λ k. y < 2 ^ k) e b in absurd (omega (arith, b', pos))
      | inr less' ↦ ground arith
    ]

-- A number is below twice the power of its highest bit.
pub msb_lem : (xs : Limbs) → IsLimbs 16 xs → value xs < 2 ^ (msb xs + 1)
unfolding msb
msb_lem xs h =
    subst (λ ys. value ys < 2 ^ (msb_loop 16 xs + 1)) (take-IsLimbs 16 xs h)
      (msb_loop_lem 16 16 xs h)
