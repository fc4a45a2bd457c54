-- ===== src/Common/Uint512/Shifts/Right.antt =====
-- `rshift`.
use native.Mathlib.Nat.{div-add-mod, mod-lt, div-div-eq-div-mul, mul-add-div, div-eq_of_lt}
use cuda_mpqs.Prelude.{
  ℕ, ◌+◌, ◌-◌, ◌*◌, ◌/◌, ◌%◌, ◌^◌, ◌≤◌, ◌<◌, ◌≡◌, ap, sym, subst, ◌∙◌, ◌++◌, arith, get_or, take,
  drop, replicate, power_pos, power_split, leb, leb→le, ◌==◌, Bool-cases, inl, inr,
}
use cuda_mpqs.Common.Uint512.{Limbs}
use cuda_mpqs.Common.Uint512.Value.{
  value, IsLimbs, none_left, limb, span, value_bound, append-IsLimbs, drop-IsLimbs,
  replicate-IsLimbs,
}
use cuda_mpqs.Common.Uint512.Division.Remainder.{zero-IsLimbs, value-zero}
use cuda_mpqs.Common.Uint512.Division.Bit.{value-take_bound, span_power}
use cuda_mpqs.Common.Uint512.Shifts.{shift_down_bits, rshift_bits, rshift}
use cuda_mpqs.Common.Uint512.Shifts.Words.{
  word_split, low_bits, high_bits, joined_bits, value-drop, value-zeros,
}

shift_down_bits_lem :
    (n s : ℕ) (xs : Limbs)
    → s < 32
    → IsLimbs n xs
    → IsLimbs n (shift_down_bits s xs)
      × (2 ^ s * value (shift_down_bits s xs) + get_or xs 0 0 % 2 ^ s ≡ value xs)
unfolding shift_down_bits
shift_down_bits_lem _ s _ h none_left = (none_left, omega (arith, mod-lt 0 (power_pos s)))
shift_down_bits_lem _ s _ h (limb {n} {x} {xs} f l) =
    let p = 2 ^ s in
    let q = 2 ^ (32 - s) in
    let w = word_split s h in
    let pos = power_pos s in
    let y = get_or xs 0 0 in
    let low = low_bits p q y pos (power_pos (32 - s)) w in
    let up = high_bits p q x pos w f in
    let (k, e) = shift_down_bits_lem n s xs h l in
    let whole = div-add-mod x p in
    let moved : p * (q * (y % p)) ≡ 2 ^ 32 * (y % p) = grind (arith, ap (λ k. k * (y % p)) w) in
    (
      limb (rw low (joined_bits p q (x / p) (y % p) pos w up (mod-lt y pos))) k,
      rw low (grind (arith, e, whole, moved)),
    )

quotient : {v : ℕ} (p q r : ℕ) → r < p → p * q + r ≡ v → q ≡ v / p
quotient p q r small e = sym (
    ap (λ k. k / p) (sym e)
    ∙ mul-add-div (omega (arith, small)) q r
    ∙ ap (λ k. q + k) (div-eq_of_lt small)
    ∙ omega arith)

rshift_bits_lem :
    (n s : ℕ) (xs : Limbs)
    → s < 32
    → IsLimbs n xs
    → IsLimbs n (rshift_bits s xs) × (value (rshift_bits s xs) ≡ value xs / 2 ^ s)
unfolding rshift_bits
rshift_bits_lem n s xs h l = elim (Bool-cases (s == 0)) [
  | inl z ↦ let e : s ≡ 0 = ground arith in rw (z, e) (l, omega arith)
  | inr nz ↦
      let (k, e) = shift_down_bits_lem n s xs h l in
      rw nz (k, quotient (2 ^ s) _ _ (mod-lt (get_or xs 0 0) (power_pos s)) e)
]

-- Dropping whole limbs divides by a power of 2^32.
drop_limbs :
    (k : ℕ) (xs : Limbs)
    → k ≤ 16
    → IsLimbs 16 xs
    → IsLimbs 16 (drop k xs ++ replicate k 0)
      × (value (drop k xs ++ replicate k 0) ≡ value xs / span k)
drop_limbs k xs le h = (
  subst (λ j. IsLimbs j (drop k xs ++ replicate k 0)) {x = 16 - k + k} {y = 16} (omega arith)
      (append-IsLimbs (16 - k) k (drop k xs) (replicate k 0) (drop-IsLimbs k 16 xs h)
        (replicate-IsLimbs k)),
  value-zeros k (drop k xs)
      ∙ quotient (span k) (value (drop k xs)) (value (take k xs)) (value-take_bound 16 k xs h)
          (omega (arith, value-drop k xs)),
)

-- `rshift` divides by the power of two, whatever the number of bits; from 512 bits on it leaves zero.
pub rshift_lem :
    (xs : Limbs) (bits : ℕ)
    → IsLimbs 16 xs
    → IsLimbs 16 (rshift xs bits) × (value (rshift xs bits) ≡ value xs / 2 ^ bits)
unfolding rshift
rshift_lem xs bits h = elim (Bool-cases (bits == 0)) [
  | inl z ↦ let e : bits ≡ 0 = ground arith in rw (z, e) (h, omega arith)
  | inr nz ↦ elim (Bool-cases (leb 512 bits)) [
    | inl far ↦
        let e : value xs / 2 ^ bits ≡ 0 =
          div-eq_of_lt (far_bits (value xs) bits (value_bound 16 xs h) (leb→le _ _ far)) in
        rw (nz, far, e) (zero-IsLimbs, value-zero)
    | inr near ↦
        let q = bits / 32 in
        let s = bits % 32 in
        let small : bits < 512 = ground arith in
        let (l, e) = drop_limbs q xs (omega (arith, small)) h in
        let (l', e') = rshift_bits_lem 16 s _ (omega arith) l in
        let power : span q * 2 ^ s ≡ 2 ^ bits =
          ap (λ k. k * 2 ^ s) (span_power q)
          ∙ sym (power_split (q * 32) s)
          ∙ ap (λ k. 2 ^ k) {x = q * 32 + s} {y = bits} (omega arith) in
        rw (nz, near)
          (
            l',
            e'
                ∙ ap (λ k. k / 2 ^ s) e
                ∙ div-div-eq-div-mul (value xs) (span q) (2 ^ s)
                ∙ ap (λ k. value xs / k) power,
          )
  ]
]
  where
    far_bits : (v bits : ℕ) → v < 2 ^ 512 → 512 ≤ bits → v < 2 ^ bits
    far_bits v bits low le =
        let e : 2 ^ bits ≡ 2 ^ 512 * 2 ^ (bits - 512) =
          ap (λ k. 2 ^ k) {x = bits} {y = 512 + (bits - 512)} (omega arith)
          ∙ power_split 512 (bits - 512) in
        omega (arith, low, e, power_pos (bits - 512))
