-- ===== src/Common/Montgomery/Setup.antt =====
-- The constructor of `Montgomery`.
use native.Mathlib.Nat.{div-add-mod, mod-eq_of_lt}
use cuda_mpqs.Prelude.{
  ℕ, zero, suc, ◌+◌, ◌-◌, ◌*◌, ◌/◌, ◌%◌, ◌^◌, ◌<◌, ◌≡◌, refl, ap, sym, subst, ◌∙◌, [], ◌∷◌, arith,
  get_or, set, sub32, Congruent, Congruent-mul, Congruent-scale, Congruent-mod, chain,
  mod-Congruent,
}
use cuda_mpqs.Common.Uint512.{Limbs, from_uint32}
use cuda_mpqs.Common.Uint512.Value.{value, IsLimbs, none_left, limb}
use cuda_mpqs.Common.Uint512.Modular.{IsResidue}
use cuda_mpqs.Common.Uint512.Shifts.Left.{double_mod-IsResidue}
use cuda_mpqs.Common.Uint512.Division.{modulo}
use cuda_mpqs.Common.Uint512.Division.Remainder.{modulo-IsResidue, mul_mod-IsResidue}
use cuda_mpqs.Common.Montgomery.{inverse_step, negative_inverse, residue_of_r, montgomery}
use cuda_mpqs.Common.Montgomery.Row.{IsNegativeInverse}
use cuda_mpqs.Common.Montgomery.Multiply.{IsContext}

-- A number that is 1 modulo m: its square, and twice the number less 1, differ by m².
square_of_one : (m p k : ℕ) → p ≡ m * k + 1 → p * p + 1 ≡ 2 * p + m * m * (k * k)
square_of_one m p k e = rw e (grind arith)

-- The factor of a round, with the number it is taken from, is 2 modulo 2^32.
two_less : (p : ℕ) → Congruent (2 ^ 32) (sub32 2 (p % 2 ^ 32) + p) 2
two_less p =
    let s = 2 + 2 ^ 32 - p % 2 ^ 32 in
    record { left = s / 2 ^ 32; right = 1 + p / 2 ^ 32; equation = omega arith }

narrow : (w m t a b : ℕ) → m * t ≡ w → Congruent w a b → Congruent m a b
narrow w m t a b e h = record {
  left = t * h.left;
  right = t * h.right;
  equation = grind (arith, subst (λ k. a + k * h.left ≡ b + k * h.right) (sym e) h.equation);
}

-- A round doubles the number of bits for which the inverse is right.
newton_step :
    (m t n0 inv : ℕ)
    → 1 < m
    → m * m * t ≡ 2 ^ 32
    → n0 * inv % m ≡ 1
    → 1 < m * m
    → n0 * inverse_step n0 inv % (m * m) ≡ 1
unfolding inverse_step
newton_step m t n0 inv big e h big2 =
    let w = 2 ^ 32 in
    let p = n0 * inv in
    let x = sub32 2 (p % w) in
    let k = p / m in
    let whole : p ≡ m * k + 1 = omega (arith, div-add-mod p m, h) in
    let sq = square_of_one m p k whole in
    let c1 : Congruent w (n0 * (inv * x % w)) (n0 * (inv * x)) =
      Congruent-scale w _ _ n0 (mod-Congruent w (inv * x)) in
    let c2 : Congruent w (p * (x + p)) (p * 2) = Congruent-scale w _ _ p (two_less p) in
    let d1 = narrow w (m * m) t _ _ e c1 in
    let d2 = narrow w (m * m) t _ _ e c2 in
    let d3 : Congruent (m * m) (n0 * (inv * x)) 1 = record {
      left = d2.left + k * k;
      right = d2.right;
      equation = grind (arith, d2.equation, sq);
    } in
    Congruent-mod (m * m) _ 1 (chain (m * m) _ _ _ d1 d3) ∙ mod-eq_of_lt big2

-- For an odd limb the five rounds find the inverse modulo 2^32.
pub negative_inverse-IsNegativeInverse :
    (n0 : ℕ) → n0 % 2 ≡ 1 → IsNegativeInverse n0 (negative_inverse n0)
unfolding negative_inverse
negative_inverse-IsNegativeInverse n0 odd =
    let w = 2 ^ 32 in
    let i1 = inverse_step n0 1 in
    let i2 = inverse_step n0 i1 in
    let i3 = inverse_step n0 i2 in
    let i4 = inverse_step n0 i3 in
    let i5 = inverse_step n0 i4 in
    let h0 : n0 * 1 % 2 ≡ 1 = omega (arith, odd) in
    let h1 : n0 * i1 % 4 ≡ 1 = newton_step 2 1073741824 n0 1 (omega arith) refl h0 (omega arith) in
    let h2 : n0 * i2 % 16 ≡ 1 = newton_step 4 268435456 n0 i1 (omega arith) refl h1 (omega arith) in
    let h3 : n0 * i3 % 256 ≡ 1 =
      newton_step 16 16777216 n0 i2 (omega arith) refl h2 (omega arith) in
    let h4 : n0 * i4 % 65536 ≡ 1 =
      newton_step 256 65536 n0 i3 (omega arith) refl h3 (omega arith) in
    let h5 : n0 * i5 % 4294967296 ≡ 1 =
      newton_step 65536 1 n0 i4 (omega arith) refl h4 (omega arith) in
    last n0 i5 (unfold inverse_step in omega arith) h5
  where
    distribute : (a b c : ℕ) → a * b + a * c ≡ a * (b + c)
    distribute a b c = grind arith

    last : (n0 i : ℕ) → i < 2 ^ 32 → n0 * i % 2 ^ 32 ≡ 1 → IsNegativeInverse n0 (sub32 0 i)
    last n0 zero b h = absurd (omega arith)
    last n0 (suc i) b h =
        let e : sub32 0 (suc i) ≡ 2 ^ 32 - suc i = omega arith in
        let p : n0 * (2 ^ 32 - suc i) + n0 * suc i ≡ n0 * 2 ^ 32 =
          distribute n0 (2 ^ 32 - suc i) (suc i) ∙ ap (λ k. n0 * k) (omega arith) in
        (n0 - n0 * suc i / 2 ^ 32, rw e (omega (arith, p, h)))

top_bit-IsLimbs : IsLimbs 16 (set (from_uint32 0) 15 2147483648)
unfolding from_uint32
top_bit-IsLimbs =
    let z : 0 < 2 ^ 32 = omega arith in
    limb z (
      limb z (
        limb z (
          limb z (
            limb z (
              limb z (
                limb z (
                  limb z (
                    limb z (
                      limb z (
                        limb z (
                          limb z
                            (limb z (limb z (limb z (limb (omega arith) none_left)))))))))))))))

value-top_bit : value (set (from_uint32 0) 15 2147483648) ≡ 2 ^ 511
unfolding from_uint32
value-top_bit = refl

residue_of_r-IsResidue :
    (n : Limbs) → IsLimbs 16 n → 0 < value n → IsResidue (2 ^ 512) (value n) (residue_of_r n)
unfolding residue_of_r
residue_of_r-IsResidue n h pos =
    let p = modulo-IsResidue (set (from_uint32 0) 15 2147483648) n top_bit-IsLimbs h pos in
    let v = modulo (set (from_uint32 0) 15 2147483648) n in
    let d = double_mod-IsResidue v n p.is_limbs h p.below in
    let e : value v ≡ 2 ^ 511 % value n = p.equation ∙ ap (λ k. k % value n) value-top_bit in
    let c : Congruent (value n) (2 * value v) (2 * 2 ^ 511) =
      Congruent-scale _ _ _ 2 (
        subst (λ k. Congruent (value n) k (2 ^ 511)) (sym e) (mod-Congruent (value n) (2 ^ 511))) in
    record { is_limbs = d.is_limbs; below = d.below; equation = d.equation ∙ Congruent-mod _ _ _ c }

lowest_odd : (n : Limbs) → value n % 2 ≡ 1 → get_or n 0 0 % 2 ≡ 1
lowest_odd [] h = absurd (omega arith)
lowest_odd (x ∷ xs) h = omega (arith, h)

-- For an odd modulus above 1 the constructor computes the constants that the multiplication rests on: the negative inverse of the lowest limb modulo 2^32, and R² modulo N.
pub montgomery-IsContext :
    (n : Limbs) → IsLimbs 16 n → value n % 2 ≡ 1 → 1 < value n → IsContext (montgomery n)
unfolding montgomery
montgomery-IsContext n h odd big =
    let r = residue_of_r-IsResidue n h (omega arith) in
    let v = residue_of_r n in
    let m = value n in
    let sq = mul_mod-IsResidue v v n r.is_limbs r.is_limbs h (omega arith) in
    let cv : Congruent m (value v) (2 ^ 512) =
      subst (λ k. Congruent m k (2 ^ 512)) (sym r.equation) (mod-Congruent m (2 ^ 512)) in
    record {
      n_limbs = h;
      r2_limbs = sq.is_limbs;
      above_one = big;
      half = m / 2;
      odd = omega (arith, odd);
      inverse = negative_inverse-IsNegativeInverse (get_or n 0 0) (lowest_odd n odd);
      r2_below = sq.below;
      r2_residue =
          chain m _ _ _
            (subst (λ k. Congruent m k (value v * value v)) (sym sq.equation)
              (mod-Congruent m (value v * value v)))
            (Congruent-mul m _ _ _ _ cv cv);
    }
