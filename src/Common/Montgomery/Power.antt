-- ===== src/Common/Montgomery/Power.antt =====
-- `Montgomery::pow`: square and multiply over the bits of the exponent.
use native.Mathlib.Nat.{pow-zero, pow-succ'}
use cuda_mpqs.Prelude.{
  ℕ, zero, suc, ◌+◌, ◌*◌, ◌/◌, ◌%◌, ◌^◌, ◌<◌, ◌≡◌, refl, ap, sym, subst, ◌∙◌, [], ◌∷◌, arith,
  get_or, ◌==◌, Bool-cases, Bool, true, false, inl, inr, if◌then◌else◌, Congruent, Congruent-mul,
  chain,
}
use cuda_mpqs.Common.Uint512.{Limbs, from_uint32}
use cuda_mpqs.Common.Uint512.Value.{value, IsLimbs, span, value_bound}
use cuda_mpqs.Common.Uint512.Order.{is_zero-value}
use cuda_mpqs.Common.Uint512.Shifts.{rshift}
use cuda_mpqs.Common.Uint512.Shifts.Right.{rshift_lem}
use cuda_mpqs.Common.Montgomery.{Montgomery, mul, transform, reduce, pow_loop, pow, sqr}
use cuda_mpqs.Common.Montgomery.Multiply.{
  IsContext, mul-IsReduced, transform_lem, reduce_lem, cancel_span, one-IsLimbs, value-one,
}

-- `limbs` is the Montgomery form of `x`.
pub record IsForm (m : Montgomery) (x : ℕ) (limbs : Limbs) : Type 0 where
  pub is_limbs : IsLimbs 16 limbs
  pub below : value limbs < value m.n
  pub congruent : Congruent (value m.n) (value limbs) (x * span 16)

pub transform-IsForm :
    (m : Montgomery) (a : Limbs) → IsContext m → IsLimbs 16 a → IsForm m (value a) (transform m a)
transform-IsForm m a c h =
    let (l, b, k) = transform_lem m a c h in record { is_limbs = l; below = b; congruent = k }

pub mul-IsForm :
    (m : Montgomery) (x y : ℕ) (a b : Limbs)
    → IsContext m
    → IsForm m x a
    → IsForm m y b
    → IsForm m (x * y) (mul m a b)
mul-IsForm m x y a b c h k =
    let n = value m.n in
    let r = span 16 in
    let low = k.below in
    let p = mul-IsReduced m a b c h.is_limbs k.is_limbs (omega (arith, low)) in
    let e : x * r * (y * r) ≡ r * (x * y * r) = grind arith in
    record {
      is_limbs = p.is_limbs;
      below = p.below;
      congruent = cancel_span n c.half _ _ c.odd (
          subst (λ t. Congruent n (r * value (mul m a b)) t) e
            (chain n _ _ _ p.congruent (Congruent-mul n _ _ _ _ h.congruent k.congruent)));
    }

power_square : (x k : ℕ) → (x * x) ^ k ≡ x ^ (k + k)
power_square x zero = pow-zero (x * x) ∙ sym (pow-zero x)
power_square x (suc k) =
    let e : x ^ (suc k + suc k) ≡ x * (x * x ^ (k + k)) =
      ap (λ j. x ^ j) {x = suc k + suc k} {y = suc (suc (k + k))} (omega arith)
      ∙ pow-succ' x (suc (k + k))
      ∙ ap (λ t. x * t) (pow-succ' x (k + k)) in
    pow-succ' (x * x) k ∙ ap (λ t. x * x * t) (power_square x k) ∙ grind arith ∙ sym e

power_even : (x e : ℕ) → e % 2 ≡ 0 → (x * x) ^ (e / 2) ≡ x ^ e
power_even x e h =
    power_square x (e / 2) ∙ ap (λ j. x ^ j) {x = e / 2 + e / 2} {y = e} (omega (arith, h))

power_odd : (x e : ℕ) → e % 2 ≡ 1 → x * (x * x) ^ (e / 2) ≡ x ^ e
power_odd x e h =
    ap (λ t. x * t) (power_square x (e / 2))
    ∙ sym (pow-succ' x (e / 2 + e / 2))
    ∙ ap (λ j. x ^ j) {x = suc (e / 2 + e / 2)} {y = e} (omega (arith, h))

lowest_parity : (xs : Limbs) → get_or xs 0 0 % 2 ≡ value xs % 2
lowest_parity [] = refl
lowest_parity (x ∷ xs) = omega arith

-- One round of the loop, on the numbers.
round_power : (y x e : ℕ) → (if e % 2 == 1 then y * x else y) * (x * x) ^ (e / 2) ≡ y * x ^ e
round_power y x e = elim (Bool-cases (e % 2 == 1)) [
  | inl odd ↦ let p = power_odd x e (ground arith) in rw odd (grind (arith, ap (λ t. y * t) p))
  | inr even ↦ rw even (ap (λ t. y * t) (power_even x e (ground arith)))
]

round-IsForm :
    (m : Montgomery) (y x : ℕ) (res base : Limbs) (b : Bool)
    → IsContext m
    → IsForm m y res
    → IsForm m x base
    → IsForm m (if b then y * x else y) (if b then mul m res base else res)
round-IsForm m y x res base true c hr hb = mul-IsForm m y x res base c hr hb
round-IsForm m y x res base false c hr hb = hr

no_power : (y x e : ℕ) → e ≡ 0 → y ≡ y * x ^ e
no_power y x e z = sym (ap (λ k. y * x ^ k) z ∙ ap (λ t. y * t) (pow-zero x) ∙ omega arith)

-- The exponent runs out within as many rounds as it has bits.
pow_loop-IsForm :
    (fuel : ℕ) (m : Montgomery) (y x : ℕ) (res base exp : Limbs)
    → IsContext m
    → IsLimbs 16 exp
    → value exp < 2 ^ fuel
    → IsForm m y res
    → IsForm m x base
    → IsForm m (y * x ^ value exp) (pow_loop fuel m res base exp)
unfolding pow_loop
pow_loop-IsForm zero m y x res base exp c h low hr hb =
    subst (λ k. IsForm m k res) (no_power y x (value exp) (omega (arith, low))) hr
pow_loop-IsForm (suc fuel) m y x res base exp c h low hr hb = elim (Bool-cases (value exp == 0)) [
  | inl z ↦
      rw (is_zero-value 16 exp h, z)
        (subst (λ k. IsForm m k res) (no_power y x (value exp) (ground arith)) hr)
  | inr nz ↦
      let e = value exp in
      let odd = get_or exp 0 0 % 2 == 1 in
      let (l, v) = rshift_lem exp 1 h in
      let v' : value (rshift exp 1) ≡ e / 2 = v ∙ omega arith in
      let parity : odd ≡ (e % 2 == 1) = ap (λ k. k == 1) (lowest_parity exp) in
      let low' : value (rshift exp 1) < 2 ^ fuel = omega (arith, v', low, pow-succ' 2 fuel) in
      let y' = if odd then y * x else y in
      let res' = if odd then mul m res base else res in
      let out =
        pow_loop-IsForm fuel m y' (x * x) res' (sqr m base) (rshift exp 1) c l low'
          (round-IsForm m y x res base odd c hr hb) (mul-IsForm m x x base base c hb hb) in
      let total : y' * (x * x) ^ value (rshift exp 1) ≡ y * x ^ e =
        ap (λ k. y' * (x * x) ^ k) v'
        ∙ ap (λ b. (if b then y * x else y) * (x * x) ^ (e / 2)) parity
        ∙ round_power y x e in
      rw (is_zero-value 16 exp h, nz)
        (subst (λ k. IsForm m k (pow_loop fuel m res' (sqr m base) (rshift exp 1))) total out)
]

-- `pow` raises the number that a Montgomery form stands for to the exponent, and the fuel is enough for every exponent.
pub pow-IsForm :
    (m : Montgomery) (x : ℕ) (base exp : Limbs)
    → IsContext m
    → IsForm m x base
    → IsLimbs 16 exp
    → IsForm m (x ^ value exp) (pow m base exp)
unfolding pow
pow-IsForm m x base exp c hb h =
    let start : IsForm m 1 (transform m (from_uint32 1)) =
      subst (λ k. IsForm m k (transform m (from_uint32 1))) value-one
        (transform-IsForm m (from_uint32 1) c one-IsLimbs) in
    let fits : value exp < 2 ^ 513 = omega (arith, value_bound 16 exp h) in
    subst (λ k. IsForm m k (pow m base exp)) (omega arith)
      (pow_loop-IsForm 513 m 1 x _ base exp c h fits start hb)

-- A power taken in Montgomery form and brought back is the power modulo N.
pub reduce-pow :
    (m : Montgomery) (a exp : Limbs)
    → IsContext m
    → IsLimbs 16 a
    → IsLimbs 16 exp
    → value (reduce m (pow m (transform m a) exp)) ≡ value a ^ value exp % value m.n
reduce-pow m a exp c h k =
    let p = pow-IsForm m (value a) (transform m a) exp c (transform-IsForm m a c h) k in
    reduce_lem m (pow m (transform m a) exp) (value a ^ value exp) c p.is_limbs p.congruent
