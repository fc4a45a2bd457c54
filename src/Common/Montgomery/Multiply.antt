-- ===== src/Common/Montgomery/Multiply.antt =====
-- `Montgomery::mul`, `transform` and `reduce`.
use native.Mathlib.Nat.{pow-succ'}
use cuda_mpqs.Prelude.{
  ℕ, zero, suc, ◌+◌, ◌*◌, ◌%◌, ◌^◌, ◌≤◌, ◌<◌, ◌≡◌, refl, ap, sym, ◌∙◌, subst, arith, if◌then◌else◌,
  get_or, replicate, Congruent, Congruent-mul, Congruent-scale, Congruent-residue, chain,
}
use cuda_mpqs.Common.Uint512.{Limbs, from_uint32, exceeds}
use cuda_mpqs.Common.Uint512.Value.{value, IsLimbs, limb, span, replicate-IsLimbs, value-replicate}
use cuda_mpqs.Common.Uint512.Modular.{subtract_once_lem}
use cuda_mpqs.Common.Montgomery.{Montgomery, cios_rows, mul, transform, reduce}
use cuda_mpqs.Common.Montgomery.Row.{IsNegativeInverse}
use cuda_mpqs.Common.Montgomery.Rounds.{IsAccumulator, cios_rows_lem}

-- What the constructor establishes for an odd N above 1.
pub record IsContext (m : Montgomery) : Type 0 where
  pub n_limbs : IsLimbs 16 m.n
  pub r2_limbs : IsLimbs 16 m.r2
  pub above_one : 1 < value m.n
  pub half : ℕ
  pub odd : value m.n ≡ 2 * half + 1
  pub inverse : IsNegativeInverse (get_or m.n 0 0) m.n_prime
  pub r2_below : value m.r2 < value m.n
  pub r2_residue : Congruent (value m.n) (value m.r2) (span 16 * span 16)

-- `limbs` is below N and, times R, congruent to `t`.
pub record IsReduced (m : Montgomery) (t : ℕ) (limbs : Limbs) : Type 0 where
  pub is_limbs : IsLimbs 16 limbs
  pub below : value limbs < value m.n
  pub congruent : Congruent (value m.n) (span 16 * value limbs) t

-- For `b` at most N, `mul` returns a number below N that is `a * b / R` modulo N.
pub mul-IsReduced :
    (m : Montgomery) (a b : Limbs)
    → IsContext m
    → IsLimbs 16 a
    → IsLimbs 16 b
    → value b ≤ value m.n
    → IsReduced m (value a * value b) (mul m a b)
unfolding mul
mul-IsReduced m a b c ha hb le =
    let start : IsAccumulator (replicate 16 0, 0) = record {
      is_limbs = replicate-IsLimbs 16;
      top = omega arith;
    } in
    let z = value-replicate 16 in
    let above = c.above_one in
    let (h, low, q, e) =
      cios_rows_lem 16 m a b (replicate 16 0, 0) c.n_limbs c.inverse ha hb start
        (omega (arith, z, above)) in
    let t = cios_rows m a b (replicate 16 0, 0) in
    let p : ℕ = if exceeds t m.n then 1 else 0 in
    let (l, below, e') = subtract_once_lem t m.n c.n_limbs h.is_limbs (omega (arith, low, le)) in
    record {
      is_limbs = l;
      below = below;
      congruent = record {
        left = span 16 * p;
        right = q;
        equation = grind (arith, ap (λ x. span 16 * x) e', e, z);
      };
    }

-- An odd modulus lets 2 be cancelled.
cancel_two : (n h a b : ℕ) → n ≡ 2 * h + 1 → Congruent n (2 * a) (2 * b) → Congruent n a b
cancel_two n h a b odd c =
    let scaled : (h + 1) * (2 * a + n * c.left) ≡ (h + 1) * (2 * b + n * c.right) =
      ap (λ x. (h + 1) * x) c.equation in
    record {
      left = a + (h + 1) * c.left;
      right = b + (h + 1) * c.right;
      equation = rw odd (
          grind (
            arith,
            subst (λ k. (h + 1) * (2 * a + k * c.left) ≡ (h + 1) * (2 * b + k * c.right)) odd
                scaled,
          ));
    }

power_step : (k a : ℕ) → 2 * (2 ^ k * a) ≡ 2 ^ suc k * a
power_step k a = rw (pow-succ' 2 k) (grind arith)

cancel_power :
    (k n h a b : ℕ) → n ≡ 2 * h + 1 → Congruent n (2 ^ k * a) (2 ^ k * b) → Congruent n a b
cancel_power zero n h a b odd c = record {
  left = c.left;
  right = c.right;
  equation = omega (arith, c.equation);
}
cancel_power (suc k) n h a b odd c = cancel_power k n h a b odd (
    cancel_two n h _ _ odd (record {
      left = c.left;
      right = c.right;
      equation =
          ap (λ x. x + n * c.left) (power_step k a)
          ∙ c.equation
          ∙ ap (λ x. x + n * c.right) (sym (power_step k b));
    }))

pub cancel_span :
    (n h a b : ℕ) → n ≡ 2 * h + 1 → Congruent n (span 16 * a) (span 16 * b) → Congruent n a b
cancel_span n h a b odd c = cancel_power 512 n h a b odd c

pub one-IsLimbs : IsLimbs 16 (from_uint32 1)
unfolding from_uint32
one-IsLimbs = limb (omega arith) (replicate-IsLimbs 15)

pub value-one : value (from_uint32 1) ≡ 1
unfolding from_uint32
value-one = refl

-- `transform` multiplies by R modulo N.
pub transform_lem :
    (m : Montgomery) (a : Limbs)
    → IsContext m
    → IsLimbs 16 a
    → IsLimbs 16 (transform m a)
      × (value (transform m a) < value m.n)
      × Congruent (value m.n) (value (transform m a)) (value a * span 16)
unfolding transform
transform_lem m a c h =
    let r = span 16 in
    let n = value m.n in
    let below = c.r2_below in
    let p = mul-IsReduced m a m.r2 c h c.r2_limbs (omega (arith, below)) in
    let t = value (mul m a m.r2) in
    let square : Congruent n (value a * value m.r2) (value a * (r * r)) =
      Congruent-scale n _ _ (value a) c.r2_residue in
    let all' : Congruent n (r * t) (value a * (r * r)) = chain n _ _ _ p.congruent square in
    let e : value a * (r * r) ≡ r * (value a * r) = grind arith in
    (
      p.is_limbs,
      p.below,
      cancel_span n c.half t (value a * r) c.odd (subst (λ x. Congruent n (r * t) x) e all'),
    )

-- `reduce` undoes `transform`: from `t` congruent to `a * R` it returns the residue of `a`.
pub reduce_lem :
    (m : Montgomery) (t : Limbs) (a : ℕ)
    → IsContext m
    → IsLimbs 16 t
    → Congruent (value m.n) (value t) (a * span 16)
    → value (reduce m t) ≡ a % value m.n
unfolding reduce
reduce_lem m t a c h k =
    let r = span 16 in
    let n = value m.n in
    let one = from_uint32 1 in
    let above = c.above_one in
    let p = mul-IsReduced m t one c h one-IsLimbs (omega (arith, above, value-one)) in
    let v = value (mul m t one) in
    let unit : value t * value one ≡ value t = rw value-one (omega arith) in
    let all' : Congruent n (r * v) (a * r) =
      chain n _ _ _ (subst (λ x. Congruent n (r * v) x) unit p.congruent) k in
    let e : a * r ≡ r * a = grind arith in
    Congruent-residue n v a p.below
      (cancel_span n c.half v a c.odd (subst (λ x. Congruent n (r * v) x) e all'))

-- Two numbers brought to Montgomery form, multiplied and brought back are multiplied modulo N.
pub reduce-mul :
    (m : Montgomery) (a b : Limbs)
    → IsContext m
    → IsLimbs 16 a
    → IsLimbs 16 b
    → value (reduce m (mul m (transform m a) (transform m b))) ≡ (value a * value b) % value m.n
reduce-mul m a b c ha hb =
    let r = span 16 in
    let n = value m.n in
    let (la, lowa, ca) = transform_lem m a c ha in
    let (lb, lowb, cb) = transform_lem m b c hb in
    let p = mul-IsReduced m (transform m a) (transform m b) c la lb (omega (arith, lowb)) in
    let t = value (mul m (transform m a) (transform m b)) in
    let e : value a * r * (value b * r) ≡ r * (value a * value b * r) = grind arith in
    let all' : Congruent n (r * t) (r * (value a * value b * r)) =
      subst (λ x. Congruent n (r * t) x) e
        (chain n _ _ _ p.congruent (Congruent-mul n _ _ _ _ ca cb)) in
    reduce_lem m _ (value a * value b) c p.is_limbs (cancel_span n c.half t _ c.odd all')
