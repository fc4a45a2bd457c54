-- ===== src/Cluster/LargePrime/Valid.antt =====
-- `combinePartials`: the relation modulo N that a combined relation stands for.
use native.Mathlib.Nat.{mod-lt}
use cuda_mpqs.Prelude.{
  ℕ, zero, suc, ◌+◌, ◌-◌, ◌*◌, ◌/◌, ◌%◌, ◌^◌, ◌<◌, ◌≡◌, refl, sym, ap, subst, ◌∙◌, List, arith,
  ◌==◌, if◌then◌else◌, Bool-cases, inl, inr, add32, power_split, All, All-map, Congruent,
  Congruent-mul, chain, same, mod-Congruent,
}
use cuda_mpqs.Common.Uint512.Value.{value, IsLimbs, none_left, limb, span}
use cuda_mpqs.Common.Montgomery.{Montgomery}
use cuda_mpqs.Common.Montgomery.Multiply.{IsContext, reduce-mul}
use cuda_mpqs.Cluster.Relations.{Relation}
use cuda_mpqs.Cluster.Relations.View.{batch_of}
use cuda_mpqs.Cluster.Accumulator.{RelationAccumulator}
use cuda_mpqs.Cluster.LargePrime.{
  LargePrimeTable, to_limbs, combine_sqrt_q, combine_signs, combined, merge_factors,
  insert_and_match,
}
use cuda_mpqs.Cluster.LargePrime.Refine.{delivered}
use cuda_mpqs.Cluster.LargePrime.Table.{Combines, IsTable}
use cuda_mpqs.Cluster.LargePrime.Process.{insert_and_match_lem}
use cuda_mpqs.Cluster.LargePrime.Factors.{product_of, HalfCounts, product_of-merge_factors}

pub to_limbs_lem : (n v : ℕ) → v < span n → IsLimbs n (to_limbs n v) × (value (to_limbs n v) ≡ v)
unfolding to_limbs
to_limbs_lem zero v h = (none_left, omega arith)
to_limbs_lem (suc n) v h =
    let (l, e) = to_limbs_lem n (v / 2 ^ 32) (omega arith) in
    (limb (omega arith) l, omega (arith, e))

-- The sign as a residue modulo n.
abbrev pub sign_unit : ℕ → ℕ → ℕ
sign_unit n sign = if sign == 1 then 1 else n - 1

-- Up to a multiple of n, the square of the root is the sign times the powers of 2 and of the factor
-- base primes times `rest`.
abbrev pub Represents : ℕ → (ℕ → ℕ) → Relation → ℕ → Type 0
Represents n prime r rest =
    Congruent n (r.sqrt_q * r.sqrt_q)
      (sign_unit n r.sign * 2 ^ r.val_2_exp * product_of prime r.factors * rest)

-- A 1-partial relation modulo n, with room for the exponents of a second one: the sum of two powers of 2 is
-- an int32_t that is not negative.
pub record IsPartial (n : ℕ) (prime : ℕ → ℕ) (r : Relation) : Type 0 where
  pub root_fits : r.sqrt_q < 2 ^ 512
  pub exponent_fits : r.val_2_exp < 2 ^ 30
  pub counts_fit : HalfCounts r.factors
  pub prime_fits : r.large_prime < 2 ^ 64
  pub represents : Represents n prime r r.large_prime

minus_one : (n : ℕ) → 1 < n → Congruent n ((n - 1) * (n - 1)) 1
minus_one n h = record { left = 2; right = n; equation = squares (n - 1) n (omega arith) }
  where
    squares : (k n : ℕ) → n ≡ k + 1 → k * k + n * 2 ≡ 1 + n * n
    squares k n e = rw e (grind arith)

units :
    (n a b : ℕ)
    → 1 < n
    → Congruent n (sign_unit n a * sign_unit n b) (sign_unit n (combine_signs a b))
units n a b h = elim (Bool-cases (a == 1)) [
  | inl pa ↦ elim (Bool-cases (b == 1)) [
    | inl pb ↦ rw (pa, pb) (same n 1)
    | inr nb ↦ rw (pa, nb) (subst (λ k. Congruent n k (n - 1)) (omega arith) (same n (n - 1)))
  ]
  | inr na ↦ elim (Bool-cases (b == 1)) [
    | inl pb ↦ rw (na, pb) (subst (λ k. Congruent n k (n - 1)) (omega arith) (same n (n - 1)))
    | inr nb ↦ rw (na, nb) (minus_one n h)
  ]
]

combine_sqrt_q_lem :
    (m : Montgomery) (a b : ℕ)
    → IsContext m
    → a < 2 ^ 512
    → b < 2 ^ 512
    → combine_sqrt_q m a b ≡ a * b % value m.n
unfolding combine_sqrt_q
combine_sqrt_q_lem m a b c ha hb =
    let (la, ea) = to_limbs_lem 16 a ha in
    let (lb, eb) = to_limbs_lem 16 b hb in
    reduce-mul m (to_limbs 16 a) (to_limbs 16 b) c la lb
    ∙ ap (λ k. k * value (to_limbs 16 b) % value m.n) ea
    ∙ ap (λ k. a * k % value m.n) eb

-- The parts of two relations, multiplied.
parts :
    (ua ub ta tb pa pb l : ℕ)
    → ua * ta * pa * l * (ub * tb * pb * l) ≡ ua * ub * (ta * tb * (pa * pb) * (l * l))
parts ua ub ta tb pa pb l = grind arith

joined : (u t p l : ℕ) → u * (t * p * (l * l)) ≡ u * t * p * (l * l)
joined u t p l = grind arith

-- Two 1-partial relations modulo N with the same large prime are combined into one that holds modulo N: the square of its root is its sign times its powers of 2 and of the factor base primes, times the square of the large prime. Its root is the product of the two roots modulo N.
pub combined-Represents :
    (m : Montgomery) (prime : ℕ → ℕ) (a b : Relation)
    → IsContext m
    → IsPartial (value m.n) prime a
    → IsPartial (value m.n) prime b
    → a.large_prime ≡ b.large_prime
    → let c = combined m a b in
      Represents (value m.n) prime c (a.large_prime * a.large_prime)
      × (c.sqrt_q ≡ a.sqrt_q * b.sqrt_q % value m.n)
      × (c.large_prime ≡ a.large_prime)
unfolding combined
combined-Represents m prime a b c va vb same_prime =
    let n = value m.n in
    let l = a.large_prime in
    let root = combine_sqrt_q_lem m a.sqrt_q b.sqrt_q c va.root_fits vb.root_fits in
    let s = combine_sqrt_q m a.sqrt_q b.sqrt_q in
    let ra = a.sqrt_q in
    let rb = b.sqrt_q in
    let cs : Congruent n s (ra * rb) =
      subst (λ k. Congruent n k (ra * rb)) (sym root) (mod-Congruent n (ra * rb)) in
    let sq : Congruent n (s * s) (ra * rb * (ra * rb)) = Congruent-mul n _ _ _ _ cs cs in
    let swap : ra * rb * (ra * rb) ≡ ra * ra * (rb * rb) = grind arith in
    let pa = product_of prime a.factors in
    let pb = product_of prime b.factors in
    let ta = 2 ^ a.val_2_exp in
    let tb = 2 ^ b.val_2_exp in
    let ua = sign_unit n a.sign in
    let ub = sign_unit n b.sign in
    let uc = sign_unit n (combine_signs a.sign b.sign) in
    let rep_b : Congruent n (rb * rb) (ub * tb * pb * l) =
      subst (λ k. Congruent n (rb * rb) (ub * tb * pb * k)) (sym same_prime) vb.represents in
    let both : Congruent n (ra * rb * (ra * rb)) (ua * ub * (ta * tb * (pa * pb) * (l * l))) =
      subst (λ k. Congruent n (ra * rb * (ra * rb)) k) (parts ua ub ta tb pa pb l)
        (subst (λ k. Congruent n k (ua * ta * pa * l * (ub * tb * pb * l))) (sym swap)
          (Congruent-mul n _ _ _ _ va.represents rep_b)) in
    let signs : Congruent n (ua * ub * (ta * tb * (pa * pb) * (l * l)))
        (uc * (ta * tb * (pa * pb) * (l * l))) =
      Congruent-mul n _ _ _ _ (units n a.sign b.sign c.above_one) (same n _) in
    let fits : add32 a.val_2_exp b.val_2_exp ≡ a.val_2_exp + b.val_2_exp =
      omega (arith, va.exponent_fits, vb.exponent_fits) in
    let twos : ta * tb ≡ 2 ^ add32 a.val_2_exp b.val_2_exp =
      sym (ap (λ k. 2 ^ k) fits ∙ power_split a.val_2_exp b.val_2_exp) in
    let products : pa * pb ≡ product_of prime (merge_factors a.factors b.factors) =
      sym (product_of-merge_factors prime a.factors b.factors va.counts_fit vb.counts_fit) in
    let tidy : uc * (ta * tb * (pa * pb) * (l * l))
        ≡ uc
          * 2 ^ add32 a.val_2_exp b.val_2_exp
          * product_of prime (merge_factors a.factors b.factors)
          * (l * l) =
      joined uc (ta * tb) (pa * pb) l
      ∙ ap (λ k. uc * k * (pa * pb) * (l * l)) twos
      ∙ ap (λ k. uc * 2 ^ add32 a.val_2_exp b.val_2_exp * k * (l * l)) products in
    (
      subst (λ k. Congruent n (s * s) k) tidy (chain n _ _ _ sq (chain n _ _ _ both signs)),
      root,
      refl,
    )

match-Represents :
    (m : Montgomery) (prime : ℕ → ℕ) (c : Relation)
    → IsContext m
    → Combines (IsPartial (value m.n) prime) m c
    → Represents (value m.n) prime c (c.large_prime * c.large_prime)
      × (c.sqrt_q < value m.n)
      × (c.val_2_exp < 2 ^ 31)
match-Represents m prime c ctx (a, b, va, vb, same_key, new, e) =
    let lp : a.large_prime ≡ b.large_prime =
      omega (arith, same_key, va.prime_fits, vb.prime_fits) in
    let (rep, root, kept) = combined-Represents m prime a b ctx va vb lp in
    let above = ctx.above_one in
    let exponent : (combined m a b).val_2_exp < 2 ^ 31 =
      unfold combined in omega (arith, va.exponent_fits, vb.exponent_fits) in
    let small = mod-lt (a.sqrt_q * b.sqrt_q) {m = value m.n} (omega (arith, above)) in
    subst
      (λ r.
        Represents (value m.n) prime r (r.large_prime * r.large_prime)
        × (r.sqrt_q < value m.n)
        × (r.val_2_exp < 2 ^ 31))
      (sym e)
      (
        subst (λ l. Represents (value m.n) prime (combined m a b) (l * l)) (sym kept) rep,
        omega (arith, root, small),
        exponent,
      )

-- When the stored partials and those of a batch hold modulo N, with exponents of 2 below 2^30 and counts of factors below 2^7, every relation that `insertAndMatch` hands to the accumulator holds modulo N, its root is below N and its exponent of 2 below 2^31, so that the sum of the `int32_t` exponents does not overflow; and the table stays well formed.
pub insert_and_match-Represents :
    (prime : ℕ → ℕ) (rs : List Relation) (t : LargePrimeTable) (a : RelationAccumulator)
    → IsContext t.mont
    → All (IsPartial (value t.mont.n) prime) rs
    → IsTable (IsPartial (value t.mont.n) prime) t
    → (t' : LargePrimeTable) × (out : List Relation) × (insert_and_match (batch_of rs) t a
        ≡ (t', delivered out a))
      × IsTable (IsPartial (value t.mont.n) prime) t'
      × All
          (λ c.
            Represents (value t.mont.n) prime c (c.large_prime * c.large_prime)
            × (c.sqrt_q < value t.mont.n)
            × (c.val_2_exp < 2 ^ 31))
          out
insert_and_match-Represents prime rs t a ctx p w =
    let (t', out, e, w', o, counts) =
      insert_and_match_lem (IsPartial (value t.mont.n) prime) rs t a p w in
    (t', out, e, w', All-map _ _ (λ c h. match-Represents t.mont prime c ctx h) out o)
