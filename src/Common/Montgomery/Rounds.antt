-- ===== src/Common/Montgomery/Rounds.antt =====
-- The outer loop of `Montgomery::mul`.
use cuda_mpqs.Prelude.{
  ℕ, ◌+◌, ◌*◌, ◌^◌, ◌≤◌, ◌<◌, ◌≡◌, refl, [], ◌∷◌, arith, get_or, Congruent, Congruent-add,
  Congruent-scale, chain,
}
use native.Mathlib.Nat.{mul-le-mul}
use cuda_mpqs.Common.Uint512.{Limbs}
use cuda_mpqs.Common.Uint512.Value.{value, IsLimbs, none_left, limb, span}
use cuda_mpqs.Common.Montgomery.{Montgomery, reduction_factor, cios_loop, cios_row, cios_rows}
use cuda_mpqs.Common.Montgomery.Row.{IsNegativeInverse, lowest_zero, cios_loop_lem, shift_down_lem}

-- The accumulator: sixteen limbs and the limb above them.
pub record IsAccumulator (t : Limbs × ℕ) : Type 0 where
  pub is_limbs : IsLimbs 16 t.0
  pub top : t.1 < 2 ^ 32

abbrev pub total : Limbs × ℕ → ℕ
total t = value t.0 + span 16 * t.1

-- The first limb of a number is the number modulo 2^32.
lowest : (xs : Limbs) → Congruent (2 ^ 32) (value xs) (get_or xs 0 0)
lowest [] = record { left = 0; right = 0; equation = refl }
lowest (x ∷ xs) = record { left = 0; right = value xs; equation = omega arith }

row_lowest :
    (m : Montgomery) (a u out c : ℕ) (t b : Limbs)
    → u ≡ reduction_factor m (get_or t 0 0) a (get_or b 0 0)
    → IsNegativeInverse (get_or m.n 0 0) m.n_prime
    → out + span 16 * c ≡ value t + a * value b + u * value m.n + 0
    → Congruent (2 ^ 32) out 0
row_lowest m a u out c t b eu inv e =
    let w = 2 ^ 32 in
    let sum : Congruent w (value t + a * value b + u * value m.n)
        (get_or t 0 0 + a * get_or b 0 0 + u * get_or m.n 0 0) =
      Congruent-add w _ _ _ _
        (Congruent-add w _ _ _ _ (lowest t) (Congruent-scale w _ _ a (lowest b)))
        (Congruent-scale w _ _ u (lowest m.n)) in
    let z = lowest_zero m (get_or m.n 0 0) (get_or t 0 0) a (get_or b 0 0) inv in
    let z' : Congruent w (get_or t 0 0 + a * get_or b 0 0 + u * get_or m.n 0 0) 0 = rw eu z in
    let k = chain w _ _ _ sum z' in
    record { left = span 15 * c + k.left; right = k.right; equation = omega (arith, e, k.equation) }

-- A round adds a row of the product and a multiple of N, and divides by 2^32.
pub cios_row_lem :
    (m : Montgomery) (a : ℕ) (b : Limbs) (t : Limbs × ℕ)
    → IsLimbs 16 m.n
    → IsNegativeInverse (get_or m.n 0 0) m.n_prime
    → a < 2 ^ 32
    → IsLimbs 16 b
    → IsAccumulator t
    → let u = reduction_factor m (get_or t.0 0 0) a (get_or b 0 0) in
      IsAccumulator (cios_row m a b t)
      × (u < 2 ^ 32)
      × (2 ^ 32 * total (cios_row m a b t) ≡ total t + a * value b + u * value m.n)
unfolding cios_row
cios_row_lem m a b (t, extra) hn inv ha hb h =
    let u = reduction_factor m (get_or t 0 0) a (get_or b 0 0) in
    let small : u < 2 ^ 32 = unfold reduction_factor in omega arith in
    let r = cios_loop a u t b m.n 0 in
    let (l, o, e) = cios_loop_lem 16 a u 0 t b m.n ha small (omega arith) h.is_limbs hb hn in
    let z = row_lowest m a u (value r.0) r.1 t b refl inv e in
    let (l', o', e') = shift_down_lem 15 r.1 extra r.0 l o h.top z in
    (record { is_limbs = l'; top = o' }, small, omega (arith, e, e'))

-- A round keeps the accumulator below B + N.
row_bound :
    (a u b n v w : ℕ)
    → a < 2 ^ 32
    → u < 2 ^ 32
    → v < b + n
    → 2 ^ 32 * w ≡ v + a * b + u * n
    → w < b + n
row_bound a u b n v w ha hu hv e =
    let p : a * b ≤ 4294967295 * b =
      mul-le-mul {n₂ = 4294967295} {m₂ = b} (omega arith) (omega arith) in
    let q : u * n ≤ 4294967295 * n =
      mul-le-mul {n₂ = 4294967295} {m₂ = n} (omega arith) (omega arith) in
    omega (arith, p, q, e, hv)

-- All rounds together divide the product by R, up to a multiple of N.
pub cios_rows_lem :
    (k : ℕ) (m : Montgomery) (xs b : Limbs) (t : Limbs × ℕ)
    → IsLimbs 16 m.n
    → IsNegativeInverse (get_or m.n 0 0) m.n_prime
    → IsLimbs k xs
    → IsLimbs 16 b
    → IsAccumulator t
    → total t < value b + value m.n
    → IsAccumulator (cios_rows m xs b t)
      × (total (cios_rows m xs b t) < value b + value m.n)
      × (q : ℕ) × (span k * total (cios_rows m xs b t)
          ≡ total t + value xs * value b + q * value m.n)
unfolding cios_rows
cios_rows_lem _ m _ b t hn inv none_left hb h low = (h, low, 0, omega arith)
cios_rows_lem _ m _ b t hn inv (limb {n = k} {x = a} {xs} f l) hb h low =
    let t' = cios_row m a b t in
    let (h', small, e) = cios_row_lem m a b t hn inv f hb h in
    let u = reduction_factor m (get_or t.0 0 0) a (get_or b 0 0) in
    let low' = row_bound a u (value b) (value m.n) (total t) (total t') f small low e in
    let (h2, low2, q, e2) = cios_rows_lem k m xs b t' hn inv l hb h' low' in
    (h2, low2, 2 ^ 32 * q + u, grind (arith, e, e2))
