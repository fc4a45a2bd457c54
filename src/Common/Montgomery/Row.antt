-- ===== src/Common/Montgomery/Row.antt =====
-- One round of `Montgomery::mul`: a row of the product, and the division by 2^32.
use cuda_mpqs.Prelude.{
  ℕ, suc, ◌+◌, ◌*◌, ◌/◌, ◌%◌, ◌^◌, ◌<◌, ◌≡◌, ap, ◌∙◌, [], ◌∷◌, ◌++◌, arith, Congruent,
  Congruent-add, Congruent-mul, chain, same, multiple, mod-Congruent,
}
use cuda_mpqs.Common.Uint512.{Limbs}
use cuda_mpqs.Common.Uint512.Value.{value, IsLimbs, none_left, limb, span, value-snoc}
use cuda_mpqs.Common.Uint512.Products.Rows.{limb_product}
use cuda_mpqs.Common.Montgomery.{Montgomery, mul32, reduction_factor, cios_loop, shift_down}

-- `n_prime` is the negative inverse of the lowest limb of N.
abbrev pub IsNegativeInverse : ℕ → ℕ → Type 0
IsNegativeInverse n0 n_prime = (k : ℕ) × (n0 * n_prime + 1 ≡ 2 ^ 32 * k)

-- The lowest limb of a row is a multiple of 2^32.
pub lowest_zero :
    (m : Montgomery) (n0 t0 a b0 : ℕ)
    → IsNegativeInverse n0 m.n_prime
    → Congruent (2 ^ 32) (t0 + a * b0 + reduction_factor m t0 a b0 * n0) 0
unfolding reduction_factor
lowest_zero m n0 t0 a b0 (k, e) =
    let w = 2 ^ 32 in
    let s = (t0 + mul32 a b0) % w in
    let u = s * m.n_prime % w in
    let s' = t0 + a * b0 in
    let c : Congruent w s s' =
      chain w _ _ _ (mod-Congruent w (t0 + mul32 a b0))
        (Congruent-add w t0 t0 _ _ (same w t0) (mod-Congruent w (a * b0))) in
    let cu : Congruent w u (s' * m.n_prime) =
      chain w _ _ _ (mod-Congruent w (s * m.n_prime))
        (Congruent-mul w s s' m.n_prime m.n_prime c (same w m.n_prime)) in
    let whole : Congruent w (s' + u * n0) (s' + s' * m.n_prime * n0) =
      Congruent-add w s' s' _ _ (same w s') (Congruent-mul w u _ n0 n0 cu (same w n0)) in
    let even : s' + s' * m.n_prime * n0 ≡ w * (s' * k) =
      grind arith ∙ ap (λ x. s' * x) e ∙ grind arith in
    chain w _ _ _ whole (subst_left w _ _ even (multiple w (s' * k)))
  where
    subst_left : (w x y : ℕ) → x ≡ y → Congruent w y 0 → Congruent w x 0
    subst_left w x y e h = rw e h

cios_step :
    (a u t b n c : ℕ)
    → a < 2 ^ 32
    → u < 2 ^ 32
    → t < 2 ^ 32
    → b < 2 ^ 32
    → n < 2 ^ 32
    → c < 2 ^ 34
    → let sum = (t + a * b + u * n + c) % 2 ^ 128 in
      (sum % 2 ^ 32 + 2 ^ 32 * (sum / 2 ^ 32) ≡ t + a * b + u * n + c) × (sum / 2 ^ 32 < 2 ^ 34)
cios_step a u t b n c ha hu ht hb hn hc =
    let p = limb_product a b ha hb in
    let q = limb_product u n hu hn in (omega (arith, p, q, ht, hc), omega (arith, p, q, ht, hc))

-- No 128-bit sum wraps: the limbs and the carry hold `T + a * B + u * N`.
pub cios_loop_lem :
    (k a u c : ℕ) (ts bs ns : Limbs)
    → a < 2 ^ 32
    → u < 2 ^ 32
    → c < 2 ^ 34
    → IsLimbs k ts
    → IsLimbs k bs
    → IsLimbs k ns
    → let r = cios_loop a u ts bs ns c in
      IsLimbs k r.0
      × (r.1 < 2 ^ 34)
      × (value r.0 + span k * r.1 ≡ value ts + a * value bs + u * value ns + c)
unfolding cios_loop
cios_loop_lem _ a u c _ _ _ ha hu hc none_left none_left none_left = (none_left, hc, omega arith)
cios_loop_lem _ a u c _ _ _ ha hu hc (limb {n = k} {x = t} {xs = ts} x ht)
      (limb {x = b} {xs = bs} y hb) (limb {x = n} {xs = ns} z hn) =
    let sum = (t + a * b + u * n + c) % 2 ^ 128 in
    let s = cios_step a u t b n c ha hu x y z hc in
    let (l, o, e) = cios_loop_lem k a u (sum / 2 ^ 32) ts bs ns ha hu s.1 ht hb hn in
    (limb (omega arith) l, o, grind (arith, e, s))

pub snoc-IsLimbs :
    (k x : ℕ) (ws : Limbs) → IsLimbs k ws → x < 2 ^ 32 → IsLimbs (suc k) (ws ++ x ∷ [])
snoc-IsLimbs _ x _ none_left h = limb h none_left
snoc-IsLimbs _ x _ (limb {n} {x = y} {xs} f l) h = limb f (snoc-IsLimbs n x xs l h)

-- Dropping a lowest limb that is zero divides by 2^32.
pub shift_down_lem :
    (k c extra : ℕ) (ws : Limbs)
    → IsLimbs (suc k) ws
    → c < 2 ^ 34
    → extra < 2 ^ 32
    → Congruent (2 ^ 32) (value ws) 0
    → let r = shift_down (ws, c) extra in
      IsLimbs (suc k) r.0
      × (r.1 < 2 ^ 32)
      × (2 ^ 32 * (value r.0 + span (suc k) * r.1) ≡ value ws + span (suc k) * (extra + c))
unfolding shift_down
shift_down_lem k c extra _ (limb {x = w} {xs = ws} f l) hc he z =
    let top = (extra + c) % 2 ^ 128 in
    let low = top % 2 ^ 32 in
    let high = top / 2 ^ 32 % 2 ^ 32 in
    let zero_word : w ≡ 0 = omega (arith, z.equation, f) in
    let parts : low + 2 ^ 32 * high ≡ extra + c = omega (arith, hc, he) in
    let last = value-snoc k ws low l in
    let scaled : span k * low + 2 ^ 32 * (span k * high) ≡ span k * (extra + c) =
      grind arith ∙ ap (λ x. span k * x) parts in
    (snoc-IsLimbs k low ws l (omega arith), omega arith, grind (arith, zero_word, last, scaled))
