-- ===== src/Common/Uint512/Products/Rows.antt =====
-- `mult` and the 1024-bit product of `mul_mod`.
use native.Mathlib.Nat.{mul-le-mul}
use cuda_mpqs.Prelude.{
  ℕ, suc, ◌+◌, ◌*◌, ◌/◌, ◌%◌, ◌^◌, ◌≤◌, ◌<◌, ◌≡◌, refl, ◌∙◌, [], ◌∷◌, arith, ◌==◌, if◌then◌else◌,
  Bool-cases, inl, inr, get_or, drop, replicate,
}
use cuda_mpqs.Common.Uint512.{Limbs}
use cuda_mpqs.Common.Uint512.Value.{
  value, IsLimbs, none_left, limb, span, span_pos, value_bound, value-snoc, value-wraps,
  replicate-IsLimbs, value-replicate,
}
use cuda_mpqs.Common.Uint512.Products.{mult_row, product_row, rows_loop, mult, product}

-- The largest product of two limbs.
pub limb_product : (a b : ℕ) → a < 2 ^ 32 → b < 2 ^ 32 → a * b ≤ 18446744065119617025
limb_product a b h k = mul-le-mul {n₂ = 4294967295} {m₂ = 4294967295} (omega arith) (omega arith)

-- The product of two limbs, a limb and a carry fit 64 bits.
pub row_step :
    (a b r c : ℕ)
    → a < 2 ^ 32
    → b < 2 ^ 32
    → r < 2 ^ 32
    → c < 2 ^ 32
    → let prod = (a * b + r + c) % 2 ^ 64 in
      (prod % 2 ^ 32 + 2 ^ 32 * (prod / 2 ^ 32) ≡ a * b + r + c) × (prod / 2 ^ 32 < 2 ^ 32)
row_step a b r c f g h k =
    let p = limb_product a b f g in (omega (arith, p, h, k), omega (arith, p, h, k))

-- The row cut to the limbs that are left, with what falls behind them.
mult_row_lem :
    (m n a c : ℕ) (other res : Limbs)
    → a < 2 ^ 32
    → c < 2 ^ 32
    → IsLimbs n other
    → IsLimbs m res
    → m ≤ n
    → (k : ℕ) × (value (mult_row a other res c) + span m * k ≡ value res + a * value other + c)
      × IsLimbs m (mult_row a other res c)
unfolding mult_row
mult_row_lem _ _ a c other _ f g h none_left le = (a * value other + c, omega arith, none_left)
mult_row_lem _ _ a c _ _ f g none_left (limb {n = m} {x = r} {xs = res} y k) le =
    absurd (omega arith)
mult_row_lem _ _ a c _ _ f g (limb {n} {x = b} {xs = other} x h)
      (limb {n = m} {x = r} {xs = res} y k) le =
    let prod = (a * b + r + c) % 2 ^ 64 in
    let s = row_step a b r c f x y g in
    let (q, e, l) = mult_row_lem m n a (prod / 2 ^ 32) other res f s.1 h k (omega arith) in
    (q, grind (arith, e, s), limb (omega arith) l)

head_rest : (xs : Limbs) → get_or xs 0 0 + 2 ^ 32 * value (drop 1 xs) ≡ value xs
head_rest [] = omega arith
head_rest (x ∷ xs) = refl

limbs_rest :
    (m : ℕ) (xs : Limbs) → IsLimbs (suc m) xs → (get_or xs 0 0 < 2 ^ 32) × IsLimbs m (drop 1 xs)
limbs_rest m _ (limb f h) = (f, h)

-- A row of the whole product, where the limbs behind it are still zero.
product_row_lem :
    (m n a c : ℕ) (other ps : Limbs)
    → a < 2 ^ 32
    → c < 2 ^ 32
    → IsLimbs n other
    → IsLimbs m ps
    → n < m
    → value ps < span n
    → (value (product_row a other ps c) ≡ value ps + a * value other + c)
      × IsLimbs m (product_row a other ps c)
unfolding product_row
product_row_lem _ n a c other _ f g h none_left longer room = absurd (omega arith)
product_row_lem _ _ a c _ _ f g none_left (limb {n = m} {x = p} {xs = ps} y k) longer room =
    (omega (arith, room, g), limb (omega arith) k)
product_row_lem _ _ a c _ _ f g (limb {n} {x = b} {xs = other} x h)
      (limb {n = m} {x = p} {xs = ps} y k) longer room =
    let term = (a * b + p + c) % 2 ^ 64 in
    let s = row_step a b p c f x y g in
    let (e, l) =
      product_row_lem m n a (term / 2 ^ 32) other ps f s.1 h k (omega arith)
        (omega (arith, room)) in
    (grind (arith, e, s), limb (omega arith) l)

-- A row leaves room for the next one.
next_room : (a o v w x s : ℕ) → a < 2 ^ 32 → o < s → v < s → x + 2 ^ 32 * w ≡ v + a * o → w < s
next_room a o v w x s f g h e =
    let p : a * o ≤ 4294967295 * o =
      mul-le-mul {n₂ = 4294967295} {m₂ = o} (omega arith) (omega arith) in
    omega (arith, p, e)

product_row_if :
    (m n a : ℕ) (other ps : Limbs)
    → a < 2 ^ 32
    → IsLimbs n other
    → IsLimbs m ps
    → n < m
    → value ps < span n
    → let out = if a == 0 then ps else product_row a other ps 0 in
      (value out ≡ value ps + a * value other) × IsLimbs m out
product_row_if m n a other ps f h q longer room = elim (Bool-cases (a == 0)) [
  | inl z ↦ let e : a ≡ 0 = ground arith in rw (z, e) (omega arith, q)
  | inr z ↦
      let (e, l) = product_row_lem m n a 0 other ps f (omega arith) h q longer room in
      rw z (e ∙ omega arith, l)
]

product_rows_lem :
    (k m n : ℕ) (xs other ps : Limbs)
    → IsLimbs k xs
    → IsLimbs n other
    → IsLimbs m ps
    → n + k ≤ m
    → value ps < span n
    → (value (rows_loop product_row xs other ps) ≡ value ps + value xs * value other)
      × IsLimbs m (rows_loop product_row xs other ps)
unfolding rows_loop
product_rows_lem _ m n _ other ps none_left h p le room = (omega arith, p)
product_rows_lem _ _ n _ other _ (limb f l) h none_left le room = absurd (omega arith)
product_rows_lem _ _ n _ other _ (limb {n = k} {x = a} {xs} f l) h
      (limb {n = m} {x = p} {xs = ps} y q) le room =
    let ps' = p ∷ ps in
    let out = if a == 0 then ps' else product_row a other ps' 0 in
    let (e, lo) = product_row_if (suc m) n a other ps' f h (limb y q) (omega arith) room in
    let (b, r) = limbs_rest m out lo in
    let hr = head_rest out in
    let (e', l') = product_rows_lem k m n xs other (drop 1 out) l h r (omega arith) (
      next_room a (value other) (value ps') (value (drop 1 out)) (get_or out 0 0) (span n) f
        (value_bound n other h) room (hr ∙ e)) in
    (grind (arith, e, e', hr), limb b l')

-- The thirty-two limbs hold the whole product.
pub product_lem :
    (xs other : Limbs)
    → IsLimbs 16 xs
    → IsLimbs 16 other
    → (value (product xs other) ≡ value xs * value other) × IsLimbs 32 (product xs other)
unfolding product
product_lem xs other h k =
    let z = value-replicate 32 in
    let (e, l) =
      product_rows_lem 16 32 16 xs other (replicate 32 0) h k (replicate-IsLimbs 32) (omega arith)
        (omega (arith, z, span_pos 16)) in
    (omega (arith, e, z), l)

mult_row_if :
    (m n a : ℕ) (other res : Limbs)
    → a < 2 ^ 32
    → IsLimbs n other
    → IsLimbs m res
    → m ≤ n
    → let out = if a == 0 then res else mult_row a other res 0 in
      (k : ℕ) × (value out + span m * k ≡ value res + a * value other) × IsLimbs m out
mult_row_if m n a other res f h q le = elim (Bool-cases (a == 0)) [
  | inl z ↦ let e : a ≡ 0 = ground arith in rw (z, e) (0, omega arith, q)
  | inr z ↦
      let (k, e, l) = mult_row_lem m n a 0 other res f (omega arith) h q le in
      rw z (k, e ∙ omega arith, l)
]

mult_rows_lem :
    (m n : ℕ) (xs other res : Limbs)
    → IsLimbs m xs
    → IsLimbs n other
    → IsLimbs m res
    → m ≤ n
    → (k : ℕ) × (value (rows_loop mult_row xs other res) + span m * k
        ≡ value res + value xs * value other)
      × IsLimbs m (rows_loop mult_row xs other res)
unfolding rows_loop
mult_rows_lem _ n _ other _ none_left h none_left le = (0, omega arith, none_left)
mult_rows_lem _ n _ other _ (limb {n = m} {x = a} {xs} f l) h (limb {x = r} {xs = res} y q) le =
    let res' = r ∷ res in
    let out = if a == 0 then res' else mult_row a other res' 0 in
    let (i, e, lo) = mult_row_if (suc m) n a other res' f h (limb y q) le in
    let (b, t) = limbs_rest m out lo in
    let hr = head_rest out in
    let (j, e', l') = mult_rows_lem m n xs other (drop 1 out) l h t (omega arith) in
    (i + j, grind (arith, e, e', hr), limb b l')

-- `mult` returns the low 512 bits of the product.
pub mult-value :
    (xs other : Limbs)
    → IsLimbs 16 xs
    → IsLimbs 16 other
    → (value (mult xs other) ≡ (value xs * value other) % span 16) × IsLimbs 16 (mult xs other)
unfolding mult
mult-value xs other h k =
    let (c, e, l) =
      mult_rows_lem 16 16 xs other (replicate 16 0) h k (replicate-IsLimbs 16) (omega arith) in
    let z = value-replicate 16 in
    (value-wraps 16 _ c _ l (value-snoc 16 _ c l ∙ e ∙ omega (arith, z)), l)
