-- ===== src/Common/Uint512/Shifts/Words.antt =====
-- The words of a shift: a limb splits into the bits that stay and the bits that leave it.
use native.Mathlib.Nat.{
  div-add-mod, mod-lt, mod-eq_of_lt, mul-le-mul, mul-add-mod_self_left, lt_of_mul-lt-mul_left,
}
use cuda_mpqs.Prelude.{
  ℕ, zero, suc, ◌+◌, ◌-◌, ◌*◌, ◌/◌, ◌%◌, ◌^◌, ◌≤◌, ◌<◌, ◌≡◌, refl, ap, sym, ◌∙◌, [], ◌∷◌, ◌++◌,
  arith, take, drop, replicate, power_split,
}
use cuda_mpqs.Common.Uint512.{Limbs}
use cuda_mpqs.Common.Uint512.Value.{value, span}

pub word_split : (s : ℕ) → s < 32 → 2 ^ s * 2 ^ (32 - s) ≡ 2 ^ 32
word_split s h =
    sym (power_split s (32 - s)) ∙ ap (λ k. 2 ^ k) {x = s + (32 - s)} {y = 32} (omega arith)

-- The lower bits move up by the factor `q`, the upper ones are cut off.
pub low_bits : (p q y : ℕ) → 0 < p → 0 < q → p * q ≡ 2 ^ 32 → y * q % 2 ^ 32 ≡ q * (y % p)
low_bits p q y hp hq e =
    let whole = div-add-mod y p in
    let r = y % p in
    let small = mod-lt y hp in
    let split : y * q ≡ 2 ^ 32 * (y / p) + q * r =
      grind (arith, ap (λ k. k * q) (sym whole), ap (λ k. k * (y / p)) e) in
    let le : q * suc r ≤ q * p =
      mul-le-mul {n₂ = q} {m₂ = p} (omega arith) (omega (arith, small)) in
    let fits : q * r < 2 ^ 32 = grind (arith, le, e, hq) in
    ap (λ k. k % 2 ^ 32) split ∙ mul-add-mod_self_left (2 ^ 32) (y / p) (q * r) ∙ mod-eq_of_lt fits

-- The upper bits are fewer than the factor of the shift.
pub high_bits : (p q x : ℕ) → 0 < p → p * q ≡ 2 ^ 32 → x < 2 ^ 32 → x / p < q
high_bits p q x hp e h =
    let whole = div-add-mod x p in lt_of_mul-lt-mul_left p (omega (arith, whole, e, h))

-- Both together make a limb.
pub joined_bits : (p q x y : ℕ) → 0 < p → p * q ≡ 2 ^ 32 → x < q → y < p → x + q * y < 2 ^ 32
joined_bits p q x y hp e hx hy =
    let le : q * suc y ≤ q * p = mul-le-mul {n₂ = q} {m₂ = p} (omega arith) (omega arith) in
    grind (arith, le, e, hx)

pub value-drop : (k : ℕ) (xs : Limbs) → value xs ≡ value (take k xs) + span k * value (drop k xs)
value-drop zero xs = omega arith
value-drop (suc k) [] = omega arith
value-drop (suc k) (x ∷ xs) = grind (arith, value-drop k xs)

pub value-zeros : (k : ℕ) (xs : Limbs) → value (xs ++ replicate k 0) ≡ value xs
value-zeros zero [] = refl
value-zeros (suc k) [] = omega (arith, value-zeros k [])
value-zeros k (x ∷ xs) = omega (arith, value-zeros k xs)
