-- ===== src/Common/Uint512/Value.antt =====
-- The number that the limbs of a `uint512` stand for.
use native.Mathlib.Nat.{zero-add, suc-add, add-mul-mod_self_left, mod-eq_of_lt}
use cuda_mpqs.Prelude.{
  ℕ, zero, suc, ◌+◌, ◌-◌, ◌*◌, ◌^◌, ◌%◌, ◌<◌, ◌≡◌, refl, ap, sym, subst, ◌∙◌, [], ◌∷◌, ◌++◌, arith,
  take, drop, replicate,
}
use cuda_mpqs.Common.Uint512.{Limbs}

abbrev pub value : Limbs → ℕ
value [] = 0
value (x ∷ xs) = x + 2 ^ 32 * value xs

-- `n` limbs, each of 32 bits.
pub data IsLimbs : ℕ → Limbs → Type 0 where
  none_left : IsLimbs zero []
  limb : {n x : ℕ} {xs : Limbs} → x < 2 ^ 32 → IsLimbs n xs → IsLimbs (suc n) (x ∷ xs)

-- The number of values of `n` limbs.
abbrev pub span : ℕ → ℕ
span zero = 1
span (suc n) = 2 ^ 32 * span n

pub span_pos : (n : ℕ) → 0 < span n
span_pos zero = omega arith
span_pos (suc n) = omega (arith, span_pos n)

pub value_bound : (n : ℕ) (xs : Limbs) → IsLimbs n xs → value xs < span n
value_bound _ _ none_left = omega arith
value_bound _ _ (limb {n} {x} {xs} f h) = omega (arith, f, value_bound n xs h)

pub value-snoc :
    (n : ℕ) (xs : Limbs) (c : ℕ) → IsLimbs n xs → value (xs ++ c ∷ []) ≡ value xs + span n * c
value-snoc _ _ c none_left = omega arith
value-snoc _ _ c (limb {n} {x} {xs} f h) = grind (arith, value-snoc n xs c h)

pub span-sixteen : span 16 ≡ 2 ^ 512
span-sixteen = refl

-- A number given by its limbs and what is carried out of them, cut to the limbs.
pub value-wraps :
    (n : ℕ) (xs : Limbs) (c t : ℕ) → IsLimbs n xs → value (xs ++ c ∷ []) ≡ t → value xs ≡ t % span n
value-wraps n xs c t h e = sym (
    ap (λ s. s % span n) (sym e ∙ value-snoc n xs c h)
    ∙ add-mul-mod_self_left (value xs) (span n) c
    ∙ mod-eq_of_lt (value_bound n xs h))

pub take-IsLimbs : (n : ℕ) (xs : Limbs) → IsLimbs n xs → take n xs ≡ xs
take-IsLimbs _ _ none_left = refl
take-IsLimbs _ _ (limb {n} {x} {xs} f h) = ap (◌∷◌ x) (take-IsLimbs n xs h)

pub append-IsLimbs :
    (n k : ℕ) (xs ys : Limbs) → IsLimbs n xs → IsLimbs k ys → IsLimbs (n + k) (xs ++ ys)
append-IsLimbs _ k _ ys none_left h = subst (λ j. IsLimbs j ys) (sym (zero-add k)) h
append-IsLimbs _ k _ ys (limb {n} {x} {xs} f l) h =
    subst (λ j. IsLimbs j (x ∷ (xs ++ ys))) (sym (suc-add n k))
      (limb f (append-IsLimbs n k xs ys l h))

pub drop-IsLimbs : (k n : ℕ) (xs : Limbs) → IsLimbs n xs → IsLimbs (n - k) (drop k xs)
drop-IsLimbs zero n xs h = subst (λ j. IsLimbs j xs) {x = n} {y = n - 0} (omega arith) h
drop-IsLimbs (suc k) _ _ none_left =
    subst (λ j. IsLimbs j []) {x = 0} {y = 0 - suc k} (omega arith) none_left
drop-IsLimbs (suc k) _ _ (limb {n} {x} {xs} f l) =
    subst (λ j. IsLimbs j (drop k xs)) {x = n - k} {y = suc n - suc k} (omega arith)
      (drop-IsLimbs k n xs l)

pub replicate-IsLimbs : (n : ℕ) → IsLimbs n (replicate n 0)
replicate-IsLimbs zero = none_left
replicate-IsLimbs (suc n) = limb (omega arith) (replicate-IsLimbs n)

pub value-replicate : (n : ℕ) → value (replicate n 0) ≡ 0
value-replicate zero = refl
value-replicate (suc n) = omega (arith, value-replicate n)
