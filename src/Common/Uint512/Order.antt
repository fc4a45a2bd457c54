-- ===== src/Common/Uint512/Order.antt =====
-- The comparisons, and the arithmetic modulo N that rests on them.
use cuda_mpqs.Prelude.{
  ℕ, ◌^◌, ◌<◌, ◌≡◌, refl, sym, ◌∷◌, inl, inr, Bool, true, false, Option, none, some, arith, ltb,
  ◌==◌, if◌then◌else◌, Bool-cases, lt→ltb,
}
use cuda_mpqs.Common.Uint512.{Limbs, scan_limbs, less, is_zero}
use cuda_mpqs.Common.Uint512.Value.{value, IsLimbs, none_left, limb}

-- What the scan says of the numbers.
abbrev Agrees : Limbs → Limbs → Option Bool → Type 0
Agrees xs ys none = value xs ≡ value ys
Agrees xs ys (some true) = value xs < value ys
Agrees xs ys (some false) = value ys < value xs

scan_step :
    (x y : ℕ) (xs ys : Limbs) (o : Option Bool)
    → x < 2 ^ 32
    → y < 2 ^ 32
    → Agrees xs ys o
    → Agrees
        (x ∷ xs)
        (y ∷ ys)
        (elim o [ some less ↦ some less | none ↦ if x == y then none else some (ltb x y) ])
scan_step x y xs ys (some true) f g h = omega arith
scan_step x y xs ys (some false) f g h = omega arith
scan_step x y xs ys none f g h = elim (Bool-cases (x == y)) [
  | inl e ↦ rw e (ground arith)
  | inr e ↦ elim (Bool-cases (ltb x y)) [
    | inl l ↦ rw (e, l) (ground arith)
    | inr l ↦ rw (e, l) (ground arith)
  ]
]

scan_limbs-Agrees :
    (n : ℕ) (xs ys : Limbs) → IsLimbs n xs → IsLimbs n ys → Agrees xs ys (scan_limbs xs ys)
unfolding scan_limbs
scan_limbs-Agrees _ _ _ none_left none_left = refl
scan_limbs-Agrees _ _ _ (limb {n} {x} {xs} f h) (limb {x = y} {xs = ys} g k) =
    scan_step x y xs ys (scan_limbs xs ys) f g (scan_limbs-Agrees n xs ys h k)

pub less-value :
    (n : ℕ) (xs ys : Limbs) → IsLimbs n xs → IsLimbs n ys → less xs ys ≡ ltb (value xs) (value ys)
unfolding less
less-value n xs ys h k = read (scan_limbs xs ys) (scan_limbs-Agrees n xs ys h k)
  where
    read :
        (o : Option Bool)
        → Agrees xs ys o
        → elim o [ some b ↦ b | none ↦ false ] ≡ ltb (value xs) (value ys)
    read none a = ground arith
    read (some true) a = sym (lt→ltb _ _ a)
    read (some false) a = ground arith

pub is_zero-value : (n : ℕ) (xs : Limbs) → IsLimbs n xs → is_zero xs ≡ (value xs == 0)
unfolding is_zero
is_zero-value _ _ none_left = refl
is_zero-value _ _ (limb {n} {x} {xs} f h) = ground (arith, is_zero-value n xs h)
