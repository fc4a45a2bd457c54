-- ===== src/Common/Uint512/Sums.antt =====
-- `add`, `add_uint32` and `sub`.
use cuda_mpqs.Prelude.{
  ℕ, zero, suc, ◌+◌, ◌*◌, ◌^◌, ◌%◌, ◌/◌, ◌<◌, ◌≤◌, ◌≡◌, refl, ◌∙◌, [], ◌∷◌, ◌++◌, arith, sub32, ◌⊎◌,
  inl, inr,
}
use cuda_mpqs.Common.Uint512.{Limbs, add_loop, add, sub_loop, sub, borrow_out}
use cuda_mpqs.Common.Uint512.Value.{
  value, IsLimbs, none_left, limb, span, value_bound, value-snoc, value-wraps,
}

pub add_loop-IsLimbs :
    (n : ℕ) (xs ys : Limbs) (c : ℕ) → IsLimbs n xs → IsLimbs n ys → IsLimbs n (add_loop xs ys c)
unfolding add_loop
add_loop-IsLimbs _ _ _ c none_left none_left = none_left
add_loop-IsLimbs _ _ _ c (limb {n} {x} {xs} f h) (limb {x = y} {xs = ys} g k) =
    limb (omega arith) (add_loop-IsLimbs n xs ys ((x + y + c) % 2 ^ 64 / 2 ^ 32) h k)

-- The limbs of the sum and the last carry.
pub add_loop_lem :
    (n : ℕ) (xs ys : Limbs) (c : ℕ)
    → IsLimbs n xs
    → IsLimbs n ys
    → c ≤ 1
    → (c' : ℕ) × (c' ≤ 1) × (value (add_loop xs ys c ++ c' ∷ []) ≡ value xs + value ys + c)
unfolding add_loop
add_loop_lem _ _ _ c none_left none_left b = (c, b, omega arith)
add_loop_lem _ _ _ c (limb {n} {x} {xs} f h) (limb {x = y} {xs = ys} g k) b =
    let (c', b', e) =
      add_loop_lem n xs ys ((x + y + c) % 2 ^ 64 / 2 ^ 32) h k (omega (arith, f, g, b)) in
    (c', b', omega (arith, e, f, g, b))

sub_step :
    (a b c : ℕ)
    → a < 2 ^ 32
    → b < 2 ^ 32
    → c ≤ 1
    → a + 2 ^ 32 * borrow_out a b c ≡ sub32 (sub32 a b) c + b + c
sub_step a b c h k l = ground arith

pub sub_loop-IsLimbs :
    (n : ℕ) (xs ys : Limbs) (c : ℕ) → IsLimbs n xs → IsLimbs n ys → IsLimbs n (sub_loop xs ys c)
unfolding sub_loop
sub_loop-IsLimbs _ _ _ c none_left none_left = none_left
sub_loop-IsLimbs _ _ _ c (limb {n} {x} {xs} f h) (limb {x = y} {xs = ys} g k) =
    limb (omega arith) (sub_loop-IsLimbs n xs ys (borrow_out x y c) h k)

borrow_out-le : (a b c : ℕ) → borrow_out a b c ≤ 1
borrow_out-le a b c = ground arith

pub sub_loop_lem :
    (n : ℕ) (xs ys : Limbs) (c : ℕ)
    → IsLimbs n xs
    → IsLimbs n ys
    → c ≤ 1
    → (c' : ℕ) × (c' ≤ 1) × (value (xs ++ c' ∷ []) ≡ value (sub_loop xs ys c) + value ys + c)
unfolding sub_loop
sub_loop_lem _ _ _ c none_left none_left b = (c, b, omega arith)
sub_loop_lem _ _ _ c (limb {n} {x} {xs} f h) (limb {x = y} {xs = ys} g k) b =
    let (c', b', e) = sub_loop_lem n xs ys (borrow_out x y c) h k (borrow_out-le x y c) in
    (c', b', omega (arith, e, sub_step x y c f g b))

pub add-value :
    (xs ys : Limbs)
    → IsLimbs 16 xs
    → IsLimbs 16 ys
    → value (add xs ys) ≡ (value xs + value ys) % span 16
unfolding add
add-value xs ys h k =
    let (c, b, e) = add_loop_lem 16 xs ys 0 h k (omega arith) in
    value-wraps 16 _ c _ (add_loop-IsLimbs 16 xs ys 0 h k) (e ∙ omega arith)

-- The borrow is carried out exactly when the difference is negative.
sub-value_at :
    (n : ℕ) (xs ys : Limbs)
    → IsLimbs n xs
    → IsLimbs n ys
    → (value ys ≤ value xs → value (sub_loop xs ys 0) + value ys ≡ value xs)
      × (value xs < value ys → value (sub_loop xs ys 0) + value ys ≡ value xs + span n)
sub-value_at n xs ys h k =
    let out = sub_loop xs ys 0 in
    let (c, b, e) = sub_loop_lem n xs ys 0 h k (omega arith) in
    let e' = value-snoc n xs c h in
    let small = value_bound n out (sub_loop-IsLimbs n xs ys 0 h k) in
    let high = value_bound n ys k in
    elim (bit_cases c b) [
      | inl z ↦
          let s : span n * c ≡ 0 = rw z (omega arith) in
          (λ le. omega (arith, e, e', s), λ lt. absurd (omega (arith, e, e', s)))
      | inr o ↦
          let s : span n * c ≡ span n = rw o (omega arith) in
          (
            λ le. absurd (omega (arith, e, e', s, small, value_bound n xs h)),
            λ lt. omega (arith, e, e', s),
          )
    ]
  where
    bit_cases : (c : ℕ) → c ≤ 1 → (c ≡ 0) ⊎ (c ≡ 1)
    bit_cases zero b = inl refl
    bit_cases (suc zero) b = inr refl
    bit_cases (suc (suc c)) b = absurd (omega arith)

pub add-IsLimbs : (xs ys : Limbs) → IsLimbs 16 xs → IsLimbs 16 ys → IsLimbs 16 (add xs ys)
unfolding add
add-IsLimbs xs ys h k = add_loop-IsLimbs 16 xs ys 0 h k

pub sub-IsLimbs : (xs ys : Limbs) → IsLimbs 16 xs → IsLimbs 16 ys → IsLimbs 16 (sub xs ys)
unfolding sub
sub-IsLimbs xs ys h k = sub_loop-IsLimbs 16 xs ys 0 h k

pub sub-value :
    (xs ys : Limbs)
    → IsLimbs 16 xs
    → IsLimbs 16 ys
    → value ys ≤ value xs
    → value (sub xs ys) + value ys ≡ value xs
unfolding sub
sub-value xs ys h k = (sub-value_at 16 xs ys h k).0

pub sub-value_wrapped :
    (xs ys : Limbs)
    → IsLimbs 16 xs
    → IsLimbs 16 ys
    → value xs < value ys
    → value (sub xs ys) + value ys ≡ value xs + span 16
unfolding sub
sub-value_wrapped xs ys h k = (sub-value_at 16 xs ys h k).1
