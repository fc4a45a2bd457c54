-- ===== src/Common/Uint512/Division/Remainder.antt =====
-- `div_mod_core` and `mul_mod`: long division, one bit of the dividend at a time.
use native.Mathlib.Nat.{pow-succ', div-add-mod, mod-lt, div-eq_of_lt, div-div-eq-div-mul}
use cuda_mpqs.Prelude.{
  ℕ, zero, suc, ◌+◌, ◌*◌, ◌/◌, ◌%◌, ◌^◌, ◌≤◌, ◌<◌, ◌≡◌, refl, ap, sym, subst, ◌∙◌, arith, power_pos,
  ltb, ◌==◌, Bool-cases, true, false, inl, inr, if◌then◌else◌, Congruent, chain, Congruent-add,
  Congruent-scale, Congruent-residue, same,
}
use cuda_mpqs.Common.Uint512.{Limbs, exceeds, subtract_once, from_uint32, is_zero, less}
use cuda_mpqs.Common.Uint512.Value.{value, IsLimbs, limb, span, value_bound, replicate-IsLimbs}
use cuda_mpqs.Common.Uint512.Modular.{IsResidue, residue, subtract_once_lem}
use cuda_mpqs.Common.Uint512.Order.{less-value, is_zero-value}
use cuda_mpqs.Common.Uint512.Products.{product}
use cuda_mpqs.Common.Uint512.Products.Rows.{product_lem}
use cuda_mpqs.Common.Uint512.Shifts.{double_loop}
use cuda_mpqs.Common.Uint512.Shifts.Left.{double_loop_lem}
use cuda_mpqs.Common.Uint512.Division.{
  bit, msb, inject, divide_loop, div_mod_core, modulo, reduce_loop, top_bit, mul_mod,
}
use cuda_mpqs.Common.Uint512.Division.Bit.{bit-value, msb_lem}

-- The remainder shifted by one with the next bit: no bit is lost.
inject_lem :
    (xs : Limbs) (b : ℕ)
    → IsLimbs 16 xs
    → b ≤ 1
    → let r = inject xs b in IsLimbs 16 r.0 × (value r.0 + span 16 * r.1 ≡ 2 * value xs + b)
unfolding inject double_loop
inject_lem _ b (limb {x} {xs} f h) small =
    let (l, o, e) = double_loop_lem 15 (x / 2 ^ 31) xs (omega arith) h in
    (limb (omega arith) l, omega (arith, e, f))

-- The number of which the remainder has been taken, before and after a bit.
next_bit : (v i : ℕ) → v / 2 ^ i ≡ 2 * (v / 2 ^ suc i) + v / 2 ^ i % 2
next_bit v i =
    let e : v / 2 ^ suc i ≡ v / 2 ^ i / 2 =
      ap (λ k. v / k) (pow-succ' 2 i ∙ grind arith) ∙ sym (div-div-eq-div-mul v (2 ^ i) 2) in
    omega (arith, e)

-- The remainder that the bits of `v` from `i` on leave.
pub record IsPartial (v i : ℕ) (d rem : Limbs) : Type 0 where
  pub is_limbs : IsLimbs 16 rem
  pub below : value rem < value d
  pub congruent : Congruent (value d) (value rem) (v / 2 ^ i)

-- One bit of the division.
divide_bit :
    (v i b : ℕ) (d rem : Limbs)
    → IsLimbs 16 d
    → b ≡ v / 2 ^ i % 2
    → IsPartial v (suc i) d rem
    → IsPartial v i d (subtract_once (inject rem b) d)
divide_bit v i b d rem hd eb h =
    let n = value d in
    let small : b ≤ 1 = omega (arith, eb) in
    let (l, e) = inject_lem rem b h.is_limbs small in
    let low = h.below in
    let (l', b', e') = subtract_once_lem (inject rem b) d hd l (omega (arith, e, low, small)) in
    let q : ℕ = if exceeds (inject rem b) d then 1 else 0 in
    let up = Congruent-add n _ _ b b (Congruent-scale n _ _ 2 h.congruent) (same n b) in
    record {
      is_limbs = l';
      below = b';
      congruent =
          chain n _ _ _ (record { left = q; right = 0; equation = omega (arith, e, e') })
            (subst (λ k. Congruent n (2 * value rem + b) k) (omega (arith, eb, next_bit v i)) up);
    }

reduce_loop-IsPartial :
    (k i : ℕ) (p d rem : Limbs)
    → IsLimbs k p
    → IsLimbs 16 d
    → IsPartial (value p) i d rem
    → IsPartial (value p) 0 d (reduce_loop i p d rem)
unfolding reduce_loop
reduce_loop-IsPartial k zero p d rem hp hd h = h
reduce_loop-IsPartial k (suc i) p d rem hp hd h =
    reduce_loop-IsPartial k i p d _ hp hd
      (divide_bit (value p) i (bit p i) d rem hd (bit-value k i p hp) h)

divide_loop-IsPartial :
    (k i : ℕ) (p d q rem : Limbs)
    → IsLimbs k p
    → IsLimbs 16 d
    → IsPartial (value p) i d rem
    → IsPartial (value p) 0 d (divide_loop i p d q rem).1
unfolding divide_loop
divide_loop-IsPartial k zero p d q rem hp hd h = h
divide_loop-IsPartial k (suc i) p d q rem hp hd h =
    divide_loop-IsPartial k i p d _ _ hp hd
      (divide_bit (value p) i (bit p i) d rem hd (bit-value k i p hp) h)

pub zero-IsLimbs : IsLimbs 16 (from_uint32 0)
unfolding from_uint32
zero-IsLimbs = limb (omega arith) (replicate-IsLimbs 15)

pub value-zero : value (from_uint32 0) ≡ 0
unfolding from_uint32
value-zero = refl

-- Above the highest bit there is nothing to divide.
start-IsPartial : (v i : ℕ) (d : Limbs) → v < 2 ^ i → 0 < value d → IsPartial v i d (from_uint32 0)
start-IsPartial v i d h pos = record {
  is_limbs = zero-IsLimbs;
  below = rw value-zero pos;
  congruent = rw (value-zero, div-eq_of_lt h) (same (value d) 0);
}

IsPartial-IsResidue : (v : ℕ) (d rem : Limbs) → IsPartial v 0 d rem → IsResidue v (value d) rem
IsPartial-IsResidue v d rem h = record {
  is_limbs = h.is_limbs;
  below = h.below;
  equation =
      Congruent-residue (value d) (value rem) v h.below
        (subst (λ k. Congruent (value d) (value rem) k) (omega arith) h.congruent);
}

-- The three cases of the division.
div_mod_core-small :
    (xs d out : Limbs)
    → is_zero d ≡ false
    → less xs d ≡ true
    → div_mod_core xs d out ≡ (from_uint32 0, xs)
unfolding div_mod_core
div_mod_core-small xs d out z l = rw (z, l) refl

div_mod_core-large :
    (xs d out : Limbs)
    → is_zero d ≡ false
    → less xs d ≡ false
    → div_mod_core xs d out ≡ divide_loop (msb xs + 1) xs d (from_uint32 0) (from_uint32 0)
unfolding div_mod_core
div_mod_core-large xs d out z l = rw (z, l) refl

-- For any divisor but zero, `mod` leaves the remainder of the division.
pub modulo-IsResidue :
    (xs d : Limbs)
    → IsLimbs 16 xs
    → IsLimbs 16 d
    → 0 < value d
    → IsResidue (value xs) (value d) (modulo xs d)
unfolding modulo
modulo-IsResidue xs d h k pos =
    let z : is_zero d ≡ false = is_zero-value 16 d k ∙ ground arith in
    let l = less-value 16 xs d h k in
    elim (Bool-cases (ltb (value xs) (value d))) [
      | inl low ↦
          subst (IsResidue (value xs) (value d))
            (sym (ap (λ r. r.1) (div_mod_core-small xs d _ z (l ∙ low))))
            (residue _ _ xs h (ground arith) refl)
      | inr high ↦
          subst (IsResidue (value xs) (value d))
            (sym (ap (λ r. r.1) (div_mod_core-large xs d _ z (l ∙ high))))
            (IsPartial-IsResidue _ _ _ (
              divide_loop-IsPartial 16 (msb xs + 1) xs d _ _ h k
                (start-IsPartial _ _ d (msb_lem xs h) pos)))
    ]

top_bit_lem : (k n : ℕ) (p : Limbs) → IsLimbs k p → value p < 2 ^ n → value p < 2 ^ top_bit n p
unfolding top_bit
top_bit_lem k zero p h low = low
top_bit_lem k (suc i) p h low = elim (Bool-cases (bit p i == 0)) [
  | inl z ↦
      let top : value p / 2 ^ suc i ≡ 0 = div-eq_of_lt low in
      let none' : value p / 2 ^ i ≡ 0 =
        ground (arith, next_bit (value p) i, bit-value k i p h, top) in
      let whole = div-add-mod (value p) (2 ^ i) in
      let rest = mod-lt (value p) (power_pos i) in
      let low' : value p < 2 ^ i = small (value p) (2 ^ i) none' whole rest in
      rw z (top_bit_lem k i p h low')
  | inr set' ↦ rw set' low
]
  where
    small : (v m : ℕ) → v / m ≡ 0 → m * (v / m) + v % m ≡ v → v % m < m → v < m
    small v m z e r = let e' : m * (v / m) ≡ 0 = rw z (omega arith) in omega (arith, e, e', r)

-- For any modulus but zero, `mul_mod` returns the product modulo it: no bit of the 1024-bit product is lost.
pub mul_mod-IsResidue :
    (xs other n : Limbs)
    → IsLimbs 16 xs
    → IsLimbs 16 other
    → IsLimbs 16 n
    → 0 < value n
    → IsResidue (value xs * value other) (value n) (mul_mod xs other n)
unfolding mul_mod
mul_mod-IsResidue xs other n h k l pos =
    let z : is_zero n ≡ false = is_zero-value 16 n l ∙ ground arith in
    let p = product xs other in
    let (e, hp) = product_lem xs other h k in
    let fits : value p < 2 ^ 1024 = value_bound 32 p hp in
    let i = top_bit 1024 p in
    rw z (
      subst (λ v. IsResidue v (value n) (reduce_loop i p n (from_uint32 0))) e
        (IsPartial-IsResidue _ _ _ (
          reduce_loop-IsPartial 32 i p n _ hp l
            (start-IsPartial _ _ n (top_bit_lem 32 1024 p hp fits) pos))))
