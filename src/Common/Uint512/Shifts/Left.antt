-- ===== src/Common/Uint512/Shifts/Left.antt =====
-- The shifts to the left: `double_loop`, `lshift` and `double_mod`.
use cuda_mpqs.Prelude.{
  ℕ, zero, suc, ◌+◌, ◌*◌, ◌/◌, ◌%◌, ◌^◌, ◌≤◌, ◌<◌, ◌≡◌, refl, ap, sym, ◌∙◌, ◌∷◌, arith, get_or,
  take,
}
use cuda_mpqs.Common.Uint512.{Limbs, exceeds, subtract_once}
use cuda_mpqs.Common.Uint512.Value.{value, IsLimbs, none_left, limb, span, take-IsLimbs}
use cuda_mpqs.Common.Uint512.Modular.{IsResidue, IsResidue-times, subtract_once_lem}
use cuda_mpqs.Common.Uint512.Shifts.{double_loop, shift_up, lshift_bits, lshift, double_mod}

pub double_loop_lem :
    (n c : ℕ) (xs : Limbs)
    → c ≤ 1
    → IsLimbs n xs
    → let r = double_loop xs c in
      IsLimbs n r.0 × (r.1 ≤ 1) × (value r.0 + span n * r.1 ≡ 2 * value xs + c)
unfolding double_loop
double_loop_lem _ c _ h none_left = (none_left, h, omega arith)
double_loop_lem _ c _ h (limb {n} {x} {xs} f l) =
    let (k, b, e) = double_loop_lem n (x / 2 ^ 31) xs (omega arith) l in
    (limb (omega arith) k, b, grind (arith, e))

-- A shift by one and the doubling loop agree on the limbs.
shift_up-double :
    (n x : ℕ) (xs : Limbs)
    → x < 2 ^ 32
    → IsLimbs n xs
    → shift_up 1 x xs ≡ (double_loop xs (x / 2 ^ 31)).0
unfolding shift_up double_loop
shift_up-double _ x _ g none_left = refl
shift_up-double _ x _ g (limb {n} {x = y} {xs} f l) =
    ap (λ zs. (y * 2 % 2 ^ 32 + x / 2 ^ 31) ∷ zs) (shift_up-double n y xs f l)

-- The bit that leaves the limbs is the highest bit of the highest limb.
double_loop-top :
    (n c : ℕ) (xs : Limbs) → IsLimbs (suc n) xs → (double_loop xs c).1 ≡ get_or xs n 0 / 2 ^ 31
unfolding double_loop
double_loop-top zero c _ (limb f none_left) = refl
double_loop-top (suc n) c _ (limb {x} {xs} f l) = double_loop-top n (x / 2 ^ 31) xs l

-- With the argument below N, `double_mod` returns twice the argument modulo N, also where the double does not fit 512 bits.
pub double_mod-IsResidue :
    (xs n : Limbs)
    → IsLimbs 16 xs
    → IsLimbs 16 n
    → value xs < value n
    → IsResidue (2 * value xs) (value n) (double_mod xs n)
unfolding double_mod lshift lshift_bits
double_mod-IsResidue xs n h k low =
    let r = double_loop xs 0 in
    let (l, b, e) = double_loop_lem 16 0 xs (omega arith) h in
    let limbs : shift_up 1 0 (take 16 xs) ≡ r.0 =
      ap (shift_up 1 0) (take-IsLimbs 16 xs h) ∙ shift_up-double 16 0 xs (omega arith) h in
    let top : get_or xs 15 0 / 2 ^ 31 ≡ r.1 = sym (double_loop-top 15 0 xs h) in
    let (l', b', e') = subtract_once_lem r n k l (omega (arith, e, low)) in
    let is' : IsResidue (2 * value xs) (value n) (subtract_once r n) =
      IsResidue-times _ _ _ _ l' b' (e' ∙ e ∙ omega arith) in
    rw (limbs, top) (unfold subtract_once in unfold exceeds in is')
