-- ===== src/Common/Uint512/Products/Words.antt =====
-- `mul_uint64_inplace` and `mult_uint32`: products by one machine word.
use native.Mathlib.Nat.{mul-le-mul}
use cuda_mpqs.Prelude.{ℕ, ◌+◌, ◌*◌, ◌/◌, ◌%◌, ◌^◌, ◌≤◌, ◌<◌, ◌≡◌, ◌∙◌, arith}
use cuda_mpqs.Common.Uint512.{Limbs}
use cuda_mpqs.Common.Uint512.Value.{value, IsLimbs, none_left, limb, span}
use cuda_mpqs.Common.Uint512.Products.{scale_loop, mul_uint64_inplace}

word_product : (a v : ℕ) → a < 2 ^ 32 → v < 2 ^ 64 → a * v ≤ 79228162495817593515539431425
word_product a v h k =
    mul-le-mul {n₂ = 4294967295} {m₂ = 18446744073709551615} (omega arith) (omega arith)

scale_step :
    (a v c : ℕ)
    → a < 2 ^ 32
    → v < 2 ^ 64
    → c < 2 ^ 64
    → let prod = (a * v + c) % 2 ^ 128 in
      (prod % 2 ^ 32 + 2 ^ 32 * (prod / 2 ^ 32 % 2 ^ 64) ≡ a * v + c)
      × (prod / 2 ^ 32 % 2 ^ 64 < 2 ^ 64)
scale_step a v c f g h = let p = word_product a v f g in (omega (arith, p, h), omega (arith, p, h))

-- No 128-bit product wraps: the limbs and the carry out of them hold the whole product.
scale_loop_lem :
    (n v c : ℕ) (xs : Limbs)
    → v < 2 ^ 64
    → c < 2 ^ 64
    → IsLimbs n xs
    → let r = scale_loop v xs c in
      IsLimbs n r.0 × (r.1 < 2 ^ 64) × (value r.0 + span n * r.1 ≡ value xs * v + c)
unfolding scale_loop
scale_loop_lem _ v c _ g h none_left = (none_left, h, omega arith)
scale_loop_lem _ v c _ g h (limb {n} {x = a} {xs} f k) =
    let prod = (a * v + c) % 2 ^ 128 in
    let s = scale_step a v c f g h in
    let (l, b, e) = scale_loop_lem n v (prod / 2 ^ 32 % 2 ^ 64) xs g s.1 k in
    (limb (omega arith) l, b, grind (arith, e, s))

-- `mul_uint64_inplace` is exact: the limbs it leaves, with the carry it returns times 2^512, are the product, and the carry is a `uint64_t`.
pub mul_uint64_inplace_lem :
    (xs : Limbs) (v : ℕ)
    → IsLimbs 16 xs
    → v < 2 ^ 64
    → let r = mul_uint64_inplace xs v in
      IsLimbs 16 r.0 × (r.1 < 2 ^ 64) × (value r.0 + span 16 * r.1 ≡ value xs * v)
unfolding mul_uint64_inplace
mul_uint64_inplace_lem xs v h g =
    let (l, b, e) = scale_loop_lem 16 v 0 xs g (omega arith) h in (l, b, e ∙ omega arith)
