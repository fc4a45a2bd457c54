-- ===== src/Common/Uint512/Products.antt =====
-- src/common/uint512.cuh: `mult`, `mult_uint32`, `mul_uint64_inplace` and the 1024-bit product that
-- `mul_mod` and `abs_square_minus_N` start with.
pub mod Rows
pub mod Words
use cuda_mpqs.Prelude.{
  ℕ, zero, suc, ◌+◌, ◌*◌, ◌/◌, ◌%◌, ◌^◌, List, [], ◌∷◌, ◌==◌, if◌then◌else◌, replicate, add32,
  get_or, drop,
}
use cuda_mpqs.Common.Uint512.{Limbs, from_uint32}

-- The inner loop of `mult`, on the limbs of the result from `i` on.
unfoldable pub mult_row : ℕ → Limbs → Limbs → ℕ → Limbs
mult_row a other [] carry = []
mult_row a [] (r ∷ res) carry = r ∷ res
mult_row a (b ∷ other) (r ∷ res) carry =
    let prod = (a * b + r + carry) % 2 ^ 64 in prod % 2 ^ 32 ∷ mult_row a other res (prod / 2 ^ 32)

-- The inner loop of `mul_mod`, which adds the last carry to the limb behind the row.
unfoldable pub product_row : ℕ → Limbs → Limbs → ℕ → Limbs
product_row a other [] carry = []
product_row a [] (p ∷ ps) carry = add32 p (carry % 2 ^ 32) ∷ ps
product_row a (b ∷ other) (p ∷ ps) carry =
    let term = (a * b + p + carry) % 2 ^ 64 in
    term % 2 ^ 32 ∷ product_row a other ps (term / 2 ^ 32)

-- The outer loop. A row leaves its first limb behind it, and the next row starts one limb higher.
unfoldable pub rows_loop : (ℕ → Limbs → Limbs → ℕ → Limbs) → Limbs → Limbs → Limbs → Limbs
rows_loop row [] other res = res
rows_loop row (a ∷ xs) other res =
    let out = if a == 0 then res else row a other res 0 in
    get_or out 0 0 ∷ rows_loop row xs other (drop 1 out)

unfoldable pub mult : Limbs → Limbs → Limbs
unfolding rows_loop mult_row
mult xs other = rows_loop mult_row xs other (replicate 16 0)

-- The thirty-two limbs of a product.
unfoldable pub product : Limbs → Limbs → Limbs
unfolding rows_loop product_row
product xs other = rows_loop product_row xs other (replicate 32 0)

-- The loop of `mul_uint64_inplace`: the limbs and the carry out of them. `prod` is an `unsigned __int128`.
unfoldable pub scale_loop : ℕ → Limbs → ℕ → Limbs × ℕ
scale_loop v [] carry = ([], carry)
scale_loop v (a ∷ xs) carry =
    let prod = (a * v + carry) % 2 ^ 128 in
    let (ys, out) = scale_loop v xs (prod / 2 ^ 32 % 2 ^ 64) in (prod % 2 ^ 32 ∷ ys, out)

unfoldable pub mul_uint64_inplace : Limbs → ℕ → Limbs × ℕ
unfolding scale_loop
mul_uint64_inplace xs v = scale_loop v xs 0

-- The loop of `mult_uint32`.
unfoldable pub scale_loop32 : ℕ → Limbs → ℕ → Limbs
scale_loop32 v [] carry = []
scale_loop32 v (a ∷ xs) carry =
    let prod = (a * v + carry) % 2 ^ 64 in prod % 2 ^ 32 ∷ scale_loop32 v xs (prod / 2 ^ 32)

unfoldable pub mult_uint32 : Limbs → ℕ → Limbs
unfolding scale_loop32 from_uint32
mult_uint32 xs v = if v == 0 then from_uint32 0 else if v == 1 then xs else scale_loop32 v xs 0
