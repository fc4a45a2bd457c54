-- ===== src/Common/Uint512/Division.antt =====
-- src/common/uint512.cuh: `msb`, `div_mod_core`, `div`, `mod` and `mul_mod`. Setting a bit that is not
-- set is written as a sum.
pub mod Bit
pub mod Remainder
use cuda_mpqs.Prelude.{
  ℕ, zero, suc, ◌+◌, ◌-◌, ◌*◌, ◌/◌, ◌%◌, ◌^◌, List, [], ◌∷◌, ◌==◌, ltb, if◌then◌else◌, get_or, set,
  length,
}
use cuda_mpqs.Common.Uint512.{Limbs, from_uint32, is_zero, less, exceeds, subtract_once}
use cuda_mpqs.Common.Uint512.Products.{product}
use cuda_mpqs.Common.Uint512.Shifts.{double_loop}

-- `(limbs[i / 32] >> (i % 32)) & 1`
unfoldable pub bit : Limbs → ℕ → ℕ
bit xs i = get_or xs (i / 32) 0 / 2 ^ (i % 32) % 2

-- The leading zeros of a number of `k` bits; `clz32` for 32.
unfoldable pub leading_zeros : ℕ → ℕ → ℕ
leading_zeros zero x = 0
leading_zeros (suc k) x = let rest = leading_zeros k x in if ltb x (2 ^ k) then 1 + rest else 0

-- The loop of `msb`, from the limb of the index below `i` down.
unfoldable pub msb_loop : ℕ → Limbs → ℕ
unfolding leading_zeros
msb_loop zero xs = 0
msb_loop (suc i) xs =
    let rest = msb_loop i xs in
    if get_or xs i 0 == 0 then rest else 31 - leading_zeros 32 (get_or xs i 0) + i * 32

unfoldable pub msb : Limbs → ℕ
unfolding msb_loop
msb xs = msb_loop 16 xs

abbrev add_lowest : Limbs → ℕ → Limbs
add_lowest [] b = []
add_lowest (x ∷ xs) b = (x + b) ∷ xs

-- The remainder shifted by one, with the next bit of the dividend.
unfoldable pub inject : Limbs → ℕ → Limbs × ℕ
unfolding double_loop
inject remainder b = let (ys, overflow) = double_loop remainder 0 in (add_lowest ys b, overflow)

abbrev pub set_bit : Limbs → ℕ → Limbs
set_bit q i = set q (i / 32) (get_or q (i / 32) 0 + 2 ^ (i % 32))

-- The loop of `div_mod_core`, from the bit below `i` down: the quotient and the remainder.
unfoldable pub divide_loop : ℕ → Limbs → Limbs → Limbs → Limbs → Limbs × Limbs
unfolding bit inject subtract_once exceeds
divide_loop zero dividend divisor quotient remainder = (quotient, remainder)
divide_loop (suc i) dividend divisor quotient remainder =
    let r = inject remainder (bit dividend i) in
    divide_loop i dividend divisor (if exceeds r divisor then set_bit quotient i else quotient)
      (subtract_once r divisor)

-- The quotient, and the remainder unless the divisor is zero.
unfoldable pub div_mod_core : Limbs → Limbs → Limbs → Limbs × Limbs
unfolding is_zero less from_uint32 msb divide_loop
div_mod_core xs divisor remainder_out =
    if is_zero divisor
    then (xs, remainder_out)
    else if less xs divisor
    then (from_uint32 0, xs)
    else divide_loop (msb xs + 1) xs divisor (from_uint32 0) (from_uint32 0)

unfoldable pub div : Limbs → Limbs → Limbs
unfolding div_mod_core
div xs divisor = (div_mod_core xs divisor (from_uint32 0)).0

unfoldable pub modulo : Limbs → Limbs → Limbs
unfolding div_mod_core
modulo xs divisor = (div_mod_core xs divisor (from_uint32 0)).1

-- The loop of `mul_mod` over the bits of the product.
unfoldable pub reduce_loop : ℕ → Limbs → Limbs → Limbs → Limbs
unfolding bit inject subtract_once
reduce_loop zero p modulus remainder = remainder
reduce_loop (suc i) p modulus remainder =
    reduce_loop i p modulus (subtract_once (inject remainder (bit p i)) modulus)

-- One more than the index of the highest bit of the product that is set.
unfoldable pub top_bit : ℕ → Limbs → ℕ
unfolding bit
top_bit zero p = 0
top_bit (suc i) p = let rest = top_bit i p in if bit p i == 0 then rest else suc i

unfoldable pub mul_mod : Limbs → Limbs → Limbs → Limbs
unfolding is_zero product top_bit reduce_loop from_uint32
mul_mod xs other modulus =
    if is_zero modulus
    then xs
    else let p = product xs other in reduce_loop (top_bit 1024 p) p modulus (from_uint32 0)
