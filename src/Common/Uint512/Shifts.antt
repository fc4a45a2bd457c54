-- ===== src/Common/Uint512/Shifts.antt =====
-- src/common/uint512.cuh: `lshift`, `rshift`, the doubling loops of `div_mod_core` and `mul_mod`, and
-- `double_mod`. The operands of a `|` have no bit in common here, so it is written as a sum.
pub mod Left
pub mod Words
pub mod Right
use cuda_mpqs.Prelude.{
  ℕ, zero, suc, ◌+◌, ◌-◌, ◌*◌, ◌/◌, ◌%◌, ◌^◌, List, [], ◌∷◌, ◌++◌, ◌==◌, ◌||◌, leb, not,
  if◌then◌else◌, replicate, get_or, take, drop, length,
}
use cuda_mpqs.Common.Uint512.{Limbs, from_uint32, sub, at_least, less}

-- Each limb takes the upper bits of the limb below it.
unfoldable pub shift_up : ℕ → ℕ → Limbs → Limbs
shift_up bits below [] = []
shift_up bits below (x ∷ xs) =
    (x * 2 ^ bits % 2 ^ 32 + below / 2 ^ (32 - bits)) ∷ shift_up bits x xs

unfoldable pub lshift_bits : ℕ → Limbs → Limbs
unfolding shift_up
lshift_bits bits xs = if bits == 0 then xs else shift_up bits 0 xs

unfoldable pub lshift : Limbs → ℕ → Limbs
unfolding lshift_bits from_uint32
lshift xs bits =
    if bits == 0
    then xs
    else if leb 512 bits
    then from_uint32 0
    else lshift_bits (bits % 32) (take 16 (replicate (bits / 32) 0 ++ xs))

-- Each limb takes the lower bits of the limb above it.
unfoldable pub shift_down_bits : ℕ → Limbs → Limbs
shift_down_bits bits [] = []
shift_down_bits bits (x ∷ xs) =
    (x / 2 ^ bits + get_or xs 0 0 * 2 ^ (32 - bits) % 2 ^ 32) ∷ shift_down_bits bits xs

unfoldable pub rshift_bits : ℕ → Limbs → Limbs
unfolding shift_down_bits
rshift_bits bits xs = if bits == 0 then xs else shift_down_bits bits xs

unfoldable pub rshift : Limbs → ℕ → Limbs
unfolding rshift_bits from_uint32
rshift xs bits =
    if bits == 0
    then xs
    else if leb 512 bits
    then from_uint32 0
    else rshift_bits (bits % 32) (drop (bits / 32) xs ++ replicate (bits / 32) 0)

-- The shift of a remainder by one bit, and the bit that leaves it.
unfoldable pub double_loop : Limbs → ℕ → Limbs × ℕ
double_loop [] carry = ([], carry)
double_loop (x ∷ xs) carry =
    let (ys, out) = double_loop xs (x / 2 ^ 31) in ((x * 2 % 2 ^ 32 + carry) ∷ ys, out)

unfoldable pub double_mod : Limbs → Limbs → Limbs
unfolding lshift sub less
double_mod xs n =
    let carry = get_or xs 15 0 / 2 ^ 31 in
    let twice = lshift xs 1 in if not (carry == 0) || at_least twice n then sub twice n else twice
