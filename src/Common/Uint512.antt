-- ===== src/Common/Uint512.antt =====
-- src/common/uint512.cuh: `uint512`, an unsigned number of sixteen 32-bit limbs, the lowest first. A
-- loop over the limbs is a recursion over the list; one that starts at the highest limb treats the
-- rest of the list first.
pub mod Value
pub mod Sums
pub mod Order
pub mod Modular
pub mod Products
pub mod Shifts
pub mod Division
pub mod WordDivision
use cuda_mpqs.Prelude.{
  ℕ, zero, suc, ◌+◌, ◌-◌, ◌*◌, ◌/◌, ◌%◌, ◌^◌, List, [], ◌∷◌, Bool, true, false, ◌&&◌, ◌||◌, not,
  ltb, ◌==◌, if◌then◌else◌, Option, none, some, replicate, get_or, sub32, bit_or,
}

abbrev pub Limbs : Type 0
Limbs = List ℕ

-- The constructors from a `uint32_t` and from a `uint64_t`.
unfoldable pub from_uint32 : ℕ → Limbs
from_uint32 x = x ∷ replicate 15 0

unfoldable pub from_uint64 : ℕ → Limbs
from_uint64 x = x % 2 ^ 32 ∷ x / 2 ^ 32 % 2 ^ 32 ∷ replicate 14 0

-- The loop of `add`, from a limb on, with the carry so far.
unfoldable pub add_loop : Limbs → Limbs → ℕ → Limbs
add_loop (a ∷ xs) (b ∷ ys) carry =
    let res = (a + b + carry) % 2 ^ 64 in res % 2 ^ 32 ∷ add_loop xs ys (res / 2 ^ 32)
add_loop _ _ carry = []

unfoldable pub add : Limbs → Limbs → Limbs
unfolding add_loop
add xs other = add_loop xs other 0

-- The loop of `add_uint32`, which stops at a carry of zero.
unfoldable pub carry_loop : Limbs → ℕ → Limbs
carry_loop [] carry = []
carry_loop (a ∷ xs) carry =
    let res = (a + carry) % 2 ^ 64 in
    let rest = carry_loop xs (res / 2 ^ 32) in if carry == 0 then a ∷ xs else res % 2 ^ 32 ∷ rest

unfoldable pub add_uint32 : Limbs → ℕ → Limbs
unfolding carry_loop
add_uint32 [] v = []
add_uint32 (a ∷ xs) v = let res = (a + v) % 2 ^ 64 in res % 2 ^ 32 ∷ carry_loop xs (res / 2 ^ 32)

-- The borrow of `a - b - borrow`.
abbrev pub borrow_out : ℕ → ℕ → ℕ → ℕ
borrow_out a b borrow = if ltb a b || (not (borrow == 0) && a == b) then 1 else 0

-- The loop of `sub`.
unfoldable pub sub_loop : Limbs → Limbs → ℕ → Limbs
sub_loop (a ∷ xs) (b ∷ ys) borrow =
    sub32 (sub32 a b) borrow ∷ sub_loop xs ys (borrow_out a b borrow)
sub_loop _ _ borrow = []

unfoldable pub sub : Limbs → Limbs → Limbs
unfolding sub_loop
sub xs other = sub_loop xs other 0

-- A scan from the highest limb: the comparison of the first limbs that differ.
unfoldable pub scan_limbs : Limbs → Limbs → Option Bool
scan_limbs (a ∷ xs) (b ∷ ys) = elim (scan_limbs xs ys) [
  | some less ↦ some less
  | none ↦ if a == b then none else some (ltb a b)
]
scan_limbs _ _ = none

-- `operator<`
unfoldable pub less : Limbs → Limbs → Bool
unfolding scan_limbs
less xs other = elim (scan_limbs xs other) [ some b ↦ b | none ↦ false ]

-- `operator>=`
abbrev pub at_least : Limbs → Limbs → Bool
at_least xs other = not (less xs other)

-- `operator==`
unfoldable pub equal : Limbs → Limbs → Bool
equal (a ∷ xs) (b ∷ ys) = let rest = equal xs ys in if a == b then rest else false
equal _ _ = true

unfoldable pub is_zero : Limbs → Bool
is_zero [] = true
is_zero (a ∷ xs) = let rest = is_zero xs in if a == 0 then rest else false

unfoldable pub add_mod : Limbs → Limbs → Limbs → Limbs
unfolding add less sub
add_mod xs other n =
    let sum = add xs other in if less sum xs || at_least sum n then sub sum n else sum

unfoldable pub sub_mod : Limbs → Limbs → Limbs → Limbs
unfolding add less sub
sub_mod xs other n = if less xs other then add (sub xs other) n else sub xs other

unfoldable pub negate_mod_inplace : Limbs → Limbs → Limbs
unfolding is_zero sub
negate_mod_inplace xs n = if is_zero xs then xs else sub n xs

-- A number with a part above its limbs is at least `n`, and less one subtraction of `n`.
unfoldable pub exceeds : Limbs × ℕ → Limbs → Bool
unfolding less
exceeds (xs, extra) n = not (extra == 0) || at_least xs n

unfoldable pub subtract_once : Limbs × ℕ → Limbs → Limbs
unfolding exceeds sub
subtract_once t n = if exceeds t n then sub t.0 n else t.0
