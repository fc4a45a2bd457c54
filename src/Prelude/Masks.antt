-- ===== src/Prelude/Masks.antt =====
-- A mask of ones: `a & (2^k - 1)` is `a % 2^k`.
use Prim.Native.Nat.{
  ℕ, zero, suc, ◌+◌, ◌-◌, ◌*◌, ◌/◌, ◌%◌, ◌^◌, ◌≤◌, ◌<◌, min, bit_and, digits, bit_and-bitwise,
}
use mathlib.Core.Path.{◌≡◌, sym, ap, ◌∙◌}
use native.Mathlib.Nat.{
  pow-succ', add-mul-mod_self_left, mod-eq_of_lt, mod-lt, div-add-mod, zero-mod, zero-add,
}
use native.Mathlib.Omega.{arith}

-- The lowest digit of a remainder by an even number.
mod-double : (a m : ℕ) → 0 < m → a % (2 * m) ≡ (a / 2) % m * 2 + a % 2
mod-double a m pos =
    let q = a / 2 in
    let low = q % m * 2 + a % 2 in
    let whole : a ≡ low + 2 * m * (q / m) = grind (arith, div-add-mod q m, div-add-mod a 2) in
    let small : low < 2 * m = omega (arith, mod-lt q pos) in
    ap (λ x. x % (2 * m)) whole ∙ add-mul-mod_self_left low (2 * m) (q / m) ∙ mod-eq_of_lt small

pub power_pos : (k : ℕ) → 0 < 2 ^ k
power_pos zero = omega arith
power_pos (suc k) = omega (arith, power_pos k, pow-succ' 2 k)

abbrev masked : ℕ → ℕ → ℕ → ℕ
masked n a b = digits (λ b. zero) min n a b

masked-mod : (n k a : ℕ) → a ≤ n → masked n a (2 ^ k - 1) ≡ a % 2 ^ k
masked-mod zero k zero h = sym (zero-mod (2 ^ k))
masked-mod zero k (suc a) h = absurd (omega arith)
masked-mod (suc n) k zero h = sym (zero-mod (2 ^ k))
masked-mod (suc n) zero (suc a) h = omega (arith, masked-mod n 0 (suc a / 2) (omega arith))
masked-mod (suc n) (suc k) (suc a) h =
    let pos = power_pos k in
    let two = pow-succ' 2 k in
    let half : (2 ^ suc k - 1) / 2 ≡ 2 ^ k - 1 = omega (arith, pos, two) in
    let ih : masked n (suc a / 2) ((2 ^ suc k - 1) / 2) ≡ (suc a / 2) % 2 ^ k =
      ap (masked n (suc a / 2)) half ∙ masked-mod n k (suc a / 2) (omega arith) in
    omega (arith, ih, mod-double (suc a) (2 ^ k) pos, ap (λ m. suc a % m) two, two, pos)

pub bit_and-mask : (k a : ℕ) → bit_and a (2 ^ k - 1) ≡ a % 2 ^ k
bit_and-mask k a = bit_and-bitwise a (2 ^ k - 1) ∙ masked-mod a k a (omega arith)

pub power_split : (k j : ℕ) → 2 ^ (k + j) ≡ 2 ^ k * 2 ^ j
power_split zero j = ap (λ i. 2 ^ i) (zero-add j) ∙ omega arith
power_split (suc k) j =
    let e : suc k + j ≡ suc (k + j) = omega arith in
    rw (e, pow-succ' 2 (k + j), pow-succ' 2 k, power_split k j) (grind arith)
