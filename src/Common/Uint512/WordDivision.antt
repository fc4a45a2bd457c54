-- ===== src/Common/Uint512/WordDivision.antt =====
-- src/common/uint512.cuh: division by one machine word (`div_uint32_inplace`, `div_uint64_inplace`,
-- `div_uint32_const`, `mod_uint32`, `mod_uint64`).
use native.Mathlib.Nat.{div-add-mod, mod-lt, mod-eq_of_lt, lt_of_mul-lt-mul_left}
use cuda_mpqs.Prelude.{
  ℕ, ◌+◌, ◌*◌, ◌/◌, ◌%◌, ◌^◌, ◌≤◌, ◌<◌, ◌≡◌, refl, ap, sym, ◌∙◌, [], ◌∷◌, arith, ◌==◌,
  if◌then◌else◌, replicate, false, Congruent-residue,
}
use cuda_mpqs.Common.Uint512.{Limbs}
use cuda_mpqs.Common.Uint512.Value.{value, IsLimbs, none_left, limb, span}

-- The loop of the divisions in place. The remainder so far is a word of `width` values.
unfoldable pub divide_words : ℕ → ℕ → Limbs → ℕ → Limbs × ℕ
divide_words width divisor [] rem = ([], rem)
divide_words width divisor (x ∷ xs) rem =
    let (qs, r) = divide_words width divisor xs rem in
    let cur = (r * 2 ^ 32 + x) % width in (cur / divisor % 2 ^ 32 ∷ qs, cur % divisor)

-- The quotient and the remainder.
unfoldable pub div_uint32_inplace : Limbs → ℕ → Limbs × ℕ
unfolding divide_words
div_uint32_inplace xs divisor =
    if divisor == 0
    then (xs, 0)
    else let (qs, r) = divide_words (2 ^ 64) divisor xs 0 in (qs, r % 2 ^ 32)

unfoldable pub div_uint64_inplace : Limbs → ℕ → Limbs × ℕ
unfolding divide_words
div_uint64_inplace xs divisor =
    if divisor == 0
    then (xs, 0)
    else let (qs, r) = divide_words (2 ^ 128) divisor xs 0 in (qs, r % 2 ^ 64)

unfoldable pub div_uint32_const : Limbs → ℕ → Limbs
unfolding divide_words
div_uint32_const xs divisor =
    if divisor == 0 then replicate 16 0 else (divide_words (2 ^ 64) divisor xs 0).0

-- The loop of `mod_uint32` and `mod_uint64`.
unfoldable pub remainder_words : ℕ → ℕ → Limbs → ℕ → ℕ
remainder_words width divisor [] rem = rem
remainder_words width divisor (x ∷ xs) rem =
    (remainder_words width divisor xs rem * 2 ^ 32 + x) % width % divisor

unfoldable pub mod_uint32 : Limbs → ℕ → ℕ
unfolding remainder_words
mod_uint32 xs divisor = if divisor == 0 then 0 else remainder_words (2 ^ 64) divisor xs 0 % 2 ^ 32

unfoldable pub mod_uint64 : Limbs → ℕ → ℕ
unfolding remainder_words
mod_uint64 xs d = if d == 0 then 0 else remainder_words (2 ^ 128) d xs 0 % 2 ^ 64

word_step :
    (width d r x : ℕ)
    → r < d
    → x < 2 ^ 32
    → d * 2 ^ 32 ≤ width
    → let cur = (r * 2 ^ 32 + x) % width in
      (d * (cur / d % 2 ^ 32) + cur % d ≡ r * 2 ^ 32 + x) × (cur % d < d)
word_step width d r x low f wide =
    let s = r * 2 ^ 32 + x in
    let cur = s % width in
    let e : cur ≡ s = mod-eq_of_lt {n = s} {m = width} (omega (arith, low, f, wide)) in
    let whole = div-add-mod cur d in
    let room : d * (cur / d) < d * 2 ^ 32 = omega (arith, whole, e, low, f) in
    let digit : cur / d % 2 ^ 32 ≡ cur / d = mod-eq_of_lt (lt_of_mul-lt-mul_left d room) in
    (ap (λ k. d * k + cur % d) digit ∙ whole ∙ e, mod-lt cur (omega (arith, low)))

divide_words_lem :
    (n width d rem : ℕ) (xs : Limbs)
    → rem < d
    → d * 2 ^ 32 ≤ width
    → IsLimbs n xs
    → let r = divide_words width d xs rem in
      IsLimbs n r.0 × (r.1 < d) × (d * value r.0 + r.1 ≡ span n * rem + value xs)
unfolding divide_words
divide_words_lem _ width d rem _ low wide none_left = (none_left, low, omega arith)
divide_words_lem _ width d rem _ low wide (limb {n} {x} {xs} f h) =
    let (l, b, e) = divide_words_lem n width d rem xs low wide h in
    let r = divide_words width d xs rem in
    let (s, b') = word_step width d r.1 x b f wide in
    (limb (omega arith) l, b', grind (arith, e, s))

-- The read-only loop finds the remainder of the division.
remainder_words-divide_words :
    (width d rem : ℕ) (xs : Limbs)
    → remainder_words width d xs rem ≡ (divide_words width d xs rem).1
unfolding remainder_words divide_words
remainder_words-divide_words width d rem [] = refl
remainder_words-divide_words width d rem (x ∷ xs) =
    ap (λ k. (k * 2 ^ 32 + x) % width % d) (remainder_words-divide_words width d rem xs)

-- From zero, the loop divides the whole number.
divide_all :
    (width d : ℕ) (xs : Limbs)
    → 0 < d
    → d * 2 ^ 32 ≤ width
    → IsLimbs 16 xs
    → let r = divide_words width d xs 0 in
      IsLimbs 16 r.0 × (r.1 < d) × (d * value r.0 + r.1 ≡ value xs)
divide_all width d xs pos wide h =
    let (l, b, e) = divide_words_lem 16 width d 0 xs pos wide h in (l, b, e ∙ omega arith)

remainder_all :
    (width d : ℕ) (xs : Limbs)
    → 0 < d
    → d * 2 ^ 32 ≤ width
    → IsLimbs 16 xs
    → remainder_words width d xs 0 ≡ value xs % d
remainder_all width d xs pos wide h =
    let (l, b, e) = divide_all width d xs pos wide h in
    let r = divide_words width d xs 0 in
    remainder_words-divide_words width d 0 xs
    ∙ Congruent-residue d r.1 (value xs) b
        (record { left = value r.0; right = 0; equation = omega (arith, e) })

-- Division by a `uint32_t` leaves the quotient and returns the remainder.
pub div_uint32_inplace_lem :
    (xs : Limbs) (d : ℕ)
    → IsLimbs 16 xs
    → 0 < d
    → d < 2 ^ 32
    → let r = div_uint32_inplace xs d in
      IsLimbs 16 r.0 × (r.1 < d) × (d * value r.0 + r.1 ≡ value xs)
unfolding div_uint32_inplace
div_uint32_inplace_lem xs d h pos fits =
    let (l, b, e) = divide_all (2 ^ 64) d xs pos (omega arith) h in
    let r = divide_words (2 ^ 64) d xs 0 in
    let z : (d == 0) ≡ false = ground arith in
    let w : r.1 % 2 ^ 32 ≡ r.1 = omega (arith, b) in rw (z, w) (l, b, e)

pub div_uint64_inplace_lem :
    (xs : Limbs) (d : ℕ)
    → IsLimbs 16 xs
    → 0 < d
    → d < 2 ^ 64
    → let r = div_uint64_inplace xs d in
      IsLimbs 16 r.0 × (r.1 < d) × (d * value r.0 + r.1 ≡ value xs)
unfolding div_uint64_inplace
div_uint64_inplace_lem xs d h pos fits =
    let (l, b, e) = divide_all (2 ^ 128) d xs pos (omega arith) h in
    let r = divide_words (2 ^ 128) d xs 0 in
    let z : (d == 0) ≡ false = ground arith in
    let w : r.1 % 2 ^ 64 ≡ r.1 = omega (arith, b) in rw (z, w) (l, b, e)

-- The read-only remainders agree with the divisions in place: both are the remainder of the number.
pub mod_uint64_lem :
    (xs : Limbs) (d : ℕ)
    → IsLimbs 16 xs
    → 0 < d
    → d < 2 ^ 64
    → (mod_uint64 xs d ≡ value xs % d) × (mod_uint64 xs d ≡ (div_uint64_inplace xs d).1)
unfolding mod_uint64 div_uint64_inplace
mod_uint64_lem xs d h pos fits =
    let wide : d * 2 ^ 32 ≤ 2 ^ 128 = omega arith in
    let e = remainder_all (2 ^ 128) d xs pos wide h in
    let m = remainder_words (2 ^ 128) d xs 0 in
    let z : (d == 0) ≡ false = ground arith in
    let small = mod-lt (value xs) pos in
    let w : m % 2 ^ 64 ≡ m = omega (arith, e, small) in
    let w' : (divide_words (2 ^ 128) d xs 0).1 % 2 ^ 64 ≡ m % 2 ^ 64 =
      ap (λ k. k % 2 ^ 64) (sym (remainder_words-divide_words (2 ^ 128) d 0 xs)) in
    rw z (w ∙ e, sym w')

pub mod_uint32_lem :
    (xs : Limbs) (d : ℕ) → IsLimbs 16 xs → 0 < d → d < 2 ^ 32 → mod_uint32 xs d ≡ value xs % d
unfolding mod_uint32
mod_uint32_lem xs d h pos fits =
    let e = remainder_all (2 ^ 64) d xs pos (omega arith) h in
    let m = remainder_words (2 ^ 64) d xs 0 in
    let z : (d == 0) ≡ false = ground arith in
    let small = mod-lt (value xs) pos in
    let w : m % 2 ^ 32 ≡ m = omega (arith, e, small) in rw z (w ∙ e)
