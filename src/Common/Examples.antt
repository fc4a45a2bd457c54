-- ===== src/Common/Examples.antt =====
-- `uint512` and `Montgomery` on small numbers.
use cuda_mpqs.Prelude.{ℕ, ◌+◌, ◌-◌, ◌*◌, ◌%◌, ◌^◌, ◌<◌, ◌≡◌, refl, ◌∷◌, replicate, arith}
use cuda_mpqs.Common.Uint512.{Limbs, add, sub, add_mod}
use cuda_mpqs.Common.Uint512.Value.{value, IsLimbs, limb, span, replicate-IsLimbs}
use cuda_mpqs.Common.Uint512.Modular.{IsResidue, add_mod-IsResidue}
use cuda_mpqs.Common.Uint512.Products.{mul_uint64_inplace}
use cuda_mpqs.Common.Uint512.Products.Words.{mul_uint64_inplace_lem}
use cuda_mpqs.Common.Uint512.Shifts.{double_mod}
use cuda_mpqs.Common.Uint512.Shifts.Left.{double_mod-IsResidue}
use cuda_mpqs.Common.Uint512.Division.{modulo, mul_mod}
use cuda_mpqs.Common.Uint512.Division.Remainder.{modulo-IsResidue, mul_mod-IsResidue}
use cuda_mpqs.Common.Montgomery.{Montgomery, montgomery, mul, transform, reduce, pow}
use cuda_mpqs.Common.Montgomery.Multiply.{IsContext, reduce-mul}
use cuda_mpqs.Common.Montgomery.Setup.{montgomery-IsContext}
use cuda_mpqs.Common.Montgomery.Power.{reduce-pow}

-- A number of at most 96 bits.
abbrev number : ℕ → ℕ → ℕ → Limbs
number a b c = a ∷ b ∷ c ∷ replicate 13 0

number-IsLimbs : (a b c : ℕ) → a < 2 ^ 32 → b < 2 ^ 32 → c < 2 ^ 32 → IsLimbs 16 (number a b c)
number-IsLimbs a b c f g h = limb f (limb g (limb h (replicate-IsLimbs 13)))

abbrev n : Limbs
n = number 15 7 1

abbrev x : Limbs
x = number 4294967295 6 1

abbrev y : Limbs
y = number 5 7 0

n-IsLimbs : IsLimbs 16 n
n-IsLimbs = number-IsLimbs 15 7 1 (omega arith) (omega arith) (omega arith)

x-IsLimbs : IsLimbs 16 x
x-IsLimbs = number-IsLimbs 4294967295 6 1 (omega arith) (omega arith) (omega arith)

y-IsLimbs : IsLimbs 16 y
y-IsLimbs = number-IsLimbs 5 7 0 (omega arith) (omega arith) (omega arith)

carries : add x y ≡ number 4 14 1
unfolding add
carries = refl

borrows : sub n x ≡ number 16 0 0
unfolding sub
borrows = refl

wraps : value (sub y x) ≡ value y + 2 ^ 512 - value x
unfolding sub
wraps = refl

add_mod-IsResidue_example : IsResidue (value x + value y) (value n) (add_mod x y n)
add_mod-IsResidue_example =
    add_mod-IsResidue x y n x-IsLimbs y-IsLimbs n-IsLimbs (omega arith) (omega arith)

mul_uint64_inplace_lem_example :
    let r = mul_uint64_inplace x 12345678901234567 in
    IsLimbs 16 r.0 × (r.1 < 2 ^ 64) × (value r.0 + span 16 * r.1 ≡ value x * 12345678901234567)
mul_uint64_inplace_lem_example = mul_uint64_inplace_lem x 12345678901234567 x-IsLimbs (omega arith)

double_mod-IsResidue_example : IsResidue (2 * value x) (value n) (double_mod x n)
double_mod-IsResidue_example = double_mod-IsResidue x n x-IsLimbs n-IsLimbs (omega arith)

modulo-IsResidue_example : IsResidue (value x) (value y) (modulo x y)
modulo-IsResidue_example = modulo-IsResidue x y x-IsLimbs y-IsLimbs (omega arith)

mul_mod-IsResidue_example : IsResidue (value x * value y) (value n) (mul_mod x y n)
mul_mod-IsResidue_example = mul_mod-IsResidue x y n x-IsLimbs y-IsLimbs n-IsLimbs (omega arith)

abbrev context : Montgomery
context = montgomery n

montgomery-IsContext_example : IsContext (montgomery n)
montgomery-IsContext_example = montgomery-IsContext n n-IsLimbs refl (omega arith)

reduce-mul_example :
    value (reduce context (mul context (transform context x) (transform context y)))
    ≡ (value x * value y) % value context.n
reduce-mul_example = reduce-mul context x y montgomery-IsContext_example x-IsLimbs y-IsLimbs

reduce-pow_example :
    value (reduce context (pow context (transform context x) y))
    ≡ value x ^ value y % value context.n
reduce-pow_example = reduce-pow context x y montgomery-IsContext_example x-IsLimbs y-IsLimbs
