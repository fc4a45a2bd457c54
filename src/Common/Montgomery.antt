-- ===== src/Common/Montgomery.antt =====
-- src/common/montgomery.cuh: `Montgomery`, multiplication modulo an odd N with R = 2^512.
pub mod Row
pub mod Rounds
pub mod Multiply
pub mod Setup
pub mod Power
use cuda_mpqs.Prelude.{
  ℕ, zero, suc, ◌+◌, ◌-◌, ◌*◌, ◌/◌, ◌%◌, ◌^◌, List, [], ◌∷◌, ◌++◌, ◌==◌, ◌||◌, not, if◌then◌else◌,
  replicate, get_or, set, drop, sub32,
}
use cuda_mpqs.Common.Uint512.{Limbs, from_uint32, is_zero, subtract_once}
use cuda_mpqs.Common.Uint512.Shifts.{rshift, double_mod}
use cuda_mpqs.Common.Uint512.Division.{modulo, mul_mod}

pub record Montgomery : Type 0 where
  pub n : Limbs
  pub r2 : Limbs
  pub n_prime : ℕ

abbrev mul32 : ℕ → ℕ → ℕ
mul32 a b = a * b % 2 ^ 32

-- The factor `u` of a row, for which the lowest limb of the row becomes zero.
unfoldable pub reduction_factor : Montgomery → ℕ → ℕ → ℕ → ℕ
reduction_factor m t0 a b0 = mul32 ((t0 + mul32 a b0) % 2 ^ 32) m.n_prime

-- The inner loop: the limbs of `T + a * B + u * N` and the carry out of them, an `unsigned __int128`.
unfoldable pub cios_loop : ℕ → ℕ → Limbs → Limbs → Limbs → ℕ → Limbs × ℕ
cios_loop a u (t ∷ ts) (b ∷ bs) (n ∷ ns) carry =
    let sum = (t + a * b + u * n + carry) % 2 ^ 128 in
    let (ws, out) = cios_loop a u ts bs ns (sum / 2 ^ 32) in (sum % 2 ^ 32 ∷ ws, out)
cios_loop a u _ _ _ carry = ([], carry)

-- The limbs move down by one, and `extra` and the carry give the highest.
unfoldable pub shift_down : Limbs × ℕ → ℕ → Limbs × ℕ
shift_down (ws, carry) extra =
    let top = (extra + carry) % 2 ^ 128 in (drop 1 ws ++ top % 2 ^ 32 ∷ [], top / 2 ^ 32 % 2 ^ 32)

-- One round of the outer loop on `T` and `extra`.
unfoldable pub cios_row : Montgomery → ℕ → Limbs → Limbs × ℕ → Limbs × ℕ
unfolding reduction_factor cios_loop shift_down
cios_row m a b (t, extra) =
    let u = reduction_factor m (get_or t 0 0) a (get_or b 0 0) in
    shift_down (cios_loop a u t b m.n 0) extra

unfoldable pub cios_rows : Montgomery → Limbs → Limbs → Limbs × ℕ → Limbs × ℕ
unfolding cios_row
cios_rows m [] b t = t
cios_rows m (a ∷ xs) b t = cios_rows m xs b (cios_row m a b t)

unfoldable pub mul : Montgomery → Limbs → Limbs → Limbs
unfolding cios_rows subtract_once
mul m a b = subtract_once (cios_rows m a b (replicate 16 0, 0)) m.n

unfoldable pub transform : Montgomery → Limbs → Limbs
unfolding mul
transform m a = mul m a m.r2

unfoldable pub reduce : Montgomery → Limbs → Limbs
unfolding mul from_uint32
reduce m a = mul m a (from_uint32 1)

abbrev pub sqr : Montgomery → Limbs → Limbs
sqr m a = mul m a a

-- `inv *= 2 - n0 * inv`
unfoldable pub inverse_step : ℕ → ℕ → ℕ
inverse_step n0 inv = mul32 inv (sub32 2 (mul32 n0 inv))

-- The negative inverse of the lowest limb, by five rounds.
unfoldable pub negative_inverse : ℕ → ℕ
unfolding inverse_step
negative_inverse n0 =
    let inv1 = inverse_step n0 1 in
    let inv2 = inverse_step n0 inv1 in
    let inv3 = inverse_step n0 inv2 in
    let inv4 = inverse_step n0 inv3 in let inv5 = inverse_step n0 inv4 in sub32 0 inv5

-- R modulo N, from 2^511.
unfoldable pub residue_of_r : Limbs → Limbs
unfolding modulo double_mod from_uint32
residue_of_r n = double_mod (modulo (set (from_uint32 0) 15 2147483648) n) n

-- The constructor.
unfoldable pub montgomery : Limbs → Montgomery
unfolding negative_inverse residue_of_r mul_mod
montgomery modulus = record {
  n = modulus;
  r2 = mul_mod (residue_of_r modulus) (residue_of_r modulus) modulus;
  n_prime = negative_inverse (get_or modulus 0 0);
}

-- The loop of `pow`: while the exponent is not zero.
unfoldable pub pow_loop : ℕ → Montgomery → Limbs → Limbs → Limbs → Limbs
unfolding mul is_zero rshift
pow_loop zero m res base exp = res
pow_loop (suc fuel) m res base exp =
    let odd = get_or exp 0 0 % 2 == 1 in
    let rest = pow_loop fuel m (if odd then mul m res base else res) (sqr m base) (rshift exp 1) in
    if is_zero exp then res else rest

unfoldable pub pow : Montgomery → Limbs → Limbs → Limbs
unfolding pow_loop transform from_uint32
pow m base exp = pow_loop 513 m (transform m (from_uint32 1)) base exp
