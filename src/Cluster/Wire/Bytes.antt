-- ===== src/Cluster/Wire/Bytes.antt =====
-- serialization: bytes of values and of arrays, and back.
use native.Mathlib.Nat.{pow-succ'}
use mathlib.Core.List.{append_assoc}
use mathlib.Core.Path.{ap₂}
use cuda_mpqs.Prelude.{
  ℕ, zero, suc, ◌*◌, ◌/◌, ◌^◌, ◌<◌, ◌≡◌, refl, sym, ap, ◌∙◌, subst, List, [], ◌∷◌, ◌++◌, take, drop,
  length, length-append, take-append, drop-append, All, arith,
}
use cuda_mpqs.Cluster.Wire.{le_bytes, array_bytes, le_value, array_values}

pub length-le_bytes : (w v : ℕ) → length (le_bytes w v) ≡ w
unfolding le_bytes
length-le_bytes zero v = refl
length-le_bytes (suc w) v = ap suc (length-le_bytes w (v / 256))

-- A value that fits in `w` bytes comes back.
pub le_value-le_bytes : (w v : ℕ) → v < 256 ^ w → le_value (le_bytes w v) ≡ v
unfolding le_bytes le_value
le_value-le_bytes zero v h = omega arith
le_value-le_bytes (suc w) v h =
    let below : v < 256 * 256 ^ w = subst (λ k. v < k) (pow-succ' 256 w) h in
    omega (arith, le_value-le_bytes w (v / 256) (omega arith))

pub length-array_bytes : (w : ℕ) (vs : List ℕ) → length (array_bytes w vs) ≡ length vs * w
unfolding array_bytes
length-array_bytes w [] = omega arith
length-array_bytes w (v ∷ vs) = grind (
  arith,
  length-append (le_bytes w v) (array_bytes w vs),
  length-le_bytes w v,
  length-array_bytes w vs,
)

-- Every value fits in `w` bytes.
abbrev pub Fits : ℕ → List ℕ → Type 0
Fits w vs = All (λ v. v < 256 ^ w) vs

pub take-le_bytes : (w v : ℕ) (rest : List ℕ) → take w (le_bytes w v ++ rest) ≡ le_bytes w v
take-le_bytes w v rest =
    ap (λ k. take k (le_bytes w v ++ rest)) (sym (length-le_bytes w v))
    ∙ take-append (le_bytes w v) rest

pub drop-le_bytes : (w v : ℕ) (rest : List ℕ) → drop w (le_bytes w v ++ rest) ≡ rest
drop-le_bytes w v rest =
    ap (λ k. drop k (le_bytes w v ++ rest)) (sym (length-le_bytes w v))
    ∙ drop-append (le_bytes w v) rest

pub array_values-array_bytes :
    (w : ℕ) (vs rest : List ℕ)
    → Fits w vs
    → array_values w (length vs) (array_bytes w vs ++ rest) ≡ vs
unfolding array_bytes array_values
array_values-array_bytes w [] rest f = refl
array_values-array_bytes w (v ∷ vs) rest f =
    rw (append_assoc (le_bytes w v) (array_bytes w vs) rest, take-le_bytes w v, drop-le_bytes w v)
      (ap₂ ◌∷◌ (le_value-le_bytes w v f.0) (array_values-array_bytes w vs rest f.1))
