-- ===== src/Prelude/Congruence.antt =====
-- Numbers that differ by multiples of a modulus.
use Prim.Native.Nat.{ℕ, ◌+◌, ◌*◌, ◌/◌, ◌%◌, ◌<◌}
use mathlib.Core.Path.{◌≡◌, refl, ap, sym, ◌∙◌}
use native.Mathlib.Nat.{add-mul-mod_self_left, mod-eq_of_lt, div-add-mod}
use native.Mathlib.Omega.{arith}

pub record Congruent (m a b : ℕ) : Type 0 where
  pub left : ℕ
  pub right : ℕ
  pub equation : a + m * left ≡ b + m * right

pub same : (m a : ℕ) → Congruent m a a
same m a = record { left = 0; right = 0; equation = refl }

pub flip : (m a b : ℕ) → Congruent m a b → Congruent m b a
flip m a b h = record { left = h.right; right = h.left; equation = sym h.equation }

pub chain : (m a b c : ℕ) → Congruent m a b → Congruent m b c → Congruent m a c
chain m a b c h k = record {
  left = h.left + k.left;
  right = h.right + k.right;
  equation = grind (arith, h.equation, k.equation);
}

pub Congruent-add :
    (m a b c d : ℕ) → Congruent m a b → Congruent m c d → Congruent m (a + c) (b + d)
Congruent-add m a b c d h k = record {
  left = h.left + k.left;
  right = h.right + k.right;
  equation = grind (arith, h.equation, k.equation);
}

pub Congruent-scale : (m a b c : ℕ) → Congruent m a b → Congruent m (c * a) (c * b)
Congruent-scale m a b c h = record {
  left = c * h.left;
  right = c * h.right;
  equation = grind arith ∙ ap (λ x. c * x) h.equation ∙ grind arith;
}

pub Congruent-mul :
    (m a b c d : ℕ) → Congruent m a b → Congruent m c d → Congruent m (a * c) (b * d)
Congruent-mul m a b c d h k =
    let first : Congruent m (a * c) (a * d) = Congruent-scale m c d a k in
    let second : Congruent m (d * a) (d * b) = Congruent-scale m a b d h in
    record {
      left = first.left + second.left;
      right = first.right + second.right;
      equation = grind (arith, first.equation, second.equation);
    }

pub multiple : (m k : ℕ) → Congruent m (m * k) 0
multiple m k = record { left = 0; right = k; equation = omega arith }

pub mod-Congruent : (m a : ℕ) → Congruent m (a % m) a
mod-Congruent m a = record { left = a / m; right = 0; equation = omega (arith, div-add-mod a m) }

pub Congruent-mod : (m a b : ℕ) → Congruent m a b → a % m ≡ b % m
Congruent-mod m a b h =
    sym (add-mul-mod_self_left a m h.left)
    ∙ ap (λ x. x % m) h.equation
    ∙ add-mul-mod_self_left b m h.right

-- A number below the modulus is the residue of what it is congruent to.
pub Congruent-residue : (m a b : ℕ) → a < m → Congruent m a b → a ≡ b % m
Congruent-residue m a b small h = sym (mod-eq_of_lt small) ∙ Congruent-mod m a b h
