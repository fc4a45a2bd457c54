-- ===== src/Prelude/Sorted.antt =====
-- Strictly ascending lists of numbers, and sums of a function over a list.
use Prim.Native.Nat.{ℕ, suc, ◌+◌, ◌≤◌, ◌<◌}
use mathlib.Core.Path.{◌≡◌, refl}
use mathlib.Core.List.{List, [], ◌∷◌, ◌++◌}
use native.Mathlib.Omega.{arith}
use cuda_mpqs.Prelude.Counts.{count}

-- From `lo` on, each element larger than the one before.
abbrev pub Ascending : ℕ → List ℕ → Type 0
Ascending lo [] = Unit {0}
Ascending lo (x ∷ xs) = (lo ≤ x) × Ascending (suc x) xs

pub Ascending-mono : (lo lo' : ℕ) (xs : List ℕ) → lo' ≤ lo → Ascending lo xs → Ascending lo' xs
Ascending-mono lo lo' [] h a = tt
Ascending-mono lo lo' (x ∷ xs) h a = (omega arith, a.1)

pub Ascending-count_below : (lo c : ℕ) (xs : List ℕ) → c < lo → Ascending lo xs → count c xs ≡ 0
Ascending-count_below lo c [] h a = refl
Ascending-count_below lo c (x ∷ xs) h a =
    ground (arith, Ascending-count_below (suc x) c xs (omega arith) a.1)

pub Ascending-count : (lo c : ℕ) (xs : List ℕ) → Ascending lo xs → count c xs ≤ 1
Ascending-count lo c [] a = omega arith
Ascending-count lo c (x ∷ xs) a =
    ground (arith, Ascending-count (suc x) c xs a.1, Ascending-count_below (suc x) c xs)

abbrev pub sum_over : (ℕ → ℕ) → List ℕ → ℕ
sum_over f [] = 0
sum_over f (x ∷ xs) = f x + sum_over f xs

pub sum_over-append :
    (f : ℕ → ℕ) (xs ys : List ℕ) → sum_over f (xs ++ ys) ≡ sum_over f xs + sum_over f ys
sum_over-append f [] ys = omega arith
sum_over-append f (x ∷ xs) ys = omega (arith, sum_over-append f xs ys)
