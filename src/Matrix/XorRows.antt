-- ===== src/Matrix/XorRows.antt =====
-- src/matrix/merge_filter.cpp: `xor_rows`, the sum of two rows over GF(2) by a merge of sorted lists.
use cuda_mpqs.Prelude.{
  ℕ, suc, ◌+◌, ◌%◌, ◌≡◌, List, [], ◌∷◌, true, false, ltb, count, arith, Bool-cases, inl, inr,
  Ascending, Ascending-mono, Ascending-count,
}

unfoldable pub xor_rows : List ℕ → List ℕ → List ℕ
xor_rows [] b = b
xor_rows (x ∷ a) [] = x ∷ a
xor_rows (x ∷ a) (y ∷ b) = elim (ltb x y) [
  | true ↦ x ∷ xor_rows a (y ∷ b)
  | false ↦ elim (ltb y x) [ true ↦ y ∷ xor_rows (x ∷ a) b | false ↦ xor_rows a b ]
]

-- A column stands in the sum as often as in both rows together, modulo 2, whatever the rows.
pub xor_rows-count :
    (c : ℕ) (a b : List ℕ) → count c (xor_rows a b) % 2 ≡ (count c a + count c b) % 2
unfolding xor_rows
xor_rows-count c [] b = omega arith
xor_rows-count c (x ∷ a) [] = omega arith
xor_rows-count c (x ∷ a) (y ∷ b) =
    ground (arith, xor_rows-count c a (y ∷ b), xor_rows-count c (x ∷ a) b, xor_rows-count c a b)

-- The sum of two sorted rows is sorted.
pub xor_rows-Ascending :
    (lo : ℕ) (a b : List ℕ) → Ascending lo a → Ascending lo b → Ascending lo (xor_rows a b)
unfolding xor_rows
xor_rows-Ascending lo [] b p q = q
xor_rows-Ascending lo (x ∷ a) [] p q = p
xor_rows-Ascending lo (x ∷ a) (y ∷ b) p q = elim (Bool-cases (ltb x y)) [
  | inl less ↦
      rw (less, xor_rows) (p.0, xor_rows-Ascending (suc x) a (y ∷ b) p.1 (ground arith, q.1))
  | inr more ↦ elim (Bool-cases (ltb y x)) [
    | inl greater ↦
        rw (more, greater, xor_rows)
          (q.0, xor_rows-Ascending (suc y) (x ∷ a) b (ground arith, p.1) q.1)
    | inr same ↦
        let e : x ≡ y = ground arith in
        rw (more, same, xor_rows)
          (Ascending-mono (suc x) lo _ (omega arith) (
            xor_rows-Ascending (suc x) a b p.1
              (Ascending-mono (suc y) (suc x) b (omega arith) q.1)))
  ]
]

-- The sum of two strictly sorted rows is strictly sorted, and a column stands in it once if it stands in just one of the two rows, and not at all otherwise.
pub xor_rows_lem :
    (a b : List ℕ)
    → Ascending 0 a
    → Ascending 0 b
    → Ascending 0 (xor_rows a b) × ((c : ℕ) → count c (xor_rows a b) ≡ (count c a + count c b) % 2)
xor_rows_lem a b p q =
    let sorted = xor_rows-Ascending 0 a b p q in
    (sorted, λ c. omega (arith, xor_rows-count c a b, Ascending-count 0 c (xor_rows a b) sorted))
