-- ===== src/Matrix/Weight2/Columns.antt =====
-- mergeWeight2: the column weights, and the ordered set of the columns of weight 2.
use cuda_mpqs.Prelude.{
  ℕ, zero, suc, ◌+◌, ◌^◌, ◌<◌, ◌≤◌, ◌≡◌, ◌≢◌, refl, ap, ◌∙◌, List, [], ◌∷◌, true, false, set, arith,
  count, Ascending, Ascending-count,
}
use cuda_mpqs.Matrix.Singletons.{Weights, add_row, remove_row}
use cuda_mpqs.Matrix.Singletons.Weights.{remove_row-count, add_row-count}
use cuda_mpqs.Matrix.XorRows.{xor_rows, xor_rows-count, xor_rows-Ascending}
use cuda_mpqs.Matrix.Weight2.{
  MergeRow, Merge, row_at, replace_rows, merge_pair, last_node, push_node,
}
use cuda_mpqs.Matrix.Weight2.Rows.{row_at-set_ne}
use cuda_mpqs.Matrix.Weight2.Index.{IsIndexed}
use cuda_mpqs.Matrix.Weight2.Pair.{col_total}

-- A row that is written stands for the old one in the total.
pub col_total-set :
    (c : ℕ) (rows : List MergeRow) (r : ℕ) (v : MergeRow)
    → (row_at rows r).alive ≡ true
    → col_total c (set rows r v) + count c (row_at rows r).cols ≡ col_total c rows + count c v.cols
unfolding col_total row_at
col_total-set c [] r v live = absurd (cc)
col_total-set c (x ∷ rs) zero v live = omega arith
col_total-set c (x ∷ rs) (suc r) v live = omega (arith, col_total-set c rs r v live)

col_total-replace :
    (c : ℕ) (rows : List MergeRow) (r1 r2 : ℕ) (new : List ℕ) (n : ℕ)
    → r1 ≢ r2
    → (row_at rows r1).alive ≡ true
    → (row_at rows r2).alive ≡ true
    → col_total c (replace_rows rows r1 r2 new n)
        + count c (row_at rows r1).cols
        + count c (row_at rows r2).cols
      ≡ col_total c rows + count c new
unfolding replace_rows
col_total-replace c rows r1 r2 new n ne l1 l2 =
    let v : MergeRow = record (row_at rows r1) { cols = new; node_of = n } in
    let rows1 = set rows r1 v in
    let same = row_at-set_ne rows r1 r2 v ne in
    let live = ap (λ (x : MergeRow). x.alive) same ∙ l2 in
    let kept = ap (λ (x : MergeRow). count c x.cols) same in
    omega (
      arith,
      kept,
      col_total-set c rows r1 v l1,
      col_total-set c rows1 r2 (record (row_at rows1 r2) { cols = []; alive = false }) live,
    )

pub col_total-row :
    (c : ℕ) (rows : List MergeRow) (r : ℕ) → count c (row_at rows r).cols ≤ col_total c rows
unfolding col_total row_at
col_total-row c [] r = omega arith
col_total-row c (x ∷ rs) zero = omega arith
col_total-row c (x ∷ rs) (suc r) = omega (arith, col_total-row c rs r)

pub col_total-two_rows :
    (c : ℕ) (rows : List MergeRow) (r1 r2 : ℕ)
    → r1 ≢ r2
    → count c (row_at rows r1).cols + count c (row_at rows r2).cols ≤ col_total c rows
unfolding col_total row_at
col_total-two_rows c [] r1 r2 ne = omega arith
col_total-two_rows c (x ∷ rs) zero zero ne = absurd (ne refl)
col_total-two_rows c (x ∷ rs) zero (suc r2) ne = omega (arith, col_total-row c rs r2)
col_total-two_rows c (x ∷ rs) (suc r1) zero ne = omega (arith, col_total-row c rs r1)
col_total-two_rows c (x ∷ rs) (suc r1) (suc r2) ne =
    omega (arith, col_total-two_rows c rs r1 r2 (λ e. ne (ap suc e)))

-- The weights are right and fit in 32 bits.
pub record IsWeighted (s : Merge) : Type 0 where
  pub weighed : (c : ℕ) → s.weights c ≡ col_total c s.rows
  pub fits : (c : ℕ) → s.weights c < 2 ^ 32

-- The sum of two sorted rows has a column at most once, and only if one of them has it.
pub xor_rows-once :
    (c : ℕ) (a b : List ℕ)
    → Ascending 0 a
    → Ascending 0 b
    → count c (xor_rows a b) ≤ count c a + count c b
xor_rows-once c a b p q = omega (
  arith,
  xor_rows-count c a b,
  Ascending-count 0 c (xor_rows a b) (xor_rows-Ascending 0 a b p q),
  Ascending-count 0 c a p,
  Ascending-count 0 c b q,
)

unfoldable pub merged_weight : Merge → ℕ → ℕ → Weights
merged_weight s r1 r2 =
    let old1 = (row_at s.rows r1).cols in
    let old2 = (row_at s.rows r2).cols in
    add_row (xor_rows old1 old2) (remove_row old2 (remove_row old1 s.weights))

-- Both rows leave the weights, and their sum joins them.
pub merged_weight_lem :
    (s : Merge) (r1 r2 : ℕ)
    → r1 ≢ r2
    → IsIndexed s
    → IsWeighted s
    → (c : ℕ)
    → let old1 = (row_at s.rows r1).cols in
      let old2 = (row_at s.rows r2).cols in
      merged_weight s r1 r2 c + count c old1 + count c old2
      ≡ s.weights c + count c (xor_rows old1 old2)
unfolding merged_weight
merged_weight_lem s r1 r2 ne v w c =
    let old1 = (row_at s.rows r1).cols in
    let old2 = (row_at s.rows r2).cols in
    let new = xor_rows old1 old2 in
    let w1 = remove_row old1 s.weights in
    let enough = col_total-two_rows c s.rows r1 r2 ne in
    let e1 = remove_row-count c old1 s.weights (omega (arith, enough, w.weighed c)) (w.fits c) in
    let e2 =
      remove_row-count c old2 w1 (omega (arith, enough, w.weighed c, e1))
        (omega (arith, e1, w.fits c)) in
    let few = xor_rows-once c old1 old2 (v.sorted r1) (v.sorted r2) in
    let e3 = add_row-count c new (remove_row old2 w1) (omega (arith, few, e1, e2, w.fits c)) in
    omega (arith, e1, e2, e3)

pub merge_pair-IsWeighted :
    (s : Merge) (r1 r2 : ℕ)
    → r1 ≢ r2
    → (row_at s.rows r1).alive ≡ true
    → (row_at s.rows r2).alive ≡ true
    → IsIndexed s
    → IsWeighted s
    → IsWeighted (merge_pair s r1 r2)
unfolding merge_pair merged_weight
merge_pair-IsWeighted s r1 r2 ne l1 l2 v w =
    let a = row_at s.rows r1 in
    let b = row_at s.rows r2 in
    let new = xor_rows a.cols b.cols in
    let n = last_node (push_node s.tree a.node_of b.node_of) in
    let changed = merged_weight_lem s r1 r2 ne v w in
    record {
      weighed = λ c.
          omega (arith, changed c, col_total-replace c s.rows r1 r2 new n ne l1 l2, w.weighed c);
      fits = λ c.
          omega
            (arith, changed c, xor_rows-once c a.cols b.cols (v.sorted r1) (v.sorted r2), w.fits c);
    }
