-- ===== src/Matrix/Weight2/Index.antt =====
-- mergeWeight2: the inverted index `col_rows` and the rows.
use cuda_mpqs.Prelude.{
  ℕ, ◌+◌, ◌≤◌, ◌≡◌, ◌≢◌, sym, ◌∙◌, subst, [], true, false, ◌&&◌, not, ltb, ◌==◌, if◌then◌else◌,
  arith, Bool-cases, inl, inr, count, Ascending, Ascending-count,
}
use cuda_mpqs.Matrix.XorRows.{xor_rows, xor_rows-Ascending}
use cuda_mpqs.Matrix.Weight2.{
  Merge, ColRows, row_at, unregister, unregister_except, register_new, replace_rows, merge_pair,
  last_node, push_node,
}
use cuda_mpqs.Matrix.Weight2.Rows.{
  row_at-replace_left, row_at-replace_right, row_at-replace_ne, contains-count, count-unregister,
  count-unregister_except, count-register_new, row_at-replace_alive,
}

pub record IsIndexed (s : Merge) : Type 0 where
  pub sorted : (r : ℕ) → Ascending 0 (row_at s.rows r).cols
  pub dead : (r : ℕ) → (row_at s.rows r).alive ≡ false → (row_at s.rows r).cols ≡ []
  pub index : (r c : ℕ) → count r (s.col_rows c) ≡ count c (row_at s.rows r).cols

-- The index after a merge of `r1` and `r2`.
merged_index : Merge → ℕ → ℕ → ColRows
merged_index s r1 r2 =
    let old1 = (row_at s.rows r1).cols in
    let old2 = (row_at s.rows r2).cols in
    let new = xor_rows old1 old2 in
    register_new r1 old1 new (unregister_except r1 new old1 (unregister r2 old2 s.col_rows))

-- What the three updates do to one row and column.
after_updates : ℕ → ℕ → ℕ → ℕ → ℕ → ℕ → ℕ → ℕ
after_updates r r1 r2 n o1 o2 new =
    (if r1 == r && (ltb 0 o1 && not (ltb 0 new)) then 0 else if r2 == r && ltb 0 o2 then 0 else n)
    + (if r1 == r then (if ltb 0 o1 then 0 else new) else 0)

count-merged_index :
    (s : Merge) (r1 r2 r c : ℕ)
    → let old1 = (row_at s.rows r1).cols in
      let old2 = (row_at s.rows r2).cols in
      count r (merged_index s r1 r2 c)
      ≡ after_updates r r1 r2
          (count r (s.col_rows c))
          (count c old1)
          (count c old2)
          (count c (xor_rows old1 old2))
unfolding merged_index after_updates
count-merged_index s r1 r2 r c =
    let old1 = (row_at s.rows r1).cols in
    let old2 = (row_at s.rows r2).cols in
    let new = xor_rows old1 old2 in
    rw (
      count-register_new r r1 c old1 new
          (unregister_except r1 new old1 (unregister r2 old2 s.col_rows)),
      count-unregister_except r r1 c new old1 (unregister r2 old2 s.col_rows),
      count-unregister r r2 c old2 s.col_rows,
      contains-count c old1,
      contains-count c new,
    )

updates-left :
    (r1 r2 n o1 o2 new : ℕ)
    → r1 ≢ r2
    → n ≡ o1
    → o1 ≤ 1
    → new ≤ 1
    → after_updates r1 r1 r2 n o1 o2 new ≡ new
unfolding after_updates
updates-left r1 r2 n o1 o2 new ne e h k = ground arith

updates-right : (r1 r2 n o1 o2 new : ℕ) → r1 ≢ r2 → n ≡ o2 → after_updates r2 r1 r2 n o1 o2 new ≡ 0
unfolding after_updates
updates-right r1 r2 n o1 o2 new ne e = ground arith

updates-other : (r r1 r2 n o1 o2 new : ℕ) → r1 ≢ r → r2 ≢ r → after_updates r r1 r2 n o1 o2 new ≡ n
unfolding after_updates
updates-other r r1 r2 n o1 o2 new h k = ground arith

-- A row is the one, the other or neither.
pub by_row :
    (P : ℕ → Type 0) (r1 r2 : ℕ) → P r1 → P r2 → ((q : ℕ) → r1 ≢ q → r2 ≢ q → P q) → (q : ℕ) → P q
by_row P r1 r2 left right other q = elim (Bool-cases (r1 == q)) [
  | inl here ↦ subst P (ground arith) left
  | inr away ↦ elim (Bool-cases (r2 == q)) [
    | inl here ↦ subst P (ground arith) right
    | inr away' ↦ other q (ground arith) (ground arith)
  ]
]

merged_index-holds :
    (s : Merge) (r1 r2 n : ℕ)
    → r1 ≢ r2
    → (row_at s.rows r1).alive ≡ true
    → (row_at s.rows r2).alive ≡ true
    → IsIndexed s
    → (r c : ℕ)
    → let new = xor_rows (row_at s.rows r1).cols (row_at s.rows r2).cols in
      count r (merged_index s r1 r2 c) ≡ count c (row_at (replace_rows s.rows r1 r2 new n) r).cols
merged_index-holds s r1 r2 n ne l1 l2 v r c =
    let old1 = (row_at s.rows r1).cols in
    let old2 = (row_at s.rows r2).cols in
    let new = xor_rows old1 old2 in
    let sorted = xor_rows-Ascending 0 old1 old2 (v.sorted r1) (v.sorted r2) in
    by_row
      (λ q.
        count q (merged_index s r1 r2 c)
        ≡ count c (row_at (replace_rows s.rows r1 r2 new n) q).cols)
      r1 r2
      (count-merged_index s r1 r2 r1 c
        ∙ rw (row_at-replace_left s.rows r1 r2 new n ne l1) (
            updates-left r1 r2 _ _ _ _ ne (v.index r1 c) (Ascending-count 0 c old1 (v.sorted r1))
              (Ascending-count 0 c new sorted)))
      (count-merged_index s r1 r2 r2 c
        ∙ rw (row_at-replace_right s.rows r1 r2 new n ne l2)
            (updates-right r1 r2 _ _ _ _ ne (v.index r2 c)))
      (λ q h k.
        count-merged_index s r1 r2 q c
        ∙ rw (row_at-replace_ne s.rows r1 r2 q new n h k)
            (updates-other q r1 r2 _ _ _ _ h k ∙ v.index q c))
      r

pub merge_pair-IsIndexed :
    (s : Merge) (r1 r2 : ℕ)
    → r1 ≢ r2
    → (row_at s.rows r1).alive ≡ true
    → (row_at s.rows r2).alive ≡ true
    → IsIndexed s
    → IsIndexed (merge_pair s r1 r2)
unfolding merge_pair merged_index
merge_pair-IsIndexed s r1 r2 ne l1 l2 v =
    let a = row_at s.rows r1 in
    let b = row_at s.rows r2 in
    let new = xor_rows a.cols b.cols in
    let n = last_node (push_node s.tree a.node_of b.node_of) in
    let rows' = replace_rows s.rows r1 r2 new n in
    record {
      sorted =
          by_row (λ q. Ascending 0 (row_at rows' q).cols) r1 r2
            (rw (row_at-replace_left s.rows r1 r2 new n ne l1)
              (xor_rows-Ascending 0 a.cols b.cols (v.sorted r1) (v.sorted r2)))
            (rw (row_at-replace_right s.rows r1 r2 new n ne l2) tt)
            (λ q h k. rw (row_at-replace_ne s.rows r1 r2 q new n h k) (v.sorted q));
      dead =
          by_row (λ q. (row_at rows' q).alive ≡ false → (row_at rows' q).cols ≡ []) r1 r2
            (λ d.
              absurd
                (cc (row_at-replace_alive s.rows r1 r2 r1 new n ne l1 (λ e. ne (sym e)), l1, d)))
            (λ d. row_at-replace_right s.rows r1 r2 new n ne l2)
            (λ q h k. rw (row_at-replace_ne s.rows r1 r2 q new n h k) (v.dead q));
      index = merged_index-holds s r1 r2 n ne l1 l2 v;
    }
