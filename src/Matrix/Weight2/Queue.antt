-- ===== src/Matrix/Weight2/Queue.antt =====
-- mergeWeight2: the ordered set of the columns of weight 2, and the range of the columns.
use cuda_mpqs.Prelude.{
  ℕ, suc, ◌+◌, ◌<◌, ◌≤◌, ◌≡◌, ◌≢◌, List, [], ◌∷◌, true, ltb, ◌==◌, if◌then◌else◌, arith, Bool-cases,
  inl, inr, count, Ascending,
}
use cuda_mpqs.Matrix.Singletons.{Weights}
use cuda_mpqs.Matrix.XorRows.{xor_rows}
use cuda_mpqs.Matrix.Weight2.{
  Merge, row_at, replace_rows, merge_pair, insert_col, note_weight2, last_node, push_node,
}
use cuda_mpqs.Matrix.Weight2.Rows.{row_at-replace_left, row_at-replace_right, row_at-replace_ne}
use cuda_mpqs.Matrix.Weight2.Index.{IsIndexed, by_row}
use cuda_mpqs.Matrix.Weight2.Columns.{IsWeighted, merged_weight, merged_weight_lem, xor_rows-once}

insert_col-count :
    (c d : ℕ) (ds : List ℕ)
    → count c ds ≤ count c (insert_col d ds)
      × count c (insert_col d ds) ≤ count c ds + (if d == c then 1 else 0)
      × (d ≡ c → 1 ≤ count c (insert_col d ds))
unfolding insert_col
insert_col-count c d [] = (omega arith, omega arith, λ e. ground arith)
insert_col-count c d (e ∷ ds) =
    let (a, b, m) = insert_col-count c d ds in
    (ground (arith, a), ground (arith, b), λ q. ground (arith, m q))

insert_col-Ascending :
    (lo d : ℕ) (ds : List ℕ) → lo ≤ d → Ascending lo ds → Ascending lo (insert_col d ds)
unfolding insert_col
insert_col-Ascending lo d [] h a = (h, tt)
insert_col-Ascending lo d (e ∷ ds) h a = elim (Bool-cases (ltb d e)) [
  | inl below ↦ rw (below, insert_col) (h, (ground arith, a.1))
  | inr above ↦ elim (Bool-cases (d == e)) [
    | inl same ↦ rw (above, same, insert_col) a
    | inr more ↦
        rw (above, more, insert_col) (a.0, insert_col-Ascending (suc e) d ds (ground arith) a.1)
  ]
]

note_weight2-Ascending :
    (w : Weights) (cs ds : List ℕ) → Ascending 0 ds → Ascending 0 (note_weight2 w cs ds)
unfolding note_weight2
note_weight2-Ascending w [] ds a = a
note_weight2-Ascending w (c ∷ cs) ds a = elim (Bool-cases (w c == 2)) [
  | inl two ↦
      rw (two, note_weight2)
        (note_weight2-Ascending w cs (insert_col c ds)
          (insert_col-Ascending 0 c ds (omega arith) a))
  | inr no' ↦ rw (no', note_weight2) (note_weight2-Ascending w cs ds a)
]

-- What was in the set stays there, what joins stands in `cs`, and a column of weight 2 of `cs` joins.
note_weight2-keeps :
    (w : Weights) (c : ℕ) (cs ds : List ℕ) → 1 ≤ count c ds → 1 ≤ count c (note_weight2 w cs ds)
unfolding note_weight2
note_weight2-keeps w c [] ds h = h
note_weight2-keeps w c (d ∷ cs) ds h =
    note_weight2-keeps w c cs (if w d == 2 then insert_col d ds else ds)
      (ground (arith, (insert_col-count c d ds).0))

note_weight2-from :
    (w : Weights) (c : ℕ) (cs ds : List ℕ)
    → count c (note_weight2 w cs ds) ≤ count c cs + count c ds
unfolding note_weight2
note_weight2-from w c [] ds = omega arith
note_weight2-from w c (d ∷ cs) ds =
    let ih = note_weight2-from w c cs (if w d == 2 then insert_col d ds else ds) in
    ground (arith, ih, (insert_col-count c d ds).1)

note_weight2-joins :
    (w : Weights) (c : ℕ) (cs ds : List ℕ)
    → w c ≡ 2
    → 1 ≤ count c cs
    → 1 ≤ count c (note_weight2 w cs ds)
unfolding note_weight2
note_weight2-joins w c [] ds two h = absurd (omega arith)
note_weight2-joins w c (d ∷ cs) ds two h = elim (Bool-cases (d == c)) [
  | inl here ↦
      let e : d ≡ c = ground arith in
      let now : (w d == 2) ≡ true = rw e (ground arith) in
      rw (now, note_weight2)
        (note_weight2-keeps w c cs (insert_col d ds) ((insert_col-count c d ds).2 e))
  | inr away ↦
      note_weight2-joins w c cs (if w d == 2 then insert_col d ds else ds) two (ground arith)
]

-- The columns of the rows are below `n`, and so are those of the set, which is ascending.
pub record IsBounded (n : ℕ) (s : Merge) : Type 0 where
  pub cols : (r c : ℕ) → 1 ≤ count c (row_at s.rows r).cols → c < n
  pub queue : (c : ℕ) → 1 ≤ count c s.w2_cols → c < n
  pub ascending : Ascending 0 s.w2_cols

-- Every column of weight 2 is in the set.
abbrev pub IsQueued : Merge → Type 0
IsQueued s = (c : ℕ) → s.weights c ≡ 2 → 1 ≤ count c s.w2_cols

one_of : (n c a b k : ℕ) → 1 ≤ k → k ≤ a + b → (1 ≤ a → c < n) → (1 ≤ b → c < n) → c < n
one_of n c a b k h sum left right = elim (Bool-cases (ltb 0 a)) [
  | inl some' ↦ left (ground arith)
  | inr no' ↦ right (ground arith)
]

note_weight2-below :
    (n : ℕ) (w : Weights) (cs ds : List ℕ)
    → ((c : ℕ) → 1 ≤ count c cs → c < n)
    → ((c : ℕ) → 1 ≤ count c ds → c < n)
    → (c : ℕ) → 1 ≤ count c (note_weight2 w cs ds)
    → c < n
note_weight2-below n w cs ds left right c h =
    one_of n c (count c cs) (count c ds) (count c (note_weight2 w cs ds)) h
      (note_weight2-from w c cs ds) (left c) (right c)

pub merge_pair-IsBounded :
    (n : ℕ) (s : Merge) (r1 r2 : ℕ)
    → r1 ≢ r2
    → (row_at s.rows r1).alive ≡ true
    → (row_at s.rows r2).alive ≡ true
    → IsIndexed s
    → IsBounded n s
    → IsBounded n (merge_pair s r1 r2)
unfolding merge_pair
merge_pair-IsBounded n s r1 r2 ne l1 l2 v b =
    let x = row_at s.rows r1 in
    let y = row_at s.rows r2 in
    let new = xor_rows x.cols y.cols in
    let k = last_node (push_node s.tree x.node_of y.node_of) in
    let w = (merge_pair s r1 r2).weights in
    let rows' = replace_rows s.rows r1 r2 new k in
    let q1 = note_weight2 w x.cols s.w2_cols in
    let q2 = note_weight2 w y.cols q1 in
    let in_new : (c : ℕ) → 1 ≤ count c new → c < n = λ c h.
      one_of n c (count c x.cols) (count c y.cols) (count c new) h
        (xor_rows-once c x.cols y.cols (v.sorted r1) (v.sorted r2)) (b.cols r1 c) (b.cols r2 c) in
    record {
      cols =
          by_row (λ q. (c : ℕ) → 1 ≤ count c (row_at rows' q).cols → c < n) r1 r2
            (rw (row_at-replace_left s.rows r1 r2 new k ne l1) in_new)
            (rw (row_at-replace_right s.rows r1 r2 new k ne l2) (λ c h. absurd (omega arith)))
            (λ q h h'. rw (row_at-replace_ne s.rows r1 r2 q new k h h') (b.cols q));
      queue = note_weight2-below n w new q2 in_new (
          note_weight2-below n w y.cols q1 (b.cols r2)
            (note_weight2-below n w x.cols s.w2_cols (b.cols r1) b.queue));
      ascending = note_weight2-Ascending w new q2 (
          note_weight2-Ascending w y.cols q1
            (note_weight2-Ascending w x.cols s.w2_cols b.ascending));
    }

-- After the merge the set holds every column of weight 2, if it did before but for columns of the first row.
pub merge_pair-IsQueued :
    (s : Merge) (r1 r2 : ℕ)
    → r1 ≢ r2
    → IsIndexed s
    → IsWeighted s
    → ((c : ℕ) → s.weights c ≡ 2 → count c (row_at s.rows r1).cols ≡ 0 → 1 ≤ count c s.w2_cols)
    → IsQueued (merge_pair s r1 r2)
unfolding merge_pair merged_weight
merge_pair-IsQueued s r1 r2 ne v w h c two =
    let x = row_at s.rows r1 in
    let y = row_at s.rows r2 in
    let new = xor_rows x.cols y.cols in
    let w' = (merge_pair s r1 r2).weights in
    let q1 = note_weight2 w' x.cols s.w2_cols in
    let q2 = note_weight2 w' y.cols q1 in
    note_weight2-keeps w' c new q2 (elim (Bool-cases (ltb 0 (count c y.cols))) [
      | inl second ↦ note_weight2-joins w' c y.cols q1 two (ground arith)
      | inr no2 ↦ note_weight2-keeps w' c y.cols q1 (elim (Bool-cases (ltb 0 (count c x.cols))) [
        | inl first ↦ note_weight2-joins w' c x.cols s.w2_cols two (ground arith)
        | inr no1 ↦
            let z1 : count c x.cols ≡ 0 = ground arith in
            let z2 : count c y.cols ≡ 0 = ground arith in
            let same : s.weights c ≡ 2 = omega (
              arith,
              merged_weight_lem s r1 r2 ne v w c,
              xor_rows-once c x.cols y.cols (v.sorted r1) (v.sorted r2),
              two,
            ) in
            note_weight2-keeps w' c x.cols s.w2_cols (h c same z1)
      ])
    ])
