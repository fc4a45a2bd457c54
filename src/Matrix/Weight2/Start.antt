-- ===== src/Matrix/Weight2/Start.antt =====
-- mergeWeight2: what holds of the state as the loop starts.
use native.Mathlib.Nat.{zero-add}
use cuda_mpqs.Prelude.{
  ℕ, suc, ◌+◌, ◌^◌, ◌<◌, ◌≤◌, ◌≡◌, refl, ◌∙◌, subst, List, [], ◌∷◌, ltb, get_or, length, arith,
  Bool-cases, inl, inr, count, All, Ascending, false,
}
use cuda_mpqs.Matrix.Csr.{HostMatrixCsr, rows_of}
use cuda_mpqs.Matrix.Singletons.Weights.{col_weights-count}
use cuda_mpqs.Matrix.Singletons.{col_weights}
use cuda_mpqs.Matrix.Weight2.{
  MergeRow, Merge, ColRows, row_at, leaf_bound, leaf_rows, first_merge, register_rows,
}
use cuda_mpqs.Matrix.Weight2.Sound.{IsMerged}
use cuda_mpqs.Matrix.Weight2.First.{
  FromLeaves, leaf_rows-IsSum, alive_total-leaf_rows, leaf_rows-cols, leaf_rows-dead, get_or-All,
  register_rows-at, seed_weight2-Ascending, seed_weight2-below, seed_weight2-joins,
  total_count-le-length, col_total-leaf_rows,
}
use cuda_mpqs.Matrix.Weight2.Index.{IsIndexed}
use cuda_mpqs.Matrix.Weight2.Pair.{col_total}
use cuda_mpqs.Matrix.Weight2.Columns.{IsWeighted}
use cuda_mpqs.Matrix.Weight2.Queue.{IsBounded, IsQueued}

-- A matrix that the merge takes: sorted rows of columns in range, which are the original rows that the row map names.
pub record IsInput (orig : ℕ → List ℕ) (input : HostMatrixCsr) (row_map : List ℕ) : Type 0 where
  pub sorted : All (Ascending 0) (rows_of input)
  pub in_range : All (λ (x : List ℕ). (c : ℕ) → 1 ≤ count c x → c < input.n_cols) (rows_of input)
  pub leaves : FromLeaves orig (leaf_bound row_map) (rows_of input) row_map 0
  pub fits : leaf_bound row_map + length (rows_of input) < 2 ^ 32

-- What the loop keeps.
pub record IsReducing (orig : ℕ → List ℕ) (total n_cols : ℕ) (s : Merge) : Type 0 where
  pub merged : IsMerged orig total s
  pub indexed : IsIndexed s
  pub weighted : IsWeighted s
  pub bounded : IsBounded n_cols s
  pub queued : IsQueued s

-- The first rows, with the index that lists them.
pub record IsListed (rows : List MergeRow) (m : ColRows) : Type 0 where
  pub sorted : (r : ℕ) → Ascending 0 (row_at rows r).cols
  pub dead : (r : ℕ) → (row_at rows r).alive ≡ false → (row_at rows r).cols ≡ []
  pub index : (r c : ℕ) → count r (m c) ≡ count c (row_at rows r).cols

pub leaf_rows-IsListed :
    (rows : List (List ℕ)) (row_map : List ℕ)
    → All (Ascending 0) rows
    → IsListed (leaf_rows rows row_map 0) (register_rows rows 0 (λ c. []))
leaf_rows-IsListed rows row_map up = record {
  sorted = λ r. rw (leaf_rows-cols rows row_map 0 r) (get_or-All (Ascending 0) rows r tt up);
  dead = leaf_rows-dead rows row_map 0;
  index = λ r c. rw (leaf_rows-cols rows row_map 0 r) (
      subst (λ j. count j (register_rows rows 0 (λ c. []) c) ≡ count c (get_or rows r []))
        (zero-add r)
        (register_rows-at r c rows 0 (λ c. []) ∙ zero-add (count c (get_or rows r []))));
}

-- The weights of fewer than 2^32 sorted rows.
pub col_weights-leaf_rows :
    (rows : List (List ℕ)) (row_map : List ℕ) (c : ℕ)
    → All (Ascending 0) rows
    → length rows < 2 ^ 32
    → (col_weights rows (λ c. 0) c ≡ col_total c (leaf_rows rows row_map 0))
      × (col_weights rows (λ c. 0) c < 2 ^ 32)
col_weights-leaf_rows rows row_map c up fits =
    let few = total_count-le-length c rows up in
    let e = col_weights-count c rows (λ c. 0) (omega (arith, few, fits)) in
    (omega (arith, e, col_total-leaf_rows c rows row_map 0), omega (arith, e, few, fits))

pub leaf_rows-bounded :
    (n : ℕ) (rows : List (List ℕ)) (row_map : List ℕ)
    → All (λ (x : List ℕ). (c : ℕ) → 1 ≤ count c x → c < n) rows
    → (r c : ℕ) → 1 ≤ count c (row_at (leaf_rows rows row_map 0) r).cols
    → c < n
leaf_rows-bounded n rows row_map within r c = rw (leaf_rows-cols rows row_map 0 r) (
    get_or-All (λ (x : List ℕ). (c : ℕ) → 1 ≤ count c x → c < n) rows r
      (λ c h. absurd (omega arith)) within c)

first_merge-IsIndexed :
    (orig : ℕ → List ℕ) (input : HostMatrixCsr) (row_map : List ℕ)
    → IsInput orig input row_map
    → IsIndexed (first_merge input row_map)
unfolding first_merge
first_merge-IsIndexed orig input row_map v =
    let l = leaf_rows-IsListed (rows_of input) row_map v.sorted in
    record { sorted = l.sorted; dead = l.dead; index = l.index }

first_merge-IsWeighted :
    (orig : ℕ → List ℕ) (input : HostMatrixCsr) (row_map : List ℕ)
    → IsInput orig input row_map
    → IsWeighted (first_merge input row_map)
unfolding first_merge
first_merge-IsWeighted orig input row_map v =
    let e =
      λ (c : ℕ). col_weights-leaf_rows (rows_of input) row_map c v.sorted (omega (arith, v.fits)) in
    record { weighed = λ c. (e c).0; fits = λ c. (e c).1 }

first_merge-IsBounded :
    (orig : ℕ → List ℕ) (input : HostMatrixCsr) (row_map : List ℕ)
    → IsInput orig input row_map
    → IsBounded input.n_cols (first_merge input row_map)
unfolding first_merge
first_merge-IsBounded orig input row_map v =
    let w = (first_merge input row_map).weights in
    record {
      cols = leaf_rows-bounded input.n_cols (rows_of input) row_map v.in_range;
      queue = λ c h. omega (arith, seed_weight2-below w input.n_cols 0 c h);
      ascending = seed_weight2-Ascending w input.n_cols 0;
    }

-- A column of positive weight is below `n`.
pub col_total-below :
    (n c : ℕ) (rows : List MergeRow)
    → ((r : ℕ) → 1 ≤ count c (row_at rows r).cols → c < n)
    → 1 ≤ col_total c rows
    → c < n
unfolding col_total row_at
col_total-below n c [] h p = absurd (omega arith)
col_total-below n c (x ∷ rs) h p = elim (Bool-cases (ltb 0 (count c x.cols))) [
  | inl here ↦ h 0 (ground arith)
  | inr no' ↦ col_total-below n c rs (λ r. h (suc r)) (ground arith)
]

pub first_merge-IsReducing :
    (orig : ℕ → List ℕ) (input : HostMatrixCsr) (row_map : List ℕ)
    → IsInput orig input row_map
    → IsReducing orig (length (rows_of input)) input.n_cols (first_merge input row_map)
unfolding first_merge
first_merge-IsReducing orig input row_map v =
    let rows = rows_of input in
    let s = first_merge input row_map in
    let weighted = first_merge-IsWeighted orig input row_map v in
    let bounded = first_merge-IsBounded orig input row_map v in
    record {
      merged = record {
        tree = record { earlier = tt; fits = omega (arith, v.fits) };
        sums = leaf_rows-IsSum orig s.tree rows row_map 0 refl v.leaves;
        room = omega (arith, alive_total-leaf_rows rows row_map 0);
        bound = v.fits;
        counted = refl;
      };
      indexed = first_merge-IsIndexed orig input row_map v;
      weighted = weighted;
      bounded = bounded;
      queued = λ c two.
          let below =
            col_total-below input.n_cols c s.rows (λ r. bounded.cols r c)
              (omega (arith, weighted.weighed c, two)) in
          seed_weight2-joins s.weights input.n_cols 0 c two (omega arith) (omega (arith, below));
    }
