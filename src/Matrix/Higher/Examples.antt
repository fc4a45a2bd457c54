-- ===== src/Matrix/Higher/Examples.antt =====
-- mergeHigherWeight on the five rows of a small matrix, each of which is an original row.
use cuda_mpqs.Prelude.{
  ℕ, ◌+◌, ◌*◌, ◌%◌, ◌^◌, ◌<◌, ◌≤◌, ◌≡◌, ◌⊎◌, refl, List, [], ◌∷◌, some, count, sum_over, length,
  arith, All, Ascending, get_or,
}
use cuda_mpqs.Matrix.Csr.{rows_of}
use cuda_mpqs.Matrix.MergeTree.{bit_at, expand_kernel_vector}
use cuda_mpqs.Matrix.MergeTree.Leaves.{leaves, rounds}
use cuda_mpqs.Matrix.Weight2.{MergeResult, row_at}
use cuda_mpqs.Matrix.Weight2.Kernel.{bit_count, IsKernel, rounds_total}
use cuda_mpqs.Matrix.Higher.{eliminate, first_higher, merge_higher_weight}
use cuda_mpqs.Matrix.Higher.Kernel.{
  FromNodes, IsMergeInput, first_higher-IsHigher, expand_kernel_vector-merge_higher_weight,
}
use cuda_mpqs.Matrix.Higher.Eliminated.{eliminate-all_or_nothing}
use cuda_mpqs.Matrix.Higher.Fill.{merge_higher_weight-length}

abbrev rows : List (List ℕ)
rows =
    (0 ∷ 1 ∷ 2 ∷ [])
    ∷ (0 ∷ 1 ∷ 3 ∷ [])
    ∷ (0 ∷ 2 ∷ 3 ∷ [])
    ∷ (1 ∷ 2 ∷ 3 ∷ [])
    ∷ (0 ∷ 1 ∷ 2 ∷ 3 ∷ [])
    ∷ []

abbrev original : ℕ → List ℕ
original l = get_or rows l []

abbrev input : MergeResult
input = record {
  reduced = record {
    row_offsets = 0 ∷ 3 ∷ 6 ∷ 9 ∷ 12 ∷ 16 ∷ [];
    col_indices = 0 ∷ 1 ∷ 2 ∷ 0 ∷ 1 ∷ 3 ∷ 0 ∷ 2 ∷ 3 ∷ 1 ∷ 2 ∷ 3 ∷ 0 ∷ 1 ∷ 2 ∷ 3 ∷ [];
    n_rows = 5;
    n_cols = 4;
  };
  row_map = 0 ∷ 1 ∷ 2 ∷ 3 ∷ 4 ∷ [];
  merge_tree = record { num_leaves = 5; internal_nodes = [] };
  merges_performed = 0;
  rows_removed = 0;
}

-- Four columns are eliminated, and the zero row is left.
abbrev result : MergeResult
result = record {
  reduced = record { row_offsets = 0 ∷ 0 ∷ []; col_indices = []; n_rows = 1; n_cols = 0 };
  row_map = 10 ∷ [];
  merge_tree = record {
    num_leaves = 5;
    internal_nodes =
        record { left = 0; right = 1 }
        ∷ record { left = 0; right = 2 }
        ∷ record { left = 0; right = 4 }
        ∷ record { left = 6; right = 3 }
        ∷ record { left = 8; right = 5 }
        ∷ record { left = 9; right = 7 }
        ∷ [];
  };
  merges_performed = 4;
  rows_removed = 4;
}

small-merge_higher_weight : merge_higher_weight input 4 20 6 ≡ result
unfolding merge_higher_weight
small-merge_higher_weight = refl

-- With a limit of one entry no sum fits, and the matrix stays as it is.
small-skipped : merge_higher_weight input 4 1 1 ≡ input
unfolding merge_higher_weight
small-skipped = refl

input-rows_of : rows_of input.reduced ≡ rows
unfolding rows_of
input-rows_of = refl

rows-sorted : All (Ascending 0) rows
rows-sorted = omega arith

rows-in_range : All (λ (x : List ℕ). (c : ℕ) → 1 ≤ count c x → c < 4) rows
rows-in_range = (
  λ c h. ground arith,
  (λ c h. ground arith, (λ c h. ground arith, (λ c h. ground arith, (λ c h. ground arith, tt)))),
)

rows-FromNodes : FromNodes original input.merge_tree rows input.row_map 0
unfolding leaves
rows-FromNodes = (
  omega arith,
  λ c. omega arith,
  (
    omega arith,
    λ c. omega arith,
    (
      omega arith,
      λ c. omega arith,
      (omega arith, λ c. omega arith, (omega arith, λ c. omega arith, tt)),
    ),
  ),
)

input-IsMergeInput : IsMergeInput original 4 input
input-IsMergeInput = record {
  sorted = rw input-rows_of rows-sorted;
  in_range = rw input-rows_of rows-in_range;
  tree = record { earlier = tt; fits = omega arith };
  nodes = rw input-rows_of rows-FromNodes;
  fits = rw input-rows_of (omega arith);
  few = rw input-rows_of (omega arith);
}

left_row : IsKernel (1 ∷ []) (rows_of result.reduced)
unfolding bit_count rows_of bit_at
left_row = λ c. ground arith

small-rounds : rounds_total result.merge_tree result.row_map < 40
unfolding rounds_total rounds
small-rounds = omega arith

expand_kernel_vector-merge_higher_weight_example :
    (rels : List ℕ) × (expand_kernel_vector 40 (1 ∷ []) 1 result.row_map result.merge_tree
      ≡ some rels)
    × Ascending 0 rels
    × ((c : ℕ) → sum_over (λ l. count c (original l)) rels % 2 ≡ 0)
expand_kernel_vector-merge_higher_weight_example =
    expand_kernel_vector-merge_higher_weight original input result 4 20 6 40 (1 ∷ [])
      input-IsMergeInput small-merge_higher_weight (omega arith) left_row small-rounds

eliminate-all_or_nothing_example :
    let s = first_higher input in
    let t = eliminate 4 20 s 0 in
    (t ≡ s)
    ⊎ ((t.weights 0 ≡ 0)
        × ((q : ℕ) → count 0 (row_at t.rows q).cols ≡ 0)
        × (t.merges ≡ s.merges + 1))
eliminate-all_or_nothing_example =
    eliminate-all_or_nothing original 4 4 (length (rows_of input.reduced)) 20 (first_higher input) 0
      (first_higher-IsHigher original 4 input input-IsMergeInput)

-- It is gone.
small-eliminate : (eliminate 4 20 (first_higher input) 0).merges ≡ 1
unfolding eliminate first_higher
small-eliminate = refl

rows-short : All (λ x. length x ≤ 20) (rows_of input.reduced)
rows-short = rw input-rows_of (omega arith)

rows-total : 20 * length (rows_of input.reduced) < 2 ^ 32
rows-total = rw input-rows_of (omega arith)

merge_higher_weight-length_example :
    let r = (merge_higher_weight input 4 20 6).reduced in
    All (λ x. length x ≤ 20) (rows_of r) × (length r.col_indices ≤ 20 * r.n_rows)
merge_higher_weight-length_example =
    merge_higher_weight-length original 20 input 4 20 6 input-IsMergeInput (omega arith) rows-short
      rows-total
