-- ===== src/Matrix/Weight2/Examples.antt =====
-- mergeWeight2 and expandKernelVector on a small matrix, and the theorems there.
use cuda_mpqs.Prelude.{
  ℕ, ◌%◌, ◌<◌, ◌≤◌, ◌≡◌, refl, List, [], ◌∷◌, some, count, sum_over, arith, get_or, Ascending, All,
}
use cuda_mpqs.Matrix.Csr.{HostMatrixCsr, rows_of}
use cuda_mpqs.Matrix.XorRows.{xor_rows}
use cuda_mpqs.Matrix.MergeTree.{bit_at, expand_kernel_vector}
use cuda_mpqs.Matrix.MergeTree.Leaves.{rounds}
use cuda_mpqs.Matrix.Weight2.{MergeResult, max_element, merge_weight2}
use cuda_mpqs.Matrix.Weight2.First.{FromLeaves}
use cuda_mpqs.Matrix.Weight2.Start.{IsInput}
use cuda_mpqs.Matrix.Weight2.Reduced.{IsReduction, merge_weight2_lem}
use cuda_mpqs.Matrix.Weight2.Kernel.{
  bit_count, IsKernel, rounds_total, expand_kernel_vector-merge_weight2,
}

abbrev small_rows : List (List ℕ)
small_rows = (0 ∷ 1 ∷ []) ∷ (0 ∷ 2 ∷ []) ∷ (1 ∷ 2 ∷ []) ∷ (1 ∷ 2 ∷ 3 ∷ []) ∷ (1 ∷ 3 ∷ []) ∷ []

abbrev small : HostMatrixCsr
small = record {
  row_offsets = 0 ∷ 2 ∷ 4 ∷ 6 ∷ 9 ∷ 11 ∷ [];
  col_indices = 0 ∷ 1 ∷ 0 ∷ 2 ∷ 1 ∷ 2 ∷ 1 ∷ 2 ∷ 3 ∷ 1 ∷ 3 ∷ [];
  n_rows = 5;
  n_cols = 4;
}

-- Relation 3 is none of the matrix.
abbrev small_map : List ℕ
small_map = 0 ∷ 1 ∷ 2 ∷ 4 ∷ 5 ∷ []

abbrev relation_rows : ℕ → List ℕ
relation_rows l =
    get_or ((0 ∷ 1 ∷ []) ∷ (0 ∷ 2 ∷ []) ∷ (1 ∷ 2 ∷ []) ∷ [] ∷ (1 ∷ 2 ∷ 3 ∷ []) ∷ (1 ∷ 3 ∷ []) ∷ [])
      l []

small-rows_of : rows_of small ≡ small_rows
unfolding rows_of
small-rows_of = refl

-- Three merges, on the columns 0, 1 and 3; column 2 is left with a single entry.
abbrev small_result : MergeResult
small_result = record {
  reduced = record { row_offsets = 0 ∷ 0 ∷ 1 ∷ []; col_indices = 0 ∷ []; n_rows = 2; n_cols = 1 };
  row_map = 8 ∷ 7 ∷ [];
  merge_tree = record {
    num_leaves = 6;
    internal_nodes =
        record { left = 0; right = 1 }
        ∷ record { left = 4; right = 5 }
        ∷ record { left = 6; right = 2 }
        ∷ [];
  };
  merges_performed = 3;
  rows_removed = 3;
}

small-merge_weight2 : merge_weight2 30 small small_map ≡ some small_result
unfolding merge_weight2
small-merge_weight2 = refl

small-sorted : All (Ascending 0) small_rows
small-sorted = (
  (omega arith, (omega arith, tt)),
  (
    (omega arith, (omega arith, tt)),
    (
      (omega arith, (omega arith, tt)),
      ((omega arith, (omega arith, (omega arith, tt))), ((omega arith, (omega arith, tt)), tt)),
    ),
  ),
)

small-in_range : All (λ (x : List ℕ). (c : ℕ) → 1 ≤ count c x → c < 4) small_rows
small-in_range = (
  λ c h. ground arith,
  (λ c h. ground arith, (λ c h. ground arith, (λ c h. ground arith, (λ c h. ground arith, tt)))),
)

small-FromLeaves : FromLeaves relation_rows 6 small_rows small_map 0
small-FromLeaves = (
  omega arith,
  refl,
  (omega arith, refl, (omega arith, refl, (omega arith, refl, (omega arith, refl, tt)))),
)

small-IsInput : IsInput relation_rows small small_map
unfolding max_element
small-IsInput = record {
  sorted = rw small-rows_of small-sorted;
  in_range = rw small-rows_of small-in_range;
  leaves = rw small-rows_of small-FromLeaves;
  fits = rw small-rows_of (omega arith);
}

merge_weight2_lem_example :
    (r : MergeResult) × (merge_weight2 30 small small_map ≡ some r) × IsReduction small r
merge_weight2_lem_example =
    merge_weight2_lem relation_rows 30 small small_map small-IsInput
      (rw small-rows_of (omega arith))

-- The first row of the result is zero: the relations 0, 1 and 2 cancel.
first_row : IsKernel (1 ∷ []) (rows_of small_result.reduced)
unfolding bit_count rows_of bit_at
first_row = λ c. ground arith

small-rounds : rounds_total small_result.merge_tree small_result.row_map < 9
unfolding rounds_total rounds
small-rounds = omega arith

expand_kernel_vector-merge_weight2_example :
    (rels : List ℕ) × (expand_kernel_vector 9
        (1 ∷ [])
        2
        small_result.row_map
        small_result.merge_tree
      ≡ some rels)
    × Ascending 0 rels
    × ((c : ℕ) → sum_over (λ l. count c (relation_rows l)) rels % 2 ≡ 0)
expand_kernel_vector-merge_weight2_example =
    expand_kernel_vector-merge_weight2 relation_rows 30 9 small small_map (1 ∷ []) small_result
      small-IsInput (rw small-rows_of (omega arith)) small-merge_weight2 first_row small-rounds

small-expand_kernel_vector :
    expand_kernel_vector 9 (1 ∷ []) 2 small_result.row_map small_result.merge_tree
    ≡ some (0 ∷ 1 ∷ 2 ∷ [])
unfolding expand_kernel_vector
small-expand_kernel_vector = refl

small-xor_rows : xor_rows (0 ∷ 2 ∷ 5 ∷ []) (2 ∷ 3 ∷ []) ≡ 0 ∷ 3 ∷ 5 ∷ []
unfolding xor_rows
small-xor_rows = refl
