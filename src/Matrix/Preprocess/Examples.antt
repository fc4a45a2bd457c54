-- ===== src/Matrix/Preprocess/Examples.antt =====
-- preprocessMatrix on a small matrix: a singleton row, and five rows with one relation between them.
use cuda_mpqs.Prelude.{
  ℕ, ◌+◌, ◌%◌, ◌^◌, ◌<◌, ◌≤◌, ◌≡◌, refl, List, [], ◌∷◌, some, count, sum_over, length, arith, All,
  Ascending,
}
use cuda_mpqs.Matrix.Csr.{HostMatrixCsr, row, rows_of, flat}
use cuda_mpqs.Matrix.Singletons.{SingletonResult, filter_rows}
use cuda_mpqs.Matrix.Singletons.Weights.{total_count}
use cuda_mpqs.Matrix.MergeTree.{bit_at, expand_kernel_vector}
use cuda_mpqs.Matrix.MergeTree.Leaves.{rounds}
use cuda_mpqs.Matrix.Weight2.Kernel.{bit_count, IsKernel, rounds_total}
use cuda_mpqs.Matrix.Preprocess.{
  PreprocessResult, auto, cpu, resolve_backend, preprocess_matrix, select_kernel_vector_rows,
}
use cuda_mpqs.Matrix.Preprocess.Input.{IsExpanded}
use cuda_mpqs.Matrix.Preprocess.Kernel.{
  expand_kernel_vector-preprocess_matrix, preprocess_matrix_lem,
}

abbrev rows : List (List ℕ)
rows =
    (0 ∷ 1 ∷ 2 ∷ [])
    ∷ (4 ∷ [])
    ∷ (0 ∷ 1 ∷ 3 ∷ [])
    ∷ (0 ∷ 2 ∷ 3 ∷ [])
    ∷ (1 ∷ 2 ∷ 3 ∷ [])
    ∷ (0 ∷ 1 ∷ 2 ∷ 3 ∷ [])
    ∷ []

abbrev expanded : HostMatrixCsr
expanded = record {
  row_offsets = 0 ∷ 3 ∷ 4 ∷ 7 ∷ 10 ∷ 13 ∷ 17 ∷ [];
  col_indices = 0 ∷ 1 ∷ 2 ∷ 4 ∷ 0 ∷ 1 ∷ 3 ∷ 0 ∷ 2 ∷ 3 ∷ 1 ∷ 2 ∷ 3 ∷ 0 ∷ 1 ∷ 2 ∷ 3 ∷ [];
  n_rows = 6;
  n_cols = 5;
}

abbrev on_device : HostMatrixCsr → SingletonResult
on_device m = record {
  reduced = m;
  row_map = [];
  col_map = [];
  iterations = 0;
  rows_removed = 0;
  cols_removed = 0;
}

abbrev result : PreprocessResult
result = record {
  reduced = record { row_offsets = 0 ∷ 0 ∷ []; col_indices = []; n_rows = 1; n_cols = 0 };
  row_map = 11 ∷ [];
  merge_tree = record {
    num_leaves = 6;
    internal_nodes =
        record { left = 0; right = 2 }
        ∷ record { left = 0; right = 3 }
        ∷ record { left = 0; right = 5 }
        ∷ record { left = 7; right = 4 }
        ∷ record { left = 9; right = 6 }
        ∷ record { left = 10; right = 8 }
        ∷ [];
  };
  singletons_removed = 1;
  singleton_iterations = 2;
  w2_merges = 0;
  hw_merges = 4;
}

-- The device is left aside, since there are fewer than 10000 rows.
small-host : resolve_backend 1 auto 6 ≡ cpu
unfolding resolve_backend
small-host = refl

small-preprocess_matrix : preprocess_matrix 1 on_device (λ r. 6) expanded auto 4 20 ≡ some result
unfolding preprocess_matrix filter_rows
small-preprocess_matrix = refl

expanded-rows_of : rows_of expanded ≡ rows
unfolding rows_of
expanded-rows_of = refl

rows-sorted : All (Ascending 0) rows
rows-sorted = omega arith

rows-in_range : (c : ℕ) → 1 ≤ total_count c rows → c < 5
unfolding total_count
rows-in_range c h = ground arith

expanded-IsExpanded : IsExpanded expanded
expanded-IsExpanded = record {
  sorted = rw expanded-rows_of rows-sorted;
  in_range = rw expanded-rows_of rows-in_range;
  small = omega arith;
}

few_entries : length (flat (rows_of expanded)) < 2 ^ 32
few_entries = rw expanded-rows_of (omega arith)

-- The row that is left is zero.
left_row : IsKernel (1 ∷ []) (rows_of result.reduced)
unfolding bit_count rows_of bit_at
left_row = λ c. ground arith

small-rounds : rounds_total result.merge_tree result.row_map < 40
unfolding rounds_total rounds
small-rounds = omega arith

expand_kernel_vector-preprocess_matrix_example :
    (rels : List ℕ) × (expand_kernel_vector 40 (1 ∷ []) 1 result.row_map result.merge_tree
      ≡ some rels)
    × Ascending 0 rels
    × ((c : ℕ) → sum_over (λ l. count c (row expanded l)) rels % 2 ≡ 0)
expand_kernel_vector-preprocess_matrix_example =
    expand_kernel_vector-preprocess_matrix 1 on_device (λ r. 6) expanded auto 4 20 (1 ∷ []) 40
      result expanded-IsExpanded few_entries (omega arith) small-host small-preprocess_matrix
      (omega arith) left_row small-rounds

small-expand_kernel_vector :
    expand_kernel_vector 40 (1 ∷ []) 1 result.row_map result.merge_tree
    ≡ some (0 ∷ 2 ∷ 3 ∷ 4 ∷ 5 ∷ [])
unfolding expand_kernel_vector
small-expand_kernel_vector = refl

preprocess_matrix_lem_example :
    (r : PreprocessResult) × (preprocess_matrix 1 on_device (λ r. 6) expanded auto 4 20 ≡ some r)
    × (r.reduced.n_rows + r.hw_merges + r.w2_merges + r.singletons_removed ≡ 6)
    × (length r.row_map ≡ r.reduced.n_rows)
preprocess_matrix_lem_example =
    preprocess_matrix_lem 1 on_device (λ r. 6) expanded auto 4 20 expanded-IsExpanded (omega arith)
      small-host

-- Bits 0 and 2 select the nodes 9 and 4.
small-select_kernel_vector_rows : select_kernel_vector_rows (5 ∷ []) 3 (9 ∷ 8 ∷ 4 ∷ []) ≡ 4 ∷ 9 ∷ []
unfolding select_kernel_vector_rows
small-select_kernel_vector_rows = refl
