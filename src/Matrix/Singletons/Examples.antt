-- ===== src/Matrix/Singletons/Examples.antt =====
-- removeSingletons on a small matrix, and its theorems there.
use cuda_mpqs.Prelude.{
  ℕ, ◌%◌, ◌^◌, ◌<◌, ◌≤◌, ◌≡◌, ◌≢◌, refl, List, [], ◌∷◌, map, Bool, ◌==◌, ◌||◌, count, arith, get_or,
  u32_max,
}
use cuda_mpqs.Matrix.Csr.{HostMatrixCsr, row, rows_of}
use cuda_mpqs.Matrix.Singletons.{filter_rows, remove_singletons, max_singleton_iterations}
use cuda_mpqs.Matrix.Singletons.Weights.{alive_count, total_count, total_count-le-entries}
use cuda_mpqs.Matrix.Singletons.Lossless.{picked, remove_singletons-keeps}
use cuda_mpqs.Matrix.Singletons.Fixpoint.{filter_rows-no_singleton}
use cuda_mpqs.Matrix.Singletons.Renumber.{ColumnsInRange, remove_singletons-rows}

-- Column 4 is a singleton; once row 3 is gone, column 3 is one.
abbrev small_rows : List (List ℕ)
small_rows = (0 ∷ 1 ∷ []) ∷ (1 ∷ 2 ∷ []) ∷ (3 ∷ 2 ∷ []) ∷ (3 ∷ 4 ∷ []) ∷ (0 ∷ 2 ∷ []) ∷ []

abbrev small : HostMatrixCsr
small = record {
  row_offsets = 0 ∷ 2 ∷ 4 ∷ 6 ∷ 8 ∷ 10 ∷ [];
  col_indices = 0 ∷ 1 ∷ 1 ∷ 2 ∷ 3 ∷ 2 ∷ 3 ∷ 4 ∷ 0 ∷ 2 ∷ [];
  n_rows = 5;
  n_cols = 5;
}

small-rows_of : rows_of small ≡ small_rows
unfolding rows_of
small-rows_of = refl

small-result :
    let r = remove_singletons small in
    (r.row_map ≡ 0 ∷ 1 ∷ 4 ∷ [])
    × (r.col_map ≡ 0 ∷ 1 ∷ 2 ∷ [])
    × (r.reduced.row_offsets ≡ 0 ∷ 2 ∷ 4 ∷ 6 ∷ [])
    × (r.reduced.col_indices ≡ 0 ∷ 1 ∷ 1 ∷ 2 ∷ 0 ∷ 2 ∷ [])
    × (r.reduced.n_rows ≡ 3)
    × (r.iterations ≡ 3)
    × (r.rows_removed ≡ 2)
unfolding remove_singletons filter_rows
small-result = (refl, refl, refl, refl, refl, refl, refl)

small-fits : (c : ℕ) → total_count c (rows_of small) < 2 ^ 32
small-fits c = rw small-rows_of (omega (arith, total_count-le-entries c small_rows))

-- Rows 0, 1 and 4 cancel.
abbrev triangle : ℕ → Bool
triangle r = r == 0 || (r == 1 || r == 4)

triangle-even : (c : ℕ) → picked c triangle (rows_of small) 0 % 2 ≡ 0
unfolding picked
triangle-even c = rw small-rows_of (omega arith)

remove_singletons-keeps_example : 1 ≤ count 4 (remove_singletons small).row_map
remove_singletons-keeps_example =
    remove_singletons-keeps small triangle small-fits triangle-even 4 (omega arith) refl

small-ColumnsInRange : ColumnsInRange small
unfolding total_count
small-ColumnsInRange = rw small-rows_of (λ c h. ground arith)

remove_singletons-rows_example :
    let r = remove_singletons small in
    map (map (λ c. get_or r.col_map c u32_max)) (rows_of r.reduced) ≡ map (row small) r.row_map
remove_singletons-rows_example =
    remove_singletons-rows small (omega arith) small-ColumnsInRange small-fits

small-early : (filter_rows small_rows).iteration < max_singleton_iterations
unfolding filter_rows
small-early = omega arith

filter_rows-no_singleton_example : alive_count 3 (filter_rows small_rows).rows ≢ 1
filter_rows-no_singleton_example =
    filter_rows-no_singleton 3 small_rows (omega (arith, total_count-le-entries 3 small_rows))
      small-early
