-- ===== src/Matrix/Preprocess/Kernel.antt =====
-- preprocessMatrix on the host, from the matrix to original relations.
use cuda_mpqs.Prelude.{
  ℕ, ◌+◌, ◌*◌, ◌%◌, ◌^◌, ◌<◌, ◌≡◌, refl, sym, ap, ◌∙◌, subst, List, some, length, arith, count,
  sum_over, Ascending,
}
use cuda_mpqs.Matrix.Csr.{HostMatrixCsr, row, rows_of, flat, length-rows_of}
use cuda_mpqs.Matrix.Singletons.{SingletonResult, remove_singletons}
use cuda_mpqs.Matrix.Singletons.Monotone.{number, column_of}
use cuda_mpqs.Matrix.MergeTree.{expand_kernel_vector}
use cuda_mpqs.Matrix.Weight2.{MergeResult, merge_weight2}
use cuda_mpqs.Matrix.Weight2.Kernel.{IsKernel, rounds_total}
use cuda_mpqs.Matrix.Weight2.Reduced.{IsReduction, merge_weight2_lem}
use cuda_mpqs.Matrix.Higher.{merge_higher_weight}
use cuda_mpqs.Matrix.Higher.Chain.{
  renumbered, sum_over-numbered, merge_higher_weight-merge_weight2, merge_weight2-IsMergeInput,
}
use cuda_mpqs.Matrix.Higher.Kernel.{merge_higher_weight-IsBalanced}
use cuda_mpqs.Matrix.Preprocess.{
  MatrixBackend, cpu, resolve_backend, PreprocessResult, preprocess_result, merge_rest,
  merge_stages, merge_rounds, singletons_by, preprocess_matrix,
}
use cuda_mpqs.Matrix.Preprocess.Input.{
  IsExpanded, last_weights, expanded-back, remove_singletons-IsInput, remove_singletons-removed,
}

-- The merges behind a singleton removal, once mergeWeight2 has ended.
merge_stages-some :
    (twice_avg : MergeResult → ℕ) (k_max max_weight : ℕ) (sr : SingletonResult) (w2 : MergeResult)
    → merge_weight2 (merge_rounds sr.reduced) sr.reduced sr.row_map ≡ some w2
    → merge_stages twice_avg k_max max_weight sr
      ≡ some (preprocess_result sr w2 (merge_higher_weight w2 k_max max_weight (twice_avg w2)))
unfolding merge_stages
merge_stages-some twice_avg k_max max_weight sr w2 e =
    ap (merge_rest twice_avg k_max max_weight sr) e

module _ (device_count : ℕ) (gpu_remove_singletons : HostMatrixCsr → SingletonResult)
    (twice_avg : MergeResult → ℕ) (m : HostMatrixCsr) (backend : MatrixBackend)
    (k_max max_weight : ℕ) where
  -- On the host, the result is put together from those of the three stages.
  preprocess_matrix-stages :
      IsExpanded m
      → m.n_rows * (k_max + 2) < 2 ^ 32
      → resolve_backend device_count backend m.n_rows ≡ cpu
      → let sr = remove_singletons m in
        (w2 : MergeResult) × (merge_weight2 (merge_rounds sr.reduced) sr.reduced sr.row_map
          ≡ some w2)
        × (preprocess_matrix device_count gpu_remove_singletons twice_avg m backend k_max max_weight
            ≡ some
                (preprocess_result sr w2 (merge_higher_weight w2 k_max max_weight (twice_avg w2))))
  unfolding preprocess_matrix
  preprocess_matrix-stages v room host =
      let sr = remove_singletons m in
      let (input, fits) = remove_singletons-IsInput m v k_max room in
      let (w2, e, reduction) =
        merge_weight2_lem (renumbered (number m.n_cols (last_weights m v)) (row m))
          (merge_rounds sr.reduced) sr.reduced sr.row_map input (omega arith) in
      (
        w2,
        e,
        ap (λ b. merge_stages twice_avg k_max max_weight (singletons_by gpu_remove_singletons b m))
              host
            ∙ merge_stages-some twice_avg k_max max_weight sr w2 e,
      )

  -- Preprocessing on the host: a kernel vector of the matrix it returns, given fuel for the nodes of the row map, expands to a strictly ascending list of rows of the expanded matrix in which every column occurs an even number of times. The rows of the expanded matrix are sorted, its columns are below `n_cols`, `k_max` + 2 nodes for each row have numbers of 32 bits, and the expanded matrix and the one returned each have less than 2^32 entries, which their offsets can count.
  pub expand_kernel_vector-preprocess_matrix :
      (bits : List ℕ) (fuel : ℕ) (r : PreprocessResult)
      → IsExpanded m
      → length (flat (rows_of m)) < 2 ^ 32
      → m.n_rows * (k_max + 2) < 2 ^ 32
      → resolve_backend device_count backend m.n_rows ≡ cpu
      → preprocess_matrix device_count gpu_remove_singletons twice_avg m backend k_max max_weight
        ≡ some r
      → length r.reduced.col_indices < 2 ^ 32
      → IsKernel bits (rows_of r.reduced)
      → rounds_total r.merge_tree r.row_map < fuel
      → (rels : List ℕ) × (expand_kernel_vector fuel bits (length r.row_map) r.row_map r.merge_tree
          ≡ some rels)
        × Ascending 0 rels
        × ((c : ℕ) → sum_over (λ l. count c (row m l)) rels % 2 ≡ 0)
  expand_kernel_vector-preprocess_matrix bits fuel r v offsets_fit room host found few kernel
        enough =
      let sr = remove_singletons m in
      let w = last_weights m v in
      let f = number m.n_cols w in
      let (input, fits) = remove_singletons-IsInput m v k_max room in
      let (w2, e, whole) = preprocess_matrix-stages v room host in
      let hw = merge_higher_weight w2 k_max max_weight (twice_avg w2) in
      let same : preprocess_result sr w2 hw ≡ r = cc (whole, found) in
      let (rels, expanded, up, even) =
        merge_higher_weight-merge_weight2 (renumbered f (row m)) (merge_rounds sr.reduced) fuel
          k_max max_weight (twice_avg w2) sr.reduced sr.row_map bits w2 hw input (omega arith) fits
          e refl
          (subst (λ (x : PreprocessResult). length x.reduced.col_indices < 2 ^ 32) (sym same) few)
          (subst (λ (x : PreprocessResult). IsKernel bits (rows_of x.reduced)) (sym same) kernel)
          (subst (λ (x : PreprocessResult). rounds_total x.merge_tree x.row_map < fuel) (sym same)
            enough) in
      (
        rels,
        subst
            (λ (x : PreprocessResult).
              expand_kernel_vector fuel bits (length x.row_map) x.row_map x.merge_tree ≡ some rels)
            same expanded,
        up,
        λ c.
            ap (λ x. x % 2)
              (sym (sum_over-numbered f (column_of m.n_cols w) (row m) c rels (expanded-back m v)))
            ∙ even (f c),
      )

  -- On the host the preprocessing ends with a result. The rows of the reduced matrix and the rows that the three stages have removed make up the rows of the expanded matrix, and the row map has a node for each row left. The conditions are those on the sizes, and sorted rows with columns below `n_cols`.
  pub preprocess_matrix_lem :
      IsExpanded m
      → m.n_rows * (k_max + 2) < 2 ^ 32
      → resolve_backend device_count backend m.n_rows ≡ cpu
      → (r : PreprocessResult) × (preprocess_matrix device_count gpu_remove_singletons twice_avg m
            backend k_max max_weight
          ≡ some r)
        × (r.reduced.n_rows + r.hw_merges + r.w2_merges + r.singletons_removed ≡ m.n_rows)
        × (length r.row_map ≡ r.reduced.n_rows)
  preprocess_matrix_lem v room host =
      let sr = remove_singletons m in
      let orig = renumbered (number m.n_cols (last_weights m v)) (row m) in
      let (input, fits) = remove_singletons-IsInput m v k_max room in
      let (w2, e, whole) = preprocess_matrix-stages v room host in
      let (w2', e', reduction) =
        merge_weight2_lem orig (merge_rounds sr.reduced) sr.reduced sr.row_map input
          (omega arith) in
      let same : w2' ≡ w2 = cc (e, e') in
      let reduced = subst (IsReduction sr.reduced) same reduction in
      let (orig', next) =
        merge_weight2-IsMergeInput orig (merge_rounds sr.reduced) k_max sr.reduced sr.row_map w2
          input (omega arith) fits e in
      let hw = merge_higher_weight-IsBalanced orig' w2 k_max max_weight (twice_avg w2) next in
      (
        preprocess_result sr w2 (merge_higher_weight w2 k_max max_weight (twice_avg w2)),
        whole,
        omega (
          arith,
          reduced.removed,
          reduced.performed,
          hw.removed,
          hw.performed,
          length-rows_of w2.reduced,
          remove_singletons-removed m v,
        ),
        hw.mapped,
      )
