-- ===== src/Matrix/Preprocess.antt =====
-- src/matrix/preprocess.cpp: `resolveBackend`, `preprocessMatrix` and `selectKernelVectorRows`. The number
-- of devices that `cudaGetDeviceCount` gives, the singleton removal on a device and the product
-- `2.0 * avg_initial` of mergeHigherWeight are arguments.
pub mod Input
pub mod Kernel
mod Examples
use cuda_mpqs.Prelude.{
  ℕ, zero, suc, ◌+◌, ◌*◌, ◌/◌, List, [], ◌∷◌, Option, none, some, ltb, ◌&&◌, ◌==◌, if◌then◌else◌,
  get_or, length,
}
use cuda_mpqs.Matrix.Csr.{HostMatrixCsr, rows_of}
use cuda_mpqs.Matrix.Singletons.{SingletonResult, remove_singletons}
use cuda_mpqs.Matrix.MergeTree.{MergeTree, bit_at, sort}
use cuda_mpqs.Matrix.Weight2.{MergeResult, merge_weight2}
use cuda_mpqs.Matrix.Higher.{merge_higher_weight}

pub data MatrixBackend : Type 0 where
  cpu : MatrixBackend
  gpu : MatrixBackend
  auto : MatrixBackend

unfoldable pub resolve_backend : ℕ → MatrixBackend → ℕ → MatrixBackend
resolve_backend device_count cpu n_rows = cpu
resolve_backend device_count gpu n_rows = if device_count == 0 then cpu else gpu
resolve_backend device_count auto n_rows =
    if device_count == 0 then cpu else if ltb 10000 n_rows then gpu else cpu

pub record PreprocessResult : Type 0 where
  pub reduced : HostMatrixCsr
  pub row_map : List ℕ
  pub merge_tree : MergeTree
  pub singletons_removed : ℕ
  pub singleton_iterations : ℕ
  pub w2_merges : ℕ
  pub hw_merges : ℕ

-- Rounds for the loop of mergeWeight2.
abbrev pub merge_rounds : HostMatrixCsr → ℕ
merge_rounds m = (length (rows_of m) + 1) * (m.n_cols + 1)

abbrev pub preprocess_result : SingletonResult → MergeResult → MergeResult → PreprocessResult
preprocess_result sr w2 hw = record {
  reduced = hw.reduced;
  row_map = hw.row_map;
  merge_tree = hw.merge_tree;
  singletons_removed = sr.rows_removed;
  singleton_iterations = sr.iterations;
  w2_merges = w2.merges_performed;
  hw_merges = hw.merges_performed;
}

abbrev pub merge_rest :
    (MergeResult → ℕ) → ℕ → ℕ → SingletonResult → Option MergeResult → Option PreprocessResult
merge_rest twice_avg k_max max_weight sr none = none
merge_rest twice_avg k_max max_weight sr (some w2) =
    some (preprocess_result sr w2 (merge_higher_weight w2 k_max max_weight (twice_avg w2)))

-- The merges behind the singleton removal, which are the same for both backends.
unfoldable pub merge_stages : (MergeResult → ℕ) → ℕ → ℕ → SingletonResult → Option PreprocessResult
unfolding merge_weight2 merge_higher_weight
merge_stages twice_avg k_max max_weight sr =
    merge_rest twice_avg k_max max_weight sr
      (merge_weight2 (merge_rounds sr.reduced) sr.reduced sr.row_map)

abbrev pub singletons_by :
    (HostMatrixCsr → SingletonResult) → MatrixBackend → HostMatrixCsr → SingletonResult
singletons_by gpu_remove_singletons gpu expanded = gpu_remove_singletons expanded
singletons_by gpu_remove_singletons cpu expanded = remove_singletons expanded
singletons_by gpu_remove_singletons auto expanded = remove_singletons expanded

-- `none` would be a merge that runs out of rounds.
unfoldable pub preprocess_matrix :
    ℕ
    → (HostMatrixCsr → SingletonResult)
    → (MergeResult → ℕ)
    → HostMatrixCsr
    → MatrixBackend
    → ℕ
    → ℕ
    → Option PreprocessResult
unfolding resolve_backend merge_stages remove_singletons
preprocess_matrix device_count gpu_remove_singletons twice_avg expanded backend k_max max_weight =
    let resolved = resolve_backend device_count backend expanded.n_rows in
    merge_stages twice_avg k_max max_weight (singletons_by gpu_remove_singletons resolved expanded)

-- The loop of `selectKernelVectorRows`, `n` rounds from `i` on.
unfoldable pub select_rows : List ℕ → ℕ → ℕ → List ℕ → List ℕ
unfolding bit_at
select_rows packed_bits zero i row_map = []
select_rows packed_bits (suc n) i row_map =
    let rest = select_rows packed_bits n (i + 1) row_map in
    if ltb (i / 64) (length packed_bits) && (bit_at packed_bits i == 1)
    then get_or row_map i 0 ∷ rest
    else rest

unfoldable pub select_kernel_vector_rows : List ℕ → ℕ → List ℕ → List ℕ
unfolding select_rows sort
select_kernel_vector_rows packed_bits num_reduced_rows row_map =
    sort (select_rows packed_bits num_reduced_rows 0 row_map)
