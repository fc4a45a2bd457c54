-- ===== src/Matrix/Singletons.antt =====
-- src/matrix/merge_filter.cpp: `MergeFilterPipeline::removeSingletons`. The vectors that are indexed
-- by rows, `row_alive` and the rows themselves, are one list of records; `col_weight` is a function
-- of the column.
pub mod Weights
pub mod Lossless
pub mod Fixpoint
pub mod Removed
pub mod Renumber
pub mod Monotone
mod Examples
use cuda_mpqs.Prelude.{
  ℕ, zero, suc, ◌+◌, ◌-◌, ◌<◌, ◌≤◌, ◌≡◌, refl, List, [], ◌∷◌, ◌++◌, map, Bool, true, false, ◌&&◌,
  ltb, ◌==◌, if◌then◌else◌, add32, sub32, u32_max, length,
}
use cuda_mpqs.Matrix.Csr.{HostMatrixCsr, row, rows_of, to_csr}

abbrev pub Weights : Type 0
Weights = ℕ → ℕ

-- `col_weight[c]++` and `col_weight[c]--`.
abbrev pub bump : ℕ → Weights → Weights
bump c w = λ d. if d == c then add32 (w d) 1 else w d

abbrev pub unbump : ℕ → Weights → Weights
unbump c w = λ d. if d == c then sub32 (w d) 1 else w d

unfoldable pub add_row : List ℕ → Weights → Weights
add_row [] w = w
add_row (c ∷ cs) w = add_row cs (bump c w)

unfoldable pub remove_row : List ℕ → Weights → Weights
remove_row [] w = w
remove_row (c ∷ cs) w = remove_row cs (unbump c w)

unfoldable pub col_weights : List (List ℕ) → Weights → Weights
unfolding add_row
col_weights [] w = w
col_weights (r ∷ rs) w = col_weights rs (add_row r w)

pub record Row : Type 0 where
  pub cols : List ℕ
  pub alive : Bool

pub has_singleton : List ℕ → Weights → Bool
has_singleton [] w = false
has_singleton (c ∷ cs) w = if w c == 1 then true else has_singleton cs w

pub record Pass : Type 0 where
  pub rows : List Row
  pub weights : Weights
  pub removed : ℕ

-- One pass over the rows; a removal is seen by the rows behind it.
pub pass : List Row → Weights → ℕ → Pass
unfolding has_singleton remove_row
pass [] w removed = record { rows = []; weights = w; removed = removed }
pass (r ∷ rs) w removed = elim (r.alive && has_singleton r.cols w) [
  | true ↦
      let rest = pass rs (remove_row r.cols w) (removed + 1) in
      record rest { rows = record r { alive = false } ∷ rest.rows }
  | false ↦ let rest = pass rs w removed in record rest { rows = r ∷ rest.rows }
]

abbrev pub max_singleton_iterations : ℕ
max_singleton_iterations = 100

pub record Filtered : Type 0 where
  pub rows : List Row
  pub weights : Weights
  pub total_removed : ℕ
  pub iteration : ℕ

pub after_pass : Filtered → Pass → Filtered
after_pass s p = record {
  rows = p.rows;
  weights = p.weights;
  total_removed = s.total_removed + p.removed;
  iteration = s.iteration + 1;
}

-- `fuel` is `kMaxSingletonIterations - iteration`.
pub singleton_loop : ℕ → Filtered → Filtered
unfolding pass after_pass
singleton_loop zero s = s
singleton_loop (suc fuel) s =
    let p = pass s.rows s.weights 0 in
    let s' = after_pass s p in elim (p.removed == 0) [ true ↦ s' | false ↦ singleton_loop fuel s' ]

pub all_alive : List (List ℕ) → List Row
all_alive [] = []
all_alive (r ∷ rs) = record { cols = r; alive = true } ∷ all_alive rs

unfoldable pub filter_rows : List (List ℕ) → Filtered
unfolding singleton_loop all_alive col_weights
filter_rows rows = singleton_loop max_singleton_iterations (record {
  rows = all_alive rows;
  weights = col_weights rows (λ c. 0);
  total_removed = 0;
  iteration = 0;
})

-- Column compaction: the columns of positive weight are numbered in order. `n` columns are left
-- to look at, from `c` on.
pub record Compaction : Type 0 where
  pub old_to_new : ℕ → ℕ
  pub col_map : List ℕ
  pub new_cols : ℕ

unfoldable pub compact_cols : ℕ → ℕ → Weights → Compaction → Compaction
compact_cols zero c w s = s
compact_cols (suc n) c w s = compact_cols n (c + 1) w (
    if ltb 0 (w c)
    then record {
      old_to_new = λ d. if d == c then s.new_cols else s.old_to_new d;
      col_map = s.col_map ++ (c ∷ []);
      new_cols = s.new_cols + 1;
    }
    else s)

-- Row compaction: the alive rows with their columns renumbered, and their indices, from `r` on.
unfoldable pub alive_rows : (ℕ → ℕ) → List Row → List (List ℕ)
alive_rows f [] = []
alive_rows f (r ∷ rs) = if r.alive then map f r.cols ∷ alive_rows f rs else alive_rows f rs

unfoldable pub alive_indices : List Row → ℕ → List ℕ
alive_indices [] i = []
alive_indices (r ∷ rs) i =
    if r.alive then i ∷ alive_indices rs (i + 1) else alive_indices rs (i + 1)

pub record SingletonResult : Type 0 where
  pub reduced : HostMatrixCsr
  pub row_map : List ℕ
  pub col_map : List ℕ
  pub iterations : ℕ
  pub rows_removed : ℕ
  pub cols_removed : ℕ

unfoldable pub remove_singletons : HostMatrixCsr → SingletonResult
unfolding compact_cols alive_rows alive_indices rows_of to_csr
remove_singletons input =
    let s = filter_rows (rows_of input) in
    let k =
      compact_cols input.n_cols 0 s.weights
        (record { old_to_new = λ c. u32_max; col_map = []; new_cols = 0 }) in
    record {
      reduced = record (to_csr (alive_rows k.old_to_new s.rows) k.new_cols) {
        n_rows = sub32 input.n_rows s.total_removed;
      };
      row_map = alive_indices s.rows 0;
      col_map = k.col_map;
      iterations = s.iteration;
      rows_removed = s.total_removed;
      cols_removed = input.n_cols - k.new_cols;
    }
