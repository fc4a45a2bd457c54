-- ===== src/Matrix/Higher.antt =====
-- src/matrix/merge_filter.cpp: `MergeFilterPipeline::mergeHigherWeight`. The state is that of
-- mergeWeight2, whose set of weight-2 columns stays empty here; `merges` is `cols_eliminated`, which
-- is `rows_removed` too. The counters that are only logged are left out.
pub mod Index
pub mod Commit
pub mod Plan
pub mod Loop
pub mod Rebuild
pub mod Kernel
pub mod Chain
pub mod Fill
pub mod Eliminated
mod Examples
use cuda_mpqs.Prelude.{
  ℕ, zero, suc, ◌+◌, ◌-◌, ◌%◌, ◌^◌, max, List, [], ◌∷◌, ◌++◌, take, Option, none, some, Bool, true,
  false, ltb, ◌==◌, if◌then◌else◌, get_or, set, length, drop,
}
use cuda_mpqs.Matrix.Csr.{HostMatrixCsr, rows_of}
use cuda_mpqs.Matrix.Singletons.{Weights, add_row, remove_row, col_weights}
use cuda_mpqs.Matrix.XorRows.{xor_rows}
use cuda_mpqs.Matrix.MergeTree.{sort}
use cuda_mpqs.Matrix.Weight2.{
  MergeRow, Merge, MergeResult, row_at, leaf_rows, register_rows, unregister, unregister_except,
  register_new, push_node, last_node, live_rows, live_nodes, compacted,
}

-- `containing`: the alive rows of a list.
unfoldable pub alive_only : List MergeRow → List ℕ → List ℕ
unfolding row_at
alive_only rows [] = []
alive_only rows (r ∷ rs) =
    if (row_at rows r).alive then r ∷ alive_only rows rs else alive_only rows rs

unfoldable pub weight_of : List MergeRow → ℕ → ℕ
unfolding row_at
weight_of rows r = length (row_at rows r).cols

-- `pivot_idx`: the index of the lightest row, the first of several. The rows from the index `i` on are
-- still to be seen.
unfoldable pub lightest : List MergeRow → List ℕ → ℕ → List ℕ → ℕ → ℕ
unfolding weight_of
lightest rows containing idx [] i = idx
lightest rows containing idx (r ∷ rs) i =
    lightest rows containing
      (if ltb (weight_of rows r) (weight_of rows (get_or containing idx 0)) then i else idx) rs
      (i + 1)

abbrev plan_step : ℕ → List ℕ → Option (List (ℕ × List ℕ)) → Option (List (ℕ × List ℕ))
plan_step r candidate none = none
plan_step r candidate (some plan) = some ((r, candidate) ∷ plan)

-- `plan`: each row but the one at `pivot_idx`, with its sum with the pivot; none if a sum is too long.
unfoldable pub plan_xors : List MergeRow → ℕ → ℕ → ℕ → List ℕ → ℕ → Option (List (ℕ × List ℕ))
unfolding row_at xor_rows
plan_xors rows pivot pivot_idx effective_max [] i = some []
plan_xors rows pivot pivot_idx effective_max (r ∷ rs) i =
    let rest = plan_xors rows pivot pivot_idx effective_max rs (i + 1) in
    let candidate = xor_rows (row_at rows pivot).cols (row_at rows r).cols in
    if i == pivot_idx
    then rest
    else if ltb effective_max (length candidate)
    then none
    else plan_step r candidate rest

-- One entry of the plan.
unfoldable pub commit_row : Merge → ℕ → ℕ → List ℕ → Merge
unfolding row_at push_node last_node unregister_except register_new add_row remove_row
commit_row s pivot r candidate =
    let old = (row_at s.rows r).cols in
    let tree' = push_node s.tree (row_at s.rows pivot).node_of (row_at s.rows r).node_of in
    record s {
      rows =
          set s.rows r (record (row_at s.rows r) { cols = candidate; node_of = last_node tree' });
      tree = tree';
      weights = add_row candidate (remove_row old s.weights);
      col_rows = register_new r old candidate (unregister_except r candidate old s.col_rows);
    }

unfoldable pub commit_all : Merge → ℕ → List (ℕ × List ℕ) → Merge
unfolding commit_row
commit_all s pivot [] = s
commit_all s pivot ((r, candidate) ∷ plan) = commit_all (commit_row s pivot r candidate) pivot plan

-- The column stands only in the pivot, which is deleted.
unfoldable pub delete_pivot : Merge → ℕ → Merge
unfolding row_at unregister remove_row
delete_pivot s pivot =
    let old = (row_at s.rows pivot).cols in
    record s {
      rows = set s.rows pivot (record (row_at s.rows pivot) { cols = []; alive = false });
      weights = remove_row old s.weights;
      col_rows = unregister pivot old s.col_rows;
      merges = s.merges + 1;
    }

-- All or nothing.
abbrev apply_plan : Merge → ℕ → Option (List (ℕ × List ℕ)) → Merge
apply_plan s pivot none = s
apply_plan s pivot (some []) = s
apply_plan s pivot (some (p ∷ plan)) = delete_pivot (commit_all s pivot (p ∷ plan)) pivot

unfoldable pub eliminate_rows : ℕ → Merge → List ℕ → Merge
unfolding lightest plan_xors commit_all delete_pivot
eliminate_rows effective_max s containing =
    let pivot_idx = lightest s.rows containing 0 (drop 1 containing) 1 in
    let pivot = get_or containing pivot_idx 0 in
    if ltb (length containing) 2
    then s
    else apply_plan s pivot (plan_xors s.rows pivot pivot_idx effective_max containing 0)

-- One column.
unfoldable pub eliminate : ℕ → ℕ → Merge → ℕ → Merge
unfolding alive_only eliminate_rows
eliminate k_max effective_max s c =
    if s.weights c == 0
    then s
    else if ltb k_max (s.weights c)
    then s
    else eliminate_rows effective_max s (alive_only s.rows (s.col_rows c))

unfoldable pub eliminate_all : ℕ → ℕ → Merge → List ℕ → Merge
unfolding eliminate
eliminate_all k_max effective_max s [] = s
eliminate_all k_max effective_max s (c ∷ cs) =
    eliminate_all k_max effective_max (eliminate k_max effective_max s c) cs

-- The columns of weight `w`, `n` columns from `c` on.
unfoldable pub target_cols : Weights → ℕ → ℕ → ℕ → List ℕ
target_cols weights w zero c = []
target_cols weights w (suc n) c =
    if weights c == w then c ∷ target_cols weights w n (c + 1) else target_cols weights w n (c + 1)

-- The weights from `w` on, `n` of them.
unfoldable pub weight_loop : ℕ → ℕ → ℕ → ℕ → ℕ → Merge → Merge
unfolding target_cols eliminate_all
weight_loop k_max effective_max n_cols zero w s = s
weight_loop k_max effective_max n_cols (suc n) w s =
    weight_loop k_max effective_max n_cols n (w + 1)
      (eliminate_all k_max effective_max s (target_cols s.weights w n_cols 0))

unfoldable pub first_higher : MergeResult → Merge
unfolding leaf_rows register_rows col_weights rows_of
first_higher input =
    let rows = rows_of input.reduced in
    record {
      rows = leaf_rows rows input.row_map 0;
      tree = input.merge_tree;
      weights = col_weights rows (λ c. 0);
      col_rows = register_rows rows 0 (λ c. []);
      w2_cols = [];
      merges = 0;
    }

-- The CSR rebuild: each row is appended and sorted in place, from the last offset on. The offsets are
-- cast to uint32_t.
unfoldable pub push_sorted_rows : List (List ℕ) → ℕ → List ℕ → List ℕ → List ℕ × List ℕ
unfolding sort
push_sorted_rows [] row_start offsets cols = (offsets, cols)
push_sorted_rows (r ∷ rs) row_start offsets cols =
    let pushed = cols ++ r in
    let cols' = take row_start pushed ++ sort (drop row_start pushed) in
    let end = length cols' % 2 ^ 32 in push_sorted_rows rs end (offsets ++ (end ∷ [])) cols'

unfoldable pub to_sorted_csr : List (List ℕ) → ℕ → HostMatrixCsr
unfolding push_sorted_rows
to_sorted_csr rows n_cols =
    let (offsets, cols) = push_sorted_rows rows 0 (0 ∷ []) [] in
    record { row_offsets = offsets; col_indices = cols; n_rows = length rows; n_cols = n_cols }

-- The compaction of mergeWeight2, and the rebuild.
unfoldable pub finish_higher : ℕ → Merge → MergeResult
unfolding live_rows live_nodes compacted to_sorted_csr
finish_higher n_cols s =
    let k = compacted n_cols s.weights in
    record {
      reduced = to_sorted_csr (live_rows k.old_to_new s.rows) k.new_cols;
      row_map = live_nodes s.rows;
      merge_tree = s.tree;
      merges_performed = s.merges;
      rows_removed = s.merges;
    }

-- `twice_avg` is `static_cast<uint32_t>(2.0 * avg_initial)`.
unfoldable pub merge_higher_weight : MergeResult → ℕ → ℕ → ℕ → MergeResult
unfolding first_higher weight_loop finish_higher
merge_higher_weight input k_max max_weight twice_avg =
    let n_cols = input.reduced.n_cols in
    finish_higher n_cols
      (weight_loop k_max (max max_weight twice_avg) n_cols (k_max - 2) 3 (first_higher input))
