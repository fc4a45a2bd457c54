-- ===== src/Matrix/Weight2.antt =====
-- src/matrix/merge_filter.cpp: `MergeFilterPipeline::mergeWeight2`. The vectors `rows`, `node_of` and
-- `row_alive`, which are indexed by rows, are one list of records; `col_weight` and `col_rows` are
-- functions of the column, and the ordered set of weight-2 columns is an ascending list.
pub mod Rows
pub mod Sound
pub mod Index
pub mod Pair
pub mod Columns
pub mod Queue
pub mod First
pub mod Start
pub mod Loop
pub mod Reduced
pub mod Kernel
mod Examples
use cuda_mpqs.Prelude.{
  ℕ, zero, suc, ◌+◌, ◌-◌, ◌<◌, ◌≡◌, max, List, [], ◌∷◌, ◌++◌, map, Option, none, some, Bool, true,
  false, ltb, ◌==◌, if◌then◌else◌, get_elem?, get_or, set, length, add32, sub32, u32_max,
}
use cuda_mpqs.Matrix.Csr.{HostMatrixCsr, rows_of, to_csr}
use cuda_mpqs.Matrix.Singletons.{
  Weights, add_row, remove_row, col_weights, Compaction, compact_cols,
}
use cuda_mpqs.Matrix.XorRows.{xor_rows}
use cuda_mpqs.Matrix.MergeTree.{Node, MergeTree}

pub record MergeRow : Type 0 where
  pub cols : List ℕ
  pub node_of : ℕ
  pub alive : Bool

-- `col_rows`: the rows that hold a column.
abbrev pub ColRows : Type 0
ColRows = ℕ → List ℕ

pub record Merge : Type 0 where
  pub rows : List MergeRow
  pub tree : MergeTree
  pub weights : Weights
  pub col_rows : ColRows
  pub w2_cols : List ℕ
  pub merges : ℕ

unfoldable pub register_row : ℕ → List ℕ → ColRows → ColRows
register_row r [] m = m
register_row r (c ∷ cs) m = register_row r cs (λ d. if d == c then m d ++ (r ∷ []) else m d)

unfoldable pub register_rows : List (List ℕ) → ℕ → ColRows → ColRows
unfolding register_row
register_rows [] r m = m
register_rows (x ∷ xs) r m = register_rows xs (r + 1) (register_row r x m)

-- Insertion into the ordered set.
pub insert_col : ℕ → List ℕ → List ℕ
insert_col c [] = c ∷ []
insert_col c (d ∷ ds) =
    if ltb c d then c ∷ d ∷ ds else if c == d then d ∷ ds else d ∷ insert_col c ds

-- The columns of `cs` whose weight is now 2 join the set.
pub note_weight2 : Weights → List ℕ → List ℕ → List ℕ
unfolding insert_col
note_weight2 w [] set' = set'
note_weight2 w (c ∷ cs) set' = note_weight2 w cs (if w c == 2 then insert_col c set' else set')

-- `std::binary_search` on a sorted row.
unfoldable pub contains : ℕ → List ℕ → Bool
contains c [] = false
contains c (d ∷ ds) = if d == c then true else contains c ds

unfoldable pub erase_value : ℕ → List ℕ → List ℕ
erase_value r [] = []
erase_value r (x ∷ xs) = if x == r then erase_value r xs else x ∷ erase_value r xs

-- `cr.erase(std::remove(cr.begin(), cr.end(), r), cr.end())` for each column of `cs`.
unfoldable pub unregister : ℕ → List ℕ → ColRows → ColRows
unfolding erase_value
unregister r [] m = m
unregister r (c ∷ cs) m = unregister r cs (λ d. if d == c then erase_value r (m d) else m d)

-- The same for the columns that are not in `keep`.
unfoldable pub unregister_except : ℕ → List ℕ → List ℕ → ColRows → ColRows
unfolding erase_value contains
unregister_except r keep [] m = m
unregister_except r keep (c ∷ cs) m =
    unregister_except r keep cs
      (if contains c keep then m else λ d. if d == c then erase_value r (m d) else m d)

-- Row `r` joins the lists of the columns of `cs` that are not in `old`.
unfoldable pub register_new : ℕ → List ℕ → List ℕ → ColRows → ColRows
unfolding contains
register_new r old [] m = m
register_new r old (c ∷ cs) m =
    register_new r old cs
      (if contains c old then m else λ d. if d == c then m d ++ (r ∷ []) else m d)

abbrev dead_row : MergeRow
dead_row = record { cols = []; node_of = 0; alive = false }

unfoldable pub row_at : List MergeRow → ℕ → MergeRow
row_at rows r = get_or rows r dead_row

-- The first alive row of a list, with the rest behind it.
pub next_alive : List MergeRow → List ℕ → Option (ℕ × List ℕ)
unfolding row_at
next_alive rows [] = none
next_alive rows (r ∷ rs) = if (row_at rows r).alive then some (r, rs) else next_alive rows rs

-- `r1` and `r2`: the first two alive rows that hold the column.
pub second_alive : List MergeRow → Option (ℕ × List ℕ) → Option (ℕ × ℕ)
unfolding next_alive
second_alive rows none = none
second_alive rows (some (r1, rest)) = elim (next_alive rows rest) [
  | none ↦ none
  | some (r2, more) ↦ some (r1, r2)
]

unfoldable pub push_node : MergeTree → ℕ → ℕ → MergeTree
push_node t left right = record t {
  internal_nodes = t.internal_nodes ++ (record { left = left; right = right } ∷ []);
}

-- `tree.num_leaves + internal_nodes.size() - 1`
unfoldable pub last_node : MergeTree → ℕ
last_node t = sub32 (add32 t.num_leaves (length t.internal_nodes)) 1

-- `rows[r1] = new_row; node_of[r1] = new_node; row_alive[r2] = false; rows[r2].clear()`
pub replace_rows : List MergeRow → ℕ → ℕ → List ℕ → ℕ → List MergeRow
unfolding row_at
replace_rows rows r1 r2 new_row new_node =
    let rows' = set rows r1 (record (row_at rows r1) { cols = new_row; node_of = new_node }) in
    set rows' r2 (record (row_at rows' r2) { cols = []; alive = false })

-- The merge of two rows.
pub merge_pair : Merge → ℕ → ℕ → Merge
unfolding replace_rows push_node last_node register_new unregister unregister_except note_weight2
    row_at xor_rows add_row remove_row
merge_pair s r1 r2 =
    let old1 = (row_at s.rows r1).cols in
    let old2 = (row_at s.rows r2).cols in
    let new_row = xor_rows old1 old2 in
    let tree' = push_node s.tree (row_at s.rows r1).node_of (row_at s.rows r2).node_of in
    let weights' = add_row new_row (remove_row old2 (remove_row old1 s.weights)) in
    record {
      rows = replace_rows s.rows r1 r2 new_row (last_node tree');
      tree = tree';
      weights = weights';
      col_rows =
          register_new r1 old1 new_row
            (unregister_except r1 new_row old1 (unregister r2 old2 s.col_rows));
      w2_cols =
          note_weight2 weights' new_row
            (note_weight2 weights' old2 (note_weight2 weights' old1 s.w2_cols));
      merges = s.merges + 1;
    }

abbrev merge_found : Merge → Option (ℕ × ℕ) → Merge
merge_found s none = s
merge_found s (some (r1, r2)) = merge_pair s r1 r2

-- One round of the loop, on the smallest column of the set.
pub merge_column : Merge → ℕ → List ℕ → Merge
unfolding merge_pair second_alive next_alive
merge_column s c rest =
    let s' = record s { w2_cols = rest } in
    if s.weights c == 2
    then merge_found s' (second_alive s.rows (next_alive s.rows (s.col_rows c)))
    else s'

-- `while (!w2_cols.empty())`; `none`: the fuel ran out.
pub merge_loop : ℕ → Merge → List ℕ → Option Merge
unfolding merge_column
merge_loop fuel s [] = some s
merge_loop zero s (c ∷ rest) = none
merge_loop (suc fuel) s (c ∷ rest) = let s' = merge_column s c rest in merge_loop fuel s' s'.w2_cols

unfoldable pub max_element : List ℕ → ℕ
max_element [] = 0
max_element (x ∷ xs) = max x (max_element xs)

abbrev pub leaf_bound : List ℕ → ℕ
leaf_bound [] = 0
leaf_bound (x ∷ xs) = add32 (max x (max_element xs)) 1

unfoldable pub leaf_rows : List (List ℕ) → List ℕ → ℕ → List MergeRow
leaf_rows [] row_map r = []
leaf_rows (x ∷ xs) row_map r =
    record { cols = x; node_of = get_or row_map r 0; alive = true } ∷ leaf_rows xs row_map (r + 1)

-- The columns of weight 2, `n` columns from `c` on.
pub seed_weight2 : Weights → ℕ → ℕ → List ℕ
seed_weight2 w zero c = []
seed_weight2 w (suc n) c =
    if w c == 2 then c ∷ seed_weight2 w n (c + 1) else seed_weight2 w n (c + 1)

pub first_merge : HostMatrixCsr → List ℕ → Merge
unfolding leaf_rows register_rows seed_weight2 max_element col_weights rows_of
first_merge input row_map =
    let rows = rows_of input in
    let w = col_weights rows (λ c. 0) in
    record {
      rows = leaf_rows rows row_map 0;
      tree = record { num_leaves = leaf_bound row_map; internal_nodes = [] };
      weights = w;
      col_rows = register_rows rows 0 (λ c. []);
      w2_cols = seed_weight2 w input.n_cols 0;
      merges = 0;
    }

pub record MergeResult : Type 0 where
  pub reduced : HostMatrixCsr
  pub row_map : List ℕ
  pub merge_tree : MergeTree
  pub merges_performed : ℕ
  pub rows_removed : ℕ

-- Rows that are alive, renumbered, and their nodes.
unfoldable pub live_rows : (ℕ → ℕ) → List MergeRow → List (List ℕ)
live_rows f [] = []
live_rows f (r ∷ rs) = if r.alive then map f r.cols ∷ live_rows f rs else live_rows f rs

unfoldable pub live_nodes : List MergeRow → List ℕ
live_nodes [] = []
live_nodes (r ∷ rs) = if r.alive then r.node_of ∷ live_nodes rs else live_nodes rs

unfoldable pub compacted : ℕ → Weights → Compaction
unfolding compact_cols
compacted n_cols w =
    compact_cols n_cols 0 w (record { old_to_new = λ c. u32_max; col_map = []; new_cols = 0 })

unfoldable pub finish_merge : ℕ → Merge → MergeResult
unfolding live_rows live_nodes compacted to_csr
finish_merge n_cols s =
    let k = compacted n_cols s.weights in
    record {
      reduced = to_csr (live_rows k.old_to_new s.rows) k.new_cols;
      row_map = live_nodes s.rows;
      merge_tree = s.tree;
      merges_performed = s.merges;
      rows_removed = s.merges;
    }

abbrev finish_found : ℕ → Option Merge → Option MergeResult
finish_found n_cols none = none
finish_found n_cols (some s) = some (finish_merge n_cols s)

unfoldable pub merge_weight2 : ℕ → HostMatrixCsr → List ℕ → Option MergeResult
unfolding merge_loop first_merge finish_merge
merge_weight2 fuel input row_map =
    let s = first_merge input row_map in finish_found input.n_cols (merge_loop fuel s s.w2_cols)
