-- ===== src/Matrix/Higher/Kernel.antt =====
-- mergeHigherWeight and expandKernelVector: kernel vectors of the reduced matrix.
use cuda_mpqs.Prelude.{
  ℕ, suc, ◌+◌, ◌-◌, ◌*◌, ◌%◌, ◌^◌, ◌<◌, ◌≤◌, ◌≡◌, refl, sym, ap, ◌∙◌, subst, List, [], ◌∷◌, map,
  some, max, get_or, length, arith, count, sum_over, All, Ascending,
}
use cuda_mpqs.Matrix.Csr.{rows_of, rows_of-to_csr}
use cuda_mpqs.Matrix.MergeTree.{MergeTree, expand_kernel_vector, sort}
use cuda_mpqs.Matrix.MergeTree.Leaves.{IsTree, leaves}
use cuda_mpqs.Matrix.MergeTree.Frequency.{count-sort}
use cuda_mpqs.Matrix.Weight2.{Merge, MergeResult, leaf_rows, live_rows, compacted}
use cuda_mpqs.Matrix.Weight2.Sound.{leaf_count, size, IsSum, alive_total}
use cuda_mpqs.Matrix.Weight2.First.{alive_total-leaf_rows}
use cuda_mpqs.Matrix.Weight2.Start.{leaf_rows-IsListed, col_weights-leaf_rows, leaf_rows-bounded}
use cuda_mpqs.Matrix.Weight2.Reduced.{
  live, live_rows-live, length-live, length-live_nodes, length-map, compacted-HasInverse,
}
use cuda_mpqs.Matrix.Weight2.Kernel.{bit_count, IsKernel, rounds_total, Expands, live-Expands}
use cuda_mpqs.Matrix.Higher.{
  to_sorted_csr, first_higher, weight_loop, finish_higher, merge_higher_weight,
}
use cuda_mpqs.Matrix.Higher.Rebuild.{to_sorted_csr-to_csr}
use cuda_mpqs.Matrix.Higher.Loop.{IsHigher, weight_loop-IsHigher}

-- Row `i` of the matrix is, modulo 2, the sum of the original rows below the node that the row map names.
abbrev pub FromNodes : (ℕ → List ℕ) → MergeTree → List (List ℕ) → List ℕ → ℕ → Type 0
FromNodes orig t [] row_map i = Unit {0}
FromNodes orig t (x ∷ xs) row_map i =
    let k = get_or row_map i 0 in
    (k < size t)
    × ((c : ℕ) → count c x % 2 ≡ leaf_count orig c (leaves (suc k) t k) % 2)
    × FromNodes orig t xs row_map (i + 1)

-- A result that the next merge takes, with room in the tree for `k_max` nodes for each row.
pub record IsMergeInput (orig : ℕ → List ℕ) (k_max : ℕ) (input : MergeResult) : Type 0 where
  pub sorted : All (Ascending 0) (rows_of input.reduced)
  pub in_range :
      All
        (λ (x : List ℕ). (c : ℕ) → 1 ≤ count c x → c < input.reduced.n_cols)
        (rows_of input.reduced)
  pub tree : IsTree input.merge_tree
  pub nodes : FromNodes orig input.merge_tree (rows_of input.reduced) input.row_map 0
  pub fits : size input.merge_tree + length (rows_of input.reduced) * k_max < 2 ^ 32
  pub few : length (rows_of input.reduced) < 2 ^ 32

leaf_rows-IsSum :
    (orig : ℕ → List ℕ) (t : MergeTree) (rows : List (List ℕ)) (row_map : List ℕ) (i : ℕ)
    → FromNodes orig t rows row_map i
    → All (IsSum orig t) (leaf_rows rows row_map i)
unfolding leaf_rows
leaf_rows-IsSum orig t [] row_map i h = tt
leaf_rows-IsSum orig t (x ∷ xs) row_map i h =
    (record { inside = h.0; sum = λ live c. h.1 c }, leaf_rows-IsSum orig t xs row_map (i + 1) h.2)

pub first_higher-IsHigher :
    (orig : ℕ → List ℕ) (k_max : ℕ) (input : MergeResult)
    → IsMergeInput orig k_max input
    → IsHigher orig input.reduced.n_cols k_max (length (rows_of input.reduced)) (first_higher input)
unfolding first_higher
first_higher-IsHigher orig k_max input v =
    let rows = rows_of input.reduced in
    let l = leaf_rows-IsListed rows input.row_map v.sorted in
    let w = λ (c : ℕ). col_weights-leaf_rows rows input.row_map c v.sorted v.few in
    let total : alive_total (leaf_rows rows input.row_map 0) ≡ length rows =
      alive_total-leaf_rows rows input.row_map 0 in
    record {
      ready = record {
        tree = v.tree;
        sums = leaf_rows-IsSum orig input.merge_tree rows input.row_map 0 v.nodes;
        indexed = record { sorted = l.sorted; dead = l.dead; index = l.index };
        weighted = record { weighed = λ c. (w c).0; fits = λ c. (w c).1 };
        bounded = leaf_rows-bounded input.reduced.n_cols rows input.row_map v.in_range;
        fits = rw total v.fits;
        few = rw total v.few;
      };
      removed = omega (arith, total);
    }

-- The state after the passes.
unfoldable pub after_passes : MergeResult → ℕ → ℕ → ℕ → Merge
after_passes input k_max max_weight twice_avg =
    weight_loop k_max (max max_weight twice_avg) input.reduced.n_cols (k_max - 2) 3
      (first_higher input)

pub after_passes-IsHigher :
    (orig : ℕ → List ℕ) (input : MergeResult) (k_max max_weight twice_avg : ℕ)
    → IsMergeInput orig k_max input
    → IsHigher orig input.reduced.n_cols k_max
        (length (rows_of input.reduced))
        (after_passes input k_max max_weight twice_avg)
unfolding after_passes
after_passes-IsHigher orig input k_max max_weight twice_avg v =
    weight_loop-IsHigher orig input.reduced.n_cols k_max (length (rows_of input.reduced))
      (max max_weight twice_avg) (k_max - 2) 3 (first_higher input)
      (first_higher-IsHigher orig k_max input v)

pub higher-rows :
    (n : ℕ) (s : Merge)
    → length (finish_higher n s).reduced.col_indices < 2 ^ 32
    → rows_of (finish_higher n s).reduced
      ≡ map sort (map (map (compacted n s.weights).old_to_new) (live s.rows))
unfolding finish_higher
higher-rows n s few =
    let f = (compacted n s.weights).old_to_new in
    ap rows_of (to_sorted_csr-to_csr (live_rows f s.rows) (compacted n s.weights).new_cols few)
    ∙ rows_of-to_csr (map sort (live_rows f s.rows)) (compacted n s.weights).new_cols
    ∙ ap (map sort) (live_rows-live f s.rows)

bit_count-sort :
    (c : ℕ) (bits : List ℕ) (rows : List (List ℕ)) (i : ℕ)
    → bit_count c bits (map sort rows) i ≡ bit_count c bits rows i
unfolding bit_count
bit_count-sort c bits [] i = refl
bit_count-sort c bits (x ∷ xs) i = rw (count-sort c x, bit_count-sort c bits xs (i + 1))

finish_higher-Expands :
    (orig : ℕ → List ℕ) (n k_max total fuel : ℕ) (bits : List ℕ) (s : Merge)
    → IsHigher orig n k_max total s
    → let r = finish_higher n s in
      length r.reduced.col_indices < 2 ^ 32
      → IsKernel bits (rows_of r.reduced)
      → rounds_total r.merge_tree r.row_map < fuel
      → Expands orig fuel bits r.row_map r.merge_tree
unfolding finish_higher
finish_higher-Expands orig n k_max total fuel bits s v few kernel enough =
    let f = (compacted n s.weights).old_to_new in
    let sorted = subst (IsKernel bits) (higher-rows n s few) kernel in
    live-Expands orig f fuel bits s v.ready.tree v.ready.sums
      (compacted-HasInverse n s v.ready.indexed v.ready.weighted v.ready.bounded)
      (λ c. ap (λ k. k % 2) (sym (bit_count-sort c bits (map (map f) (live s.rows)) 0)) ∙ sorted c)
      enough

-- A kernel vector of the matrix that `mergeHigherWeight` returns, given fuel for the nodes of its row map, expands to a strictly ascending list of original relations in which every column occurs an even number of times. The rows of the input are sorted, and each is modulo 2 the sum of the original rows below its node of the merge tree, which has room for `k_max` nodes more for each row. The matrix that is returned has less than 2^32 entries, which its offsets can count.
pub expand_kernel_vector-merge_higher_weight :
    (orig : ℕ → List ℕ) (input r : MergeResult) (k_max max_weight twice_avg fuel : ℕ)
    (bits : List ℕ)
    → IsMergeInput orig k_max input
    → merge_higher_weight input k_max max_weight twice_avg ≡ r
    → length r.reduced.col_indices < 2 ^ 32
    → IsKernel bits (rows_of r.reduced)
    → rounds_total r.merge_tree r.row_map < fuel
    → (rels : List ℕ) × (expand_kernel_vector fuel bits (length r.row_map) r.row_map r.merge_tree
        ≡ some rels)
      × Ascending 0 rels
      × ((c : ℕ) → sum_over (λ l. count c (orig l)) rels % 2 ≡ 0)
unfolding merge_higher_weight after_passes
expand_kernel_vector-merge_higher_weight orig input r k_max max_weight twice_avg fuel bits v e few
      kernel enough =
    subst (λ (x : MergeResult). Expands orig fuel bits x.row_map x.merge_tree) e
      (finish_higher-Expands orig input.reduced.n_cols k_max (length (rows_of input.reduced)) fuel
        bits (after_passes input k_max max_weight twice_avg)
        (after_passes-IsHigher orig input k_max max_weight twice_avg v)
        (subst (λ (x : MergeResult). length x.reduced.col_indices < 2 ^ 32) (sym e) few)
        (subst (λ (x : MergeResult). IsKernel bits (rows_of x.reduced)) (sym e) kernel)
        (subst (λ (x : MergeResult). rounds_total x.merge_tree x.row_map < fuel) (sym e) enough))

pub n_rows-finish : (n : ℕ) (s : Merge) → (finish_higher n s).reduced.n_rows ≡ alive_total s.rows
unfolding finish_higher to_sorted_csr
n_rows-finish n s =
    let f = (compacted n s.weights).old_to_new in
    ap length (live_rows-live f s.rows) ∙ length-map (map f) (live s.rows) ∙ length-live s.rows

counts-finish :
    (n : ℕ) (s : Merge)
    → ((finish_higher n s).rows_removed ≡ s.merges)
      × ((finish_higher n s).merges_performed ≡ s.merges)
      × (length (finish_higher n s).row_map ≡ alive_total s.rows)
unfolding finish_higher
counts-finish n s = (refl, refl, length-live_nodes s.rows ∙ length-live s.rows)

-- Each column that is eliminated takes one row with it.
pub record IsBalanced (rows : ℕ) (r : MergeResult) : Type 0 where
  pub removed : r.reduced.n_rows + r.rows_removed ≡ rows
  pub performed : r.merges_performed ≡ r.rows_removed
  pub mapped : length r.row_map ≡ r.reduced.n_rows

pub merge_higher_weight-IsBalanced :
    (orig : ℕ → List ℕ) (input : MergeResult) (k_max max_weight twice_avg : ℕ)
    → IsMergeInput orig k_max input
    → IsBalanced
        (length (rows_of input.reduced))
        (merge_higher_weight input k_max max_weight twice_avg)
unfolding merge_higher_weight after_passes
merge_higher_weight-IsBalanced orig input k_max max_weight twice_avg v =
    let s = after_passes input k_max max_weight twice_avg in
    let n = input.reduced.n_cols in
    let h = after_passes-IsHigher orig input k_max max_weight twice_avg v in
    let rows = n_rows-finish n s in
    let (removed, performed, mapped) = counts-finish n s in
    record {
      removed = omega (arith, rows, removed, h.removed);
      performed = omega (arith, removed, performed);
      mapped = omega (arith, mapped, rows);
    }
