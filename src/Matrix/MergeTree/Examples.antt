-- ===== src/Matrix/MergeTree/Examples.antt =====
-- The merge tree on a small example, and its theorems there.
use cuda_mpqs.Prelude.{ℕ, ◌%◌, ◌<◌, ◌≡◌, refl, List, [], ◌∷◌, some, sum_over, arith, Ascending}
use cuda_mpqs.Matrix.MergeTree.{MergeTree, expand, expand_kernel_vector}
use cuda_mpqs.Matrix.MergeTree.Leaves.{IsTree, leaves, rounds, expand-leaves}
use cuda_mpqs.Matrix.MergeTree.Kernel.{selected_sum, RowsFit, expand_kernel_vector_lem}

-- Node 4 joins the leaves 0 and 1, node 5 joins it with leaf 1.
abbrev small : MergeTree
small = record {
  num_leaves = 4;
  internal_nodes = record { left = 0; right = 1 } ∷ record { left = 4; right = 1 } ∷ [];
}

small-expand : expand 10 small 5 ≡ some (1 ∷ 1 ∷ 0 ∷ [])
unfolding expand
small-expand = refl

-- Leaf 1 cancels in the first row and comes back with the second.
small-expand_kernel_vector :
    expand_kernel_vector 10 (7 ∷ []) 3 (5 ∷ 1 ∷ 3 ∷ []) small ≡ some (0 ∷ 1 ∷ 3 ∷ [])
unfolding expand_kernel_vector
small-expand_kernel_vector = refl

small-IsTree : IsTree small
small-IsTree = record {
  earlier = (omega arith, omega arith, (omega arith, omega arith, tt));
  fits = omega arith;
}

small-enough : rounds 6 small 5 < 6
unfolding rounds
small-enough = omega arith

expand-leaves_example : expand 6 small 5 ≡ some (leaves 6 small 5)
expand-leaves_example = expand-leaves small 5 6 small-IsTree (omega arith) small-enough

small-RowsFit : RowsFit 6 (5 ∷ 1 ∷ 3 ∷ []) small 3 0
unfolding rounds
small-RowsFit =
    (omega arith, omega arith, (omega arith, omega arith, (omega arith, omega arith, tt)))

expand_kernel_vector_lem_example :
    (r : List ℕ) × (expand_kernel_vector 6 (7 ∷ []) 3 (5 ∷ 1 ∷ 3 ∷ []) small ≡ some r)
    × Ascending 0 r
    × ((f : ℕ → ℕ) → sum_over f r % 2 ≡ selected_sum f (7 ∷ []) (5 ∷ 1 ∷ 3 ∷ []) small 3 0 % 2)
expand_kernel_vector_lem_example =
    expand_kernel_vector_lem 6 3 (7 ∷ []) (5 ∷ 1 ∷ 3 ∷ []) small small-IsTree small-RowsFit
