-- ===== src/Matrix/Weight2/Kernel.antt =====
-- mergeWeight2 and expandKernelVector: kernel vectors of the reduced matrix.
use cuda_mpqs.Prelude.{
  ℕ, suc, ◌+◌, ◌*◌, ◌%◌, ◌<◌, ◌≤◌, ◌≡◌, refl, sym, ◌∙◌, subst, List, [], ◌∷◌, ◌++◌, map, some, ltb,
  ◌==◌, if◌then◌else◌, get_or, length, arith, Bool-cases, inl, inr, count, sum_over, All, Ascending,
  length-append,
}
use mathlib.Core.List.{append_assoc}
use cuda_mpqs.Matrix.Csr.{HostMatrixCsr, rows_of}
use cuda_mpqs.Matrix.Singletons.Weights.{total_count}
use cuda_mpqs.Matrix.MergeTree.{MergeTree, bit_at, expand_kernel_vector}
use cuda_mpqs.Matrix.MergeTree.Leaves.{IsTree, leaves, rounds}
use cuda_mpqs.Matrix.MergeTree.Kernel.{selected_sum, RowsFit, expand_kernel_vector_lem}
use cuda_mpqs.Matrix.Weight2.{
  MergeRow, Merge, MergeResult, live_nodes, compacted, finish_merge, merge_weight2,
}
use cuda_mpqs.Matrix.Weight2.Sound.{size, IsSum}
use cuda_mpqs.Matrix.Weight2.Start.{IsInput, IsReducing}
use cuda_mpqs.Matrix.Weight2.Reduced.{
  live, HasInverse, compacted-HasInverse, count-map, reduced-rows, merge_weight2-finish,
}

-- How often a column stands in the rows that a packed vector selects, from bit `i` on.
unfoldable pub bit_count : ℕ → List ℕ → List (List ℕ) → ℕ → ℕ
bit_count c bits [] i = 0
bit_count c bits (x ∷ xs) i =
    (if bit_at bits i == 1 then count c x else 0) + bit_count c bits xs (i + 1)

-- The vector is in the left kernel of the matrix over GF(2).
abbrev pub IsKernel : List ℕ → List (List ℕ) → Type 0
IsKernel bits rows = (c : ℕ) → bit_count c bits rows 0 % 2 ≡ 0

-- `selected_sum` on the list of nodes itself.
node_sum : (ℕ → ℕ) → List ℕ → MergeTree → List ℕ → ℕ → ℕ
node_sum f bits t [] i = 0
node_sum f bits t (k ∷ ks) i =
    (if bit_at bits i == 1 then sum_over f (leaves (suc k) t k) else 0)
    + node_sum f bits t ks (i + 1)

get_or-prefix : (pre : List ℕ) (k : ℕ) (ks : List ℕ) → get_or (pre ++ (k ∷ ks)) (length pre) 0 ≡ k
get_or-prefix [] k ks = refl
get_or-prefix (x ∷ pre) k ks = get_or-prefix pre k ks

-- At position `i` the row map reads off the rest `ks`.
abbrev pub ReadsOff : List ℕ → ℕ → List ℕ → Type 0
ReadsOff row_map i [] = Unit {0}
ReadsOff row_map i (k ∷ ks) = (get_or row_map i 0 ≡ k) × ReadsOff row_map (i + 1) ks

pub reads_off : (pre ks : List ℕ) (i : ℕ) → i ≡ length pre → ReadsOff (pre ++ ks) i ks
reads_off pre [] i e = tt
reads_off pre (k ∷ ks) i e = (
  rw e (get_or-prefix pre k ks),
  subst (λ l. ReadsOff l (i + 1) ks) (append_assoc pre (k ∷ []) ks)
      (reads_off (pre ++ (k ∷ [])) ks (i + 1) (omega (arith, length-append pre (k ∷ []), e))),
)

selected_sum-nodes :
    (f : ℕ → ℕ) (bits row_map : List ℕ) (t : MergeTree) (ks : List ℕ) (i : ℕ)
    → ReadsOff row_map i ks
    → selected_sum f bits row_map t (length ks) i ≡ node_sum f bits t ks i
unfolding selected_sum node_sum
selected_sum-nodes f bits row_map t [] i h = refl
selected_sum-nodes f bits row_map t (k ∷ ks) i h =
    rw (h.0, selected_sum-nodes f bits row_map t ks (i + 1) h.1)

-- The fuel for every node of the row map.
unfoldable pub rounds_total : MergeTree → List ℕ → ℕ
rounds_total t [] = 0
rounds_total t (k ∷ ks) = rounds (suc k) t k + rounds_total t ks

RowsFit-nodes :
    (fuel : ℕ) (row_map : List ℕ) (t : MergeTree) (ks : List ℕ) (i : ℕ)
    → ReadsOff row_map i ks
    → All (λ k. k < size t) ks
    → rounds_total t ks < fuel
    → RowsFit fuel row_map t (length ks) i
unfolding rounds_total
RowsFit-nodes fuel row_map t [] i h a enough = tt
RowsFit-nodes fuel row_map t (k ∷ ks) i h a enough =
    rw (h.0) (a.0, omega arith, RowsFit-nodes fuel row_map t ks (i + 1) h.1 a.1 (omega arith))

live_nodes-All :
    (orig : ℕ → List ℕ) (t : MergeTree) (rs : List MergeRow)
    → All (IsSum orig t) rs
    → All (λ k. k < size t) (live_nodes rs)
unfolding live_nodes
live_nodes-All orig t [] a = tt
live_nodes-All orig t (r ∷ rs) a = elim (Bool-cases r.alive) [
  | inl alive ↦ rw (alive, live_nodes) (a.0.inside, live_nodes-All orig t rs a.1)
  | inr dead ↦ rw (dead, live_nodes) (live_nodes-All orig t rs a.1)
]

-- What is below the selected nodes is, modulo 2, what stands in the selected rows.
node_sum-live :
    (orig : ℕ → List ℕ) (bits : List ℕ) (t : MergeTree) (c : ℕ) (rs : List MergeRow) (i : ℕ)
    → All (IsSum orig t) rs
    → node_sum (λ l. count c (orig l)) bits t (live_nodes rs) i % 2
      ≡ bit_count c bits (live rs) i % 2
unfolding live_nodes live node_sum bit_count
node_sum-live orig bits t c [] i a = refl
node_sum-live orig bits t c (r ∷ rs) i a = elim (Bool-cases r.alive) [
  | inl alive ↦
      let ih = node_sum-live orig bits t c rs (i + 1) a.1 in
      let here = a.0.sum alive c in
      rw (alive, live_nodes, live)
        (elim (Bool-cases (bit_at bits i == 1)) [
          | inl set' ↦ rw set' (omega (arith, ih, here))
          | inr clear ↦ rw clear (omega (arith, ih))
        ])
  | inr dead ↦ rw (dead, live_nodes, live) (node_sum-live orig bits t c rs i a.1)
]

bit_count-map :
    (f : ℕ → ℕ) (c : ℕ) (bits : List ℕ) (rows : List (List ℕ)) (i : ℕ)
    → ((d : ℕ) → 1 ≤ total_count d rows → f c ≡ f d → c ≡ d)
    → bit_count (f c) bits (map (map f) rows) i ≡ bit_count c bits rows i
unfolding bit_count total_count
bit_count-map f c bits [] i h = refl
bit_count-map f c bits (x ∷ xs) i h = rw (
  count-map f c x (λ d k. h d (omega arith)),
  bit_count-map f c bits xs (i + 1) (λ d k. h d (omega arith)),
)

bit_count-le-total :
    (c : ℕ) (bits : List ℕ) (rows : List (List ℕ)) (i : ℕ)
    → bit_count c bits rows i ≤ total_count c rows
unfolding bit_count total_count
bit_count-le-total c bits [] i = omega arith
bit_count-le-total c bits (x ∷ xs) i = ground (arith, bit_count-le-total c bits xs (i + 1))

-- Renumbering columns keeps the kernel.
IsKernel-back :
    (f : ℕ → ℕ) (bits : List ℕ) (rows : List (List ℕ))
    → HasInverse f rows
    → IsKernel bits (map (map f) rows)
    → IsKernel bits rows
unfolding HasInverse
IsKernel-back f bits rows inj k c = elim (Bool-cases (ltb 0 (total_count c rows))) [
  | inl here ↦
      rw⁻¹ (bit_count-map f c bits rows 0 (λ d there. inj c d (ground arith) there)) (k (f c))
  | inr away ↦
      let z : bit_count c bits rows 0 ≡ 0 = ground (arith, bit_count-le-total c bits rows 0) in rw z
]

-- The relations that a vector selects exist, each once, and hold every column an even number of times.
abbrev pub Expands : (ℕ → List ℕ) → ℕ → List ℕ → List ℕ → MergeTree → Type 0
Expands orig fuel bits row_map t =
    (rels : List ℕ) × (expand_kernel_vector fuel bits (length row_map) row_map t ≡ some rels)
    × Ascending 0 rels
    × ((c : ℕ) → sum_over (λ l. count c (orig l)) rels % 2 ≡ 0)

-- A kernel vector of the rows that are alive, with their columns renumbered.
pub live-Expands :
    (orig : ℕ → List ℕ) (f : ℕ → ℕ) (fuel : ℕ) (bits : List ℕ) (s : Merge)
    → IsTree s.tree
    → All (IsSum orig s.tree) s.rows
    → HasInverse f (live s.rows)
    → IsKernel bits (map (map f) (live s.rows))
    → rounds_total s.tree (live_nodes s.rows) < fuel
    → Expands orig fuel bits (live_nodes s.rows) s.tree
live-Expands orig f fuel bits s tree sums inverse kernel enough =
    let ks = live_nodes s.rows in
    let reads = reads_off [] ks 0 refl in
    let fit =
      RowsFit-nodes fuel ks s.tree ks 0 reads (live_nodes-All orig s.tree s.rows sums) enough in
    let even = IsKernel-back f bits (live s.rows) inverse kernel in
    let (rels, e, up, total) = expand_kernel_vector_lem fuel (length ks) bits ks s.tree tree fit in
    (
      rels,
      e,
      up,
      λ c.
          total (λ l. count c (orig l))
          ∙ rw (selected_sum-nodes (λ l. count c (orig l)) bits ks s.tree ks 0 reads)
              (node_sum-live orig bits s.tree c s.rows 0 sums ∙ even c),
    )

finish_merge-Expands :
    (orig : ℕ → List ℕ) (total n fuel : ℕ) (bits : List ℕ) (s : Merge)
    → IsReducing orig total n s
    → let r = finish_merge n s in
      IsKernel bits (rows_of r.reduced)
      → rounds_total r.merge_tree r.row_map < fuel
      → Expands orig fuel bits r.row_map r.merge_tree
unfolding finish_merge
finish_merge-Expands orig total n fuel bits s v kernel enough =
    live-Expands orig (compacted n s.weights).old_to_new fuel bits s v.merged.tree v.merged.sums
      (compacted-HasInverse n s v.indexed v.weighted v.bounded.cols)
      (subst (IsKernel bits) (reduced-rows n s) kernel) enough

-- A kernel vector of the reduced matrix, given fuel for the nodes of the row map, expands to a strictly ascending list of original relations in which every column of the original matrix occurs an even number of times. The matrix is a valid input and the merge has the fuel of (rows + 1) * (columns + 1) rounds.
pub expand_kernel_vector-merge_weight2 :
    (orig : ℕ → List ℕ) (fuel fuel' : ℕ) (input : HostMatrixCsr) (row_map bits : List ℕ)
    (r : MergeResult)
    → IsInput orig input row_map
    → (length (rows_of input) + 1) * (input.n_cols + 1) ≤ fuel
    → merge_weight2 fuel input row_map ≡ some r
    → IsKernel bits (rows_of r.reduced)
    → rounds_total r.merge_tree r.row_map < fuel'
    → (rels : List ℕ) × (expand_kernel_vector fuel' bits (length r.row_map) r.row_map r.merge_tree
        ≡ some rels)
      × Ascending 0 rels
      × ((c : ℕ) → sum_over (λ l. count c (orig l)) rels % 2 ≡ 0)
expand_kernel_vector-merge_weight2 orig fuel fuel' input row_map bits r v h e kernel enough =
    let (s, e', k, l) = merge_weight2-finish orig fuel input row_map v h in
    let same : finish_merge input.n_cols s ≡ r = cc (e, e') in
    subst (λ (x : MergeResult). Expands orig fuel' bits x.row_map x.merge_tree) same
      (finish_merge-Expands orig (length (rows_of input)) input.n_cols fuel' bits s k.reducing
        (subst (λ (x : MergeResult). IsKernel bits (rows_of x.reduced)) (sym same) kernel)
        (subst (λ (x : MergeResult). rounds_total x.merge_tree x.row_map < fuel') (sym same)
          enough))
