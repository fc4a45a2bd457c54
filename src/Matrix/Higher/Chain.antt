-- ===== src/Matrix/Higher/Chain.antt =====
-- mergeWeight2 and mergeHigherWeight, one after the other.
use native.Mathlib.Nat.{mul-le-mul}
use cuda_mpqs.Prelude.{
  ℕ, suc, ◌+◌, ◌*◌, ◌%◌, ◌^◌, ◌<◌, ◌≤◌, ◌≡◌, refl, sym, ap, ◌∙◌, subst, List, [], ◌∷◌, map, some,
  true, false, ltb, ◌==◌, if◌then◌else◌, length, arith, count, sum_over, All, Ascending, Bool-cases,
  inl, inr,
}
use cuda_mpqs.Matrix.Csr.{HostMatrixCsr, rows_of}
use cuda_mpqs.Matrix.Singletons.Monotone.{
  compaction, compaction-IsNumbered, compaction-IsMonotone, map-Ascending, number, column_of,
  column_of-number, count-numbered,
}
use cuda_mpqs.Matrix.MergeTree.{MergeTree, expand_kernel_vector}
use cuda_mpqs.Matrix.MergeTree.Leaves.{leaves}
use cuda_mpqs.Matrix.Weight2.{
  MergeRow, Merge, MergeResult, row_at, live_nodes, compacted, finish_merge, merge_weight2,
  leaf_bound,
}
use cuda_mpqs.Matrix.Weight2.Sound.{leaf_count, IsSum, alive_total}
use cuda_mpqs.Matrix.Weight2.Columns.{col_total-row}
use cuda_mpqs.Matrix.Weight2.Start.{IsInput, IsReducing, col_total-below}
use cuda_mpqs.Matrix.Weight2.Reduced.{
  live, length-live, length-map, reduced-rows, merge_weight2-finish, count-preimage,
}
use cuda_mpqs.Matrix.Weight2.Kernel.{IsKernel, rounds_total, ReadsOff, reads_off}
use cuda_mpqs.Matrix.Higher.{merge_higher_weight}
use cuda_mpqs.Matrix.Higher.Kernel.{
  FromNodes, IsMergeInput, expand_kernel_vector-merge_higher_weight,
}

-- The original rows with their columns numbered as in the reduced matrix, and those that are dropped behind
-- them.
abbrev pub renumbered : (ℕ → ℕ) → (ℕ → List ℕ) → ℕ → List ℕ
renumbered f orig l = map f (orig l)

leaf_count-numbered :
    (f g : ℕ → ℕ) (orig : ℕ → List ℕ) (d : ℕ) (ls : List ℕ)
    → ((c : ℕ) → g (f c) ≡ c)
    → leaf_count (renumbered f orig) d ls ≡ (if f (g d) == d then leaf_count orig (g d) ls else 0)
leaf_count-numbered f g orig d [] back = ground arith
leaf_count-numbered f g orig d (l ∷ ls) back =
    let here = count-numbered f g d (orig l) back in
    let ih = leaf_count-numbered f g orig d ls back in
    elim (Bool-cases (f (g d) == d)) [
      | inl image ↦ rw (here, ih, image) refl
      | inr other ↦ rw (here, ih, other) refl
    ]

-- A sum of leaves stays one under a numbering that can be undone.
sum-numbered :
    (f g : ℕ → ℕ) (orig : ℕ → List ℕ) (xs ls : List ℕ)
    → ((c : ℕ) → g (f c) ≡ c)
    → ((c : ℕ) → count c xs % 2 ≡ leaf_count orig c ls % 2)
    → (d : ℕ) → count d (map f xs) % 2 ≡ leaf_count (renumbered f orig) d ls % 2
sum-numbered f g orig xs ls back sum d = elim (Bool-cases (f (g d) == d)) [
  | inl image ↦
      rw (count-numbered f g d xs back, leaf_count-numbered f g orig d ls back, image) (sum (g d))
  | inr other ↦
      rw (count-numbered f g d xs back, leaf_count-numbered f g orig d ls back, other) refl
]

pub map-same :
    (f f' : ℕ → ℕ) (xs : List ℕ) → ((c : ℕ) → 1 ≤ count c xs → f c ≡ f' c) → map f xs ≡ map f' xs
map-same f f' [] h = refl
map-same f f' (x ∷ xs) h = rw (h x (ground arith), map-same f f' xs (λ c k. h c (omega arith))) refl

-- A property of the renumbered rows that are alive.
live-All :
    (P : List ℕ → Type 0) (f : ℕ → ℕ) (rs : List MergeRow)
    → ((r : ℕ) → P (map f (row_at rs r).cols))
    → All P (map (map f) (live rs))
unfolding live row_at
live-All P f [] h = tt
live-All P f (r ∷ rs) h = elim (Bool-cases r.alive) [
  | inl alive ↦ rw (alive, live) (h 0, live-All P f rs (λ q. h (suc q)))
  | inr dead ↦ rw (dead, live) (live-All P f rs (λ q. h (suc q)))
]

live_nodes-alive :
    (r : MergeRow) (rs : List MergeRow)
    → r.alive ≡ true
    → live_nodes (r ∷ rs) ≡ r.node_of ∷ live_nodes rs
unfolding live_nodes
live_nodes-alive r rs e = rw e refl

live_nodes-dead :
    (r : MergeRow) (rs : List MergeRow) → r.alive ≡ false → live_nodes (r ∷ rs) ≡ live_nodes rs
unfolding live_nodes
live_nodes-dead r rs e = rw e refl

live-FromNodes :
    (f f' g : ℕ → ℕ) (orig : ℕ → List ℕ) (t : MergeTree) (row_map : List ℕ) (rs : List MergeRow)
    (i : ℕ)
    → ((c : ℕ) → g (f' c) ≡ c)
    → ((r c : ℕ) → 1 ≤ count c (row_at rs r).cols → f c ≡ f' c)
    → ReadsOff row_map i (live_nodes rs)
    → All (IsSum orig t) rs
    → FromNodes (renumbered f' orig) t (map (map f) (live rs)) row_map i
unfolding live row_at
live-FromNodes f f' g orig t row_map [] i back same reads a = tt
live-FromNodes f f' g orig t row_map (r ∷ rs) i back same reads a = elim (Bool-cases r.alive) [
  | inl alive ↦
      let reads' : ReadsOff row_map i (r.node_of ∷ live_nodes rs) =
        subst (ReadsOff row_map i) (live_nodes-alive r rs alive) reads in
      let sums =
        sum-numbered f' g orig r.cols (leaves (suc r.node_of) t r.node_of) back (a.0.sum alive) in
      let cols = map-same f f' r.cols (same 0) in
      rw (alive, live)
        (
          rw (reads'.0) (a.0.inside),
          rw (reads'.0, cols) sums,
          live-FromNodes f f' g orig t row_map rs (i + 1) back (λ q. same (suc q)) reads'.1 a.1,
        )
  | inr dead ↦
      let reads' : ReadsOff row_map i (live_nodes rs) =
        subst (ReadsOff row_map i) (live_nodes-dead r rs dead) reads in
      rw (dead, live)
        (live-FromNodes f f' g orig t row_map rs i back (λ q. same (suc q)) reads' a.1)
]

rows_bound :
    (l i a total k : ℕ)
    → i + a ≡ total
    → l + total * (k + 1) < 2 ^ 32
    → (l + i + a * k < 2 ^ 32) × (a < 2 ^ 32)
rows_bound l i a total k e room =
    let more : a * k ≤ total * k = mul-le-mul {n₂ = total} {m₂ = k} (omega arith) (omega arith) in
    let split : total * (k + 1) ≡ total * k + total = grind arith in (omega arith, omega arith)

-- A column of a row has positive weight, and its two numbers are one.
module _ (orig : ℕ → List ℕ) (total n : ℕ) (s : Merge) (v : IsReducing orig total n s) where
  used : (r c : ℕ) → 1 ≤ count c (row_at s.rows r).cols → 0 < s.weights c
  used r c h = omega (arith, col_total-row c s.rows r, v.weighted.weighed c)

  same_number :
      (r c : ℕ)
      → 1 ≤ count c (row_at s.rows r).cols
      → (compaction n s.weights).old_to_new c ≡ number n s.weights c
  same_number r c h =
      let pos : ltb 0 (s.weights c) ≡ true = ground (arith, used r c h) in rw pos refl

  within : (c : ℕ) → 0 < s.weights c → c < n
  within c pos =
      col_total-below n c s.rows (λ r. v.bounded.cols r c)
        (omega (arith, v.weighted.weighed c, pos))

  pub number-back : (c : ℕ) → column_of n s.weights (number n s.weights c) ≡ c
  number-back c = column_of-number n s.weights c (within c)

  reduced-sorted : All (Ascending 0) (map (map (compaction n s.weights).old_to_new) (live s.rows))
  reduced-sorted =
      let f = (compaction n s.weights).old_to_new in
      live-All (Ascending 0) f s.rows (λ r.
        map-Ascending f 0 0 (row_at s.rows r).cols (v.indexed.sorted r) (λ c h. omega arith)
          (λ c d lt hc hd.
            compaction-IsMonotone n s.weights c d lt (v.bounded.cols r d hd) (used r c hc)
              (used r d hd)))

  reduced-in_range :
      All
        (λ (x : List ℕ). (d : ℕ) → 1 ≤ count d x → d < (compaction n s.weights).new_cols)
        (map (map (compaction n s.weights).old_to_new) (live s.rows))
  reduced-in_range =
      let f = (compaction n s.weights).old_to_new in
      live-All _ f s.rows (λ r d h.
        let (c, here, e) = count-preimage f d (row_at s.rows r).cols h in
        subst (λ k. k < (compaction n s.weights).new_cols) e
          ((compaction-IsNumbered n s.weights).below c (v.bounded.cols r c here) (used r c here)))

  -- The reduced matrix is an input of the next merge.
  pub finish_merge-IsMergeInput :
      (k_max : ℕ)
      → s.tree.num_leaves + total * (k_max + 1) < 2 ^ 32
      → IsMergeInput (renumbered (number n s.weights) orig) k_max (finish_merge n s)
  unfolding finish_merge compacted
  finish_merge-IsMergeInput k_max room =
      let f = (compaction n s.weights).old_to_new in
      let rows = reduced-rows n s in
      let few : length (map (map f) (live s.rows)) ≡ alive_total s.rows =
        length-map (map f) (live s.rows) ∙ length-live s.rows in
      let bound =
        rows_bound s.tree.num_leaves (length s.tree.internal_nodes) (alive_total s.rows) total k_max
          v.merged.room room in
      record {
        sorted = subst (All (Ascending 0)) (sym rows) reduced-sorted;
        in_range =
            subst
              (All
                (λ (x : List ℕ). (d : ℕ) → 1 ≤ count d x → d < (compaction n s.weights).new_cols))
              (sym rows) reduced-in_range;
        tree = v.merged.tree;
        nodes =
            subst
              (λ xs.
                FromNodes (renumbered (number n s.weights) orig) s.tree xs (live_nodes s.rows) 0)
              (sym rows)
              (live-FromNodes f (number n s.weights) (column_of n s.weights) orig s.tree
                (live_nodes s.rows) s.rows 0 number-back same_number
                (reads_off [] (live_nodes s.rows) 0 refl) v.merged.sums);
        fits = rw (rows, few) bound.0;
        few = rw (rows, few) bound.1;
      }

-- The columns of the original matrix are even where those of the renumbered rows are.
pub sum_over-numbered :
    (f g : ℕ → ℕ) (orig : ℕ → List ℕ) (c : ℕ) (rels : List ℕ)
    → ((c : ℕ) → g (f c) ≡ c)
    → sum_over (λ l. count (f c) (renumbered f orig l)) rels ≡ sum_over (λ l. count c (orig l)) rels
sum_over-numbered f g orig c [] back = refl
sum_over-numbered f g orig c (l ∷ ls) back =
    let image : (f (g (f c)) == f c) ≡ true = rw (back c) (ground arith) in
    let here : count (f c) (renumbered f orig l) ≡ count c (orig l) =
      count-numbered f g (f c) (orig l) back ∙ rw (image, back c) refl in
    omega (arith, here, sum_over-numbered f g orig c ls back)

-- On a valid input, with the fuel of (rows + 1) * (columns + 1) rounds, less than 2^32 entries in the matrix returned, and node numbers of 32 bits for `k_max` + 1 nodes for each row, a kernel vector of the matrix that `mergeHigherWeight` makes of the result of `mergeWeight2`, given fuel for the nodes of the row map, expands to a strictly ascending list of original relations in which every column of the original matrix occurs an even number of times, the columns that the merges have dropped included.
pub merge_higher_weight-merge_weight2 :
    (orig : ℕ → List ℕ) (fuel fuel' k_max max_weight twice_avg : ℕ) (input : HostMatrixCsr)
    (row_map bits : List ℕ) (m r : MergeResult)
    → IsInput orig input row_map
    → (length (rows_of input) + 1) * (input.n_cols + 1) ≤ fuel
    → leaf_bound row_map + length (rows_of input) * (k_max + 1) < 2 ^ 32
    → merge_weight2 fuel input row_map ≡ some m
    → merge_higher_weight m k_max max_weight twice_avg ≡ r
    → length r.reduced.col_indices < 2 ^ 32
    → IsKernel bits (rows_of r.reduced)
    → rounds_total r.merge_tree r.row_map < fuel'
    → (rels : List ℕ) × (expand_kernel_vector fuel' bits (length r.row_map) r.row_map r.merge_tree
        ≡ some rels)
      × Ascending 0 rels
      × ((c : ℕ) → sum_over (λ l. count c (orig l)) rels % 2 ≡ 0)
merge_higher_weight-merge_weight2 orig fuel fuel' k_max max_weight twice_avg input row_map bits m r
      v h room found next few kernel enough =
    let n = input.n_cols in
    let total = length (rows_of input) in
    let (s, e, k, l) = merge_weight2-finish orig fuel input row_map v h in
    let f = number n s.weights in
    let back = number-back orig total n s k.reducing in
    let same : finish_merge n s ≡ m = cc (e, found) in
    let ready : IsMergeInput (renumbered f orig) k_max m =
      subst (IsMergeInput (renumbered f orig) k_max) same
        (finish_merge-IsMergeInput orig total n s k.reducing k_max (rw l room)) in
    let (rels, expanded, up, even) =
      expand_kernel_vector-merge_higher_weight (renumbered f orig) m r k_max max_weight twice_avg
        fuel' bits ready next few kernel enough in
    (
      rels,
      expanded,
      up,
      λ c.
          ap (λ x. x % 2) (sym (sum_over-numbered f (column_of n s.weights) orig c rels back))
          ∙ even (f c),
    )

-- The result of the one merge is an input of the other.
pub merge_weight2-IsMergeInput :
    (orig : ℕ → List ℕ) (fuel k_max : ℕ) (input : HostMatrixCsr) (row_map : List ℕ)
    (m : MergeResult)
    → IsInput orig input row_map
    → (length (rows_of input) + 1) * (input.n_cols + 1) ≤ fuel
    → leaf_bound row_map + length (rows_of input) * (k_max + 1) < 2 ^ 32
    → merge_weight2 fuel input row_map ≡ some m
    → (orig' : ℕ → List ℕ) × IsMergeInput orig' k_max m
merge_weight2-IsMergeInput orig fuel k_max input row_map m v h room found =
    let (s, e, k, l) = merge_weight2-finish orig fuel input row_map v h in
    let same : finish_merge input.n_cols s ≡ m = cc (e, found) in
    let f = number input.n_cols s.weights in
    (
      renumbered f orig,
      subst (IsMergeInput (renumbered f orig) k_max) same (
          finish_merge-IsMergeInput orig (length (rows_of input)) input.n_cols s k.reducing k_max
            (rw l room)),
    )
