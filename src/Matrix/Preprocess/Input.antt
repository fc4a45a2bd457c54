-- ===== src/Matrix/Preprocess/Input.antt =====
-- preprocessMatrix: the result of singleton removal is an input of the merges.
use native.Mathlib.Nat.{mul-le-mul}
use cuda_mpqs.Prelude.{
  ℕ, ◌+◌, ◌*◌, ◌^◌, ◌<◌, ◌≤◌, ◌≡◌, refl, sym, ap, ◌∙◌, subst, List, [], ◌∷◌, map, max, true, false,
  ltb, length, arith, count, All, Ascending, Bool-cases, inl, inr,
}
use cuda_mpqs.Matrix.Csr.{
  HostMatrixCsr, row, rows_from, rows_of, to_csr, rows_of-to_csr, length-rows_of,
}
use cuda_mpqs.Matrix.Singletons.{
  Weights, Row, filter_rows, alive_rows, alive_indices, remove_singletons,
}
use cuda_mpqs.Matrix.Singletons.Weights.{alive_count, total_count, filter_rows-IsCounted}
use cuda_mpqs.Matrix.Singletons.Removed.{filter_rows-removed, length-alive_rows}
use cuda_mpqs.Matrix.Singletons.Lossless.{length-filter_rows}
use cuda_mpqs.Matrix.Singletons.Renumber.{
  all_cols, all_cols-filter_rows, alive-le-total, filtered-rows, remove_singletons-reduced,
}
use cuda_mpqs.Matrix.Singletons.Renumber
use cuda_mpqs.Matrix.Singletons.Monotone.{
  compaction, compaction-IsNumbered, compaction-IsMonotone, map-Ascending, number, column_of,
  column_of-number,
}
use cuda_mpqs.Matrix.Weight2.{leaf_bound, max_element}
use cuda_mpqs.Matrix.Weight2.First.{FromLeaves, total_count-le-length}
use cuda_mpqs.Matrix.Weight2.Start.{IsInput}
use cuda_mpqs.Matrix.Weight2.Reduced.{count-preimage}
use cuda_mpqs.Matrix.Weight2.Kernel.{ReadsOff, reads_off}
use cuda_mpqs.Matrix.Higher.Chain.{renumbered, map-same}

-- A matrix with sorted rows and columns in range, of sizes that fit.
pub record IsExpanded (m : HostMatrixCsr) : Type 0 where
  pub sorted : All (Ascending 0) (rows_of m)
  pub in_range : (c : ℕ) → 1 ≤ total_count c (rows_of m) → c < m.n_cols
  pub small : m.n_rows < 2 ^ 32

-- A property of the rows that are left, from one of each row with used columns.
alive_rows-All :
    (P : List ℕ → Type 0) (f : ℕ → ℕ) (rs : List Row)
    → All (Ascending 0) (all_cols rs)
    → ((xs : List ℕ)
        → Ascending 0 xs
        → ((c : ℕ) → 1 ≤ count c xs → 1 ≤ alive_count c rs)
        → P (map f xs))
    → All P (alive_rows f rs)
unfolding alive_rows all_cols alive_count
alive_rows-All P f [] up h = tt
alive_rows-All P f (r ∷ rs) up h =
    let rest = alive_rows-All P f rs up.1 (λ xs a used. h xs a (λ c k. omega (arith, used c k))) in
    elim (Bool-cases r.alive) [
      | inl alive ↦ rw (alive, alive_rows) (h r.cols up.0 (λ c k. rw alive (omega arith)), rest)
      | inr dead ↦ rw (dead, alive_rows) rest
    ]

alive_indices-below :
    (rs : List Row) (i b : ℕ) → i + length rs ≤ b → All (λ k. k < b) (alive_indices rs i)
unfolding alive_indices
alive_indices-below [] i b h = tt
alive_indices-below (r ∷ rs) i b h =
    let rest = alive_indices-below rs (i + 1) b (omega arith) in
    elim (Bool-cases r.alive) [
      | inl alive ↦ rw (alive, alive_indices) (omega arith, rest)
      | inr dead ↦ rw (dead, alive_indices) rest
    ]

max_element-lt : (b : ℕ) (xs : List ℕ) → 0 < b → All (λ k. k < b) xs → max_element xs < b
unfolding max_element
max_element-lt b [] p a = p
max_element-lt b (x ∷ xs) p a = ground (arith, max_element-lt b xs p a.1, a.0)

max_element-above : (b : ℕ) (xs : List ℕ) → max_element xs ≤ b → All (λ k. k ≤ b) xs
unfolding max_element
max_element-above b [] h = tt
max_element-above b (x ∷ xs) h = (ground arith, max_element-above b xs (ground arith))

le-All-lt : (b : ℕ) (xs : List ℕ) → All (λ k. k ≤ b) xs → All (λ k. k < b + 1) xs
le-All-lt b [] a = tt
le-All-lt b (x ∷ xs) a = (omega (arith, a.0), le-All-lt b xs a.1)

-- The number of leaves is above every index, and not above a bound of the indices.
pub leaf_bound_lem :
    (b : ℕ) (xs : List ℕ)
    → b < 2 ^ 32
    → All (λ k. k < b) xs
    → (leaf_bound xs ≤ b) × All (λ k. k < leaf_bound xs) xs
leaf_bound_lem b [] fits a = (omega arith, tt)
leaf_bound_lem b (x ∷ xs) fits a =
    let big = max x (max_element xs) in
    let low : big < b = ground (arith, max_element-lt b xs (omega (arith, a.0)) a.1, a.0) in
    let e : leaf_bound (x ∷ xs) ≡ big + 1 = omega (arith, low, fits) in
    (
      omega (arith, e, low),
      (
        rw e (ground arith),
        subst (λ k. All (λ j. j < k) xs) (sym e)
            (le-All-lt big xs (max_element-above big xs (ground arith))),
      ),
    )

alive_indices-alive :
    (r : Row) (rs : List Row) (i : ℕ)
    → r.alive ≡ true
    → alive_indices (r ∷ rs) i ≡ i ∷ alive_indices rs (i + 1)
unfolding alive_indices
alive_indices-alive r rs i e = rw e refl

alive_indices-dead :
    (r : Row) (rs : List Row) (i : ℕ)
    → r.alive ≡ false
    → alive_indices (r ∷ rs) i ≡ alive_indices rs (i + 1)
unfolding alive_indices
alive_indices-dead r rs i e = rw e refl

-- The rows that are left are the rows of the matrix at their indices.
alive_rows-FromLeaves :
    (m : HostMatrixCsr) (f f' : ℕ → ℕ) (row_map : List ℕ) (leaves : ℕ) (rs : List Row) (i j : ℕ)
    → all_cols rs ≡ rows_from m (length rs) i
    → ((c : ℕ) → 1 ≤ alive_count c rs → f c ≡ f' c)
    → ReadsOff row_map j (alive_indices rs i)
    → All (λ k. k < leaves) (alive_indices rs i)
    → FromLeaves (renumbered f' (row m)) leaves (alive_rows f rs) row_map j
unfolding all_cols rows_from alive_rows alive_count
alive_rows-FromLeaves m f f' row_map leaves [] i j e same reads low = tt
alive_rows-FromLeaves m f f' row_map leaves (r ∷ rs) i j e same reads low =
    let here : r.cols ≡ row m i = cc e in
    let behind : all_cols rs ≡ rows_from m (length rs) (i + 1) = cc e in
    let same' = λ (c : ℕ) (k : 1 ≤ alive_count c rs). same c (omega (arith, k)) in
    elim (Bool-cases r.alive) [
      | inl alive ↦
          let p = alive_indices-alive r rs i alive in
          let reads' = subst (ReadsOff row_map j) p reads in
          let low' = subst (All (λ k. k < leaves)) p low in
          let cols : map f' (row m i) ≡ map f r.cols =
            ap (map f') (sym here)
            ∙ sym (map-same f f' r.cols (λ c k. same c (rw alive (omega (arith, k))))) in
          rw (alive, alive_rows)
            (
              rw (reads'.0) (low'.0),
              ap (renumbered f' (row m)) (reads'.0) ∙ cols,
              alive_rows-FromLeaves m f f' row_map leaves rs (i + 1) (j + 1) behind same' reads'.1
                  low'.1,
            )
      | inr dead ↦
          let p = alive_indices-dead r rs i dead in
          rw (dead, alive_rows)
            (alive_rows-FromLeaves m f f' row_map leaves rs (i + 1) j behind same'
              (subst (ReadsOff row_map j) p reads) (subst (All (λ k. k < leaves)) p low))
    ]

sizes_fit :
    (n l a k : ℕ)
    → l ≤ n
    → a ≤ n
    → n * (k + 2) < 2 ^ 32
    → (l + a * (k + 1) < 2 ^ 32) × (l + a < 2 ^ 32)
sizes_fit n l a k h g room =
    let more : a * (k + 1) ≤ n * (k + 1) =
      mul-le-mul {n₂ = n} {m₂ = k + 1} (omega arith) (omega arith) in
    let split : n * (k + 2) ≡ n + n * (k + 1) = grind arith in
    let least : a * 1 ≤ a * (k + 1) =
      mul-le-mul {n₂ = a} {m₂ = k + 1} (omega arith) (omega arith) in
    (omega arith, omega arith)

-- The weights and the rows when the passes end.
module _ (m : HostMatrixCsr) (v : IsExpanded m) where
  state_rows : List Row
  state_rows = (filter_rows (rows_of m)).rows

  pub last_weights : Weights
  last_weights = (filter_rows (rows_of m)).weights

  used : (c : ℕ) → 1 ≤ alive_count c state_rows → (0 < last_weights c) × (c < m.n_cols)
  unfolding state_rows last_weights
  used c h =
      let few = total_count-le-length c (rows_of m) v.sorted in
      let k = filter_rows-IsCounted c (rows_of m) (omega (arith, few, length-rows_of m, v.small)) in
      let total =
        subst (λ l. alive_count c state_rows ≤ total_count c l) (all_cols-filter_rows (rows_of m))
          (alive-le-total c state_rows) in
      (omega (arith, k.counted, h), v.in_range c (omega (arith, total, h)))

  pub expanded-back : (c : ℕ) → column_of m.n_cols last_weights (number m.n_cols last_weights c) ≡ c
  unfolding last_weights state_rows
  expanded-back c = column_of-number m.n_cols last_weights c (λ pos. weighed c pos)
    where
      weighed : (c : ℕ) → 0 < last_weights c → c < m.n_cols
      weighed c pos =
          let few = total_count-le-length c (rows_of m) v.sorted in
          let k =
            filter_rows-IsCounted c (rows_of m) (omega (arith, few, length-rows_of m, v.small)) in
          (used c (omega (arith, k.counted, pos))).1

  same_number :
      (c : ℕ)
      → 1 ≤ alive_count c state_rows
      → (compaction m.n_cols last_weights).old_to_new c ≡ number m.n_cols last_weights c
  same_number c h =
      let pos : ltb 0 (last_weights c) ≡ true = ground (arith, (used c h).0) in rw pos refl

  left_rows : List (List ℕ)
  left_rows = alive_rows (compaction m.n_cols last_weights).old_to_new state_rows

  state-sorted : All (Ascending 0) (all_cols state_rows)
  unfolding state_rows
  state-sorted = subst (All (Ascending 0)) (sym (all_cols-filter_rows (rows_of m))) v.sorted

  left_rows-sorted : All (Ascending 0) left_rows
  unfolding left_rows
  left_rows-sorted =
      let f = (compaction m.n_cols last_weights).old_to_new in
      alive_rows-All (Ascending 0) f state_rows state-sorted (λ xs a u.
        map-Ascending f 0 0 xs a (λ c h. omega arith)
          (λ c d lt hc hd.
            compaction-IsMonotone m.n_cols last_weights c d lt (used d (u d hd)).1
              (used c (u c hc)).0 (used d (u d hd)).0))

  left_rows-in_range :
      All
        (λ (x : List ℕ). (d : ℕ) → 1 ≤ count d x → d < (compaction m.n_cols last_weights).new_cols)
        left_rows
  unfolding left_rows
  left_rows-in_range =
      let f = (compaction m.n_cols last_weights).old_to_new in
      alive_rows-All _ f state_rows state-sorted (λ xs a u d h.
        let (c, here, e) = count-preimage f d xs h in
        subst (λ k. k < (compaction m.n_cols last_weights).new_cols) e
          ((compaction-IsNumbered m.n_cols last_weights).below c (used c (u c here)).1
            (used c (u c here)).0))

  left_rows-length : (remove_singletons m).rows_removed + length left_rows ≡ m.n_rows
  unfolding left_rows state_rows remove_singletons
  left_rows-length = omega (
    arith,
    length-alive_rows (compaction m.n_cols last_weights).old_to_new state_rows,
    filter_rows-removed (rows_of m),
    length-rows_of m,
  )

  indices-below : All (λ k. k < m.n_rows) (alive_indices state_rows 0)
  unfolding state_rows
  indices-below =
      alive_indices-below state_rows 0 m.n_rows
        (omega (arith, length-filter_rows (rows_of m), length-rows_of m))

  left_rows-FromLeaves :
      (leaves : ℕ)
      → All (λ k. k < leaves) (alive_indices state_rows 0)
      → FromLeaves
          (renumbered (number m.n_cols last_weights) (row m))
          leaves
          left_rows
          (alive_indices state_rows 0)
          0
  unfolding left_rows state_rows
  left_rows-FromLeaves leaves low =
      alive_rows-FromLeaves m (compaction m.n_cols last_weights).old_to_new
        (number m.n_cols last_weights) (alive_indices state_rows 0) leaves state_rows 0 0
        (filtered-rows m) same_number (reads_off [] (alive_indices state_rows 0) 0 refl) low

  reduced-left_rows :
      (remove_singletons m).reduced ≡ to_csr left_rows (compaction m.n_cols last_weights).new_cols
  unfolding left_rows state_rows last_weights Renumber.compaction
  reduced-left_rows = remove_singletons-reduced m v.small

  row_map-indices : (remove_singletons m).row_map ≡ alive_indices state_rows 0
  unfolding remove_singletons state_rows
  row_map-indices = refl

  pub remove_singletons-removed :
      (remove_singletons m).rows_removed + length (rows_of (remove_singletons m).reduced) ≡ m.n_rows
  remove_singletons-removed =
      let rows : rows_of (remove_singletons m).reduced ≡ left_rows =
        ap rows_of reduced-left_rows
        ∙ rows_of-to_csr left_rows (compaction m.n_cols last_weights).new_cols in
      rw rows left_rows-length

  -- The rows that are left are an input of mergeWeight2; each is a row of the matrix, renumbered.
  pub remove_singletons-IsInput :
      (k_max : ℕ)
      → m.n_rows * (k_max + 2) < 2 ^ 32
      → let r = remove_singletons m in
        IsInput (renumbered (number m.n_cols last_weights) (row m)) r.reduced r.row_map
        × (leaf_bound r.row_map + length (rows_of r.reduced) * (k_max + 1) < 2 ^ 32)
  remove_singletons-IsInput k_max room =
      let e = reduced-left_rows in
      let new_cols = (compaction m.n_cols last_weights).new_cols in
      let rows : rows_of (remove_singletons m).reduced ≡ left_rows =
        ap rows_of e ∙ rows_of-to_csr left_rows new_cols in
      let cols : (remove_singletons m).reduced.n_cols ≡ new_cols =
        ap (λ (x : HostMatrixCsr). x.n_cols) e ∙ (unfold to_csr in refl) in
      let bound = leaf_bound_lem m.n_rows (alive_indices state_rows 0) v.small indices-below in
      let leaves : leaf_bound (remove_singletons m).row_map ≤ m.n_rows =
        rw row_map-indices bound.0 in
      let few : length (rows_of (remove_singletons m).reduced) ≤ m.n_rows =
        rw rows (omega (arith, left_rows-length)) in
      let fit =
        sizes_fit m.n_rows (leaf_bound (remove_singletons m).row_map)
          (length (rows_of (remove_singletons m).reduced)) k_max leaves few room in
      (
        record {
          sorted = subst (All (Ascending 0)) (sym rows) left_rows-sorted;
          in_range =
              subst
                (λ xs.
                  All
                    (λ (x : List ℕ).
                      (d : ℕ) → 1 ≤ count d x → d < (remove_singletons m).reduced.n_cols)
                    xs)
                (sym rows)
                (subst (λ b. All (λ (x : List ℕ). (d : ℕ) → 1 ≤ count d x → d < b) left_rows)
                  (sym cols) left_rows-in_range);
          leaves = rw (rows, row_map-indices) (left_rows-FromLeaves _ bound.1);
          fits = fit.1;
        },
        fit.0,
      )
