-- ===== src/Matrix/Weight2/Reduced.antt =====
-- mergeWeight2: the reduced matrix and the rows that are alive.
use native.Mathlib.Nat.{zero-add}
use cuda_mpqs.Prelude.{
  ℕ, suc, ◌+◌, ◌*◌, ◌<◌, ◌≤◌, ◌≡◌, ◌≢◌, refl, sym, ap, ◌∙◌, subst, List, [], ◌∷◌, map, some, true,
  false, ltb, ◌==◌, if◌then◌else◌, get_or, length, arith, Bool-cases, inl, inr, count, u32_max,
}
use cuda_mpqs.Matrix.Csr.{HostMatrixCsr, rows_of, to_csr, rows_of-to_csr}
use cuda_mpqs.Matrix.Singletons.{Weights}
use cuda_mpqs.Matrix.Singletons.Weights.{total_count}
use cuda_mpqs.Matrix.Singletons.Renumber.{compact_cols-IsNumbered}
use cuda_mpqs.Matrix.Weight2.{
  MergeRow, Merge, MergeResult, row_at, live_rows, live_nodes, compacted, first_merge, finish_merge,
  merge_weight2, leaf_bound,
}
use cuda_mpqs.Matrix.Weight2.Sound.{alive_total}
use cuda_mpqs.Matrix.Weight2.Index.{IsIndexed}
use cuda_mpqs.Matrix.Weight2.Pair.{col_total}
use cuda_mpqs.Matrix.Weight2.Columns.{IsWeighted}
use cuda_mpqs.Matrix.Weight2.Start.{IsInput, first_merge-IsReducing, col_total-below}
use cuda_mpqs.Matrix.Weight2.Loop.{measure-bound, IsReduced, merge_loop-ends, merge_loop-num_leaves}

-- The columns of the rows that are alive.
unfoldable pub live : List MergeRow → List (List ℕ)
live [] = []
live (r ∷ rs) = if r.alive then r.cols ∷ live rs else live rs

pub live_rows-live : (f : ℕ → ℕ) (rs : List MergeRow) → live_rows f rs ≡ map (map f) (live rs)
unfolding live_rows live
live_rows-live f [] = refl
live_rows-live f (r ∷ rs) = ground (arith, live_rows-live f rs)

-- A row that is dead has no columns, so nothing is lost.
pub total_count-live :
    (c : ℕ) (rs : List MergeRow)
    → ((r : ℕ) → (row_at rs r).alive ≡ false → (row_at rs r).cols ≡ [])
    → total_count c (live rs) ≡ col_total c rs
unfolding total_count live col_total row_at
total_count-live c [] h = refl
total_count-live c (r ∷ rs) h = elim (Bool-cases r.alive) [
  | inl alive ↦ rw alive (omega (arith, total_count-live c rs (λ q. h (suc q))))
  | inr dead ↦ rw (dead, h 0 dead) (omega (arith, total_count-live c rs (λ q. h (suc q))))
]

pub length-live : (rs : List MergeRow) → length (live rs) ≡ alive_total rs
unfolding live alive_total
length-live [] = refl
length-live (r ∷ rs) = ground (arith, length-live rs)

pub length-live_nodes : (rs : List MergeRow) → length (live_nodes rs) ≡ length (live rs)
unfolding live_nodes live
length-live_nodes [] = refl
length-live_nodes (r ∷ rs) = ground (arith, length-live_nodes rs)

pub length-map : (f : List ℕ → List ℕ) (xs : List (List ℕ)) → length (map f xs) ≡ length xs
length-map f [] = refl
length-map f (x ∷ xs) = ap suc (length-map f xs)

-- The new numbers of the columns that occur lead back to the columns.
unfoldable pub HasInverse : (ℕ → ℕ) → List (List ℕ) → Type 0
HasInverse f rows = (c d : ℕ) → 1 ≤ total_count c rows → 1 ≤ total_count d rows → f c ≡ f d → c ≡ d

compacted-back :
    (n c : ℕ) (w : Weights)
    → 0 < w c
    → c < n
    → get_or (compacted n w).col_map ((compacted n w).old_to_new c) u32_max ≡ c
unfolding compacted
compacted-back n c w p h =
    let k =
      compact_cols-IsNumbered n 0 w
        (record { old_to_new = λ c. u32_max; col_map = []; new_cols = 0 })
        (record {
          counted = refl;
          below = λ d l. absurd (omega arith);
          back = λ d l. absurd (omega arith);
        }) in
    k.back c (subst (λ i. c < i) (sym (zero-add n)) h) p

pub compacted-HasInverse :
    (n : ℕ) (s : Merge)
    → IsIndexed s
    → IsWeighted s
    → ((r c : ℕ) → 1 ≤ count c (row_at s.rows r).cols → c < n)
    → HasInverse (compacted n s.weights).old_to_new (live s.rows)
unfolding HasInverse
compacted-HasInverse n s indexed weighted bounded c d hc hd e =
    let g = (compacted n s.weights).col_map in
    sym (back c hc) ∙ ap (λ k. get_or g k u32_max) e ∙ back d hd
  where
    back :
        (c : ℕ)
        → 1 ≤ total_count c (live s.rows)
        → get_or (compacted n s.weights).col_map ((compacted n s.weights).old_to_new c) u32_max ≡ c
    back c h =
        let t = total_count-live c s.rows indexed.dead in
        compacted-back n c s.weights (omega (arith, weighted.weighed c, t))
          (col_total-below n c s.rows (λ r. bounded r c) (omega (arith, t)))

pub count-map :
    (f : ℕ → ℕ) (c : ℕ) (xs : List ℕ)
    → ((d : ℕ) → 1 ≤ count d xs → f c ≡ f d → c ≡ d)
    → count (f c) (map f xs) ≡ count c xs
count-map f c [] h = refl
count-map f c (x ∷ xs) h =
    let ih = count-map f c xs (λ d k. h d (omega arith)) in
    elim (Bool-cases (x == c)) [
      | inl here ↦
          let e : x ≡ c = ground arith in
          let e' : (f x == f c) ≡ true = rw e (ground arith) in rw (here, e') (omega (arith, ih))
      | inr away ↦ elim (Bool-cases (f x == f c)) [
        | inl same ↦ absurd (let e : c ≡ x = h x (ground arith) (ground arith) in ground arith)
        | inr other ↦ rw (away, other) (omega (arith, ih))
      ]
    ]

pub total_count-map :
    (f : ℕ → ℕ) (c : ℕ) (rows : List (List ℕ))
    → ((d : ℕ) → 1 ≤ total_count d rows → f c ≡ f d → c ≡ d)
    → total_count (f c) (map (map f) rows) ≡ total_count c rows
unfolding total_count
total_count-map f c [] h = refl
total_count-map f c (x ∷ xs) h = omega (
  arith,
  count-map f c x (λ d k. h d (omega arith)),
  total_count-map f c xs (λ d k. h d (omega arith)),
)

pub count-preimage :
    (f : ℕ → ℕ) (k : ℕ) (xs : List ℕ)
    → 1 ≤ count k (map f xs)
    → (c : ℕ) × (1 ≤ count c xs) × (f c ≡ k)
count-preimage f k [] h = absurd (omega arith)
count-preimage f k (x ∷ xs) h = elim (Bool-cases (f x == k)) [
  | inl here ↦ (x, ground arith, ground arith)
  | inr away ↦ let (c, i, e) = count-preimage f k xs (ground arith) in (c, omega (arith, i), e)
]

-- A column of the renumbered rows is the new number of one.
pub total_count-preimage :
    (f : ℕ → ℕ) (k : ℕ) (rows : List (List ℕ))
    → 1 ≤ total_count k (map (map f) rows)
    → (c : ℕ) × (1 ≤ total_count c rows) × (f c ≡ k)
unfolding total_count
total_count-preimage f k [] h = absurd (omega arith)
total_count-preimage f k (x ∷ xs) h = elim (Bool-cases (ltb 0 (count k (map f x)))) [
  | inl here ↦ let (c, i, e) = count-preimage f k x (ground arith) in (c, omega (arith, i), e)
  | inr away ↦
      let (c, i, e) = total_count-preimage f k xs (ground arith) in (c, omega (arith, i), e)
]

pub reduced-rows :
    (n : ℕ) (s : Merge)
    → rows_of (finish_merge n s).reduced
      ≡ map (map (compacted n s.weights).old_to_new) (live s.rows)
unfolding finish_merge
reduced-rows n s =
    let f = (compacted n s.weights).old_to_new in
    rows_of-to_csr (live_rows f s.rows) (compacted n s.weights).new_cols ∙ live_rows-live f s.rows

reduced-no_two :
    (orig : ℕ → List ℕ) (total n : ℕ) (s : Merge)
    → IsReduced orig total n s
    → (k : ℕ) → total_count k (rows_of (finish_merge n s).reduced) ≢ 2
unfolding HasInverse
reduced-no_two orig total n s v k two =
    let f = (compacted n s.weights).old_to_new in
    let two' : total_count k (map (map f) (live s.rows)) ≡ 2 = rw⁻¹ (reduced-rows n s) two in
    let (c, here, e) = total_count-preimage f k (live s.rows) (omega (arith, two')) in
    let same = total_count-map f c (live s.rows) (λ d there.
      compacted-HasInverse n s v.reducing.indexed v.reducing.weighted v.reducing.bounded.cols c d
        here there) in
    v.no_two c (
      v.reducing.weighted.weighed c
      ∙ sym (total_count-live c s.rows v.reducing.indexed.dead)
      ∙ sym same
      ∙ ap (λ j. total_count j (map (map f) (live s.rows))) e
      ∙ two')

leaves_first :
    (input : HostMatrixCsr) (row_map : List ℕ)
    → (first_merge input row_map).tree.num_leaves ≡ leaf_bound row_map
unfolding first_merge
leaves_first input row_map = refl

-- With enough fuel the merge is a reduction of the matrix.
pub merge_weight2-finish :
    (orig : ℕ → List ℕ) (fuel : ℕ) (input : HostMatrixCsr) (row_map : List ℕ)
    → IsInput orig input row_map
    → (length (rows_of input) + 1) * (input.n_cols + 1) ≤ fuel
    → (s : Merge) × (merge_weight2 fuel input row_map ≡ some (finish_merge input.n_cols s))
      × IsReduced orig (length (rows_of input)) input.n_cols s
      × (s.tree.num_leaves ≡ leaf_bound row_map)
unfolding merge_weight2
merge_weight2-finish orig fuel input row_map v h =
    let s = first_merge input row_map in
    let reducing = first_merge-IsReducing orig input row_map v in
    let (r, e, k) =
      merge_loop-ends orig (length (rows_of input)) input.n_cols fuel s _ refl reducing
        (omega (arith, measure-bound orig (length (rows_of input)) input.n_cols s reducing, h)) in
    (r, rw e, k, merge_loop-num_leaves fuel s _ r e ∙ leaves_first input row_map)

pub record IsReduction (input : HostMatrixCsr) (r : MergeResult) : Type 0 where
  pub no_two : (c : ℕ) → total_count c (rows_of r.reduced) ≢ 2
  pub removed : r.reduced.n_rows + r.rows_removed ≡ length (rows_of input)
  pub mapped : length r.row_map ≡ r.reduced.n_rows
  pub performed : r.merges_performed ≡ r.rows_removed

n_rows-finish : (n : ℕ) (s : Merge) → (finish_merge n s).reduced.n_rows ≡ alive_total s.rows
unfolding finish_merge to_csr
n_rows-finish n s =
    let f = (compacted n s.weights).old_to_new in
    ap length (live_rows-live f s.rows) ∙ length-map (map f) (live s.rows) ∙ length-live s.rows

rows_removed-finish : (n : ℕ) (s : Merge) → (finish_merge n s).rows_removed ≡ s.merges
unfolding finish_merge
rows_removed-finish n s = refl

performed-finish :
    (n : ℕ) (s : Merge) → (finish_merge n s).merges_performed ≡ (finish_merge n s).rows_removed
unfolding finish_merge
performed-finish n s = refl

mapped-finish : (n : ℕ) (s : Merge) → length (finish_merge n s).row_map ≡ length (live s.rows)
unfolding finish_merge
mapped-finish n s = length-live_nodes s.rows

-- On a valid input and with the fuel of (rows + 1) * (columns + 1) rounds the weight-2 merge ends. No column of the reduced matrix occurs in exactly two of its entries, the rows left and the rows removed make up the rows of the input, each merge removes one row, and the row map has one entry for each row left.
pub merge_weight2_lem :
    (orig : ℕ → List ℕ) (fuel : ℕ) (input : HostMatrixCsr) (row_map : List ℕ)
    → IsInput orig input row_map
    → (length (rows_of input) + 1) * (input.n_cols + 1) ≤ fuel
    → (r : MergeResult) × (merge_weight2 fuel input row_map ≡ some r) × IsReduction input r
merge_weight2_lem orig fuel input row_map v h =
    let (s, e, k, l) = merge_weight2-finish orig fuel input row_map v h in
    let n_rows = n_rows-finish input.n_cols s in
    (
      finish_merge input.n_cols s,
      e,
      record {
        no_two = reduced-no_two orig (length (rows_of input)) input.n_cols s k;
        removed = omega (
          arith,
          n_rows,
          k.reducing.merged.room,
          k.reducing.merged.counted,
          rows_removed-finish input.n_cols s,
        );
        mapped = mapped-finish input.n_cols s ∙ length-live s.rows ∙ sym n_rows;
        performed = performed-finish input.n_cols s;
      },
    )
