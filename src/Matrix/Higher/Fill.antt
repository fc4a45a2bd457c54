-- ===== src/Matrix/Higher/Fill.antt =====
-- mergeHigherWeight: the limit on the entries of a row.
use native.Mathlib.Nat.{mul-suc, mul-le-mul_left}
use cuda_mpqs.Prelude.{
  ℕ, zero, suc, ◌+◌, ◌-◌, ◌*◌, ◌^◌, ◌<◌, ◌≤◌, ◌≡◌, refl, sym, ap, ◌∙◌, subst, length-append, List,
  [], ◌∷◌, map, max, Option, none, some, ltb, ◌==◌, get_or, length, arith, All, Bool-cases, inl,
  inr, drop,
}
use cuda_mpqs.Matrix.Csr.{rows_of, flat}
use cuda_mpqs.Matrix.MergeTree.{sort}
use cuda_mpqs.Matrix.Weight2.{MergeRow, Merge, MergeResult, leaf_rows, live_rows, compacted}
use cuda_mpqs.Matrix.Weight2.Reduced.{live, live_rows-live, length-live}
use cuda_mpqs.Matrix.Weight2.Sound.{set-All, alive_total}
use cuda_mpqs.Matrix.Higher.{
  alive_only, lightest, plan_xors, commit_row, commit_all, delete_pivot, apply_plan, eliminate_rows,
  eliminate, eliminate_all, target_cols, weight_loop, first_higher, finish_higher, to_sorted_csr,
  merge_higher_weight,
}
use cuda_mpqs.Matrix.Higher.Plan.{plan_xors-short}
use cuda_mpqs.Matrix.Higher.Rebuild.{length-sort, entries-to_sorted_csr}
use cuda_mpqs.Matrix.Higher.Kernel.{
  after_passes, after_passes-IsHigher, higher-rows, n_rows-finish, IsMergeInput,
}

-- No row has more than `b` entries.
abbrev IsShort : ℕ → List MergeRow → Type 0
IsShort b rows = All (λ r. length r.cols ≤ b) rows

commit_all-IsShort :
    (b p : ℕ) (plan : List (ℕ × List ℕ)) (s : Merge)
    → All (λ e. length e.1 ≤ b) plan
    → IsShort b s.rows
    → IsShort b (commit_all s p plan).rows
unfolding commit_all commit_row
commit_all-IsShort b p [] s a v = v
commit_all-IsShort b p ((r, new) ∷ plan) s a v =
    commit_all-IsShort b p plan (commit_row s p r new) a.1 (set-All _ s.rows r _ v a.0)

delete_pivot-IsShort : (b p : ℕ) (s : Merge) → IsShort b s.rows → IsShort b (delete_pivot s p).rows
unfolding delete_pivot
delete_pivot-IsShort b p s v = set-All _ s.rows p _ v (omega arith)

All-le :
    (m b : ℕ) (plan : List (ℕ × List ℕ))
    → m ≤ b
    → All (λ e. length e.1 ≤ m) plan
    → All (λ e. length e.1 ≤ b) plan
All-le m b [] h a = tt
All-le m b (e ∷ plan) h a = (omega (arith, a.0), All-le m b plan h a.1)

apply_plan-IsShort :
    (b m p : ℕ) (s : Merge)
    → m ≤ b
    → IsShort b s.rows
    → (o : Option (List (ℕ × List ℕ)))
    → ((plan : List (ℕ × List ℕ)) → o ≡ some plan → All (λ e. length e.1 ≤ m) plan)
    → IsShort b (apply_plan s p o).rows
apply_plan-IsShort b m p s h v none k = v
apply_plan-IsShort b m p s h v (some []) k = v
apply_plan-IsShort b m p s h v (some (e ∷ plan)) k =
    delete_pivot-IsShort b p (commit_all s p (e ∷ plan))
      (commit_all-IsShort b p (e ∷ plan) s (All-le m b (e ∷ plan) h (k (e ∷ plan) refl)) v)

eliminate-IsShort :
    (b k_max m c : ℕ) (s : Merge)
    → m ≤ b
    → IsShort b s.rows
    → IsShort b (eliminate k_max m s c).rows
unfolding eliminate eliminate_rows
eliminate-IsShort b k_max m c s h v =
    let rs = alive_only s.rows (s.col_rows c) in
    let idx = lightest s.rows rs 0 (drop 1 rs) 1 in
    let p = get_or rs idx 0 in
    let planned =
      apply_plan-IsShort b m p s h v (plan_xors s.rows p idx m rs 0)
        (λ plan e. plan_xors-short s.rows p idx m rs 0 plan e) in
    elim (Bool-cases (s.weights c == 0)) [
      | inl none' ↦ rw none' v
      | inr some' ↦ elim (Bool-cases (ltb k_max (s.weights c))) [
        | inl heavy ↦ rw (some', heavy) v
        | inr light ↦ elim (Bool-cases (ltb (length rs) 2)) [
          | inl one ↦ rw (some', light, one) v
          | inr more ↦ rw (some', light, more) planned
        ]
      ]
    ]

eliminate_all-IsShort :
    (b k_max m : ℕ) (cs : List ℕ) (s : Merge)
    → m ≤ b
    → IsShort b s.rows
    → IsShort b (eliminate_all k_max m s cs).rows
unfolding eliminate_all
eliminate_all-IsShort b k_max m [] s h v = v
eliminate_all-IsShort b k_max m (c ∷ cs) s h v =
    eliminate_all-IsShort b k_max m cs (eliminate k_max m s c) h
      (eliminate-IsShort b k_max m c s h v)

weight_loop-IsShort :
    (b k_max m n rounds w : ℕ) (s : Merge)
    → m ≤ b
    → IsShort b s.rows
    → IsShort b (weight_loop k_max m n rounds w s).rows
unfolding weight_loop
weight_loop-IsShort b k_max m n zero w s h v = v
weight_loop-IsShort b k_max m n (suc rounds) w s h v =
    let cs = target_cols s.weights w n 0 in
    weight_loop-IsShort b k_max m n rounds (w + 1) (eliminate_all k_max m s cs) h
      (eliminate_all-IsShort b k_max m cs s h v)

leaf_rows-IsShort :
    (b : ℕ) (rows : List (List ℕ)) (row_map : List ℕ) (i : ℕ)
    → All (λ x. length x ≤ b) rows
    → IsShort b (leaf_rows rows row_map i)
unfolding leaf_rows
leaf_rows-IsShort b [] row_map i a = tt
leaf_rows-IsShort b (x ∷ xs) row_map i a = (a.0, leaf_rows-IsShort b xs row_map (i + 1) a.1)

length-map : (f : ℕ → ℕ) (xs : List ℕ) → length (map f xs) ≡ length xs
length-map f [] = refl
length-map f (x ∷ xs) = ap suc (length-map f xs)

length-sort-map : (f : ℕ → ℕ) (xs : List ℕ) → length (sort (map f xs)) ≡ length xs
length-sort-map f xs = length-sort (map f xs) ∙ length-map f xs

live-short :
    (b : ℕ) (f : ℕ → ℕ) (rs : List MergeRow)
    → IsShort b rs
    → All (λ x. length x ≤ b) (map sort (map (map f) (live rs)))
unfolding live
live-short b f [] a = tt
live-short b f (r ∷ rs) a = elim (Bool-cases r.alive) [
  | inl alive ↦
      rw (alive, live) (omega (arith, a.0, length-sort-map f r.cols), live-short b f rs a.1)
  | inr dead ↦ rw (dead, live) (live-short b f rs a.1)
]

-- All entries of the rows that are left.
entries-live :
    (b : ℕ) (f : ℕ → ℕ) (rs : List MergeRow)
    → IsShort b rs
    → length (flat (map (map f) (live rs))) ≤ b * length (live rs)
unfolding live
entries-live b f [] a = omega arith
entries-live b f (r ∷ rs) a = elim (Bool-cases r.alive) [
  | inl alive ↦
      rw (alive, live)
        (omega (
          arith,
          a.0,
          length-append (map f r.cols) (flat (map (map f) (live rs))),
          length-map f r.cols,
          entries-live b f rs a.1,
          mul-suc b (length (live rs)),
        ))
  | inr dead ↦ rw (dead, live) (entries-live b f rs a.1)
]

finish_higher-IsShort :
    (b n : ℕ) (s : Merge)
    → IsShort b s.rows
    → b * alive_total s.rows < 2 ^ 32
    → let r = (finish_higher n s).reduced in
      All (λ x. length x ≤ b) (rows_of r) × (length r.col_indices ≤ b * r.n_rows)
unfolding finish_higher
finish_higher-IsShort b n s v few =
    let f = (compacted n s.weights).old_to_new in
    let k = (compacted n s.weights).new_cols in
    let rows = live_rows-live f s.rows in
    let live_few = length-live s.rows in
    let total : length (to_sorted_csr (live_rows f s.rows) k).col_indices ≤ b * alive_total s.rows =
      rw (entries-to_sorted_csr (live_rows f s.rows) k, rows, sym live_few)
        (entries-live b f s.rows v) in
    (
      subst (All (λ x. length x ≤ b)) (sym (higher-rows n s (omega (arith, total, few))))
          (live-short b f s.rows v),
      subst (λ j. length (to_sorted_csr (live_rows f s.rows) k).col_indices ≤ b * j)
          (sym (n_rows-finish n s)) total,
    )

-- The fill-in is limited: where no row of the input has more than `b` entries, the limit, the larger of `max_weight` and twice the average, is at most `b`, and `b` entries for each row of the input are less than 2^32, no row of the result has more than `b` entries, and the entries of the result are at most `b` for each of its rows. The input is one that the merge takes.
pub merge_higher_weight-length :
    (orig : ℕ → List ℕ) (b : ℕ) (input : MergeResult) (k_max max_weight twice_avg : ℕ)
    → IsMergeInput orig k_max input
    → max max_weight twice_avg ≤ b
    → All (λ x. length x ≤ b) (rows_of input.reduced)
    → b * length (rows_of input.reduced) < 2 ^ 32
    → let r = (merge_higher_weight input k_max max_weight twice_avg).reduced in
      All (λ x. length x ≤ b) (rows_of r) × (length r.col_indices ≤ b * r.n_rows)
unfolding merge_higher_weight after_passes first_higher
merge_higher_weight-length orig b input k_max max_weight twice_avg w h a few =
    let s = after_passes input k_max max_weight twice_avg in
    let v : IsShort b s.rows =
      weight_loop-IsShort b k_max (max max_weight twice_avg) input.reduced.n_cols (k_max - 2) 3
        (first_higher input) h (leaf_rows-IsShort b (rows_of input.reduced) input.row_map 0 a) in
    let left : alive_total s.rows ≤ length (rows_of input.reduced) =
      omega (arith, (after_passes-IsHigher orig input k_max max_weight twice_avg w).removed) in
    let room : b * alive_total s.rows < 2 ^ 32 = omega (arith, few, mul-le-mul_left b left) in
    finish_higher-IsShort b input.reduced.n_cols s v room
