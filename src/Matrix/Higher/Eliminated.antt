-- ===== src/Matrix/Higher/Eliminated.antt =====
-- mergeHigherWeight: a column is eliminated from every row, or nothing is done.
use cuda_mpqs.Prelude.{
  ℕ, ◌+◌, ◌<◌, ◌≤◌, ◌≡◌, ◌≢◌, ◌⊎◌, refl, sym, ap, ◌∙◌, subst, List, [], ◌∷◌, Option, none, some,
  true, false, ltb, ◌==◌, get_or, set, length, arith, count, All, Bool-cases, inl, inr, drop,
  Ascending, Ascending-count, length-drop,
}
use cuda_mpqs.Matrix.XorRows.{xor_rows_lem}
use cuda_mpqs.Matrix.Weight2.{MergeRow, Merge, row_at}
use cuda_mpqs.Matrix.Weight2.Rows.{row_at-set_self, row_at-set_ne}
use cuda_mpqs.Matrix.Weight2.Index.{IsIndexed}
use cuda_mpqs.Matrix.Weight2.Pair.{col_total, col_total-zero}
use cuda_mpqs.Matrix.Weight2.Columns.{col_total-row}
use cuda_mpqs.Matrix.Higher.{
  alive_only, lightest, plan_xors, commit_row, commit_all, delete_pivot, apply_plan, eliminate_rows,
  eliminate,
}
use cuda_mpqs.Matrix.Higher.Index.{by_one}
use cuda_mpqs.Matrix.Higher.Commit.{IsPlanned, plan_rows, commit_row-rows, plan_kept}
use cuda_mpqs.Matrix.Higher.Plan.{
  AllAlive, alive_only-AllAlive, lightest-lt, get_or-count, pivot-alive, IsPlan, plan_xors-IsPlan,
}
use cuda_mpqs.Matrix.Higher.Loop.{
  IsHigher, eliminate-IsHigher, delete_pivot-merges, commit_all-merges, pivot_only,
}

-- The column stands in the pivot and in the rows of the plan, and in no other.
record IsCovered (c p : ℕ) (plan : List (ℕ × List ℕ)) (rows : List MergeRow) : Type 0 where
  sorted : (q : ℕ) → Ascending 0 (row_at rows q).cols
  alive : (row_at rows p).alive ≡ true
  pivot : count c (row_at rows p).cols ≡ 1
  inside : (q : ℕ) → 1 ≤ count q (plan_rows plan) → count c (row_at rows q).cols ≡ 1
  outside : (q : ℕ) → p ≢ q → count q (plan_rows plan) ≡ 0 → count c (row_at rows q).cols ≡ 0

commit_row-here :
    (s : Merge) (p r : ℕ) (new : List ℕ)
    → (row_at s.rows r).alive ≡ true
    → (row_at (commit_row s p r new).rows r).cols ≡ new
unfolding commit_row
commit_row-here s p r new live = ap (λ (x : MergeRow). x.cols) (row_at-set_self s.rows r _ live)

-- A row that takes the pivot on loses the column.
commit_row-IsCovered :
    (c p r : ℕ) (new : List ℕ) (plan : List (ℕ × List ℕ)) (s : Merge)
    → ((q : ℕ) → count q (plan_rows ((r, new) ∷ plan)) ≤ 1)
    → IsPlanned s.rows p (r, new)
    → IsCovered c p ((r, new) ∷ plan) s.rows
    → IsCovered c p plan (commit_row s p r new).rows
commit_row-IsCovered c p r new plan s once planned v =
    let ne = planned.0 in
    let here = commit_row-here s p r new planned.1 in
    let rows' = (commit_row s p r new).rows in
    let other = λ (q : ℕ) (away : r ≢ q). commit_row-rows s p r q new away in
    let sum =
      xor_rows_lem (row_at s.rows p).cols (row_at s.rows r).cols (v.sorted p) (v.sorted r) in
    let mine : count c (row_at s.rows r).cols ≡ 1 = v.inside r (ground arith) in
    let gone : count c new ≡ 0 =
      ap (count c) planned.2 ∙ sum.1 c ∙ rw (v.pivot, mine) (omega arith) in
    record {
      sorted =
          by_one (λ q. Ascending 0 (row_at rows' q).cols) r
            (rw here (subst (Ascending 0) (sym planned.2) sum.0))
            (λ q away. rw (other q away) (v.sorted q));
      alive = rw (other p (λ e. ne (sym e))) v.alive;
      pivot = rw (other p (λ e. ne (sym e))) v.pivot;
      inside = λ q h.
          let away : r ≢ q = λ e. ground (arith, once q) in
          rw (other q away) (v.inside q (omega (arith, h)));
      outside =
          by_one (λ q. p ≢ q → count q (plan_rows plan) ≡ 0 → count c (row_at rows' q).cols ≡ 0) r
            (λ away z. rw here gone)
            (λ q away nep z. rw (other q away) (v.outside q nep (ground (arith, away))));
    }

commit_all-IsCovered :
    (c p : ℕ) (plan : List (ℕ × List ℕ)) (s : Merge)
    → ((q : ℕ) → count q (plan_rows plan) ≤ 1)
    → All (IsPlanned s.rows p) plan
    → IsCovered c p plan s.rows
    → IsCovered c p [] (commit_all s p plan).rows
unfolding commit_all
commit_all-IsCovered c p [] s once planned v = v
commit_all-IsCovered c p ((r, new) ∷ plan) s once planned v =
    commit_all-IsCovered c p plan (commit_row s p r new) (λ q. omega (arith, once q))
      (plan_kept s p r new plan (planned.0.0) (ground (arith, once r)) planned.1)
      (commit_row-IsCovered c p r new plan s once planned.0 v)

-- The column is gone when the pivot is deleted.
delete_pivot-total :
    (c p : ℕ) (s : Merge) → IsCovered c p [] s.rows → col_total c (delete_pivot s p).rows ≡ 0
unfolding delete_pivot
delete_pivot-total c p s v =
    let dead : MergeRow = record (row_at s.rows p) { cols = []; alive = false } in
    col_total-zero c (set s.rows p dead) (
      by_one (λ q. count c (row_at (set s.rows p dead) q).cols ≡ 0) p
        (rw (row_at-set_self s.rows p dead v.alive) refl)
        (λ q away. rw (row_at-set_ne s.rows p q dead away) (v.outside q away refl)))

-- Nothing is done, or the column is gone from all rows.
abbrev pub IsAllOrNothing : ℕ → Merge → Merge → Type 0
IsAllOrNothing c s t = (t ≡ s) ⊎ ((col_total c t.rows ≡ 0) × (t.merges ≡ s.merges + 1))

-- The rows that hold the column.
record Holds (c : ℕ) (s : Merge) (rs : List ℕ) : Type 0 where
  sorted : (q : ℕ) → Ascending 0 (row_at s.rows q).cols
  alive : AllAlive s.rows rs
  counts : (q : ℕ) → count q rs ≡ count c (row_at s.rows q).cols

Holds-once : (c : ℕ) (s : Merge) (rs : List ℕ) → Holds c s rs → (q : ℕ) → count q rs ≤ 1
Holds-once c s rs v q =
    omega (arith, v.counts q, Ascending-count 0 c (row_at s.rows q).cols (v.sorted q))

apply_plan-IsAllOrNothing :
    (c p : ℕ) (s : Merge) (rs : List ℕ)
    → Holds c s rs
    → 1 ≤ count p rs
    → (row_at s.rows p).alive ≡ true
    → (o : Option (List (ℕ × List ℕ)))
    → ((plan : List (ℕ × List ℕ)) → o ≡ some plan → IsPlan s.rows p rs plan)
    → IsAllOrNothing c s (apply_plan s p o)
apply_plan-IsAllOrNothing c p s rs v here live none k = inl refl
apply_plan-IsAllOrNothing c p s rs v here live (some []) k = inl refl
apply_plan-IsAllOrNothing c p s rs v here live (some (e ∷ plan)) k =
    let whole = e ∷ plan in
    let t = k whole refl in
    let once = Holds-once c s rs v in
    let covered =
      commit_all-IsCovered c p whole s (λ q. omega (arith, t.counts q, once q)) t.planned
        (record {
          sorted = v.sorted;
          alive = live;
          pivot = omega (arith, v.counts p, once p, here);
          inside = λ q h. omega (arith, v.counts q, once q, t.counts q, h);
          outside = λ q ne z. omega (arith, v.counts q, t.covers q (λ x. ne (sym x)), z);
        }) in
    inr (
      delete_pivot-total c p (commit_all s p whole) covered,
      delete_pivot-merges (commit_all s p whole) p ∙ ap (λ j. j + 1) (commit_all-merges s p whole),
    )

eliminate_rows-IsAllOrNothing :
    (c m : ℕ) (s : Merge) (rs : List ℕ) → Holds c s rs → IsAllOrNothing c s (eliminate_rows m s rs)
unfolding eliminate_rows
eliminate_rows-IsAllOrNothing c m s rs v = elim (Bool-cases (ltb (length rs) 2)) [
  | inl one ↦ rw one (inl refl)
  | inr more ↦
      let idx = lightest s.rows rs 0 (drop 1 rs) 1 in
      let inside : idx < length rs =
        lightest-lt s.rows rs 0 (drop 1 rs) 1 (ground arith) (ground (arith, length-drop 1 rs)) in
      let p = get_or rs idx 0 in
      rw more (
        apply_plan-IsAllOrNothing c p s rs v (get_or-count rs idx inside)
          (pivot-alive s.rows rs idx inside v.alive) (plan_xors s.rows p idx m rs 0)
          (λ plan e.
            plan_xors-IsPlan s.rows p idx m rs 0 plan v.alive
              (pivot_only rs idx inside (Holds-once c s rs v)) e))
]

-- An index of rows that are alive is taken as it is.
alive_only-all :
    (rows : List MergeRow) (xs : List ℕ)
    → ((q : ℕ) → 1 ≤ count q xs → (row_at rows q).alive ≡ true)
    → alive_only rows xs ≡ xs
unfolding alive_only
alive_only-all rows [] h = refl
alive_only-all rows (x ∷ xs) h =
    let live = h x (ground arith) in
    rw live (ap (◌∷◌ x) (alive_only-all rows xs (λ q k. h q (omega (arith, k)))))

index-Holds : (c : ℕ) (s : Merge) → IsIndexed s → Holds c s (alive_only s.rows (s.col_rows c))
index-Holds c s v =
    let all' = alive_only-all s.rows (s.col_rows c) (λ q h. live q h) in
    record {
      sorted = v.sorted;
      alive = alive_only-AllAlive s.rows (s.col_rows c);
      counts = λ q. ap (count q) all' ∙ v.index q c;
    }
  where
    live : (q : ℕ) → 1 ≤ count q (s.col_rows c) → (row_at s.rows q).alive ≡ true
    live q h = elim (Bool-cases (row_at s.rows q).alive) [
      | inl alive ↦ alive
      | inr dead ↦
          let none' : count c (row_at s.rows q).cols ≡ 0 = ap (count c) (v.dead q dead) in
          absurd (omega (arith, v.index q c, none'))
    ]

eliminate-total :
    (k_max m c : ℕ) (s : Merge) → IsIndexed s → IsAllOrNothing c s (eliminate k_max m s c)
unfolding eliminate
eliminate-total k_max m c s v = elim (Bool-cases (s.weights c == 0)) [
  | inl none' ↦ rw none' (inl refl)
  | inr some' ↦ elim (Bool-cases (ltb k_max (s.weights c))) [
    | inl heavy ↦ rw (some', heavy) (inl refl)
    | inr light ↦
        rw (some', light)
          (eliminate_rows-IsAllOrNothing c m s (alive_only s.rows (s.col_rows c))
            (index-Holds c s v))
  ]
]

-- The elimination of a column is all or nothing: the state stays as it is, or the column is gone from every row and its weight is zero, and exactly one more column and row are counted as removed. The state is one that the passes reach.
pub eliminate-all_or_nothing :
    (orig : ℕ → List ℕ) (n k_max total m : ℕ) (s : Merge) (c : ℕ)
    → IsHigher orig n k_max total s
    → let t = eliminate k_max m s c in
      (t ≡ s)
      ⊎ ((t.weights c ≡ 0)
          × ((q : ℕ) → count c (row_at t.rows q).cols ≡ 0)
          × (t.merges ≡ s.merges + 1))
eliminate-all_or_nothing orig n k_max total m s c v =
    let w = (eliminate-IsHigher orig n k_max total m s c v).ready.weighted in
    let t = eliminate k_max m s c in
    elim (eliminate-total k_max m c s v.ready.indexed) [
      | inl same ↦ inl same
      | inr (none', more) ↦
          inr (w.weighed c ∙ none', λ q. omega (arith, col_total-row c t.rows q, none'), more)
    ]
