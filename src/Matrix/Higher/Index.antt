-- ===== src/Matrix/Higher/Index.antt =====
-- mergeHigherWeight: the inverted index and the column weights after one row is replaced, and after the
-- pivot is deleted.
use cuda_mpqs.Prelude.{
  ℕ, ◌+◌, ◌^◌, ◌<◌, ◌≤◌, ◌≡◌, ◌≢◌, ap, ◌∙◌, subst, List, [], true, false, ◌&&◌, not, ltb, ◌==◌,
  if◌then◌else◌, set, arith, Bool-cases, inl, inr, count, Ascending, Ascending-count,
}
use cuda_mpqs.Matrix.Singletons.{remove_row}
use cuda_mpqs.Matrix.Singletons.Weights.{remove_row-count, add_row-count}
use cuda_mpqs.Matrix.Weight2.{
  MergeRow, Merge, row_at, push_node, last_node, unregister, unregister_except, register_new,
}
use cuda_mpqs.Matrix.Weight2.Rows.{
  row_at-set_self, row_at-set_ne, contains-count, count-unregister, count-unregister_except,
  count-register_new,
}
use cuda_mpqs.Matrix.Weight2.Index.{IsIndexed}
use cuda_mpqs.Matrix.Weight2.Columns.{IsWeighted, col_total-set, col_total-row}
use cuda_mpqs.Matrix.Higher.{commit_row, delete_pivot}

-- A row is the one that was written, or another.
pub by_one : (P : ℕ → Type 0) (r : ℕ) → P r → ((q : ℕ) → r ≢ q → P q) → (q : ℕ) → P q
by_one P r here other q = elim (Bool-cases (r == q)) [
  | inl same ↦ subst P (ground arith) here
  | inr away ↦ other q (ground arith)
]

-- What the two updates of a commit do to one row and column.
after_commit : ℕ → ℕ → ℕ → ℕ → ℕ → ℕ
after_commit q r n old new =
    (if r == q && (ltb 0 old && not (ltb 0 new)) then 0 else n)
    + (if r == q then (if ltb 0 old then 0 else new) else 0)

after_commit_here :
    (r n old new : ℕ) → n ≡ old → old ≤ 1 → new ≤ 1 → after_commit r r n old new ≡ new
unfolding after_commit
after_commit_here r n old new e h k = ground arith

after_commit_other : (q r n old new : ℕ) → r ≢ q → after_commit q r n old new ≡ n
unfolding after_commit
after_commit_other q r n old new h = ground arith

count-commit :
    (s : Merge) (r q c : ℕ) (new : List ℕ)
    → let old = (row_at s.rows r).cols in
      count q (register_new r old new (unregister_except r new old s.col_rows) c)
      ≡ after_commit q r (count q (s.col_rows c)) (count c old) (count c new)
unfolding after_commit
count-commit s r q c new =
    let old = (row_at s.rows r).cols in
    rw (
      count-register_new q r c old new (unregister_except r new old s.col_rows),
      count-unregister_except q r c new old s.col_rows,
      contains-count c old,
      contains-count c new,
    )

pub commit_row-IsIndexed :
    (s : Merge) (pivot r : ℕ) (new : List ℕ)
    → (row_at s.rows r).alive ≡ true
    → Ascending 0 new
    → IsIndexed s
    → IsIndexed (commit_row s pivot r new)
unfolding commit_row
commit_row-IsIndexed s pivot r new live up v =
    let x = row_at s.rows r in
    let t = push_node s.tree (row_at s.rows pivot).node_of x.node_of in
    let x' : MergeRow = record x { cols = new; node_of = last_node t } in
    let rows' = set s.rows r x' in
    let m = register_new r x.cols new (unregister_except r new x.cols s.col_rows) in
    let here = row_at-set_self s.rows r x' live in
    let other = λ (q : ℕ) (ne : r ≢ q). row_at-set_ne s.rows r q x' ne in
    record {
      sorted =
          by_one (λ q. Ascending 0 (row_at rows' q).cols) r (rw here up)
            (λ q ne. rw (other q ne) (v.sorted q));
      dead =
          by_one (λ q. (row_at rows' q).alive ≡ false → (row_at rows' q).cols ≡ []) r
            (λ d. absurd (cc (ap (λ (y : MergeRow). y.alive) here, live, d)))
            (λ q ne. rw (other q ne) (v.dead q));
      index = λ q c.
          by_one (λ j. count j (m c) ≡ count c (row_at rows' j).cols) r
            (count-commit s r r c new
              ∙ rw here (
                  after_commit_here r _ _ _ (v.index r c) (Ascending-count 0 c x.cols (v.sorted r))
                    (Ascending-count 0 c new up)))
            (λ j ne.
              count-commit s r j c new
              ∙ rw (other j ne) (after_commit_other j r _ _ _ ne ∙ v.index j c))
            q;
    }

pub commit_row-IsWeighted :
    (s : Merge) (pivot r : ℕ) (new : List ℕ)
    → (row_at s.rows r).alive ≡ true
    → ((c : ℕ) → s.weights c + count c new < 2 ^ 32 + count c (row_at s.rows r).cols)
    → IsWeighted s
    → IsWeighted (commit_row s pivot r new)
unfolding commit_row
commit_row-IsWeighted s pivot r new live few w =
    let x = row_at s.rows r in
    let t = push_node s.tree (row_at s.rows pivot).node_of x.node_of in
    let x' : MergeRow = record x { cols = new; node_of = last_node t } in
    let e1 = λ (c : ℕ).
      remove_row-count c x.cols s.weights (omega (arith, w.weighed c, col_total-row c s.rows r))
        (w.fits c) in
    let e2 =
      λ (c : ℕ). add_row-count c new (remove_row x.cols s.weights) (omega (arith, e1 c, few c)) in
    record {
      weighed = λ c. omega (arith, e1 c, e2 c, w.weighed c, col_total-set c s.rows r x' live);
      fits = λ c. omega (arith, e1 c, e2 c, few c);
    }

pub delete_pivot-IsIndexed :
    (s : Merge) (p : ℕ)
    → (row_at s.rows p).alive ≡ true
    → IsIndexed s
    → IsIndexed (delete_pivot s p)
unfolding delete_pivot
delete_pivot-IsIndexed s p live v =
    let x = row_at s.rows p in
    let x' : MergeRow = record x { cols = []; alive = false } in
    let rows' = set s.rows p x' in
    let here = row_at-set_self s.rows p x' live in
    let other = λ (q : ℕ) (ne : p ≢ q). row_at-set_ne s.rows p q x' ne in
    let gone = λ (q c : ℕ). count-unregister q p c x.cols s.col_rows in
    record {
      sorted =
          by_one (λ q. Ascending 0 (row_at rows' q).cols) p (rw here tt)
            (λ q ne. rw (other q ne) (v.sorted q));
      dead =
          by_one (λ q. (row_at rows' q).alive ≡ false → (row_at rows' q).cols ≡ []) p
            (λ d. ap (λ (y : MergeRow). y.cols) here) (λ q ne. rw (other q ne) (v.dead q));
      index = λ q c.
          by_one (λ j. count j (unregister p x.cols s.col_rows c) ≡ count c (row_at rows' j).cols) p
            (gone p c ∙ rw here (ground (arith, v.index p c)))
            (λ j ne. gone j c ∙ rw (other j ne) (ground (arith, v.index j c, ne))) q;
    }

pub delete_pivot-IsWeighted :
    (s : Merge) (p : ℕ)
    → (row_at s.rows p).alive ≡ true
    → IsWeighted s
    → IsWeighted (delete_pivot s p)
unfolding delete_pivot
delete_pivot-IsWeighted s p live w =
    let x = row_at s.rows p in
    let e = λ (c : ℕ).
      remove_row-count c x.cols s.weights (omega (arith, w.weighed c, col_total-row c s.rows p))
        (w.fits c) in
    record {
      weighed = λ c. omega (
        arith,
        e c,
        w.weighed c,
        col_total-set c s.rows p (record x { cols = []; alive = false }) live,
      );
      fits = λ c. omega (arith, e c, w.fits c);
    }
