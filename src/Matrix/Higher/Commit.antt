-- ===== src/Matrix/Higher/Commit.antt =====
-- mergeHigherWeight: a plan is committed row by row, and the pivot is deleted.
use cuda_mpqs.Prelude.{
  ℕ, zero, suc, ◌+◌, ◌^◌, ◌<◌, ◌≤◌, ◌≡◌, ◌≢◌, ◌⊎◌, inl, inr, refl, sym, ap, ◌∙◌, subst, List, [],
  ◌∷◌, map, true, false, set, length, arith, count, All, length-append, Ascending-count, Ascending,
  Bool-cases,
}
use cuda_mpqs.Matrix.XorRows.{xor_rows, xor_rows-Ascending}
use cuda_mpqs.Matrix.MergeTree.{Node}
use cuda_mpqs.Matrix.MergeTree.Leaves.{IsTree}
use cuda_mpqs.Matrix.MergeTree.Push.{pushed, pushed-IsTree}
use cuda_mpqs.Matrix.Weight2.{MergeRow, Merge, row_at, push_node, last_node}
use cuda_mpqs.Matrix.Weight2.Rows.{row_at-set_self, row_at-set_ne}
use cuda_mpqs.Matrix.Weight2.Sound.{
  size, IsSum, IsSum-pushed_rows, row_at-All, set-All, merged_sum, alive_total, alive_total-set,
}
use cuda_mpqs.Matrix.Weight2.Index.{IsIndexed}
use cuda_mpqs.Matrix.Weight2.Columns.{IsWeighted, xor_rows-once, col_total-set}
use cuda_mpqs.Matrix.Weight2.Pair.{col_total}
use cuda_mpqs.Matrix.Higher.{commit_row, commit_all, delete_pivot}
use cuda_mpqs.Matrix.Higher.Index.{
  by_one, commit_row-IsIndexed, commit_row-IsWeighted, delete_pivot-IsIndexed,
  delete_pivot-IsWeighted,
}

-- What every step keeps, with room for `room` more nodes.
pub record IsReady (orig : ℕ → List ℕ) (n_cols room : ℕ) (s : Merge) : Type 0 where
  pub tree : IsTree s.tree
  pub sums : All (IsSum orig s.tree) s.rows
  pub indexed : IsIndexed s
  pub weighted : IsWeighted s
  pub bounded : (r c : ℕ) → 1 ≤ count c (row_at s.rows r).cols → c < n_cols
  pub fits : size s.tree + room < 2 ^ 32
  pub few : alive_total s.rows < 2 ^ 32

pub IsReady-less :
    (orig : ℕ → List ℕ) (n a b : ℕ) (s : Merge) → b ≤ a → IsReady orig n a s → IsReady orig n b s
IsReady-less orig n a b s le v = record {
  tree = v.tree;
  sums = v.sums;
  indexed = v.indexed;
  weighted = v.weighted;
  bounded = v.bounded;
  fits = omega (arith, v.fits);
  few = v.few;
}

commit_row-sums :
    (orig : ℕ → List ℕ) (n room : ℕ) (s : Merge) (p r : ℕ)
    → (row_at s.rows p).alive ≡ true
    → (row_at s.rows r).alive ≡ true
    → IsReady orig n (suc room) s
    → let s' = commit_row s p r (xor_rows (row_at s.rows p).cols (row_at s.rows r).cols) in
      IsTree s'.tree × All (IsSum orig s'.tree) s'.rows × (size s'.tree + room < 2 ^ 32)
unfolding commit_row push_node last_node pushed
commit_row-sums orig n room s p r lp lr v =
    let a = row_at s.rows p in
    let b = row_at s.rows r in
    let sa = row_at-All (IsSum orig s.tree) s.rows p v.sums lp in
    let sb = row_at-All (IsSum orig s.tree) s.rows r v.sums lr in
    let node : Node = record { left = a.node_of; right = b.node_of } in
    let t' = pushed s.tree node in
    let more = length-append s.tree.internal_nodes (node ∷ []) in
    let fits : size s.tree + 1 < 2 ^ 32 = omega (arith, v.fits) in
    let last : last_node t' ≡ size s.tree = omega (arith, more, fits) in
    let merged : MergeRow = record b { cols = xor_rows a.cols b.cols; node_of = last_node t' } in
    let new : IsSum orig t' merged = record {
      inside = omega (arith, last, more);
      sum = λ live c. rw last (merged_sum orig s.tree a b v.tree sa sb lp lr fits c);
    } in
    (
      pushed-IsTree s.tree node v.tree sa.inside sb.inside fits,
      set-All (IsSum orig t') s.rows r merged
          (IsSum-pushed_rows orig s.tree node s.rows v.tree v.sums) new,
      omega (arith, more, v.fits),
    )

at_least : (a b : ℕ) → 1 ≤ a + b → (1 ≤ a) ⊎ (1 ≤ b)
at_least zero b h = inr (omega arith)
at_least (suc a) b h = inl (omega arith)

commit_row-bounded :
    (orig : ℕ → List ℕ) (n room : ℕ) (s : Merge) (p r : ℕ)
    → (row_at s.rows r).alive ≡ true
    → IsReady orig n room s
    → let s' = commit_row s p r (xor_rows (row_at s.rows p).cols (row_at s.rows r).cols) in
      (q c : ℕ) → 1 ≤ count c (row_at s'.rows q).cols → c < n
unfolding commit_row
commit_row-bounded orig n room s p r lr v q c =
    let a = row_at s.rows p in
    let b = row_at s.rows r in
    let few = xor_rows-once c a.cols b.cols (v.indexed.sorted p) (v.indexed.sorted r) in
    let inside : 1 ≤ count c (xor_rows a.cols b.cols) → c < n = λ h.
      elim (at_least (count c a.cols) (count c b.cols) (omega (arith, few, h))) [
        | inl left ↦ v.bounded p c left
        | inr right ↦ v.bounded r c right
      ] in
    let t = push_node s.tree a.node_of b.node_of in
    let b' : MergeRow = record b { cols = xor_rows a.cols b.cols; node_of = last_node t } in
    by_one (λ j. 1 ≤ count c (row_at (set s.rows r b') j).cols → c < n) r
      (rw (row_at-set_self s.rows r b' lr) inside)
      (λ j ne. rw (row_at-set_ne s.rows r j b' ne) (v.bounded j c)) q

commit_row-alive_total :
    (s : Merge) (p r : ℕ) (new : List ℕ)
    → (row_at s.rows r).alive ≡ true
    → alive_total (commit_row s p r new).rows ≡ alive_total s.rows
unfolding commit_row
commit_row-alive_total s p r new live =
    let x' : MergeRow = record (row_at s.rows r) {
      cols = new;
      node_of = last_node (push_node s.tree (row_at s.rows p).node_of (row_at s.rows r).node_of);
    } in
    ground (arith, alive_total-set s.rows r x' live, live)

-- A column stands at most once in each row that is alive.
col_total-le-alive_total :
    (c : ℕ) (rows : List MergeRow)
    → ((r : ℕ) → Ascending 0 (row_at rows r).cols)
    → ((r : ℕ) → (row_at rows r).alive ≡ false → (row_at rows r).cols ≡ [])
    → col_total c rows ≤ alive_total rows
unfolding col_total alive_total row_at
col_total-le-alive_total c [] up dead = omega arith
col_total-le-alive_total c (x ∷ rs) up dead =
    let ih = col_total-le-alive_total c rs (λ r. up (suc r)) (λ r. dead (suc r)) in
    elim (Bool-cases x.alive) [
      | inl live ↦ rw live (omega (arith, ih, Ascending-count 0 c x.cols (up 0)))
      | inr gone ↦ rw (gone, dead 0 gone) (omega (arith, ih))
    ]

-- The new weight is one of the rows, which are fewer than 2^32.
commit_row-weight :
    (s : Merge) (p r c : ℕ) (new : List ℕ)
    → (row_at s.rows r).alive ≡ true
    → IsIndexed (commit_row s p r new)
    → IsWeighted s
    → alive_total s.rows < 2 ^ 32
    → s.weights c + count c new < 2 ^ 32 + count c (row_at s.rows r).cols
commit_row-weight s p r c new live v w few =
    let rows' = (commit_row s p r new).rows in
    let bound = col_total-le-alive_total c rows' v.sorted v.dead in
    let moved : col_total c rows' + count c (row_at s.rows r).cols
        ≡ col_total c s.rows + count c new =
      unfold commit_row in col_total-set c s.rows r _ live in
    omega (arith, bound, moved, w.weighed c, commit_row-alive_total s p r new live)

pub commit_row-IsReady :
    (orig : ℕ → List ℕ) (n room : ℕ) (s : Merge) (p r : ℕ)
    → (row_at s.rows p).alive ≡ true
    → (row_at s.rows r).alive ≡ true
    → IsReady orig n (suc room) s
    → IsReady orig n room
        (commit_row s p r (xor_rows (row_at s.rows p).cols (row_at s.rows r).cols))
commit_row-IsReady orig n room s p r lp lr v =
    let a = (row_at s.rows p).cols in
    let b = (row_at s.rows r).cols in
    let new = xor_rows a b in
    let up = xor_rows-Ascending 0 a b (v.indexed.sorted p) (v.indexed.sorted r) in
    let (tree, sums, fits) = commit_row-sums orig n room s p r lp lr v in
    let indexed = commit_row-IsIndexed s p r new lr up v.indexed in
    record {
      tree = tree;
      sums = sums;
      indexed = indexed;
      weighted =
          commit_row-IsWeighted s p r new lr
            (λ c. commit_row-weight s p r c new lr indexed v.weighted v.few) v.weighted;
      bounded = commit_row-bounded orig n (suc room) s p r lr v;
      fits = fits;
      few = omega (arith, commit_row-alive_total s p r new lr, v.few);
    }

-- An entry of the plan, with the rows as they are.
abbrev pub IsPlanned : List MergeRow → ℕ → ℕ × List ℕ → Type 0
IsPlanned rows p e =
    (p ≢ e.0)
    × ((row_at rows e.0).alive ≡ true)
    × (e.1 ≡ xor_rows (row_at rows p).cols (row_at rows e.0).cols)

abbrev pub plan_rows : List (ℕ × List ℕ) → List ℕ
plan_rows plan = map (λ e. e.0) plan

pub commit_row-rows :
    (s : Merge) (p r q : ℕ) (new : List ℕ)
    → r ≢ q
    → row_at (commit_row s p r new).rows q ≡ row_at s.rows q
unfolding commit_row
commit_row-rows s p r q new ne = row_at-set_ne s.rows r q _ ne

-- The entries for other rows stay as they are.
pub plan_kept :
    (s : Merge) (p r : ℕ) (new : List ℕ) (plan : List (ℕ × List ℕ))
    → p ≢ r
    → count r (plan_rows plan) ≡ 0
    → All (IsPlanned s.rows p) plan
    → All (IsPlanned (commit_row s p r new).rows p) plan
plan_kept s p r new [] ne z a = tt
plan_kept s p r new ((q, new') ∷ plan) ne z a =
    let other : r ≢ q = λ e. ground arith in
    (
      rw (commit_row-rows s p r q new other, commit_row-rows s p r p new (λ e. ne (sym e))) (a.0),
      plan_kept s p r new plan ne (omega arith) a.1,
    )

-- What holds when the plan is carried out.
pub record IsCommitted (orig : ℕ → List ℕ) (n room alive p : ℕ) (s : Merge) : Type 0 where
  pub ready : IsReady orig n room s
  pub pivot : (row_at s.rows p).alive ≡ true
  pub as_many : alive_total s.rows ≡ alive

pub commit_all-IsCommitted :
    (orig : ℕ → List ℕ) (n room p : ℕ) (plan : List (ℕ × List ℕ)) (s : Merge)
    → ((q : ℕ) → count q (plan_rows plan) ≤ 1)
    → All (IsPlanned s.rows p) plan
    → (row_at s.rows p).alive ≡ true
    → IsReady orig n (length plan + room) s
    → IsCommitted orig n room (alive_total s.rows) p (commit_all s p plan)
unfolding commit_all
commit_all-IsCommitted orig n room p [] s once a live v = record {
  ready = IsReady-less orig n _ room s (omega arith) v;
  pivot = live;
  as_many = refl;
}
commit_all-IsCommitted orig n room p ((r, new) ∷ plan) s once a live v =
    let ne = a.0.0 in
    let s' = commit_row s p r new in
    let v' : IsReady orig n (length plan + room) s' = rw (a.0.2) (
      commit_row-IsReady orig n (length plan + room) s p r live (a.0.1)
        (IsReady-less orig n _ (suc (length plan + room)) s (omega arith) v)) in
    let kept = commit_row-rows s p r p new (λ e. ne (sym e)) in
    subst (λ k. IsCommitted orig n room k p (commit_all s' p plan))
      (commit_row-alive_total s p r new (a.0.1))
      (commit_all-IsCommitted orig n room p plan s' (λ q. omega (arith, once q))
        (plan_kept s p r new plan ne (ground (arith, once r)) (a.1))
        (ap (λ (x : MergeRow). x.alive) kept ∙ live) v')

delete_pivot-alive_total :
    (s : Merge) (p : ℕ)
    → (row_at s.rows p).alive ≡ true
    → alive_total (delete_pivot s p).rows + 1 ≡ alive_total s.rows
unfolding delete_pivot
delete_pivot-alive_total s p live =
    omega
      (arith, alive_total-set s.rows p (record (row_at s.rows p) { cols = []; alive = false }) live)

pub delete_pivot-IsReady :
    (orig : ℕ → List ℕ) (n room : ℕ) (s : Merge) (p : ℕ)
    → (row_at s.rows p).alive ≡ true
    → IsReady orig n room s
    → IsReady orig n room (delete_pivot s p)
      × (alive_total (delete_pivot s p).rows + 1 ≡ alive_total s.rows)
delete_pivot-IsReady orig n room s p live v =
    let fewer = delete_pivot-alive_total s p live in
    (
      record {
        tree = unfold delete_pivot in v.tree;
        sums =
            unfold delete_pivot in
            (let x = row_at-All (IsSum orig s.tree) s.rows p v.sums live in
              set-All (IsSum orig s.tree) s.rows p _ v.sums
                (record { inside = x.inside; sum = λ live. absurd (cc) }));
        indexed = delete_pivot-IsIndexed s p live v.indexed;
        weighted = delete_pivot-IsWeighted s p live v.weighted;
        bounded =
            unfold delete_pivot in
            (λ q c.
              let x' : MergeRow = record (row_at s.rows p) { cols = []; alive = false } in
              by_one (λ j. 1 ≤ count c (row_at (set s.rows p x') j).cols → c < n) p
                (rw (row_at-set_self s.rows p x' live) (λ h. absurd (omega arith)))
                (λ j ne. rw (row_at-set_ne s.rows p j x' ne) (v.bounded j c)) q);
        fits = unfold delete_pivot in v.fits;
        few = omega (arith, fewer, v.few);
      },
      fewer,
    )
