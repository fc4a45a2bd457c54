-- ===== src/Matrix/Weight2/Sound.antt =====
-- mergeWeight2: the rows that are alive and the leaves below their nodes of the merge tree.
use cuda_mpqs.Prelude.{
  ℕ, zero, suc, ◌+◌, ◌%◌, ◌^◌, ◌<◌, ◌≡◌, ap, ◌∙◌, List, [], ◌∷◌, Bool, true, false, if◌then◌else◌,
  set, length, arith, count, sum_over, sum_over-append, All, length-append,
}
use cuda_mpqs.Matrix.XorRows.{xor_rows, xor_rows-count}
use cuda_mpqs.Matrix.MergeTree.{Node, MergeTree}
use cuda_mpqs.Matrix.MergeTree.Leaves.{IsTree, leaves}
use cuda_mpqs.Matrix.MergeTree.Push.{
  pushed, leaves-depth, pushed-IsTree, leaves-pushed_old, leaves-pushed_new,
}
use cuda_mpqs.Matrix.Weight2.{
  MergeRow, Merge, row_at, dead_row, push_node, last_node, replace_rows, merge_pair,
}

-- How often the column stands in the original rows of a list of leaves.
abbrev pub leaf_count : (ℕ → List ℕ) → ℕ → List ℕ → ℕ
leaf_count orig c ls = sum_over (λ l. count c (orig l)) ls

-- The nodes of the tree so far.
abbrev pub size : MergeTree → ℕ
size t = t.num_leaves + length t.internal_nodes

pub record IsSum (orig : ℕ → List ℕ) (t : MergeTree) (r : MergeRow) : Type 0 where
  pub inside : r.node_of < size t
  pub sum :
      r.alive ≡ true
      → (c : ℕ) → count c r.cols % 2 ≡ leaf_count orig c (leaves (suc r.node_of) t r.node_of) % 2

IsSum-pushed :
    (orig : ℕ → List ℕ) (t : MergeTree) (n : Node) (r : MergeRow)
    → IsTree t
    → IsSum orig t r
    → IsSum orig (pushed t n) r
unfolding pushed
IsSum-pushed orig t n r v s = record {
  inside = omega (arith, s.inside, length-append t.internal_nodes (n ∷ []));
  sum = λ live c. rw (leaves-pushed_old (suc r.node_of) t n r.node_of v s.inside) (s.sum live c);
}

pub IsSum-pushed_rows :
    (orig : ℕ → List ℕ) (t : MergeTree) (n : Node) (rs : List MergeRow)
    → IsTree t
    → All (IsSum orig t) rs
    → All (IsSum orig (pushed t n)) rs
IsSum-pushed_rows orig t n [] v a = tt
IsSum-pushed_rows orig t n (r ∷ rs) v a =
    (IsSum-pushed orig t n r v a.0, IsSum-pushed_rows orig t n rs v a.1)

pub row_at-All :
    (P : MergeRow → Type 0) (rs : List MergeRow) (r : ℕ)
    → All P rs
    → (row_at rs r).alive ≡ true
    → P (row_at rs r)
unfolding row_at
row_at-All P [] r a live = absurd (cc)
row_at-All P (x ∷ rs) zero a live = a.0
row_at-All P (x ∷ rs) (suc r) a live = row_at-All P rs r a.1 live

pub set-All :
    (P : MergeRow → Type 0) (rs : List MergeRow) (r : ℕ) (v : MergeRow)
    → All P rs
    → P v
    → All P (set rs r v)
set-All P [] r v a p = tt
set-All P (x ∷ rs) zero v a p = (p, a.1)
set-All P (x ∷ rs) (suc r) v a p = (a.0, set-All P rs r v a.1 p)

-- The merged row is the sum of what stands below the two nodes.
pub merged_sum :
    (orig : ℕ → List ℕ) (t : MergeTree) (a b : MergeRow)
    → IsTree t
    → IsSum orig t a
    → IsSum orig t b
    → a.alive ≡ true
    → b.alive ≡ true
    → size t + 1 < 2 ^ 32
    → (c : ℕ)
    → let t' = pushed t (record { left = a.node_of; right = b.node_of }) in
      count c (xor_rows a.cols b.cols) % 2
      ≡ leaf_count orig c (leaves (suc (size t)) t' (size t)) % 2
merged_sum orig t a b v sa sb la lb fits c =
    let n : Node = record { left = a.node_of; right = b.node_of } in
    let below = λ (r : MergeRow) (s : IsSum orig t r).
      leaves-pushed_old (size t) t n r.node_of v s.inside
      ∙ leaves-depth (size t) (suc r.node_of) t r.node_of v s.inside s.inside (omega arith) in
    rw (leaves-pushed_new (size t) t n, below a sa, below b sb)
      (omega (
        arith,
        xor_rows-count c a.cols b.cols,
        sa.sum la c,
        sb.sum lb c,
        sum_over-append (λ l. count c (orig l)) (leaves (suc b.node_of) t b.node_of)
            (leaves (suc a.node_of) t a.node_of),
      ))

-- How many rows are alive.
unfoldable pub alive_total : List MergeRow → ℕ
alive_total [] = 0
alive_total (r ∷ rs) = (if r.alive then 1 else 0) + alive_total rs

pub alive_total-set :
    (rs : List MergeRow) (r : ℕ) (v : MergeRow)
    → (row_at rs r).alive ≡ true
    → alive_total (set rs r v) + 1 ≡ alive_total rs + (if v.alive then 1 else 0)
unfolding row_at alive_total
alive_total-set [] r v live = absurd (cc)
alive_total-set (x ∷ rs) zero v live = ground arith
alive_total-set (x ∷ rs) (suc r) v live = omega (arith, alive_total-set rs r v live)

pub row_at-set :
    (rs : List MergeRow) (r q : ℕ) (v : MergeRow)
    → v.alive ≡ true
    → (row_at rs r).alive ≡ true
    → (row_at rs q).alive ≡ true
    → (row_at (set rs r v) q).alive ≡ true
unfolding row_at
row_at-set [] r q v lv lr lq = lq
row_at-set (x ∷ rs) zero zero v lv lr lq = lv
row_at-set (x ∷ rs) zero (suc q) v lv lr lq = lq
row_at-set (x ∷ rs) (suc r) zero v lv lr lq = lq
row_at-set (x ∷ rs) (suc r) (suc q) v lv lr lq = row_at-set rs r q v lv lr lq

-- What the loop keeps; each merge uses up a row that is alive, which bounds the tree.
pub record IsMerged (orig : ℕ → List ℕ) (total : ℕ) (s : Merge) : Type 0 where
  pub tree : IsTree s.tree
  pub sums : All (IsSum orig s.tree) s.rows
  pub room : length s.tree.internal_nodes + alive_total s.rows ≡ total
  pub bound : s.tree.num_leaves + total < 2 ^ 32
  pub counted : s.merges ≡ length s.tree.internal_nodes

alive_unit : Bool → ℕ
alive_unit b = if b then 1 else 0

pub merge_pair-IsMerged :
    (orig : ℕ → List ℕ) (total : ℕ) (s : Merge) (r1 r2 : ℕ)
    → (row_at s.rows r1).alive ≡ true
    → (row_at s.rows r2).alive ≡ true
    → IsMerged orig total s
    → IsMerged orig total (merge_pair s r1 r2)
unfolding merge_pair push_node replace_rows last_node pushed alive_unit
merge_pair-IsMerged orig total s r1 r2 l1 l2 v =
    let a = row_at s.rows r1 in
    let b = row_at s.rows r2 in
    let sa = row_at-All (IsSum orig s.tree) s.rows r1 v.sums l1 in
    let sb = row_at-All (IsSum orig s.tree) s.rows r2 v.sums l2 in
    let n : Node = record { left = a.node_of; right = b.node_of } in
    let t' = pushed s.tree n in
    let more = length-append s.tree.internal_nodes (n ∷ []) in
    let one = alive_total-set s.rows r1 dead_row l1 in
    let fits : size s.tree + 1 < 2 ^ 32 = omega (arith, v.room, v.bound, one) in
    let last : last_node t' ≡ size s.tree = omega (arith, more, fits) in
    let merged : MergeRow = record a { cols = xor_rows a.cols b.cols; node_of = last_node t' } in
    let rows1 = set s.rows r1 merged in
    let live2 = row_at-set s.rows r1 r2 merged l1 l1 l2 in
    let old = IsSum-pushed_rows orig s.tree n s.rows v.tree v.sums in
    let new : IsSum orig t' merged = record {
      inside = omega (arith, last, more);
      sum = λ live c. rw last (merged_sum orig s.tree a b v.tree sa sb l1 l2 fits c);
    } in
    let all1 = set-All (IsSum orig t') s.rows r1 merged old new in
    let b1 = row_at-All (IsSum orig t') rows1 r2 all1 live2 in
    record {
      tree = pushed-IsTree s.tree n v.tree sa.inside sb.inside fits;
      sums =
          set-All (IsSum orig t') rows1 r2 _ all1
            (record { inside = b1.inside; sum = λ live. absurd (cc) });
      room = omega (
        arith,
        more,
        v.room,
        alive_total-set s.rows r1 merged l1,
        alive_total-set rows1 r2 (record (row_at rows1 r2) { cols = []; alive = false }) live2,
        ap alive_unit l1,
      );
      bound = v.bound;
      counted = omega (arith, more, v.counted);
    }
