-- ===== src/Matrix/Weight2/Loop.antt =====
-- mergeWeight2: the rounds of the loop.
use cuda_mpqs.Prelude.{
  ℕ, zero, suc, ◌+◌, ◌-◌, ◌*◌, ◌<◌, ◌≤◌, ◌≡◌, ◌≢◌, refl, sym, ap, ◌∙◌, subst, List, [], ◌∷◌, Option,
  none, some, ◌==◌, length, arith, Bool-cases, inl, inr, count, Ascending-mono, length-append,
  Ascending,
}
use cuda_mpqs.Matrix.Weight2.{
  Merge, row_at, next_alive, second_alive, push_node, merge_pair, merge_found, merge_column,
  merge_loop,
}
use cuda_mpqs.Matrix.Weight2.Sound.{alive_total, IsMerged, merge_pair-IsMerged}
use cuda_mpqs.Matrix.Weight2.Index.{IsIndexed, merge_pair-IsIndexed}
use cuda_mpqs.Matrix.Weight2.Pair.{
  Pair, second_alive-Pair, Pair-alive, Pair-distinct, Pair-left, second_alive_found,
}
use cuda_mpqs.Matrix.Weight2.Columns.{IsWeighted, merge_pair-IsWeighted}
use cuda_mpqs.Matrix.Weight2.Queue.{IsBounded, merge_pair-IsBounded, merge_pair-IsQueued}
use cuda_mpqs.Matrix.Weight2.Start.{IsReducing}

-- The same with one column taken out of the set.
record IsPopped (orig : ℕ → List ℕ) (total n_cols c : ℕ) (s : Merge) : Type 0 where
  merged : IsMerged orig total s
  indexed : IsIndexed s
  weighted : IsWeighted s
  bounded : IsBounded n_cols s
  queued : (d : ℕ) → s.weights d ≡ 2 → d ≢ c → 1 ≤ count d s.w2_cols

pop-IsPopped :
    (orig : ℕ → List ℕ) (total n c : ℕ) (s : Merge) (rest : List ℕ)
    → s.w2_cols ≡ c ∷ rest
    → IsReducing orig total n s
    → IsPopped orig total n c (record s { w2_cols = rest })
pop-IsPopped orig total n c s rest e v =
    let parts : (d : ℕ) → count d s.w2_cols ≡ count d (c ∷ rest) = λ d. ap (count d) e in
    let sorted = subst (Ascending 0) e v.bounded.ascending in
    record {
      merged = record {
        tree = v.merged.tree;
        sums = v.merged.sums;
        room = v.merged.room;
        bound = v.merged.bound;
        counted = v.merged.counted;
      };
      indexed = record {
        sorted = v.indexed.sorted;
        dead = v.indexed.dead;
        index = v.indexed.index;
      };
      weighted = record { weighed = v.weighted.weighed; fits = v.weighted.fits };
      bounded = record {
        cols = v.bounded.cols;
        queue = λ d h. v.bounded.queue d (omega (arith, parts d, h));
        ascending = Ascending-mono (suc c) 0 rest (omega arith) sorted.1;
      };
      queued = λ d two ne. ground (arith, parts d, v.queued d two, ne);
    }

-- What a merge leaves behind: all invariants, and one row fewer that is alive.
record IsRound (orig : ℕ → List ℕ) (total n_cols alive : ℕ) (s : Merge) : Type 0 where
  reducing : IsReducing orig total n_cols s
  fewer : alive_total s.rows + 1 ≡ alive

absent : (c d : ℕ) (xs : List ℕ) → d ≡ c → count d xs ≡ 0 → 1 ≤ count c xs → ⊥
absent c d xs e z h = let z' = subst (λ k. count k xs ≡ 0) e z in omega (arith, z', h)

length-merged :
    (s : Merge) (r1 r2 : ℕ)
    → length (merge_pair s r1 r2).tree.internal_nodes ≡ length s.tree.internal_nodes + 1
unfolding merge_pair push_node
length-merged s r1 r2 = length-append s.tree.internal_nodes _

merge_pair-IsRound :
    (orig : ℕ → List ℕ) (total n c r1 r2 : ℕ) (s : Merge)
    → Pair s.rows (s.col_rows c) r1 r2
    → IsPopped orig total n c s
    → IsRound orig total n (alive_total s.rows) (merge_pair s r1 r2)
merge_pair-IsRound orig total n c r1 r2 s p v =
    let (l1, l2) = Pair-alive s.rows (s.col_rows c) r1 r2 p in
    let ne = Pair-distinct s c r1 r2 v.indexed p in
    let merged = merge_pair-IsMerged orig total s r1 r2 l1 l2 v.merged in
    let here = Pair-left s c r1 r2 v.indexed p in
    record {
      reducing = record {
        merged = merged;
        indexed = merge_pair-IsIndexed s r1 r2 ne l1 l2 v.indexed;
        weighted = merge_pair-IsWeighted s r1 r2 ne l1 l2 v.indexed v.weighted;
        bounded = merge_pair-IsBounded n s r1 r2 ne l1 l2 v.indexed v.bounded;
        queued =
            merge_pair-IsQueued s r1 r2 ne v.indexed v.weighted
              (λ d two z. v.queued d two (λ e. absent c d (row_at s.rows r1).cols e z here));
      };
      fewer = omega (arith, merged.room, v.merged.room, length-merged s r1 r2);
    }

-- The fuel that a state needs.
unfoldable pub measure : ℕ → Merge → ℕ
measure n s = alive_total s.rows * (n + 1) + length s.w2_cols

Ascending-length :
    (n lo : ℕ) (xs : List ℕ)
    → Ascending lo xs
    → ((c : ℕ) → 1 ≤ count c xs → c < n)
    → length xs ≤ n - lo
Ascending-length n lo [] a h = omega arith
Ascending-length n lo (x ∷ xs) a h =
    let ih = Ascending-length n (suc x) xs a.1 (λ c k. h c (omega arith)) in
    let here = h x (ground arith) in omega (arith, ih, here, a.0)

-- Fuel for a full set after each merge is enough.
pub measure-bound :
    (orig : ℕ → List ℕ) (total n : ℕ) (s : Merge)
    → IsReducing orig total n s
    → measure n s ≤ (total + 1) * (n + 1)
unfolding measure
measure-bound orig total n s v =
    let small = Ascending-length n 0 s.w2_cols v.bounded.ascending v.bounded.queue in
    let few : alive_total s.rows ≤ total = omega (arith, v.merged.room) in grind (arith, small, few)

-- A merge frees the fuel for a full set.
merged-measure :
    (orig : ℕ → List ℕ) (total n alive k : ℕ) (s : Merge)
    → IsRound orig total n alive s
    → measure n s < alive * (n + 1) + suc k
unfolding measure
merged-measure orig total n alive k s r =
    let small =
      Ascending-length n 0 s.w2_cols r.reducing.bounded.ascending r.reducing.bounded.queue in
    let e : alive * (n + 1) ≡ alive_total s.rows * (n + 1) + (n + 1) =
      rw (sym r.fewer) (grind arith) in
    omega (arith, small, e)

-- What one round does.
record IsStep (orig : ℕ → List ℕ) (total n_cols fuel : ℕ) (s : Merge) : Type 0 where
  reducing : IsReducing orig total n_cols s
  less : measure n_cols s < fuel

-- A round that finds its pair, and one that finds a stale column.
found-IsStep :
    (orig : ℕ → List ℕ) (total n c : ℕ) (s : Merge)
    → IsPopped orig total n c s
    → s.weights c ≡ 2
    → (o : Option (ℕ × ℕ)) → second_alive s.rows (next_alive s.rows (s.col_rows c)) ≡ o
    → IsStep orig total n (alive_total s.rows * (n + 1) + suc (length s.w2_cols)) (merge_found s o)
found-IsStep orig total n c s v two none e =
    absurd (second_alive_found s c v.indexed (omega (arith, v.weighted.weighed c, two)) e)
found-IsStep orig total n c s v two (some (r1, r2)) e =
    let round =
      merge_pair-IsRound orig total n c r1 r2 s (second_alive-Pair s.rows (s.col_rows c) r1 r2 e)
        v in
    record {
      reducing = round.reducing;
      less = merged-measure orig total n (alive_total s.rows) (length s.w2_cols) _ round;
    }

stale-IsStep :
    (orig : ℕ → List ℕ) (total n c : ℕ) (s : Merge)
    → IsPopped orig total n c s
    → s.weights c ≢ 2
    → IsStep orig total n (alive_total s.rows * (n + 1) + suc (length s.w2_cols)) s
unfolding measure
stale-IsStep orig total n c s v no_two = record {
  reducing = record {
    merged = v.merged;
    indexed = v.indexed;
    weighted = v.weighted;
    bounded = v.bounded;
    queued = λ d two. v.queued d two (λ e. no_two (subst (λ k. s.weights k ≡ 2) e two));
  };
  less = omega arith;
}

merge_column-IsStep :
    (orig : ℕ → List ℕ) (total n c : ℕ) (s : Merge) (rest : List ℕ)
    → s.w2_cols ≡ c ∷ rest
    → IsReducing orig total n s
    → IsStep orig total n (measure n s) (merge_column s c rest)
unfolding merge_column measure
merge_column-IsStep orig total n c s rest e v =
    let s' : Merge = record s { w2_cols = rest } in
    let p = pop-IsPopped orig total n c s rest e v in
    elim (Bool-cases (s.weights c == 2)) [
      | inl two ↦ rw (two, ap length e) (found-IsStep orig total n c s' p (ground arith) _ refl)
      | inr no' ↦ rw (no', ap length e) (stale-IsStep orig total n c s' p (ground arith))
    ]

-- The loop ends, with every invariant and an empty set.
pub record IsReduced (orig : ℕ → List ℕ) (total n_cols : ℕ) (s : Merge) : Type 0 where
  pub reducing : IsReducing orig total n_cols s
  pub no_two : (c : ℕ) → s.weights c ≢ 2

pub merge_loop-ends :
    (orig : ℕ → List ℕ) (total n fuel : ℕ) (s : Merge) (w2 : List ℕ)
    → s.w2_cols ≡ w2
    → IsReducing orig total n s
    → measure n s ≤ fuel
    → (r : Merge) × (merge_loop fuel s w2 ≡ some r) × IsReduced orig total n r
unfolding merge_loop
merge_loop-ends orig total n fuel s [] e v h = (
  s,
  refl,
  record { reducing = v; no_two = λ c two. omega (arith, v.queued c two, ap (count c) e) },
)
merge_loop-ends orig total n zero s (c ∷ rest) e v h =
    absurd (unfold measure in omega (arith, h, ap length e))
merge_loop-ends orig total n (suc fuel) s (c ∷ rest) e v h =
    let step = merge_column-IsStep orig total n c s rest e v in
    merge_loop-ends orig total n fuel (merge_column s c rest) _ refl step.reducing
      (omega (arith, h, step.less))

merge_pair-num_leaves :
    (s : Merge) (r1 r2 : ℕ) → (merge_pair s r1 r2).tree.num_leaves ≡ s.tree.num_leaves
unfolding merge_pair push_node
merge_pair-num_leaves s r1 r2 = refl

merge_found-num_leaves :
    (s : Merge) (o : Option (ℕ × ℕ)) → (merge_found s o).tree.num_leaves ≡ s.tree.num_leaves
merge_found-num_leaves s none = refl
merge_found-num_leaves s (some (r1, r2)) = merge_pair-num_leaves s r1 r2

merge_column-num_leaves :
    (s : Merge) (c : ℕ) (rest : List ℕ)
    → (merge_column s c rest).tree.num_leaves ≡ s.tree.num_leaves
unfolding merge_column
merge_column-num_leaves s c rest = elim (Bool-cases (s.weights c == 2)) [
  | inl two ↦ rw two (
      merge_found-num_leaves (record s { w2_cols = rest })
        (second_alive s.rows (next_alive s.rows (s.col_rows c))))
  | inr other ↦ rw other refl
]

-- The loop adds no leaves.
pub merge_loop-num_leaves :
    (fuel : ℕ) (s : Merge) (w2 : List ℕ) (r : Merge)
    → merge_loop fuel s w2 ≡ some r
    → r.tree.num_leaves ≡ s.tree.num_leaves
unfolding merge_loop
merge_loop-num_leaves fuel s [] r e = ap (λ (x : Merge). x.tree.num_leaves) (same r e)
  where
    same : (x : Merge) → ◌≡◌ {A = Option Merge} (some s) (some x) → x ≡ s
    same x e' = cc
merge_loop-num_leaves zero s (c ∷ rest) r e = absurd (cc)
merge_loop-num_leaves (suc fuel) s (c ∷ rest) r e =
    merge_loop-num_leaves fuel (merge_column s c rest) _ r e ∙ merge_column-num_leaves s c rest
