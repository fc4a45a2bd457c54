-- ===== src/Matrix/Higher/Loop.antt =====
-- mergeHigherWeight: the elimination of a column, and the passes over the columns.
use cuda_mpqs.Prelude.{
  ℕ, zero, suc, ◌+◌, ◌-◌, ◌*◌, ◌<◌, ◌≤◌, ◌≡◌, refl, ap, List, [], ◌∷◌, Option, none, some, true,
  ltb, ◌==◌, get_or, length, arith, count, Bool-cases, inl, inr, drop, Ascending-count, length-drop,
}
use cuda_mpqs.Matrix.Weight2.{Merge, row_at}
use cuda_mpqs.Matrix.Weight2.Sound.{alive_total}
use cuda_mpqs.Matrix.Higher.{
  alive_only, lightest, plan_xors, commit_row, commit_all, delete_pivot, apply_plan, eliminate_rows,
  eliminate, eliminate_all, target_cols, weight_loop,
}
use cuda_mpqs.Matrix.Higher.Commit.{
  IsReady, IsReady-less, commit_all-IsCommitted, delete_pivot-IsReady,
}
use cuda_mpqs.Matrix.Higher.Plan.{
  AllAlive, alive_only-AllAlive, alive_only-count, alive_only-length, lightest-lt, get_or-twice,
  pivot-alive, PivotOnly, IsPlan, plan_xors-IsPlan, length-le-col_total,
}

-- What the passes keep: each row that is alive leaves room for `k_max` nodes, and each elimination uses up
-- a row.
pub record IsHigher (orig : ℕ → List ℕ) (n_cols k_max total : ℕ) (s : Merge) : Type 0 where
  pub ready : IsReady orig n_cols (alive_total s.rows * k_max) s
  pub removed : s.merges + alive_total s.rows ≡ total

pub commit_all-merges :
    (s : Merge) (p : ℕ) (plan : List (ℕ × List ℕ)) → (commit_all s p plan).merges ≡ s.merges
unfolding commit_all
commit_all-merges s p [] = refl
commit_all-merges s p ((r, new) ∷ plan) = commit_all-merges (commit_row s p r new) p plan

pub delete_pivot-merges : (s : Merge) (p : ℕ) → (delete_pivot s p).merges ≡ s.merges + 1
unfolding delete_pivot
delete_pivot-merges s p = refl

one_less : (a k : ℕ) → 1 ≤ a → a * k ≡ k + (a - 1) * k
one_less zero k h = absurd (omega arith)
one_less (suc a) k h = let e : suc a - 1 ≡ a = omega arith in rw e (grind arith)

-- A plan of at most `k_max` entries is carried out.
carry_out :
    (orig : ℕ → List ℕ) (n k_max total p : ℕ) (s : Merge) (rs : List ℕ) (plan : List (ℕ × List ℕ))
    → (row_at s.rows p).alive ≡ true
    → ((q : ℕ) → count q rs ≤ 1)
    → length rs ≤ k_max
    → IsPlan s.rows p rs plan
    → IsHigher orig n k_max total s
    → IsHigher orig n k_max total (delete_pivot (commit_all s p plan) p)
carry_out orig n k_max total p s rs plan live once few k v =
    let t = commit_all s p plan in
    let a = alive_total s.rows in
    let b = alive_total (delete_pivot t p).rows in
    let pos : 1 ≤ a = omega (arith, (delete_pivot-IsReady orig n (a * k_max) s p live v.ready).1) in
    let split : a * k_max ≡ k_max + (a - 1) * k_max = one_less a k_max pos in
    let done =
      commit_all-IsCommitted orig n ((a - 1) * k_max) p plan s
        (λ q. omega (arith, k.counts q, once q)) k.planned live
        (IsReady-less orig n (a * k_max) (length plan + (a - 1) * k_max) s
          (omega (arith, split, k.entries, few)) v.ready) in
    let (ready, fewer) = delete_pivot-IsReady orig n ((a - 1) * k_max) t p done.pivot done.ready in
    let left : b ≡ a - 1 = omega (arith, fewer, done.as_many) in
    record {
      ready = rw left ready;
      removed =
          omega (arith, delete_pivot-merges t p, commit_all-merges s p plan, left, pos, v.removed);
    }

apply_plan-IsHigher :
    (orig : ℕ → List ℕ) (n k_max total p : ℕ) (s : Merge) (rs : List ℕ)
    → (row_at s.rows p).alive ≡ true
    → ((q : ℕ) → count q rs ≤ 1)
    → length rs ≤ k_max
    → IsHigher orig n k_max total s
    → (o : Option (List (ℕ × List ℕ)))
    → ((plan : List (ℕ × List ℕ)) → o ≡ some plan → IsPlan s.rows p rs plan)
    → IsHigher orig n k_max total (apply_plan s p o)
apply_plan-IsHigher orig n k_max total p s rs live once few v none k = v
apply_plan-IsHigher orig n k_max total p s rs live once few v (some []) k = v
apply_plan-IsHigher orig n k_max total p s rs live once few v (some (e ∷ plan)) k =
    carry_out orig n k_max total p s rs (e ∷ plan) live once few (k (e ∷ plan) refl) v

-- The pivot stands once among the rows.
pub pivot_only :
    (xs : List ℕ) (idx : ℕ)
    → idx < length xs
    → ((q : ℕ) → count q xs ≤ 1)
    → PivotOnly (get_or xs idx 0) idx xs 0
pivot_only xs idx h once k below = (
  λ p. ap (λ j. get_or xs j 0) (omega arith),
  λ ne e.
      let two = get_or-twice xs k idx below h (λ p. ne (omega arith)) e in
      omega (arith, two, once (get_or xs idx 0)),
)

eliminate_rows-IsHigher :
    (orig : ℕ → List ℕ) (n k_max total m : ℕ) (s : Merge) (rs : List ℕ)
    → AllAlive s.rows rs
    → ((q : ℕ) → count q rs ≤ 1)
    → length rs ≤ k_max
    → IsHigher orig n k_max total s
    → IsHigher orig n k_max total (eliminate_rows m s rs)
unfolding eliminate_rows
eliminate_rows-IsHigher orig n k_max total m s rs live once few v =
    elim (Bool-cases (ltb (length rs) 2)) [
      | inl one ↦ rw one v
      | inr more ↦
          let idx = lightest s.rows rs 0 (drop 1 rs) 1 in
          let inside : idx < length rs =
            lightest-lt s.rows rs 0 (drop 1 rs) 1 (ground arith)
              (ground (arith, length-drop 1 rs)) in
          let p = get_or rs idx 0 in
          rw more (
            apply_plan-IsHigher orig n k_max total p s rs (pivot-alive s.rows rs idx inside live)
              once few v (plan_xors s.rows p idx m rs 0)
              (λ plan e.
                plan_xors-IsPlan s.rows p idx m rs 0 plan live (pivot_only rs idx inside once) e))
    ]

pub eliminate-IsHigher :
    (orig : ℕ → List ℕ) (n k_max total m : ℕ) (s : Merge) (c : ℕ)
    → IsHigher orig n k_max total s
    → IsHigher orig n k_max total (eliminate k_max m s c)
unfolding eliminate
eliminate-IsHigher orig n k_max total m s c v = elim (Bool-cases (s.weights c == 0)) [
  | inl none' ↦ rw none' v
  | inr some' ↦ elim (Bool-cases (ltb k_max (s.weights c))) [
    | inl heavy ↦ rw (some', heavy) v
    | inr light ↦
        let rs = alive_only s.rows (s.col_rows c) in
        let i = v.ready.indexed in
        let long = length-le-col_total c s.rows (s.col_rows c) (λ r. omega (arith, i.index r c)) in
        rw (some', light)
          (eliminate_rows-IsHigher orig n k_max total m s rs
            (alive_only-AllAlive s.rows (s.col_rows c))
            (λ q. omega (
              arith,
              alive_only-count s.rows (s.col_rows c) q,
              i.index q c,
              Ascending-count 0 c (row_at s.rows q).cols (i.sorted q),
            ))
            (ground
              (arith, alive_only-length s.rows (s.col_rows c), long, v.ready.weighted.weighed c))
            v)
  ]
]

eliminate_all-IsHigher :
    (orig : ℕ → List ℕ) (n k_max total m : ℕ) (s : Merge) (cs : List ℕ)
    → IsHigher orig n k_max total s
    → IsHigher orig n k_max total (eliminate_all k_max m s cs)
unfolding eliminate_all
eliminate_all-IsHigher orig n k_max total m s [] v = v
eliminate_all-IsHigher orig n k_max total m s (c ∷ cs) v =
    eliminate_all-IsHigher orig n k_max total m (eliminate k_max m s c) cs
      (eliminate-IsHigher orig n k_max total m s c v)

pub weight_loop-IsHigher :
    (orig : ℕ → List ℕ) (n k_max total m rounds w : ℕ) (s : Merge)
    → IsHigher orig n k_max total s
    → IsHigher orig n k_max total (weight_loop k_max m n rounds w s)
unfolding weight_loop
weight_loop-IsHigher orig n k_max total m zero w s v = v
weight_loop-IsHigher orig n k_max total m (suc rounds) w s v =
    weight_loop-IsHigher orig n k_max total m rounds (w + 1) _
      (eliminate_all-IsHigher orig n k_max total m s (target_cols s.weights w n 0) v)
