-- ===== src/Matrix/Weight2/First.antt =====
-- mergeWeight2: the first rows, their index and the first set of columns.
use cuda_mpqs.Prelude.{
  ℕ, zero, suc, ◌+◌, ◌%◌, ◌<◌, ◌≤◌, ◌≡◌, refl, subst, List, [], ◌∷◌, true, false, ltb, ◌==◌, get_or,
  length, arith, Bool-cases, inl, inr, count, Ascending-mono, Ascending-count, All, Ascending,
}
use cuda_mpqs.Matrix.MergeTree.{MergeTree}
use cuda_mpqs.Matrix.MergeTree.Leaves.{leaves}
use cuda_mpqs.Matrix.Singletons.{Weights}
use cuda_mpqs.Matrix.Singletons.Weights.{total_count}
use cuda_mpqs.Matrix.Weight2.{row_at, leaf_rows, register_row, register_rows, ColRows, seed_weight2}
use cuda_mpqs.Matrix.Weight2.Sound.{leaf_count, IsSum, alive_total}
use cuda_mpqs.Matrix.Weight2.Rows.{count-register_row}
use cuda_mpqs.Matrix.Weight2.Pair.{col_total}

-- Row `i` of the matrix is the original row that the row map names, and that is a leaf of the tree.
abbrev pub FromLeaves : (ℕ → List ℕ) → ℕ → List (List ℕ) → List ℕ → ℕ → Type 0
FromLeaves orig leaves' [] row_map i = Unit {0}
FromLeaves orig leaves' (x ∷ xs) row_map i =
    (get_or row_map i 0 < leaves')
    × (orig (get_or row_map i 0) ≡ x)
    × FromLeaves orig leaves' xs row_map (i + 1)

leaf_sum :
    (orig : ℕ → List ℕ) (t : MergeTree) (l c : ℕ) (x : List ℕ)
    → l < t.num_leaves
    → orig l ≡ x
    → count c x % 2 ≡ leaf_count orig c (leaves (suc l) t l) % 2
unfolding leaves
leaf_sum orig t l c x h e =
    let low : ltb l t.num_leaves ≡ true = ground arith in rw (low, leaves) (rw e (omega arith))

pub leaf_rows-IsSum :
    (orig : ℕ → List ℕ) (t : MergeTree) (rows : List (List ℕ)) (row_map : List ℕ) (i : ℕ)
    → t.internal_nodes ≡ []
    → FromLeaves orig t.num_leaves rows row_map i
    → All (IsSum orig t) (leaf_rows rows row_map i)
unfolding leaf_rows
leaf_rows-IsSum orig t [] row_map i e h = tt
leaf_rows-IsSum orig t (x ∷ xs) row_map i e h = (
  record {
    inside = omega (arith, h.0);
    sum = λ live c. leaf_sum orig t (get_or row_map i 0) c x h.0 h.1;
  },
  leaf_rows-IsSum orig t xs row_map (i + 1) e h.2,
)

pub alive_total-leaf_rows :
    (rows : List (List ℕ)) (row_map : List ℕ) (i : ℕ)
    → alive_total (leaf_rows rows row_map i) ≡ length rows
unfolding alive_total leaf_rows
alive_total-leaf_rows [] row_map i = refl
alive_total-leaf_rows (x ∷ xs) row_map i = omega (arith, alive_total-leaf_rows xs row_map (i + 1))

pub leaf_rows-cols :
    (rows : List (List ℕ)) (row_map : List ℕ) (i r : ℕ)
    → (row_at (leaf_rows rows row_map i) r).cols ≡ get_or rows r []
unfolding leaf_rows row_at
leaf_rows-cols [] row_map i r = refl
leaf_rows-cols (x ∷ xs) row_map i zero = refl
leaf_rows-cols (x ∷ xs) row_map i (suc r) = leaf_rows-cols xs row_map (i + 1) r

pub leaf_rows-dead :
    (rows : List (List ℕ)) (row_map : List ℕ) (i r : ℕ)
    → (row_at (leaf_rows rows row_map i) r).alive ≡ false
    → (row_at (leaf_rows rows row_map i) r).cols ≡ []
unfolding leaf_rows row_at
leaf_rows-dead [] row_map i r d = refl
leaf_rows-dead (x ∷ xs) row_map i zero d = absurd (cc)
leaf_rows-dead (x ∷ xs) row_map i (suc r) d = leaf_rows-dead xs row_map (i + 1) r d

pub get_or-All {κ} :
    (P : List ℕ → Type κ) (rows : List (List ℕ)) (r : ℕ) → P [] → All P rows → P (get_or rows r [])
get_or-All P [] r z a = z
get_or-All P (x ∷ xs) zero z a = a.0
get_or-All P (x ∷ xs) (suc r) z a = get_or-All P xs r z a.1

register_rows-below :
    (r c : ℕ) (rows : List (List ℕ)) (i : ℕ) (m : ColRows)
    → r < i
    → count r (register_rows rows i m c) ≡ count r (m c)
unfolding register_rows
register_rows-below r c [] i m h = refl
register_rows-below r c (x ∷ xs) i m h = ground (
  arith,
  register_rows-below r c xs (i + 1) (register_row i x m) (omega arith),
  count-register_row r i c x m,
)

pub register_rows-at :
    (k c : ℕ) (rows : List (List ℕ)) (i : ℕ) (m : ColRows)
    → count (i + k) (register_rows rows i m c) ≡ count (i + k) (m c) + count c (get_or rows k [])
unfolding register_rows
register_rows-at k c [] i m = omega arith
register_rows-at zero c (x ∷ xs) i m = ground (
  arith,
  register_rows-below (i + 0) c xs (i + 1) (register_row i x m) (omega arith),
  count-register_row (i + 0) i c x m,
)
register_rows-at (suc k) c (x ∷ xs) i m =
    let e : i + 1 + k ≡ i + suc k = omega arith in
    let ih =
      subst
        (λ j.
          count j (register_rows xs (i + 1) (register_row i x m) c)
          ≡ count j (register_row i x m c) + count c (get_or xs k []))
        e (register_rows-at k c xs (i + 1) (register_row i x m)) in
    ground (arith, ih, count-register_row (i + suc k) i c x m)

pub seed_weight2-Ascending : (w : Weights) (n i : ℕ) → Ascending i (seed_weight2 w n i)
unfolding seed_weight2
seed_weight2-Ascending w zero i = tt
seed_weight2-Ascending w (suc n) i =
    let e : i + 1 ≡ suc i = omega arith in
    let ih =
      subst (λ j. Ascending j (seed_weight2 w n (i + 1))) e (seed_weight2-Ascending w n (i + 1)) in
    elim (Bool-cases (w i == 2)) [
      | inl two ↦ rw (two, seed_weight2) (omega arith, ih)
      | inr no' ↦ rw (no', seed_weight2) (Ascending-mono (suc i) i _ (omega arith) ih)
    ]

pub seed_weight2-below : (w : Weights) (n i c : ℕ) → 1 ≤ count c (seed_weight2 w n i) → c < i + n
unfolding seed_weight2
seed_weight2-below w zero i c h = absurd (omega arith)
seed_weight2-below w (suc n) i c h = ground (arith, seed_weight2-below w n (i + 1) c)

pub seed_weight2-joins :
    (w : Weights) (n i c : ℕ) → w c ≡ 2 → i ≤ c → c < i + n → 1 ≤ count c (seed_weight2 w n i)
unfolding seed_weight2
seed_weight2-joins w zero i c two l h = absurd (omega arith)
seed_weight2-joins w (suc n) i c two l h = elim (Bool-cases (i == c)) [
  | inl here ↦
      let e : i ≡ c = ground arith in
      let now : (w i == 2) ≡ true = rw e (ground arith) in rw (now, seed_weight2) (ground arith)
  | inr away ↦ ground (arith, seed_weight2-joins w n (i + 1) c two (ground arith) (omega arith))
]

pub total_count-le-length :
    (c : ℕ) (rows : List (List ℕ)) → All (Ascending 0) rows → total_count c rows ≤ length rows
unfolding total_count
total_count-le-length c [] a = omega arith
total_count-le-length c (x ∷ xs) a =
    omega (arith, Ascending-count 0 c x a.0, total_count-le-length c xs a.1)

pub col_total-leaf_rows :
    (c : ℕ) (rows : List (List ℕ)) (row_map : List ℕ) (i : ℕ)
    → col_total c (leaf_rows rows row_map i) ≡ total_count c rows
unfolding col_total leaf_rows total_count
col_total-leaf_rows c [] row_map i = refl
col_total-leaf_rows c (x ∷ xs) row_map i = omega (arith, col_total-leaf_rows c xs row_map (i + 1))
