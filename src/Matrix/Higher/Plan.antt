-- ===== src/Matrix/Higher/Plan.antt =====
-- mergeHigherWeight: the rows that hold a column, the pivot, and the plan.
use cuda_mpqs.Prelude.{
  ℕ, zero, suc, ◌+◌, ◌<◌, ◌≤◌, ◌≡◌, ◌≢◌, refl, sym, ap, subst, List, [], ◌∷◌, Option, none, some,
  true, ltb, ◌==◌, get_or, length, arith, count, All, Bool-cases, inl, inr,
}
use cuda_mpqs.Matrix.XorRows.{xor_rows}
use cuda_mpqs.Matrix.Weight2.{MergeRow, row_at}
use cuda_mpqs.Matrix.Weight2.Pair.{col_total}
use cuda_mpqs.Matrix.Higher.{alive_only, lightest, weight_of, plan_xors, plan_step}
use cuda_mpqs.Matrix.Higher.Commit.{IsPlanned, plan_rows}

pub AllAlive : List MergeRow → List ℕ → Type 0
AllAlive rows xs = All (λ r. (row_at rows r).alive ≡ true) xs

pub alive_only-AllAlive : (rows : List MergeRow) (xs : List ℕ) → AllAlive rows (alive_only rows xs)
unfolding AllAlive alive_only
alive_only-AllAlive rows [] = tt
alive_only-AllAlive rows (r ∷ rs) = elim (Bool-cases (row_at rows r).alive) [
  | inl live ↦ rw (live, alive_only) (live, alive_only-AllAlive rows rs)
  | inr dead ↦ rw (dead, alive_only) (alive_only-AllAlive rows rs)
]

pub alive_only-count :
    (rows : List MergeRow) (xs : List ℕ) (q : ℕ) → count q (alive_only rows xs) ≤ count q xs
unfolding alive_only
alive_only-count rows [] q = omega arith
alive_only-count rows (r ∷ rs) q = ground (arith, alive_only-count rows rs q)

pub alive_only-length :
    (rows : List MergeRow) (xs : List ℕ) → length (alive_only rows xs) ≤ length xs
unfolding alive_only
alive_only-length rows [] = omega arith
alive_only-length rows (r ∷ rs) = ground (arith, alive_only-length rows rs)

pub lightest-lt :
    (rows : List MergeRow) (containing : List ℕ) (idx : ℕ) (rs : List ℕ) (i : ℕ)
    → idx < length containing
    → i + length rs ≤ length containing
    → lightest rows containing idx rs i < length containing
unfolding lightest
lightest-lt rows containing idx [] i h k = h
lightest-lt rows containing idx (r ∷ rs) i h k =
    elim (Bool-cases (ltb (weight_of rows r) (weight_of rows (get_or containing idx 0)))) [
      | inl less ↦ rw less (lightest-lt rows containing i rs (i + 1) (omega arith) (omega arith))
      | inr more ↦ rw more (lightest-lt rows containing idx rs (i + 1) h (omega arith))
    ]

pub get_or-count : (xs : List ℕ) (i : ℕ) → i < length xs → 1 ≤ count (get_or xs i 0) xs
get_or-count [] i h = absurd (omega arith)
get_or-count (x ∷ xs) zero h = ground arith
get_or-count (x ∷ xs) (suc i) h = omega (arith, get_or-count xs i (omega arith))

-- A value at two indices is counted twice.
pub get_or-twice :
    (xs : List ℕ) (i j : ℕ)
    → i < length xs
    → j < length xs
    → i ≢ j
    → get_or xs i 0 ≡ get_or xs j 0
    → 2 ≤ count (get_or xs j 0) xs
get_or-twice [] i j h k ne e = absurd (omega arith)
get_or-twice (x ∷ xs) zero zero h k ne e = absurd (ne refl)
get_or-twice (x ∷ xs) zero (suc j) h k ne e = ground (arith, get_or-count xs j (omega arith), e)
get_or-twice (x ∷ xs) (suc i) zero h k ne e =
    let c = subst (λ y. 1 ≤ count y xs) e (get_or-count xs i (omega arith)) in ground (arith, c)
get_or-twice (x ∷ xs) (suc i) (suc j) h k ne e =
    let ih = get_or-twice xs i j (omega arith) (omega arith) (λ p. ne (ap suc p)) e in
    omega (arith, ih)

get_or-All : (P : ℕ → Type 0) (xs : List ℕ) (i : ℕ) → i < length xs → All P xs → P (get_or xs i 0)
get_or-All P [] i h a = absurd (omega arith)
get_or-All P (x ∷ xs) zero h a = a.0
get_or-All P (x ∷ xs) (suc i) h a = get_or-All P xs i (omega arith) a.1

pub pivot-alive :
    (rows : List MergeRow) (xs : List ℕ) (i : ℕ)
    → i < length xs
    → AllAlive rows xs
    → (row_at rows (get_or xs i 0)).alive ≡ true
unfolding AllAlive
pivot-alive rows xs i h a = get_or-All (λ r. (row_at rows r).alive ≡ true) xs i h a

-- From `i` on, the index of the pivot holds it, and only that index.
abbrev pub PivotOnly : ℕ → ℕ → List ℕ → ℕ → Type 0
PivotOnly pivot idx rs i =
    (k : ℕ)
    → k < length rs
    → (i + k ≡ idx → get_or rs k 0 ≡ pivot) × (i + k ≢ idx → get_or rs k 0 ≢ pivot)

-- What a plan is.
pub record IsPlan (rows : List MergeRow) (pivot : ℕ) (rs : List ℕ) (plan : List (ℕ × List ℕ))
    : Type 0 where
  pub planned : All (IsPlanned rows pivot) plan
  pub counts : (q : ℕ) → count q (plan_rows plan) ≤ count q rs
  pub entries : length plan ≤ length rs
  pub covers : (q : ℕ) → q ≢ pivot → count q rs ≤ count q (plan_rows plan)

skip-IsPlan :
    (rows : List MergeRow) (pivot r : ℕ) (rs : List ℕ) (plan : List (ℕ × List ℕ))
    → r ≡ pivot
    → IsPlan rows pivot rs plan
    → IsPlan rows pivot (r ∷ rs) plan
skip-IsPlan rows pivot r rs plan e v = record {
  planned = v.planned;
  counts = λ q. omega (arith, v.counts q);
  entries = omega (arith, v.entries);
  covers = λ q ne. ground (arith, v.covers q ne, e, ne);
}

plan_step-some :
    (r : ℕ) (candidate : List ℕ) (o : Option (List (ℕ × List ℕ))) (plan : List (ℕ × List ℕ))
    → plan_step r candidate o ≡ some plan
    → (rest : List (ℕ × List ℕ)) × (o ≡ some rest) × (plan ≡ (r, candidate) ∷ rest)
plan_step-some r candidate none plan e = absurd (cc)
plan_step-some r candidate (some rest) plan e = (rest, refl, cc)

pub plan_xors-IsPlan :
    (rows : List MergeRow) (pivot idx m : ℕ) (rs : List ℕ) (i : ℕ) (plan : List (ℕ × List ℕ))
    → AllAlive rows rs
    → PivotOnly pivot idx rs i
    → plan_xors rows pivot idx m rs i ≡ some plan
    → IsPlan rows pivot rs plan
unfolding plan_xors AllAlive
plan_xors-IsPlan rows pivot idx m [] i plan live only e =
    let e' : [] ≡ plan = cc in
    subst (IsPlan rows pivot []) e' (record {
      planned = tt;
      counts = λ q. omega arith;
      entries = omega arith;
      covers = λ q ne. omega arith;
    })
plan_xors-IsPlan rows pivot idx m (r ∷ rs) i plan live only e =
    let candidate = xor_rows (row_at rows pivot).cols (row_at rows r).cols in
    let behind : PivotOnly pivot idx rs (i + 1) = λ k h.
      let next = only (suc k) (omega arith) in
      (λ p. next.0 (omega arith), λ ne. next.1 (λ p. ne (omega arith))) in
    elim (Bool-cases (i == idx)) [
      | inl here ↦
          skip-IsPlan rows pivot r rs plan ((only 0 (omega arith)).0 (ground arith))
            (plan_xors-IsPlan rows pivot idx m rs (i + 1) plan live.1 behind (rw here at e))
      | inr away ↦ elim (Bool-cases (ltb m (length candidate))) [
        | inl long ↦ absurd (let e' = rw (away, long) at e in cc)
        | inr fits ↦
            let (rest, found, whole) =
              plan_step-some r candidate (plan_xors rows pivot idx m rs (i + 1)) plan
                (rw (away, fits) at e) in
            let ih = plan_xors-IsPlan rows pivot idx m rs (i + 1) rest live.1 behind found in
            let ne : r ≢ pivot = (only 0 (omega arith)).1 (ground arith) in
            subst (IsPlan rows pivot (r ∷ rs)) (sym whole) (record {
              planned = ((λ p. ne (sym p), live.0, refl), ih.planned);
              counts = λ q. omega (arith, ih.counts q);
              entries = omega (arith, ih.entries);
              covers = λ q ne. omega (arith, ih.covers q ne);
            })
      ]
    ]

-- The rows with a number above zero, numbered from the second row on.
abbrev before_all : List ℕ → List ℕ
before_all [] = []
before_all (zero ∷ xs) = before_all xs
before_all (suc k ∷ xs) = k ∷ before_all xs

before_all-length : (xs : List ℕ) → length xs ≡ count 0 xs + length (before_all xs)
before_all-length [] = refl
before_all-length (zero ∷ xs) = omega (arith, before_all-length xs)
before_all-length (suc k ∷ xs) = ground (arith, before_all-length xs)

before_all-count : (q : ℕ) (xs : List ℕ) → count q (before_all xs) ≡ count (suc q) xs
before_all-count q [] = refl
before_all-count q (zero ∷ xs) = ground (arith, before_all-count q xs)
before_all-count q (suc k ∷ xs) = ground (arith, before_all-count q xs)

-- A list of rows in which each stands as often as the column does in it is as long as the column's total.
pub length-le-col_total :
    (c : ℕ) (rows : List MergeRow) (xs : List ℕ)
    → ((r : ℕ) → count r xs ≤ count c (row_at rows r).cols)
    → length xs ≤ col_total c rows
unfolding col_total row_at
length-le-col_total c [] [] h = omega arith
length-le-col_total c [] (x ∷ xs) h = absurd (ground (arith, h x))
length-le-col_total c (y ∷ rows) xs h =
    let ih =
      length-le-col_total c rows (before_all xs)
        (λ r. omega (arith, h (suc r), before_all-count r xs)) in
    omega (arith, ih, h 0, before_all-length xs)

-- No sum in a plan is longer than the limit.
pub plan_xors-short :
    (rows : List MergeRow) (pivot idx m : ℕ) (rs : List ℕ) (i : ℕ) (plan : List (ℕ × List ℕ))
    → plan_xors rows pivot idx m rs i ≡ some plan
    → All (λ e. length e.1 ≤ m) plan
unfolding plan_xors
plan_xors-short rows pivot idx m [] i plan e =
    let e' : [] ≡ plan = cc in subst (All (λ x. length x.1 ≤ m)) e' tt
plan_xors-short rows pivot idx m (r ∷ rs) i plan e =
    let candidate = xor_rows (row_at rows pivot).cols (row_at rows r).cols in
    elim (Bool-cases (i == idx)) [
      | inl here ↦ plan_xors-short rows pivot idx m rs (i + 1) plan (rw here at e)
      | inr away ↦ elim (Bool-cases (ltb m (length candidate))) [
        | inl long ↦ absurd (let e' = rw (away, long) at e in cc)
        | inr fits ↦
            let (rest, found, whole) =
              plan_step-some r candidate (plan_xors rows pivot idx m rs (i + 1)) plan
                (rw (away, fits) at e) in
            subst (All (λ x. length x.1 ≤ m)) (sym whole)
              (ground arith, plan_xors-short rows pivot idx m rs (i + 1) rest found)
      ]
    ]
