-- ===== src/Matrix/Weight2/Pair.antt =====
-- mergeWeight2: the search for the two rows that hold a column.
use cuda_mpqs.Prelude.{
  ℕ, zero, suc, ◌+◌, ◌≤◌, ◌≡◌, ◌≢◌, refl, sym, ap, List, [], ◌∷◌, Option, none, some, true, ◌==◌,
  if◌then◌else◌, arith, Bool-cases, Option-cases, inl, inr, count, Ascending-count,
}
use cuda_mpqs.Matrix.Weight2.{MergeRow, Merge, row_at, next_alive, second_alive}
use cuda_mpqs.Matrix.Weight2.Index.{IsIndexed}

next_alive-count :
    (rows : List MergeRow) (xs : List ℕ) (r : ℕ) (rest : List ℕ) (q : ℕ)
    → next_alive rows xs ≡ some (r, rest)
    → (if r == q then 1 else 0) + count q rest ≤ count q xs
unfolding next_alive
next_alive-count rows [] r rest q e = absurd (cc)
next_alive-count rows (x ∷ xs) r rest q e = elim (Bool-cases (row_at rows x).alive) [
  | inl live ↦
      let p : ◌≡◌ {A = Option (ℕ × List ℕ)} (some (x, xs)) (some (r, rest)) =
        ground (arith, live, e) in
      let a : x ≡ r = cc in let b : xs ≡ rest = cc in rw (a, b) (omega arith)
  | inr dead ↦
      let ih = next_alive-count rows xs r rest q (ground (arith, dead, e)) in omega (arith, ih)
]

next_alive-alive :
    (rows : List MergeRow) (rs : List ℕ) (r : ℕ) (rest : List ℕ)
    → next_alive rows rs ≡ some (r, rest)
    → (row_at rows r).alive ≡ true
unfolding next_alive
next_alive-alive rows [] r rest e = absurd (cc)
next_alive-alive rows (x ∷ rs) r rest e = elim (Bool-cases (row_at rows x).alive) [
  | inl live ↦ ground (arith, live)
  | inr dead ↦ next_alive-alive rows rs r rest (ground (arith, dead))
]

pub record Pair (rows : List MergeRow) (xs : List ℕ) (r1 r2 : ℕ) : Type 0 where
  pub rest : List ℕ
  pub more : List ℕ
  pub first : next_alive rows xs ≡ some (r1, rest)
  pub second : next_alive rows rest ≡ some (r2, more)

pub second_alive-Pair :
    (rows : List MergeRow) (xs : List ℕ) (r1 r2 : ℕ)
    → second_alive rows (next_alive rows xs) ≡ some (r1, r2)
    → Pair rows xs r1 r2
unfolding second_alive
second_alive-Pair rows xs r1 r2 e = elim (Option-cases (next_alive rows xs)) [
  | inl none' ↦ absurd (cc (ap (second_alive rows) none', e))
  | inr ((a, rest), found) ↦ elim (Option-cases (next_alive rows rest)) [
    | inl none' ↦ absurd (ground (arith, found, none', e))
    | inr ((b, more), found') ↦
        let p : ◌≡◌ {A = Option (ℕ × ℕ)} (some (a, b)) (some (r1, r2)) =
          ground (arith, found, found', e) in
        let pa : a ≡ r1 = cc in
        let pb : b ≡ r2 = cc in
        record { rest = rest; more = more; first = rw (sym pa) found; second = rw (sym pb) found' }
  ]
]

-- The two rows stand in the list, and twice if they are the same.
pub Pair-count :
    (rows : List MergeRow) (xs : List ℕ) (r1 r2 q : ℕ)
    → Pair rows xs r1 r2
    → (if r1 == q then 1 else 0) + (if r2 == q then 1 else 0) ≤ count q xs
Pair-count rows xs r1 r2 q p = omega (
  arith,
  next_alive-count rows xs r1 p.rest q p.first,
  next_alive-count rows p.rest r2 p.more q p.second,
)

pub Pair-distinct :
    (s : Merge) (c r1 r2 : ℕ) → IsIndexed s → Pair s.rows (s.col_rows c) r1 r2 → r1 ≢ r2
Pair-distinct s c r1 r2 v p e =
    let once = Ascending-count 0 c (row_at s.rows r1).cols (v.sorted r1) in
    ground (arith, Pair-count s.rows (s.col_rows c) r1 r2 r1 p, v.index r1 c, once)

pub Pair-left :
    (s : Merge) (c r1 r2 : ℕ)
    → IsIndexed s
    → Pair s.rows (s.col_rows c) r1 r2
    → 1 ≤ count c (row_at s.rows r1).cols
Pair-left s c r1 r2 v p = ground (arith, Pair-count s.rows (s.col_rows c) r1 r2 r1 p, v.index r1 c)

pub Pair-right :
    (s : Merge) (c r1 r2 : ℕ)
    → IsIndexed s
    → Pair s.rows (s.col_rows c) r1 r2
    → 1 ≤ count c (row_at s.rows r2).cols
Pair-right s c r1 r2 v p = ground (arith, Pair-count s.rows (s.col_rows c) r1 r2 r2 p, v.index r2 c)

-- The entries of the column over all rows.
unfoldable pub col_total : ℕ → List MergeRow → ℕ
col_total c [] = 0
col_total c (r ∷ rs) = count c r.cols + col_total c rs

pub col_total-zero :
    (c : ℕ) (rows : List MergeRow)
    → ((q : ℕ) → count c (row_at rows q).cols ≡ 0)
    → col_total c rows ≡ 0
unfolding col_total row_at
col_total-zero c [] h = refl
col_total-zero c (r ∷ rs) h = omega (arith, h 0, col_total-zero c rs (λ q. h (suc q)))

-- A column that stands once in one row at most.
col_total-one :
    (c a : ℕ) (rows : List MergeRow)
    → ((q : ℕ) → count c (row_at rows q).cols ≤ (if a == q then 1 else 0))
    → col_total c rows ≤ 1
unfolding col_total row_at
col_total-one c a [] h = omega arith
col_total-one c zero (r ∷ rs) h =
    let z = col_total-zero c rs (λ q. ground (arith, h (suc q))) in ground (arith, h 0, z)
col_total-one c (suc a) (r ∷ rs) h =
    let ih = col_total-one c a rs (λ q. ground (arith, h (suc q))) in ground (arith, h 0, ih)

-- Every row of the list is alive.
AllAlive : List MergeRow → List ℕ → Type 0
AllAlive rows xs = (q : ℕ) → 1 ≤ count q xs → (row_at rows q).alive ≡ true

next_alive-head :
    (rows : List MergeRow) (x : ℕ) (xs : List ℕ)
    → (row_at rows x).alive ≡ true
    → next_alive rows (x ∷ xs) ≡ some (x, xs)
unfolding next_alive
next_alive-head rows x xs live = ground (arith, live)

-- No pair is found only in a list of one row at most.
short :
    (rows : List MergeRow) (xs : List ℕ)
    → AllAlive rows xs
    → second_alive rows (next_alive rows xs) ≡ none
    → (a : ℕ) × ((q : ℕ) → count q xs ≤ (if a == q then 1 else 0))
unfolding second_alive AllAlive
short rows [] live e = (0, λ q. ground arith)
short rows (x ∷ []) live e = (x, λ q. omega arith)
short rows (x ∷ y ∷ xs) live e =
    let lx = live x (ground arith) in
    let ly = live y (ground arith) in
    absurd (ground (arith, next_alive-head rows x (y ∷ xs) lx, next_alive-head rows y xs ly, e))

index-AllAlive : (s : Merge) (c : ℕ) → IsIndexed s → AllAlive s.rows (s.col_rows c)
unfolding AllAlive
index-AllAlive s c v q h = elim (Bool-cases (row_at s.rows q).alive) [
  | inl live ↦ live
  | inr dead ↦
      let none' : count c (row_at s.rows q).cols ≡ 0 = ap (count c) (v.dead q dead) in
      absurd (omega (arith, v.index q c, none'))
]

-- A column of two entries has its pair of rows.
pub second_alive_found :
    (s : Merge) (c : ℕ)
    → IsIndexed s
    → col_total c s.rows ≡ 2
    → second_alive s.rows (next_alive s.rows (s.col_rows c)) ≢ none
second_alive_found s c v two e =
    let (a, h) = short s.rows (s.col_rows c) (index-AllAlive s c v) e in
    let one = col_total-one c a s.rows (λ q. omega (arith, h q, v.index q c)) in omega (arith, one)

pub Pair-alive :
    (rows : List MergeRow) (xs : List ℕ) (r1 r2 : ℕ)
    → Pair rows xs r1 r2
    → ((row_at rows r1).alive ≡ true) × ((row_at rows r2).alive ≡ true)
Pair-alive rows xs r1 r2 p =
    (next_alive-alive rows xs r1 p.rest p.first, next_alive-alive rows p.rest r2 p.more p.second)
