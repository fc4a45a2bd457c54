-- ===== src/Matrix/Singletons/Lossless.antt =====
-- removeSingletons: selections of rows whose columns cancel modulo 2.
use Prim.Native.Nat.{zero-le}
use cuda_mpqs.Prelude.{
  ℕ, suc, ◌+◌, ◌%◌, ◌^◌, ◌<◌, ◌≤◌, ◌≡◌, refl, List, [], ◌∷◌, Bool, true, false, ◌&&◌, ◌==◌, ◌⊎◌,
  inl, inr, if◌then◌else◌, count, arith, Bool-cases, length, ap, ◌∙◌, sym, subst,
}
use cuda_mpqs.Matrix.Singletons.{
  Weights, remove_row, Row, has_singleton, pass, Filtered, after_pass, all_alive, filter_rows,
  max_singleton_iterations, alive_indices, remove_singletons,
}
use cuda_mpqs.Matrix.Csr.{HostMatrixCsr, rows_of, length-rows_of}
use cuda_mpqs.Matrix.Singletons.Weights.{
  alive_count, total_count, IsCounted, after_pass-IsCounted, loop_inv, first_state,
  first_state-IsCounted, remove_row-count,
}

-- How often the column stands in the rows that `s` selects, from row `i` on.
unfoldable pub picked : ℕ → (ℕ → Bool) → List (List ℕ) → ℕ → ℕ
picked c s [] i = 0
picked c s (r ∷ rs) i = (if s i then count c r else 0) + picked c s rs (i + 1)

picked_rows : ℕ → (ℕ → Bool) → List Row → ℕ → ℕ
picked_rows c s [] i = 0
picked_rows c s (r ∷ rs) i = (if s i then count c r.cols else 0) + picked_rows c s rs (i + 1)

-- Every selected row is alive.
abbrev pub Within : (ℕ → Bool) → List Row → ℕ → Type 0
Within s [] i = Unit {0}
Within s (r ∷ rs) i = ((s i ≡ false) ⊎ (r.alive ≡ true)) × Within s rs (i + 1)

has_singleton-column :
    (cs : List ℕ) (w : Weights) → has_singleton cs w ≡ true → (c : ℕ) × (w c ≡ 1) × (1 ≤ count c cs)
unfolding has_singleton
has_singleton-column [] w h = absurd (cc)
has_singleton-column (d ∷ cs) w h = elim (Bool-cases (w d == 1)) [
  | inl one ↦ (d, ground arith, ground arith)
  | inr more ↦ let (c, e, k) = has_singleton-column cs w (ground arith) in (c, e, omega arith)
]

picked-le :
    (c : ℕ) (s : ℕ → Bool) (rs : List Row) (i : ℕ)
    → Within s rs i
    → picked_rows c s rs i ≤ alive_count c rs
unfolding picked_rows alive_count
picked-le c s [] i h = omega arith
picked-le c s (r ∷ rs) i h = ground (arith, picked-le c s rs (i + 1) h.1)

picked-pass :
    (c : ℕ) (s : ℕ → Bool) (rs : List Row) (w : Weights) (m i : ℕ)
    → picked_rows c s (pass rs w m).rows i ≡ picked_rows c s rs i
unfolding picked_rows pass
picked-pass c s [] w m i = refl
picked-pass c s (r ∷ rs) w m i = elim (Bool-cases (r.alive && has_singleton r.cols w)) [
  | inl hit ↦
      rw (hit, pass) (omega (arith, picked-pass c s rs (remove_row r.cols w) (m + 1) (i + 1)))
  | inr miss ↦ rw (miss, pass) (omega (arith, picked-pass c s rs w m (i + 1)))
]

-- `kept c` and `p c` count the entries of the rows before `rs` that are alive and that are selected.
pass-Within :
    (s : ℕ → Bool) (rs : List Row) (w : Weights) (m i : ℕ) (kept p : ℕ → ℕ)
    → ((c : ℕ) → w c ≡ kept c + alive_count c rs)
    → ((c : ℕ) → w c < 2 ^ 32)
    → ((c : ℕ) → p c ≤ kept c)
    → ((c : ℕ) → (p c + picked_rows c s rs i) % 2 ≡ 0)
    → Within s rs i
    → Within s (pass rs w m).rows i
unfolding pass picked_rows alive_count
pass-Within s [] w m i kept p e b l even h = tt
pass-Within s (r ∷ rs) w m i kept p e b l even h =
    elim (Bool-cases (r.alive && has_singleton r.cols w)) [
      | inl hit ↦
          let live : r.alive ≡ true = ground arith in
          let (c, one, in_row) = has_singleton-column r.cols w (ground arith) in
          let out : s i ≡ false =
            ground (arith, live, one, in_row, e c, l c, even c, picked-le c s rs (i + 1) h.1) in
          let gone = λ (d : ℕ). remove_row-count d r.cols w (ground (arith, e d)) (b d) in
          rw (hit, pass)
            (
              inl out,
              pass-Within s rs (remove_row r.cols w) (m + 1) (i + 1) kept p
                  (λ d. ground (arith, e d, gone d, live)) (λ d. omega (arith, gone d, b d)) l
                  (λ d. ground (arith, even d, out)) h.1,
            )
      | inr miss ↦
          rw (miss, pass)
            (
              h.0,
              pass-Within s rs w m (i + 1) (λ d. kept d + (if r.alive then count d r.cols else 0))
                  (λ d. p d + (if s i then count d r.cols else 0)) (λ d. omega (arith, e d)) b
                  (λ d. ground (arith, l d, h.0)) (λ d. omega (arith, even d)) h.1,
            )
    ]

-- What each pass keeps of a selection whose columns cancel.
record Keeps (s : ℕ → Bool) (st : Filtered) : Type 0 where
  counted : (c : ℕ) → IsCounted c st
  even : (c : ℕ) → picked_rows c s st.rows 0 % 2 ≡ 0
  within : Within s st.rows 0

after_pass-Keeps :
    (s : ℕ → Bool) (st : Filtered)
    → Keeps s st
    → Keeps s (after_pass st (pass st.rows st.weights 0))
unfolding after_pass
after_pass-Keeps s st k = record {
  counted = λ c. after_pass-IsCounted c st (k.counted c);
  even = λ c. omega (arith, k.even c, picked-pass c s st.rows st.weights 0 0);
  within =
      pass-Within s st.rows st.weights 0 0 (λ c. 0) (λ c. 0)
        (λ c. omega (arith, (k.counted c).counted)) (λ c. (k.counted c).fits) (λ c. omega arith)
        (λ c. omega (arith, k.even c)) k.within;
}

all_alive-picked :
    (c : ℕ) (s : ℕ → Bool) (rows : List (List ℕ)) (i : ℕ)
    → picked_rows c s (all_alive rows) i ≡ picked c s rows i
unfolding all_alive picked picked_rows
all_alive-picked c s [] i = refl
all_alive-picked c s (r ∷ rs) i = omega (arith, all_alive-picked c s rs (i + 1))

all_alive-Within : (s : ℕ → Bool) (rows : List (List ℕ)) (i : ℕ) → Within s (all_alive rows) i
unfolding all_alive
all_alive-Within s [] i = tt
all_alive-Within s (r ∷ rs) i = (inr refl, all_alive-Within s rs (i + 1))

filter_rows-Within :
    (s : ℕ → Bool) (rows : List (List ℕ))
    → ((c : ℕ) → total_count c rows < 2 ^ 32)
    → ((c : ℕ) → picked c s rows 0 % 2 ≡ 0)
    → Within s (filter_rows rows).rows 0
unfolding filter_rows first_state
filter_rows-Within s rows fits even =
    (loop_inv (Keeps s) (after_pass-Keeps s) max_singleton_iterations (first_state rows) (record {
      counted = λ c. first_state-IsCounted c rows (fits c);
      even = λ c. omega (arith, even c, all_alive-picked c s rows 0);
      within = all_alive-Within s rows 0;
    })).within

Within-listed :
    (s : ℕ → Bool) (rs : List Row) (i r : ℕ)
    → Within s rs i
    → s r ≡ true
    → i ≤ r
    → r < i + length rs
    → 1 ≤ count r (alive_indices rs i)
unfolding alive_indices
Within-listed s [] i r w h lo hi = absurd (omega arith)
Within-listed s (x ∷ rs) i r w h lo hi = elim (Bool-cases (i == r)) [
  | inl here ↦
      let e : i ≡ r = ground arith in
      let live : x.alive ≡ true = ground (arith, w.0, subst (λ k. s k ≡ true) (sym e) h) in
      rw live (ground arith)
  | inr later ↦
      let ih = Within-listed s rs (i + 1) r w.1 h (ground arith) (omega arith) in ground (arith, ih)
]

length-pass : (rs : List Row) (w : Weights) (m : ℕ) → length (pass rs w m).rows ≡ length rs
unfolding pass
length-pass [] w m = refl
length-pass (r ∷ rs) w m =
    ground (arith, length-pass rs (remove_row r.cols w) (m + 1), length-pass rs w m)

length-all_alive : (rows : List (List ℕ)) → length (all_alive rows) ≡ length rows
unfolding all_alive
length-all_alive [] = refl
length-all_alive (r ∷ rs) = ap suc (length-all_alive rs)

pub length-filter_rows : (rows : List (List ℕ)) → length (filter_rows rows).rows ≡ length rows
unfolding filter_rows first_state
length-filter_rows rows =
    loop_inv (λ st. length st.rows ≡ length rows)
      (λ st h. unfold after_pass in length-pass st.rows st.weights 0 ∙ h) max_singleton_iterations
      (first_state rows) (unfold first_state in length-all_alive rows)

row_in_range :
    (m : HostMatrixCsr) (r : ℕ) → r < m.n_rows → r < 0 + length (filter_rows (rows_of m)).rows
row_in_range m r h = rw (length-filter_rows (rows_of m), length-rows_of m) (omega arith)

-- Singleton removal loses no dependency: if every column stands an even number of times in the selected rows, then the row map of the result lists every selected row. The matrix has fewer than 2^32 entries in each column.
pub remove_singletons-keeps :
    (m : HostMatrixCsr) (s : ℕ → Bool)
    → ((c : ℕ) → total_count c (rows_of m) < 2 ^ 32)
    → ((c : ℕ) → picked c s (rows_of m) 0 % 2 ≡ 0)
    → (r : ℕ) → r < m.n_rows
    → s r ≡ true
    → 1 ≤ count r (remove_singletons m).row_map
unfolding remove_singletons
remove_singletons-keeps m s fits even r h sel =
    Within-listed s _ 0 r (filter_rows-Within s (rows_of m) fits even) sel zero-le
      (row_in_range m r h)
