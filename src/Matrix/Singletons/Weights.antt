-- ===== src/Matrix/Singletons/Weights.antt =====
-- removeSingletons: the column weights and the entries of the rows that are alive.
use cuda_mpqs.Prelude.{
  ℕ, zero, suc, ◌+◌, ◌^◌, ◌<◌, ◌≤◌, ◌≡◌, refl, List, [], ◌∷◌, true, ◌&&◌, ◌==◌, if◌then◌else◌,
  count, length, arith, Bool-cases, inl, inr,
}
use cuda_mpqs.Matrix.Singletons.{
  Weights, bump, unbump, add_row, remove_row, col_weights, Row, has_singleton, pass, Filtered,
  after_pass, singleton_loop, all_alive, filter_rows, max_singleton_iterations,
}

-- How often the column stands in the rows that are alive.
unfoldable pub alive_count : ℕ → List Row → ℕ
alive_count c [] = 0
alive_count c (r ∷ rs) = (if r.alive then count c r.cols else 0) + alive_count c rs

pub remove_row-count :
    (c : ℕ) (cs : List ℕ) (w : Weights)
    → count c cs ≤ w c
    → w c < 2 ^ 32
    → remove_row cs w c + count c cs ≡ w c
unfolding remove_row
remove_row-count c [] w h k = omega arith
remove_row-count c (d ∷ cs) w h k = ground (arith, remove_row-count c cs (unbump d w))

pub add_row-count :
    (c : ℕ) (cs : List ℕ) (w : Weights)
    → w c + count c cs < 2 ^ 32
    → add_row cs w c ≡ w c + count c cs
unfolding add_row
add_row-count c [] w h = omega arith
add_row-count c (d ∷ cs) w h = ground (arith, add_row-count c cs (bump d w))

-- `kept` counts the entries of the rows before `rs` that are alive.
pub pass-count :
    (c : ℕ) (rs : List Row) (w : Weights) (m kept : ℕ)
    → w c ≡ kept + alive_count c rs
    → w c < 2 ^ 32
    → (pass rs w m).weights c ≡ kept + alive_count c (pass rs w m).rows
unfolding pass alive_count
pass-count c [] w m kept e h = e
pass-count c (r ∷ rs) w m kept e h = elim (Bool-cases (r.alive && has_singleton r.cols w)) [
  | inl hit ↦
      let live : r.alive ≡ true = ground arith in
      let gone : remove_row r.cols w c + count c r.cols ≡ w c =
        remove_row-count c r.cols w (ground (arith, live)) h in
      rw (hit, pass)
        (omega (
          arith,
          pass-count c rs (remove_row r.cols w) (m + 1) kept (ground (arith, live, gone))
              (omega (arith, gone)),
        ))
  | inr miss ↦
      rw (miss, pass)
        (omega (
          arith,
          pass-count c rs w m (kept + (if r.alive then count c r.cols else 0)) (omega arith) h,
        ))
]

-- No pass makes a row alive.
pub pass-le :
    (c : ℕ) (rs : List Row) (w : Weights) (m : ℕ)
    → alive_count c (pass rs w m).rows ≤ alive_count c rs
unfolding pass alive_count
pass-le c [] w m = omega arith
pass-le c (r ∷ rs) w m = elim (Bool-cases (r.alive && has_singleton r.cols w)) [
  | inl hit ↦ rw (hit, pass) (omega (arith, pass-le c rs (remove_row r.cols w) (m + 1)))
  | inr miss ↦ rw (miss, pass) (omega (arith, pass-le c rs w m))
]

-- What one pass keeps, the loop keeps.
pub loop_inv {κ} :
    (P : Filtered → Type κ)
    → ((s : Filtered) → P s → P (after_pass s (pass s.rows s.weights 0)))
    → (fuel : ℕ) (s : Filtered) → P s
    → P (singleton_loop fuel s)
unfolding singleton_loop
loop_inv P keep zero s h = h
loop_inv P keep (suc fuel) s h = elim (Bool-cases ((pass s.rows s.weights 0).removed == 0)) [
  | inl done ↦ rw (done, singleton_loop) (keep s h)
  | inr more ↦ rw (more, singleton_loop) (loop_inv P keep fuel _ (keep s h))
]

pub record IsCounted (c : ℕ) (s : Filtered) : Type 0 where
  pub counted : s.weights c ≡ alive_count c s.rows
  pub fits : s.weights c < 2 ^ 32

pub after_pass-IsCounted :
    (c : ℕ) (s : Filtered) → IsCounted c s → IsCounted c (after_pass s (pass s.rows s.weights 0))
unfolding after_pass
after_pass-IsCounted c s h =
    let e = pass-count c s.rows s.weights 0 0 (omega (arith, h.counted)) h.fits in
    record {
      counted = omega (arith, e);
      fits = omega (arith, e, pass-le c s.rows s.weights 0, h.counted, h.fits);
    }

-- How often the column stands in the matrix.
unfoldable pub total_count : ℕ → List (List ℕ) → ℕ
total_count c [] = 0
total_count c (r ∷ rs) = count c r + total_count c rs

count-le-length : (c : ℕ) (xs : List ℕ) → count c xs ≤ length xs
count-le-length c [] = omega arith
count-le-length c (x ∷ xs) = ground (arith, count-le-length c xs)

-- The number of entries of the matrix.
abbrev pub entries : List (List ℕ) → ℕ
entries [] = 0
entries (r ∷ rs) = length r + entries rs

pub total_count-le-entries : (c : ℕ) (rows : List (List ℕ)) → total_count c rows ≤ entries rows
unfolding total_count
total_count-le-entries c [] = omega arith
total_count-le-entries c (r ∷ rs) = omega (arith, count-le-length c r, total_count-le-entries c rs)

pub col_weights-count :
    (c : ℕ) (rows : List (List ℕ)) (w : Weights)
    → w c + total_count c rows < 2 ^ 32
    → col_weights rows w c ≡ w c + total_count c rows
unfolding col_weights total_count
col_weights-count c [] w h = omega arith
col_weights-count c (r ∷ rs) w h =
    let first = add_row-count c r w (omega arith) in
    omega (arith, first, col_weights-count c rs (add_row r w) (omega (arith, first)))

all_alive-count :
    (c : ℕ) (rows : List (List ℕ)) → alive_count c (all_alive rows) ≡ total_count c rows
unfolding all_alive alive_count total_count
all_alive-count c [] = refl
all_alive-count c (r ∷ rs) = omega (arith, all_alive-count c rs)

-- The state before the first pass.
unfoldable pub first_state : List (List ℕ) → Filtered
first_state rows = record {
  rows = all_alive rows;
  weights = col_weights rows (λ c. 0);
  total_removed = 0;
  iteration = 0;
}

pub first_state-IsCounted :
    (c : ℕ) (rows : List (List ℕ)) → total_count c rows < 2 ^ 32 → IsCounted c (first_state rows)
unfolding first_state
first_state-IsCounted c rows h =
    let e = col_weights-count c rows (λ c. 0) (omega arith) in
    record { counted = omega (arith, e, all_alive-count c rows); fits = omega (arith, e) }

-- When the filter ends, `col_weight` is the number of entries in the rows that are alive, for each column of fewer than 2^32 entries.
pub filter_rows-IsCounted :
    (c : ℕ) (rows : List (List ℕ)) → total_count c rows < 2 ^ 32 → IsCounted c (filter_rows rows)
unfolding filter_rows first_state
filter_rows-IsCounted c rows h =
    loop_inv (IsCounted c) (after_pass-IsCounted c) max_singleton_iterations (first_state rows)
      (first_state-IsCounted c rows h)
