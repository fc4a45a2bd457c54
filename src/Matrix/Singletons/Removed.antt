-- ===== src/Matrix/Singletons/Removed.antt =====
-- removeSingletons: the numbers of rows removed and left.
use cuda_mpqs.Prelude.{
  ℕ, ◌+◌, ◌^◌, ◌<◌, ◌≡◌, refl, List, [], ◌∷◌, true, ◌&&◌, if◌then◌else◌, sub32, length, arith,
  Bool-cases, inl, inr,
}
use cuda_mpqs.Matrix.Csr.{HostMatrixCsr, rows_of, length-rows_of}
use cuda_mpqs.Matrix.Singletons.{
  Weights, Row, has_singleton, remove_row, pass, after_pass, all_alive, filter_rows,
  max_singleton_iterations, alive_rows,
}
use cuda_mpqs.Matrix.Singletons.Weights.{loop_inv, first_state}

-- The rows that are alive.
pub alive_number : List Row → ℕ
alive_number [] = 0
alive_number (r ∷ rs) = (if r.alive then 1 else 0) + alive_number rs

pass-removed :
    (rs : List Row) (w : Weights) (m : ℕ)
    → (pass rs w m).removed + alive_number (pass rs w m).rows ≡ m + alive_number rs
unfolding pass alive_number
pass-removed [] w m = refl
pass-removed (r ∷ rs) w m = elim (Bool-cases (r.alive && has_singleton r.cols w)) [
  | inl hit ↦
      let live : r.alive ≡ true = ground arith in
      rw (hit, live, pass) (omega (arith, pass-removed rs (remove_row r.cols w) (m + 1)))
  | inr miss ↦ rw (miss, pass) (omega (arith, pass-removed rs w m))
]

alive_number-all_alive : (rows : List (List ℕ)) → alive_number (all_alive rows) ≡ length rows
unfolding alive_number all_alive
alive_number-all_alive [] = refl
alive_number-all_alive (r ∷ rs) = omega (arith, alive_number-all_alive rs)

pub filter_rows-removed :
    (rows : List (List ℕ))
    → (filter_rows rows).total_removed + alive_number (filter_rows rows).rows ≡ length rows
unfolding filter_rows first_state
filter_rows-removed rows =
    loop_inv (λ s. s.total_removed + alive_number s.rows ≡ length rows)
      (λ s h. unfold after_pass in omega (arith, pass-removed s.rows s.weights 0, h))
      max_singleton_iterations (first_state rows) (omega (arith, alive_number-all_alive rows))

pub length-alive_rows : (f : ℕ → ℕ) (rs : List Row) → length (alive_rows f rs) ≡ alive_number rs
unfolding alive_rows alive_number
length-alive_rows f [] = refl
length-alive_rows f (r ∷ rs) = ground (arith, length-alive_rows f rs)

-- The computed number of rows is the number of rows that are left.
pub filter_rows-left :
    (m : HostMatrixCsr) (f : ℕ → ℕ)
    → m.n_rows < 2 ^ 32
    → let s = filter_rows (rows_of m) in
      sub32 m.n_rows s.total_removed ≡ length (alive_rows f s.rows)
filter_rows-left m f small =
    let s = filter_rows (rows_of m) in
    omega
      (arith, filter_rows-removed (rows_of m), length-rows_of m, length-alive_rows f s.rows, small)
