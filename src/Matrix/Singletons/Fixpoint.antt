-- ===== src/Matrix/Singletons/Fixpoint.antt =====
-- removeSingletons: the singleton columns that are left.
use cuda_mpqs.Prelude.{
  ℕ, zero, suc, ◌+◌, ◌^◌, ◌<◌, ◌≤◌, ◌≡◌, ◌≢◌, refl, List, [], ◌∷◌, true, false, ◌&&◌, ◌==◌, inl,
  inr, count, arith, Bool-cases, All, ◌∙◌,
}
use cuda_mpqs.Matrix.Singletons.{
  Weights, remove_row, Row, has_singleton, pass, Filtered, after_pass, singleton_loop, filter_rows,
  max_singleton_iterations,
}
use cuda_mpqs.Matrix.Singletons.Weights.{
  alive_count, total_count, filter_rows-IsCounted, first_state,
}

-- No row that is alive has a column of weight 1.
abbrev pub IsStable : Weights → List Row → Type 0
IsStable w = All (λ r. r.alive && has_singleton r.cols w ≡ false)

pass-removed-le : (rs : List Row) (w : Weights) (m : ℕ) → m ≤ (pass rs w m).removed
unfolding pass
pass-removed-le [] w m = omega arith
pass-removed-le (r ∷ rs) w m = elim (Bool-cases (r.alive && has_singleton r.cols w)) [
  | inl hit ↦ rw (hit, pass) (omega (arith, pass-removed-le rs (remove_row r.cols w) (m + 1)))
  | inr miss ↦ rw (miss, pass) (pass-removed-le rs w m)
]

removed_hit :
    (r : Row) (rs : List Row) (w : Weights) (m : ℕ)
    → r.alive && has_singleton r.cols w ≡ true
    → (pass (r ∷ rs) w m).removed ≡ m
    → (pass rs (remove_row r.cols w) (m + 1)).removed ≡ m
unfolding pass
removed_hit r rs w m hit e = rw (hit, pass) at e

removed_miss :
    (r : Row) (rs : List Row) (w : Weights) (m : ℕ)
    → r.alive && has_singleton r.cols w ≡ false
    → (pass (r ∷ rs) w m).removed ≡ m
    → (pass rs w m).removed ≡ m
unfolding pass
removed_miss r rs w m miss e = rw (miss, pass) at e

-- A pass that removes nothing changes nothing and finds nothing.
pass_idle :
    (rs : List Row) (w : Weights) (m : ℕ)
    → (pass rs w m).removed ≡ m
    → ((pass rs w m).rows ≡ rs) × ((pass rs w m).weights ≡ w) × IsStable w rs
unfolding pass
pass_idle [] w m e = (refl, refl, tt)
pass_idle (r ∷ rs) w m e = elim (Bool-cases (r.alive && has_singleton r.cols w)) [
  | inl hit ↦
      let more = pass-removed-le rs (remove_row r.cols w) (m + 1) in
      absurd (omega (arith, more, removed_hit r rs w m hit e))
  | inr miss ↦
      let (a, b, c) = pass_idle rs w m (removed_miss r rs w m miss e) in
      rw (miss, pass) (rw a, b, (refl, c))
]

iteration_more :
    (fuel : ℕ) (s : Filtered)
    → ((pass s.rows s.weights 0).removed == 0) ≡ false
    → (singleton_loop (suc fuel) s).iteration
      ≡ (singleton_loop fuel (after_pass s (pass s.rows s.weights 0))).iteration
unfolding singleton_loop
iteration_more fuel s more = rw (more, singleton_loop)

singleton_loop-IsStable :
    (fuel : ℕ) (s : Filtered)
    → (singleton_loop fuel s).iteration < s.iteration + fuel
    → IsStable (singleton_loop fuel s).weights (singleton_loop fuel s).rows
unfolding singleton_loop
singleton_loop-IsStable zero s h = absurd (omega arith)
singleton_loop-IsStable (suc fuel) s h =
    elim (Bool-cases ((pass s.rows s.weights 0).removed == 0)) [
      | inl done ↦
          let (a, b, c) = pass_idle s.rows s.weights 0 (ground arith) in
          rw (done, singleton_loop) (unfold after_pass in rw (a, b) c)
      | inr more ↦
          rw (more, singleton_loop)
            (singleton_loop-IsStable fuel (after_pass s (pass s.rows s.weights 0))
              (unfold after_pass in omega (arith, iteration_more fuel s more)))
    ]

has_singleton-intro :
    (c : ℕ) (cs : List ℕ) (w : Weights) → w c ≡ 1 → 1 ≤ count c cs → has_singleton cs w ≡ true
unfolding has_singleton
has_singleton-intro c [] w e h = absurd (omega arith)
has_singleton-intro c (d ∷ cs) w e h = elim (Bool-cases (d == c)) [
  | inl here ↦ let k : d ≡ c = ground arith in rw k (rw e)
  | inr later ↦ ground (arith, has_singleton-intro c cs w e)
]

IsStable-count :
    (c : ℕ) (rs : List Row) (w : Weights) → w c ≡ 1 → IsStable w rs → alive_count c rs ≡ 0
unfolding alive_count
IsStable-count c [] w e h = refl
IsStable-count c (r ∷ rs) w e h =
    ground (arith, IsStable-count c rs w e h.1, has_singleton-intro c r.cols w e)

filter_rows-IsStable :
    (rows : List (List ℕ))
    → (filter_rows rows).iteration < max_singleton_iterations
    → IsStable (filter_rows rows).weights (filter_rows rows).rows
unfolding filter_rows first_state
filter_rows-IsStable rows early =
    singleton_loop-IsStable max_singleton_iterations (first_state rows) early

-- If the filter stops before its last iteration, no column stands exactly once in the rows that are alive. (Columns have fewer than 2^32 entries.)
pub filter_rows-no_singleton :
    (c : ℕ) (rows : List (List ℕ))
    → total_count c rows < 2 ^ 32
    → (filter_rows rows).iteration < max_singleton_iterations
    → alive_count c (filter_rows rows).rows ≢ 1
filter_rows-no_singleton c rows fits early one =
    let k = filter_rows-IsCounted c rows fits in
    let st = filter_rows-IsStable rows early in
    absurd (omega (arith, IsStable-count c _ _ (k.counted ∙ one) st))
