-- ===== src/Matrix/Singletons/Renumber.antt =====
-- removeSingletons: the compacted matrix with its row and column maps.
use mathlib.Core.Path.{ap₂}
use native.Mathlib.Nat.{le_trans, zero-add}
use cuda_mpqs.Prelude.{
  ℕ, zero, suc, ◌+◌, ◌^◌, ◌<◌, ◌≤◌, ◌≡◌, refl, sym, ap, ◌∙◌, subst, List, [], ◌∷◌, ◌++◌, map, false,
  ◌==◌, inl, inr, if◌then◌else◌, ltb, count, arith, Bool-cases, get_or, length, length-append,
  u32_max,
}
use cuda_mpqs.Matrix.Csr.{
  HostMatrixCsr, row, to_csr, rows_from, rows_of, rows_of-to_csr, length-rows_of,
}
use cuda_mpqs.Matrix.Singletons.{
  Weights, remove_row, Row, pass, after_pass, all_alive, filter_rows, max_singleton_iterations,
  Compaction, compact_cols, alive_rows, alive_indices, remove_singletons,
}
use cuda_mpqs.Matrix.Singletons.Weights.{
  alive_count, total_count, filter_rows-IsCounted, loop_inv, first_state,
}
use cuda_mpqs.Matrix.Singletons.Removed.{filter_rows-left}
use cuda_mpqs.Matrix.Singletons.Lossless.{length-filter_rows}

-- Each column of positive weight before `i` has a new number, and the column map leads back.
pub record IsNumbered (w : Weights) (i : ℕ) (s : Compaction) : Type 0 where
  pub counted : s.new_cols ≡ length s.col_map
  pub below : (c : ℕ) → c < i → 0 < w c → s.old_to_new c < s.new_cols
  pub back : (c : ℕ) → c < i → 0 < w c → get_or s.col_map (s.old_to_new c) u32_max ≡ c

get_or-snoc :
    (xs : List ℕ) (y : ℕ) (i : ℕ)
    → (i < length xs → get_or (xs ++ (y ∷ [])) i u32_max ≡ get_or xs i u32_max)
      × (i ≡ length xs → get_or (xs ++ (y ∷ [])) i u32_max ≡ y)
get_or-snoc [] y zero = (λ h. absurd (omega arith), λ e. refl)
get_or-snoc [] y (suc i) = (λ h. absurd (omega arith), λ e. absurd (omega arith))
get_or-snoc (x ∷ xs) y zero = (λ h. refl, λ e. absurd (omega arith))
get_or-snoc (x ∷ xs) y (suc i) =
    let ih = get_or-snoc xs y i in (λ h. ih.0 (omega arith), λ e. ih.1 (omega arith))

unfoldable pub number_next : ℕ → Compaction → Compaction
number_next c s = record {
  old_to_new = λ d. if d == c then s.new_cols else s.old_to_new d;
  col_map = s.col_map ++ (c ∷ []);
  new_cols = s.new_cols + 1;
}

pub number_next-IsNumbered :
    (w : Weights) (i : ℕ) (s : Compaction)
    → IsNumbered w i s
    → IsNumbered w (i + 1) (number_next i s)
unfolding number_next
number_next-IsNumbered w i s v = record {
  counted = omega (arith, v.counted, length-append s.col_map (i ∷ []));
  below = λ c h p. elim (Bool-cases (c == i)) [
    | inl here ↦ rw here (omega arith)
    | inr before ↦ rw before (omega (arith, v.below c (ground arith) p))
  ];
  back = λ c h p. elim (Bool-cases (c == i)) [
    | inl here ↦ rw here ((get_or-snoc s.col_map i s.new_cols).1 v.counted ∙ ground arith)
    | inr before ↦
        let b = v.below c (ground arith) p in
        rw before (
          (get_or-snoc s.col_map i (s.old_to_new c)).0 (omega (arith, b, v.counted))
          ∙ v.back c (ground arith) p)
  ];
}

pub subst_absurd : (w : Weights) (c i : ℕ) → c ≡ i → ltb 0 (w i) ≡ false → 0 < w c → ⊥
subst_absurd w c i e z p = let q : 0 < w i = subst (λ k. 0 < w k) e p in ground arith

pub skip-IsNumbered :
    (w : Weights) (i : ℕ) (s : Compaction)
    → ltb 0 (w i) ≡ false
    → IsNumbered w i s
    → IsNumbered w (i + 1) s
skip-IsNumbered w i s z v = record {
  counted = v.counted;
  below = λ c h p. elim (Bool-cases (c == i)) [
    | inl here ↦ absurd (let e : c ≡ i = ground arith in subst_absurd w c i e z p)
    | inr before ↦ v.below c (ground arith) p
  ];
  back = λ c h p. elim (Bool-cases (c == i)) [
    | inl here ↦ absurd (let e : c ≡ i = ground arith in subst_absurd w c i e z p)
    | inr before ↦ v.back c (ground arith) p
  ];
}

pub compact_cols-IsNumbered :
    (n i : ℕ) (w : Weights) (s : Compaction)
    → IsNumbered w i s
    → IsNumbered w (i + n) (compact_cols n i w s)
unfolding compact_cols number_next
compact_cols-IsNumbered zero i w s v = let e : i + 0 ≡ i = omega arith in rw e v
compact_cols-IsNumbered (suc n) i w s v =
    let e : i + suc n ≡ i + 1 + n = omega arith in
    elim (Bool-cases (ltb 0 (w i))) [
      | inl used ↦
          rw (e, used)
            (compact_cols-IsNumbered n (i + 1) w (number_next i s) (number_next-IsNumbered w i s v))
      | inr free ↦
          rw (e, free) (compact_cols-IsNumbered n (i + 1) w s (skip-IsNumbered w i s free v))
    ]

unfoldable pub all_cols : List Row → List (List ℕ)
all_cols [] = []
all_cols (r ∷ rs) = r.cols ∷ all_cols rs

live_cols : List Row → List (List ℕ)
live_cols [] = []
live_cols (r ∷ rs) = if r.alive then r.cols ∷ live_cols rs else live_cols rs

unmap :
    (f g : ℕ → ℕ) (cs : List ℕ) → ((c : ℕ) → 1 ≤ count c cs → g (f c) ≡ c) → map g (map f cs) ≡ cs
unmap f g [] h = refl
unmap f g (c ∷ cs) h = ap₂ ◌∷◌ (h c (ground arith)) (unmap f g cs (λ d k. h d (omega arith)))

alive_rows-back :
    (f g : ℕ → ℕ) (rs : List Row)
    → ((c : ℕ) → 1 ≤ alive_count c rs → g (f c) ≡ c)
    → map (map g) (alive_rows f rs) ≡ live_cols rs
unfolding alive_rows live_cols alive_count
alive_rows-back f g [] h = refl
alive_rows-back f g (r ∷ rs) h = elim (Bool-cases r.alive) [
  | inl live ↦ rw live (
      ap₂ ◌∷◌ (unmap f g r.cols (λ c k. h c (rw live (omega arith))))
        (alive_rows-back f g rs (λ c k. h c (omega arith))))
  | inr dead ↦ rw dead (alive_rows-back f g rs (λ c k. h c (omega arith)))
]

alive_indices-row :
    (m : HostMatrixCsr) (rs : List Row) (i : ℕ)
    → all_cols rs ≡ rows_from m (length rs) i
    → map (row m) (alive_indices rs i) ≡ live_cols rs
unfolding alive_indices live_cols all_cols rows_from
alive_indices-row m [] i e = refl
alive_indices-row m (r ∷ rs) i e =
    let ih = alive_indices-row m rs (i + 1) (cc e) in ground (arith, ih)

all_cols-pass : (rs : List Row) (w : Weights) (m : ℕ) → all_cols (pass rs w m).rows ≡ all_cols rs
unfolding pass all_cols
all_cols-pass [] w m = refl
all_cols-pass (r ∷ rs) w m =
    ground (arith, all_cols-pass rs (remove_row r.cols w) (m + 1), all_cols-pass rs w m)

all_cols-all_alive : (rows : List (List ℕ)) → all_cols (all_alive rows) ≡ rows
unfolding all_cols all_alive
all_cols-all_alive [] = refl
all_cols-all_alive (r ∷ rs) = ap (◌∷◌ r) (all_cols-all_alive rs)

pub all_cols-filter_rows : (rows : List (List ℕ)) → all_cols (filter_rows rows).rows ≡ rows
unfolding filter_rows first_state
all_cols-filter_rows rows =
    loop_inv (λ s. all_cols s.rows ≡ rows)
      (λ s h. unfold after_pass in all_cols-pass s.rows s.weights 0 ∙ h) max_singleton_iterations
      (first_state rows) (all_cols-all_alive rows)

pub alive-le-total : (c : ℕ) (rs : List Row) → alive_count c rs ≤ total_count c (all_cols rs)
unfolding alive_count total_count all_cols
alive-le-total c [] = omega arith
alive-le-total c (r ∷ rs) = ground (arith, alive-le-total c rs)

-- Every column index is below `n_cols`.
abbrev pub ColumnsInRange : HostMatrixCsr → Type 0
ColumnsInRange m = (c : ℕ) → 1 ≤ total_count c (rows_of m) → c < m.n_cols

unfoldable pub compaction : HostMatrixCsr → Compaction
compaction m =
    compact_cols m.n_cols 0 (filter_rows (rows_of m)).weights
      (record { old_to_new = λ c. u32_max; col_map = []; new_cols = 0 })

compaction-back :
    (m : HostMatrixCsr)
    → ColumnsInRange m
    → ((c : ℕ) → total_count c (rows_of m) < 2 ^ 32)
    → (c : ℕ) → 1 ≤ alive_count c (filter_rows (rows_of m)).rows
    → get_or (compaction m).col_map ((compaction m).old_to_new c) u32_max ≡ c
unfolding compaction
compaction-back m in_range fits c h =
    let st = filter_rows (rows_of m) in
    let k = filter_rows-IsCounted c (rows_of m) (fits c) in
    let n =
      compact_cols-IsNumbered m.n_cols 0 st.weights
        (record { old_to_new = λ c. u32_max; col_map = []; new_cols = 0 })
        (record {
          counted = refl;
          below = λ d l. absurd (omega arith);
          back = λ d l. absurd (omega arith);
        }) in
    let t : 1 ≤ total_count c (rows_of m) = le_trans h (
      subst (λ l. alive_count c st.rows ≤ total_count c l) (all_cols-filter_rows (rows_of m))
        (alive-le-total c st.rows)) in
    let l : c < m.n_cols = in_range c t in
    n.back c (subst (λ i. c < i) (sym (zero-add m.n_cols)) l) (subst (λ i. 0 < i) (sym k.counted) h)

pub filtered-rows :
    (m : HostMatrixCsr)
    → let rs = (filter_rows (rows_of m)).rows in all_cols rs ≡ rows_from m (length rs) 0
filtered-rows m =
    rw (all_cols-filter_rows (rows_of m), length-filter_rows (rows_of m), length-rows_of m)
      (unfold rows_of in refl)

with_n_rows : (m : HostMatrixCsr) {n : ℕ} → n ≡ m.n_rows → record m { n_rows = n } ≡ m
with_n_rows m e = ap (λ n. record m { n_rows = n }) e

n_rows-to_csr : (rows : List (List ℕ)) (c : ℕ) → length rows ≡ (to_csr rows c).n_rows
unfolding to_csr
n_rows-to_csr rows c = refl

pub remove_singletons-reduced :
    (m : HostMatrixCsr)
    → m.n_rows < 2 ^ 32
    → (remove_singletons m).reduced
      ≡ to_csr
          (alive_rows (compaction m).old_to_new (filter_rows (rows_of m)).rows)
          (compaction m).new_cols
unfolding remove_singletons compaction
remove_singletons-reduced m small =
    let rows = alive_rows (compaction m).old_to_new (filter_rows (rows_of m)).rows in
    with_n_rows (to_csr rows (compaction m).new_cols) (
      filter_rows-left m (compaction m).old_to_new small
      ∙ n_rows-to_csr rows (compaction m).new_cols)

-- The result of singleton removal is the input restricted to the rows of the row map, with the columns renumbered: through the column map the rows of the reduced matrix are those rows of the input, in order. The number of rows fits in 32 bits, the column indices of the input are below `n_cols`, and each column has fewer than 2^32 entries.
pub remove_singletons-rows :
    (m : HostMatrixCsr)
    → m.n_rows < 2 ^ 32
    → ColumnsInRange m
    → ((c : ℕ) → total_count c (rows_of m) < 2 ^ 32)
    → let r = remove_singletons m in
      map (map (λ c. get_or r.col_map c u32_max)) (rows_of r.reduced) ≡ map (row m) r.row_map
unfolding remove_singletons compaction
remove_singletons-rows m small in_range fits =
    let st = filter_rows (rows_of m) in
    let f = (compaction m).old_to_new in
    ap (λ x. map (map (λ c. get_or (compaction m).col_map c u32_max)) (rows_of x))
      (remove_singletons-reduced m small)
    ∙ rw (rows_of-to_csr (alive_rows f st.rows) (compaction m).new_cols) (
        alive_rows-back f _ st.rows (compaction-back m in_range fits)
        ∙ sym (alive_indices-row m st.rows 0 (filtered-rows m)))
