-- ===== src/Matrix/Csr.antt =====
-- src/matrix/matrix_constructor.h: `HostMatrixCSR`, a sparse matrix over GF(2) by rows. Indices are
-- `uint32_t`. removeSingletons and mergeWeight2 do not add entries, so that the casts of their offsets to
-- `uint32_t` keep the value for a matrix that has such offsets itself; the rebuild of mergeHigherWeight,
-- which can add entries, is in Matrix/Higher.antt with its casts.
use mathlib.Core.Path.{ap₂}
use mathlib.Core.List.{append-nil, append_assoc}
use cuda_mpqs.Prelude.{
  drop-append, take-append, ℕ, zero, suc, ◌+◌, ◌-◌, ◌≡◌, refl, sym, ap, ◌∙◌, arith, length-append,
  List, [], ◌∷◌, ◌++◌, length, get_or, take, drop,
}

pub record HostMatrixCsr : Type 0 where
  pub row_offsets : List ℕ
  pub col_indices : List ℕ
  pub n_rows : ℕ
  pub n_cols : ℕ

-- The columns of row `r`: `col_indices[row_offsets[r] .. row_offsets[r + 1])`.
unfoldable pub row : HostMatrixCsr → ℕ → List ℕ
row m r =
    let begin = get_or m.row_offsets r 0 in
    let end = get_or m.row_offsets (r + 1) 0 in take (end - begin) (drop begin m.col_indices)

-- The rows from `r` on, for `n` rows.
unfoldable pub rows_from : HostMatrixCsr → ℕ → ℕ → List (List ℕ)
unfolding row
rows_from m zero r = []
rows_from m (suc n) r = row m r ∷ rows_from m n (r + 1)

unfoldable pub rows_of : HostMatrixCsr → List (List ℕ)
unfolding rows_from
rows_of m = rows_from m m.n_rows 0

-- The CSR rebuild at the end of each reduction: rows are appended one after the other, and the end
-- of each is pushed on `row_offsets`, which starts with 0.
unfoldable pub push_rows : List (List ℕ) → List ℕ → List ℕ → List ℕ × List ℕ
push_rows [] offsets cols = (offsets, cols)
push_rows (r ∷ rs) offsets cols =
    let cols' = cols ++ r in push_rows rs (offsets ++ (length cols' ∷ [])) cols'

unfoldable pub to_csr : List (List ℕ) → ℕ → HostMatrixCsr
unfolding push_rows
to_csr rows n_cols =
    let (offsets, cols) = push_rows rows (0 ∷ []) [] in
    record { row_offsets = offsets; col_indices = cols; n_rows = length rows; n_cols = n_cols }

length-rows_from : (m : HostMatrixCsr) (n r : ℕ) → length (rows_from m n r) ≡ n
unfolding rows_from
length-rows_from m zero r = refl
length-rows_from m (suc n) r = ap suc (length-rows_from m n (r + 1))

pub length-rows_of : (m : HostMatrixCsr) → length (rows_of m) ≡ m.n_rows
unfolding rows_of
length-rows_of m = length-rows_from m m.n_rows 0

-- The rebuilt matrix after `a` rows: row offsets are the lengths of the prefixes.
abbrev offsets_of : List (List ℕ) → ℕ → List ℕ
offsets_of [] n = []
offsets_of (r ∷ rs) n = (n + length r) ∷ offsets_of rs (n + length r)

abbrev pub flat : List (List ℕ) → List ℕ
flat [] = []
flat (r ∷ rs) = r ++ flat rs

offsets-push_rows :
    (rs : List (List ℕ)) (offsets cols : List ℕ)
    → (push_rows rs offsets cols).0 ≡ offsets ++ offsets_of rs (length cols)
unfolding push_rows
offsets-push_rows [] offsets cols = sym (append-nil offsets)
offsets-push_rows (r ∷ rs) offsets cols =
    offsets-push_rows rs (offsets ++ (length (cols ++ r) ∷ [])) (cols ++ r)
    ∙ rw (length-append cols r, append_assoc)

cols-push_rows :
    (rs : List (List ℕ)) (offsets cols : List ℕ) → (push_rows rs offsets cols).1 ≡ cols ++ flat rs
unfolding push_rows
cols-push_rows [] offsets cols = sym (append-nil cols)
cols-push_rows (r ∷ rs) offsets cols =
    cols-push_rows rs (offsets ++ (length (cols ++ r) ∷ [])) (cols ++ r)
    ∙ append_assoc cols r (flat rs)

get_or-append :
    (xs : List ℕ) (y : ℕ) (ys : List ℕ) {i : ℕ} → i ≡ length xs → get_or (xs ++ (y ∷ ys)) i 0 ≡ y
get_or-append [] y ys {i = zero} e = refl
get_or-append [] y ys {i = suc i} e = absurd (omega arith)
get_or-append (x ∷ xs) y ys {i = zero} e = absurd (omega arith)
get_or-append (x ∷ xs) y ys {i = suc i} e = get_or-append xs y ys {i = i} (omega arith)

rows_from-offsets :
    (m : HostMatrixCsr) (rs : List (List ℕ)) (r : ℕ) (offs pre : List ℕ)
    → r ≡ length offs
    → m.row_offsets ≡ offs ++ (length pre ∷ offsets_of rs (length pre))
    → m.col_indices ≡ pre ++ flat rs
    → rows_from m (length rs) r ≡ rs
unfolding rows_from row
rows_from-offsets m [] r offs pre e o c = refl
rows_from-offsets m (x ∷ rs) r offs pre e o c =
    let begin : get_or m.row_offsets r 0 ≡ length pre = rw o (get_or-append offs _ _ e) in
    let o' : m.row_offsets
        ≡ (offs ++ (length pre ∷ [])) ++ (length (pre ++ x) ∷ offsets_of rs (length (pre ++ x))) =
      rw (length-append pre x) (o ∙ sym (append_assoc offs (length pre ∷ []) _)) in
    let r' : r + 1 ≡ length (offs ++ (length pre ∷ [])) =
      omega (arith, length-append offs (length pre ∷ [])) in
    let end : get_or m.row_offsets (r + 1) 0 ≡ length (pre ++ x) = rw o' (get_or-append _ _ _ r') in
    let width : length (pre ++ x) - length pre ≡ length x = omega (arith, length-append pre x) in
    ap₂ ◌∷◌ (rw (begin, end, width, c, drop-append pre (x ++ flat rs)) (take-append x (flat rs))) (
      rows_from-offsets m rs (r + 1) (offs ++ (length pre ∷ [])) (pre ++ x) r' o'
        (c ∙ sym (append_assoc pre x (flat rs))))

-- Reading the rows back from a rebuilt CSR matrix gives the rows that went in.
pub rows_of-to_csr : (rows : List (List ℕ)) (n_cols : ℕ) → rows_of (to_csr rows n_cols) ≡ rows
unfolding rows_of to_csr
rows_of-to_csr rows n_cols =
    rows_from-offsets (to_csr rows n_cols) rows 0 [] [] refl (offsets-push_rows rows (0 ∷ []) [])
      (cols-push_rows rows (0 ∷ []) [])
