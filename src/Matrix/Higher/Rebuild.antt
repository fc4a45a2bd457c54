-- ===== src/Matrix/Higher/Rebuild.antt =====
-- mergeHigherWeight: the rebuilt matrix, while its entries are below 2^32.
use native.Mathlib.Nat.{mod-eq_of_lt}
use cuda_mpqs.Prelude.{
  ℕ, zero, suc, ◌+◌, ◌%◌, ◌^◌, ◌<◌, ◌≡◌, refl, ap, ◌∙◌, subst, List, [], ◌∷◌, ◌++◌, map, length,
  take, drop, arith, length-append, take-append, drop-append,
}
use cuda_mpqs.Matrix.Csr.{flat, push_rows, to_csr}
use cuda_mpqs.Matrix.MergeTree.{sort, insert_sorted}
use cuda_mpqs.Matrix.Higher.{push_sorted_rows, to_sorted_csr}

length-insert_sorted : (x : ℕ) (ys : List ℕ) → length (insert_sorted x ys) ≡ suc (length ys)
unfolding insert_sorted
length-insert_sorted x [] = refl
length-insert_sorted x (y ∷ ys) = ground (arith, length-insert_sorted x ys)

pub length-sort : (xs : List ℕ) → length (sort xs) ≡ length xs
unfolding sort
length-sort [] = refl
length-sort (x ∷ xs) = omega (arith, length-insert_sorted x (sort xs), length-sort xs)

length-take-drop : (n : ℕ) (xs : List ℕ) → length (take n xs) + length (drop n xs) ≡ length xs
length-take-drop zero xs = omega arith
length-take-drop (suc n) [] = omega arith
length-take-drop (suc n) (x ∷ xs) = omega (arith, length-take-drop n xs)

-- A row is appended, and the entries from `start` on are sorted.
abbrev sorted_from : ℕ → List ℕ → List ℕ
sorted_from start pushed = take start pushed ++ sort (drop start pushed)

length-sorted_from : (start : ℕ) (xs : List ℕ) → length (sorted_from start xs) ≡ length xs
length-sorted_from start xs =
    length-append (take start xs) (sort (drop start xs))
    ∙ ap (λ k. length (take start xs) + k) (length-sort (drop start xs))
    ∙ length-take-drop start xs

-- Whatever the offsets are, every entry is kept.
length-push_sorted_rows :
    (rs : List (List ℕ)) (start : ℕ) (offsets cols : List ℕ)
    → length (push_sorted_rows rs start offsets cols).1 ≡ length cols + length (flat rs)
unfolding push_sorted_rows
length-push_sorted_rows [] start offsets cols = omega arith
length-push_sorted_rows (r ∷ rs) start offsets cols =
    let cols' = sorted_from start (cols ++ r) in
    let end = length cols' % 2 ^ 32 in
    omega (
      arith,
      length-push_sorted_rows rs end (offsets ++ (end ∷ [])) cols',
      length-sorted_from start (cols ++ r),
      length-append cols r,
      length-append r (flat rs),
    )

sorted_from-append : (cols r : List ℕ) → sorted_from (length cols) (cols ++ r) ≡ cols ++ sort r
sorted_from-append cols r = rw (take-append cols r, drop-append cols r) refl

push_sorted_rows-push_rows :
    (rs : List (List ℕ)) (start : ℕ) (offsets cols : List ℕ)
    → start ≡ length cols
    → length cols + length (flat rs) < 2 ^ 32
    → push_sorted_rows rs start offsets cols ≡ push_rows (map sort rs) offsets cols
unfolding push_sorted_rows push_rows
push_sorted_rows-push_rows [] start offsets cols e few = refl
push_sorted_rows-push_rows (r ∷ rs) start offsets cols e few =
    let cols' = cols ++ sort r in
    let len = length-append cols (sort r) in
    let same : sorted_from start (cols ++ r) ≡ cols' =
      ap (λ k. sorted_from k (cols ++ r)) e ∙ sorted_from-append cols r in
    let total : length cols' + length (flat rs) < 2 ^ 32 =
      omega (arith, few, len, length-sort r, length-append r (flat rs)) in
    let kept : length cols' % 2 ^ 32 ≡ length cols' = mod-eq_of_lt (omega (arith, total)) in
    rw (same, kept)
      (push_sorted_rows-push_rows rs (length cols') (offsets ++ (length cols' ∷ [])) cols' refl
        total)

pub entries-to_sorted_csr :
    (rows : List (List ℕ)) (n : ℕ) → length (to_sorted_csr rows n).col_indices ≡ length (flat rows)
unfolding to_sorted_csr
entries-to_sorted_csr rows n = omega (arith, length-push_sorted_rows rows 0 (0 ∷ []) [])

length-map-sort : (rs : List (List ℕ)) → length (map sort rs) ≡ length rs
length-map-sort [] = refl
length-map-sort (r ∷ rs) = ap suc (length-map-sort rs)

-- With less than 2^32 entries no offset wraps around, and each row is sorted by itself.
pub to_sorted_csr-to_csr :
    (rows : List (List ℕ)) (n : ℕ)
    → length (to_sorted_csr rows n).col_indices < 2 ^ 32
    → to_sorted_csr rows n ≡ to_csr (map sort rows) n
unfolding to_sorted_csr to_csr
to_sorted_csr-to_csr rows n few =
    let same =
      push_sorted_rows-push_rows rows 0 (0 ∷ []) [] refl
        (subst (λ k. k < 2 ^ 32) (length-push_sorted_rows rows 0 (0 ∷ []) []) few) in
    rw (same, length-map-sort rows) refl
