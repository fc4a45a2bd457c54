-- ===== src/Matrix/Weight2/Rows.antt =====
-- mergeWeight2: reading and writing the rows, and the operations on the inverted index.
use cuda_mpqs.Prelude.{
  ℕ, zero, suc, ◌+◌, ◌≡◌, ◌≢◌, refl, sym, ap, ◌∙◌, List, [], ◌∷◌, ◌++◌, Bool, true, false, ◌&&◌,
  not, ltb, ◌==◌, if◌then◌else◌, set, arith, Bool-cases, inl, inr, count, count-append,
}
use cuda_mpqs.Matrix.Weight2.{
  MergeRow, ColRows, row_at, contains, erase_value, unregister, unregister_except, register_new,
  register_row, replace_rows,
}

pub row_at-set_self :
    (rs : List MergeRow) (r : ℕ) (v : MergeRow)
    → (row_at rs r).alive ≡ true
    → row_at (set rs r v) r ≡ v
unfolding row_at
row_at-set_self [] r v live = absurd (cc)
row_at-set_self (x ∷ rs) zero v live = refl
row_at-set_self (x ∷ rs) (suc r) v live = row_at-set_self rs r v live

pub row_at-set_ne :
    (rs : List MergeRow) (r q : ℕ) (v : MergeRow) → r ≢ q → row_at (set rs r v) q ≡ row_at rs q
unfolding row_at
row_at-set_ne [] r q v ne = refl
row_at-set_ne (x ∷ rs) zero zero v ne = absurd (ne refl)
row_at-set_ne (x ∷ rs) zero (suc q) v ne = refl
row_at-set_ne (x ∷ rs) (suc r) zero v ne = refl
row_at-set_ne (x ∷ rs) (suc r) (suc q) v ne = row_at-set_ne rs r q v (λ e. ne (ap suc e))

pub row_at-replace_left :
    (rs : List MergeRow) (r1 r2 : ℕ) (new : List ℕ) (n : ℕ)
    → r1 ≢ r2
    → (row_at rs r1).alive ≡ true
    → (row_at (replace_rows rs r1 r2 new n) r1).cols ≡ new
unfolding replace_rows
row_at-replace_left rs r1 r2 new n ne live =
    ap (λ (x : MergeRow). x.cols)
      (row_at-set_ne (set rs r1 _) r2 r1 _ (λ e. ne (sym e)) ∙ row_at-set_self rs r1 _ live)

pub row_at-replace_right :
    (rs : List MergeRow) (r1 r2 : ℕ) (new : List ℕ) (n : ℕ)
    → r1 ≢ r2
    → (row_at rs r2).alive ≡ true
    → (row_at (replace_rows rs r1 r2 new n) r2).cols ≡ []
unfolding replace_rows
row_at-replace_right rs r1 r2 new n ne live =
    let same = row_at-set_ne rs r1 r2 (record (row_at rs r1) { cols = new; node_of = n }) ne in
    ap (λ (x : MergeRow). x.cols)
      (row_at-set_self (set rs r1 _) r2 _ (ap (λ (x : MergeRow). x.alive) same ∙ live))

pub row_at-replace_ne :
    (rs : List MergeRow) (r1 r2 q : ℕ) (new : List ℕ) (n : ℕ)
    → r1 ≢ q
    → r2 ≢ q
    → row_at (replace_rows rs r1 r2 new n) q ≡ row_at rs q
unfolding replace_rows
row_at-replace_ne rs r1 r2 q new n ne ne' =
    row_at-set_ne (set rs r1 _) r2 q _ ne' ∙ row_at-set_ne rs r1 q _ ne

pub row_at-replace_alive :
    (rs : List MergeRow) (r1 r2 q : ℕ) (new : List ℕ) (n : ℕ)
    → r1 ≢ r2
    → (row_at rs r1).alive ≡ true
    → r2 ≢ q
    → (row_at (replace_rows rs r1 r2 new n) q).alive ≡ (row_at rs q).alive
unfolding replace_rows
row_at-replace_alive rs r1 r2 q new n ne live ne' = elim (Bool-cases (r1 == q)) [
  | inl here ↦
      let e : r1 ≡ q = ground arith in
      rw (sym e) (
        ap (λ (x : MergeRow). x.alive)
          (row_at-set_ne (set rs r1 _) r2 r1 _ (λ e. ne (sym e)) ∙ row_at-set_self rs r1 _ live))
  | inr away ↦
      ap (λ (x : MergeRow). x.alive)
        (row_at-set_ne (set rs r1 _) r2 q _ ne' ∙ row_at-set_ne rs r1 q _ (ground arith))
]

pub contains-count : (c : ℕ) (cs : List ℕ) → contains c cs ≡ ltb 0 (count c cs)
unfolding contains
contains-count c [] = refl
contains-count c (d ∷ cs) = ground (arith, contains-count c cs)

count-erase_value :
    (r q : ℕ) (xs : List ℕ) → count r (erase_value q xs) ≡ (if q == r then 0 else count r xs)
unfolding erase_value
count-erase_value r q [] = ground arith
count-erase_value r q (x ∷ xs) = ground (arith, count-erase_value r q xs)

-- Row `q` is gone from the lists of the columns of `cs`, and nothing else changes.
pub count-unregister :
    (r q c : ℕ) (cs : List ℕ) (m : ColRows)
    → count r (unregister q cs m c) ≡ (if q == r && ltb 0 (count c cs) then 0 else count r (m c))
unfolding unregister
count-unregister r q c [] m = ground arith
count-unregister r q c (d ∷ cs) m =
    let m' : ColRows = λ e. if e == d then erase_value q (m e) else m e in
    ground (arith, count-unregister r q c cs m', count-erase_value r q (m c))

same_contains :
    (c d : ℕ) (keep : List ℕ) {b : Bool} → contains d keep ≡ b → c ≡ d → contains c keep ≡ b
same_contains c d keep e p = rw p e

except_kept :
    (r q c d : ℕ) (keep cs : List ℕ) (m : ColRows) {x : ℕ}
    → contains d keep ≡ true
    → x ≡ (if q == r && (ltb 0 (count c cs) && not (contains c keep)) then 0 else count r (m c))
    → x
      ≡ (if q == r && (ltb 0 (count c (d ∷ cs)) && not (contains c keep)) then 0 else count r (m c))
except_kept r q c d keep cs m kept ih = elim (Bool-cases (d == c)) [
  | inl here ↦
      let k : contains c keep ≡ true = same_contains c d keep kept (ground arith) in
      ground (arith, k, ih)
  | inr away ↦ ground (arith, away, ih)
]

except_other :
    (r q c d : ℕ) (keep cs : List ℕ) (m : ColRows) {x : ℕ}
    → contains d keep ≡ false
    → x ≡ (
        if q == r && (ltb 0 (count c cs) && not (contains c keep))
        then 0
        else count r (if c == d then erase_value q (m c) else m c))
    → x
      ≡ (if q == r && (ltb 0 (count c (d ∷ cs)) && not (contains c keep)) then 0 else count r (m c))
except_other r q c d keep cs m other ih = elim (Bool-cases (d == c)) [
  | inl here ↦
      let k : contains c keep ≡ false = same_contains c d keep other (ground arith) in
      ground (arith, k, ih, count-erase_value r q (m c))
  | inr away ↦ ground (arith, away, ih)
]

pub count-unregister_except :
    (r q c : ℕ) (keep cs : List ℕ) (m : ColRows)
    → count r (unregister_except q keep cs m c)
      ≡ (if q == r && (ltb 0 (count c cs) && not (contains c keep)) then 0 else count r (m c))
unfolding unregister_except
count-unregister_except r q c keep [] m = ground arith
count-unregister_except r q c keep (d ∷ cs) m = elim (Bool-cases (contains d keep)) [
  | inl kept ↦
      rw (kept, unregister_except)
        (except_kept r q c d keep cs m kept (count-unregister_except r q c keep cs m))
  | inr other ↦
      let m' : ColRows = λ e. if e == d then erase_value q (m e) else m e in
      rw (other, unregister_except)
        (except_other r q c d keep cs m other (count-unregister_except r q c keep cs m'))
]

register_old :
    (r q c d n : ℕ) (old cs : List ℕ) {x : ℕ}
    → contains d old ≡ true
    → x ≡ n + (if q == r then (if contains c old then 0 else count c cs) else 0)
    → x ≡ n + (if q == r then (if contains c old then 0 else count c (d ∷ cs)) else 0)
register_old r q c d n old cs known ih = elim (Bool-cases (d == c)) [
  | inl here ↦
      let k : contains c old ≡ true = same_contains c d old known (ground arith) in
      ground (arith, k, ih)
  | inr away ↦ ground (arith, away, ih)
]

register_other :
    (r q c d : ℕ) (old cs : List ℕ) (m : ColRows) {x : ℕ}
    → contains d old ≡ false
    → x
      ≡ count r (if c == d then m c ++ (q ∷ []) else m c)
        + (if q == r then (if contains c old then 0 else count c cs) else 0)
    → x ≡ count r (m c) + (if q == r then (if contains c old then 0 else count c (d ∷ cs)) else 0)
register_other r q c d old cs m other ih = elim (Bool-cases (d == c)) [
  | inl here ↦
      let k : contains c old ≡ false = same_contains c d old other (ground arith) in
      ground (arith, k, ih, count-append r (m c) (q ∷ []))
  | inr away ↦ ground (arith, away, ih)
]

-- Row `q` joins the lists of the columns of `cs` that are not in `old`.
pub count-register_new :
    (r q c : ℕ) (old cs : List ℕ) (m : ColRows)
    → count r (register_new q old cs m c)
      ≡ count r (m c) + (if q == r then (if contains c old then 0 else count c cs) else 0)
unfolding register_new
count-register_new r q c old [] m = ground arith
count-register_new r q c old (d ∷ cs) m = elim (Bool-cases (contains d old)) [
  | inl known ↦
      rw (known, register_new)
        (register_old r q c d _ old cs known (count-register_new r q c old cs m))
  | inr other ↦
      let m' : ColRows = λ e. if e == d then m e ++ (q ∷ []) else m e in
      rw (other, register_new)
        (register_other r q c d old cs m other (count-register_new r q c old cs m'))
]

pub count-register_row :
    (r q c : ℕ) (cs : List ℕ) (m : ColRows)
    → count r (register_row q cs m c) ≡ count r (m c) + (if q == r then count c cs else 0)
unfolding register_row
count-register_row r q c [] m = ground arith
count-register_row r q c (d ∷ cs) m =
    let m' : ColRows = λ e. if e == d then m e ++ (q ∷ []) else m e in
    ground (arith, count-register_row r q c cs m', count-append r (m c) (q ∷ []))
