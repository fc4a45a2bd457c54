-- ===== src/Cluster/Merge/Copies.antt =====
-- `mergeRelationBatches`: copies into vectors that were filled with zeros.
use mathlib.Core.List.{append_assoc}
use cuda_mpqs.Prelude.{
  ℕ, zero, suc, ◌+◌, ◌≡◌, refl, sym, ap, ◌∙◌, List, [], ◌∷◌, ◌++◌, map, arith, take, drop, length,
  get_or, set, replicate, length-append, take-append, drop-append, drop-drop,
}
use cuda_mpqs.Cluster.Merge.{copy_to, shift_offsets}

abbrev pub zeros : ℕ → List ℕ
zeros k = replicate k 0

drop-zeros : (n k : ℕ) → drop n (zeros (n + k)) ≡ zeros k
drop-zeros zero k = ap (λ j. zeros j) {x = 0 + k} {y = k} (omega arith)
drop-zeros (suc n) k =
    ap (λ j. drop (suc n) (zeros j)) {x = suc n + k} {y = suc (n + k)} (omega arith)
    ∙ drop-zeros n k

-- The first free places are filled.
pub copy_to-zeros :
    (xs ys us : List ℕ) (k : ℕ)
    → copy_to (length xs) (length ys) (ys ++ us) (xs ++ zeros (length ys + k))
      ≡ (xs ++ ys) ++ zeros k
unfolding copy_to
copy_to-zeros xs ys us k =
    let zs = zeros (length ys + k) in
    ap (λ h. h ++ (take (length ys) (ys ++ us) ++ drop (length xs + length ys) (xs ++ zs)))
      (take-append xs zs)
    ∙ ap (λ m. xs ++ (m ++ drop (length xs + length ys) (xs ++ zs))) (take-append ys us)
    ∙ ap (λ t. xs ++ (ys ++ t))
        (drop-drop (length xs) (length ys) (xs ++ zs)
          ∙ ap (drop (length ys)) (drop-append xs zs)
          ∙ drop-zeros (length ys) k)
    ∙ sym (append_assoc xs ys (zeros k))

module _ {ℓ} {A : Type ℓ} where
  get_or-at : (xs ys : List A) (y d : A) → get_or (xs ++ y ∷ ys) (length xs) d ≡ y
  get_or-at [] ys y d = refl
  get_or-at (x ∷ xs) ys y d = get_or-at xs ys y d

  set-at : (xs ys : List A) (y v : A) → set (xs ++ y ∷ ys) (length xs) v ≡ xs ++ v ∷ ys
  set-at [] ys y v = refl
  set-at (x ∷ xs) ys y v = ap (◌∷◌ x) (set-at xs ys y v)

pub set-same : (xs : List ℕ) (i v : ℕ) → get_or xs i 0 ≡ v → set xs i v ≡ xs
set-same [] i v e = refl
set-same (x ∷ xs) zero v e = ap (λ y. y ∷ xs) (sym e)
set-same (x ∷ xs) (suc i) v e = ap (◌∷◌ x) (set-same xs i v e)

-- The offsets `vs` of the source follow `xs`, each with what came before.
pub shift_offsets-zeros :
    (vs before after xs : List ℕ) (j rel fac k : ℕ)
    → length before ≡ j
    → length xs ≡ rel + j
    → shift_offsets (length vs) j rel fac (before ++ (vs ++ after)) (xs ++ zeros (length vs + k))
      ≡ (xs ++ map (λ v. v + fac) vs) ++ zeros k
unfolding shift_offsets
shift_offsets-zeros [] before after xs j rel fac k n m =
    ap (λ i. xs ++ zeros i) {x = 0 + k} {y = k} (omega arith)
    ∙ ap (λ ys. ys ++ zeros k) (sym (append-none xs))
  where
    append-none : (ys : List ℕ) → ys ++ [] ≡ ys
    append-none [] = refl
    append-none (y ∷ ys) = ap (◌∷◌ y) (append-none ys)
shift_offsets-zeros (v ∷ vs) before after xs j rel fac k n m =
    let from = before ++ (v ∷ (vs ++ after)) in
    let zs : List ℕ = zeros (length vs + k) in
    let value : get_or from j 0 + fac ≡ v + fac =
      ap (λ i. get_or from i 0 + fac) (sym n)
      ∙ ap (λ x. x + fac) (get_or-at before (vs ++ after) v 0) in
    let placed : set (xs ++ zeros (suc (length vs) + k)) (rel + j) (get_or from j 0 + fac)
        ≡ (xs ++ (v + fac) ∷ []) ++ zs =
      ap (λ i. set (xs ++ zeros i) (rel + j) (get_or from j 0 + fac)) {x = suc (length vs) + k}
        {y = suc (length vs + k)} (omega arith)
      ∙ ap (λ i. set (xs ++ 0 ∷ zs) i (get_or from j 0 + fac)) (sym m)
      ∙ set-at xs zs 0 (get_or from j 0 + fac)
      ∙ ap (λ x. xs ++ x ∷ zs) value
      ∙ sym (append_assoc xs ((v + fac) ∷ []) zs) in
    ap (shift_offsets (length vs) (j + 1) rel fac from) placed
    ∙ ap (λ f. shift_offsets (length vs) (j + 1) rel fac f ((xs ++ (v + fac) ∷ []) ++ zs))
        (sym (append_assoc before (v ∷ []) (vs ++ after)))
    ∙ shift_offsets-zeros vs (before ++ v ∷ []) after (xs ++ (v + fac) ∷ []) (j + 1) rel fac k
        (omega (arith, length-append before (v ∷ []), n))
        (omega (arith, length-append xs ((v + fac) ∷ []), m))
    ∙ ap (λ ys. ys ++ zeros k) (append_assoc xs ((v + fac) ∷ []) (map (λ v. v + fac) vs))
