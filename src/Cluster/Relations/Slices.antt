-- ===== src/Cluster/Relations/Slices.antt =====
-- Reading the parts of a concatenation.
use cuda_mpqs.Prelude.{
  ℕ, suc, ◌+◌, ◌-◌, ◌≡◌, refl, ap, ◌∙◌, List, [], ◌∷◌, ◌++◌, map, arith, take, drop, length,
}
use cuda_mpqs.Cluster.Relations.{zip, slice}

module _ {ℓ κ} {A : Type ℓ} {B : Type κ} (f : A → B) where
  pub map-append : (xs ys : List A) → map f (xs ++ ys) ≡ map f xs ++ map f ys
  map-append [] ys = refl
  map-append (x ∷ xs) ys = ap (◌∷◌ (f x)) (map-append xs ys)

  pub length-map : (xs : List A) → length (map f xs) ≡ length xs
  length-map [] = refl
  length-map (x ∷ xs) = ap suc (length-map xs)

module _ {ℓ} {A : Type ℓ} where
  pub append_assoc : (xs ys zs : List A) → (xs ++ ys) ++ zs ≡ xs ++ (ys ++ zs)
  append_assoc [] ys zs = refl
  append_assoc (x ∷ xs) ys zs = ap (◌∷◌ x) (append_assoc xs ys zs)

pub zip-map : (fs : List (ℕ × ℕ)) → zip (map (λ f. f.0) fs) (map (λ f. f.1) fs) ≡ fs
unfolding zip
zip-map [] = refl
zip-map ((x, y) ∷ fs) = ap (◌∷◌ (x, y)) (zip-map fs)

-- Behind `xs`, a slice is one of the rest.
pub slice-append :
    (first last : ℕ) (xs ys : List ℕ)
    → slice (length xs + first) (length xs + last) (xs ++ ys) ≡ slice first last ys
unfolding slice
slice-append first last xs ys =
    ap (λ k. take k (drop (length xs + first) (xs ++ ys)))
      {x = length xs + last - (length xs + first)} {y = last - first} (omega arith)
    ∙ ap (take (last - first)) (drop-append_more first xs ys)
  where
    drop-append_more : (k : ℕ) (xs ys : List ℕ) → drop (length xs + k) (xs ++ ys) ≡ drop k ys
    drop-append_more k [] ys = ap (λ j. drop j ys) {x = 0 + k} {y = k} (omega arith)
    drop-append_more k (x ∷ xs) ys =
        ap (λ j. drop j (x ∷ (xs ++ ys))) {x = suc (length xs) + k} {y = suc (length xs + k)}
          (omega arith)
        ∙ drop-append_more k xs ys

pub slice-first : (xs ys : List ℕ) → slice 0 (length xs) (xs ++ ys) ≡ xs
unfolding slice
slice-first xs ys =
    ap (λ k. take k (xs ++ ys)) {x = length xs - 0} {y = length xs} (omega arith) ∙ take-first xs ys
  where
    take-first : (xs ys : List ℕ) → take (length xs) (xs ++ ys) ≡ xs
    take-first [] ys = refl
    take-first (x ∷ xs) ys = ap (◌∷◌ x) (take-first xs ys)
