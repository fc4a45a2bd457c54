-- ===== src/Cluster/Merge/Filling.antt =====
-- `mergeRelationBatches`: the vectors of a batch of which a part is filled.
use mathlib.Core.List.{append-nil}
use cuda_mpqs.Prelude.{
  ℕ, suc, ◌+◌, ◌≡◌, refl, sym, ap, ◌∙◌, List, [], ◌∷◌, ◌++◌, map, arith, length, ltb, ◌==◌,
  length-append, true, false, if_true, if_false,
}
use cuda_mpqs.Cluster.Batch.{HostRelationBatch}
use cuda_mpqs.Cluster.Relations.{Relation}
use cuda_mpqs.Cluster.Relations.Slices.{map-append, length-map}
use cuda_mpqs.Cluster.Relations.View.{
  batch_of, offsets_from, all_factors, all_factors-append, offsets_from-append, offset,
}
use cuda_mpqs.Cluster.Merge.{
  copy_to, batch_factors, shift_offsets, MergeState, copy_factors, copy_offsets,
}
use cuda_mpqs.Cluster.Merge.Copies.{zeros, copy_to-zeros, shift_offsets-zeros}

-- The relations of a batch that are merged, and those behind them.
abbrev pub Part : Type 0
Part = List Relation × List Relation

abbrev pub merged : List Part → List Relation
merged [] = []
merged ((us, ws) ∷ ps) = us ++ merged ps

-- The batch in the middle of the merge: `done` is in place, and zeros stand for `rest`.
abbrev pub filling : List Relation → List Relation → HostRelationBatch
filling done rest = record {
  sqrt_q = map (λ r. r.sqrt_q) done ++ zeros (length rest);
  signs = map (λ r. r.sign) done ++ zeros (length rest);
  val_2_exps = map (λ r. r.val_2_exp) done ++ zeros (length rest);
  large_primes = map (λ r. r.large_prime) done ++ zeros (length rest);
  char_bits = map (λ r. r.char_bits) done ++ zeros (length rest);
  factor_offsets = (0 ∷ offsets_from 0 done) ++ zeros (length rest);
  factor_indices = map (λ f. f.0) (all_factors done) ++ zeros (length (all_factors rest));
  factor_counts = map (λ f. f.1) (all_factors done) ++ zeros (length (all_factors rest));
  num_relations = length (done ++ rest);
  num_factors = length (all_factors (done ++ rest));
}

abbrev pub filling_state : List Relation → List Relation → MergeState
filling_state done rest = record {
  out = filling done rest;
  rel_cursor = length done;
  fac_cursor = length (all_factors done);
}

pub length-offsets_from : (acc : ℕ) (rs : List Relation) → length (offsets_from acc rs) ≡ length rs
length-offsets_from acc [] = refl
length-offsets_from acc (r ∷ rs) = ap suc (length-offsets_from (acc + length r.factors) rs)

pub batch_factors-batch_of :
    (us ws : List Relation)
    → batch_factors (batch_of (us ++ ws)) (length us) ≡ length (all_factors us)
unfolding batch_factors
batch_factors-batch_of us ws =
    let long : ltb (length us) (length (batch_of (us ++ ws)).factor_offsets) ≡ true =
      ground (arith, length-offsets_from 0 (us ++ ws), length-append us ws) in
    if_true _ _ long ∙ offset 0 us ws ∙ omega arith

-- A column of the relations.
pub column-filling :
    {A : Type 0} (f : A → ℕ) (done us ws rest : List A)
    → copy_to
        (length done)
        (length us)
        (map f (us ++ ws))
        (map f done ++ zeros (length (us ++ rest)))
      ≡ map f (done ++ us) ++ zeros (length rest)
column-filling f done us ws rest =
    let n = length-map f done in
    let m = length-map f us in
    ap (λ xs. copy_to (length done) (length us) xs (map f done ++ zeros (length (us ++ rest))))
      (map-append f us ws)
    ∙ ap
        (λ k.
          copy_to k (length us) (map f us ++ map f ws) (map f done ++ zeros (length (us ++ rest))))
        (sym n)
    ∙ ap
        (λ k.
          copy_to (length (map f done)) k (map f us ++ map f ws)
            (map f done ++ zeros (length (us ++ rest))))
        (sym m)
    ∙ ap
        (λ k.
          copy_to (length (map f done)) (length (map f us)) (map f us ++ map f ws)
            (map f done ++ zeros k))
        {x = length (us ++ rest)} {y = length (map f us) + length rest}
        (omega (arith, length-append us rest, m))
    ∙ copy_to-zeros (map f done) (map f us) (map f ws) (length rest)
    ∙ ap (λ xs. xs ++ zeros (length rest)) (sym (map-append f done us))

pub not_zero : (n : ℕ) → (suc n == 0) ≡ false
not_zero n = ground arith

factors_column :
    (g : ℕ × ℕ → ℕ) (done us ws rest : List (ℕ × ℕ))
    → copy_factors
        (length done)
        (length us)
        (map g (us ++ ws))
        (map g done ++ zeros (length (us ++ rest)))
      ≡ map g (done ++ us) ++ zeros (length rest)
unfolding copy_factors
factors_column g done [] ws rest =
    ap (λ xs. map g xs ++ zeros (length rest)) (sym (append-nil done))
factors_column g done (u ∷ us) ws rest =
    if_true {b = ltb 0 (length (u ∷ us))} _ (map g done ++ zeros (length ((u ∷ us) ++ rest)))
      (ground arith)
    ∙ column-filling g done (u ∷ us) ws rest

pub factors-filling :
    (g : ℕ × ℕ → ℕ) (done us ws rest : List Relation)
    → copy_factors
        (length (all_factors done))
        (length (all_factors us))
        (map g (all_factors (us ++ ws)))
        (map g (all_factors done) ++ zeros (length (all_factors (us ++ rest))))
      ≡ map g (all_factors (done ++ us)) ++ zeros (length (all_factors rest))
factors-filling g done us ws rest =
    let d = all_factors done in
    let u = all_factors us in
    ap
      (λ xs.
        copy_factors (length d) (length u) (map g xs)
          (map g d ++ zeros (length (all_factors (us ++ rest)))))
      (all_factors-append us ws)
    ∙ ap
        (λ xs.
          copy_factors (length d) (length u) (map g (u ++ all_factors ws))
            (map g d ++ zeros (length xs)))
        (all_factors-append us rest)
    ∙ factors_column g d u (all_factors ws) (all_factors rest)
    ∙ ap (λ xs. map g xs ++ zeros (length (all_factors rest))) (sym (all_factors-append done us))

offsets-shift :
    (acc fac : ℕ) (rs : List Relation)
    → map (λ v. v + fac) (offsets_from acc rs) ≡ offsets_from (fac + acc) rs
offsets-shift acc fac [] = refl
offsets-shift acc fac (r ∷ rs) =
    ap (λ k. k ∷ map (λ v. v + fac) (offsets_from (acc + length r.factors) rs))
      {x = acc + length r.factors + fac} {y = fac + acc + length r.factors} (omega arith)
    ∙ ap (◌∷◌ (fac + acc + length r.factors))
        (offsets-shift (acc + length r.factors) fac rs ∙ ap (λ k. offsets_from k rs) (omega arith))

-- The zeros of the offsets.
zeros_split :
    (done us rest : List Relation)
    → (0 ∷ offsets_from 0 done) ++ zeros (length (us ++ rest))
      ≡ (0 ∷ offsets_from 0 done) ++ zeros (length (offsets_from 0 us) + length rest)
zeros_split done us rest =
    ap (λ k. (0 ∷ offsets_from 0 done) ++ zeros k)
      (omega (arith, length-append us rest, length-offsets_from 0 us))

first_offsets :
    (us ws rest : List Relation)
    → copy_to 0 (length us + 1) (0 ∷ offsets_from 0 (us ++ ws)) (0 ∷ zeros (length (us ++ rest)))
      ≡ (0 ∷ offsets_from 0 us) ++ zeros (length rest)
first_offsets us ws rest =
    let mine = 0 ∷ offsets_from 0 us in
    ap (λ k. copy_to 0 k (0 ∷ offsets_from 0 (us ++ ws)) (0 ∷ zeros (length (us ++ rest))))
      {x = length us + 1} {y = length mine} (omega (arith, length-offsets_from 0 us))
    ∙ ap (λ xs. copy_to 0 (length mine) (0 ∷ xs) (0 ∷ zeros (length (us ++ rest))))
        (offsets_from-append 0 us ws)
    ∙ ap (copy_to 0 (length mine) (mine ++ offsets_from (0 + length (all_factors us)) ws))
        {x = zeros (suc (length (us ++ rest)))} {y = zeros (length mine + length rest)}
        (ap zeros {x = suc (length (us ++ rest))} {y = length mine + length rest}
          (omega (arith, length-append us rest, length-offsets_from 0 us)))
    ∙ copy_to-zeros [] mine (offsets_from (0 + length (all_factors us)) ws) (length rest)

later_offsets :
    (done us ws rest : List Relation)
    → shift_offsets
        (length us)
        1
        (length done)
        (length (all_factors done))
        (0 ∷ offsets_from 0 (us ++ ws))
        ((0 ∷ offsets_from 0 done) ++ zeros (length (us ++ rest)))
      ≡ (0 ∷ offsets_from 0 (done ++ us)) ++ zeros (length rest)
later_offsets done us ws rest =
    let old = 0 ∷ offsets_from 0 done in
    let fac = length (all_factors done) in
    let mine = offsets_from 0 us in
    let behind = offsets_from (0 + length (all_factors us)) ws in
    ap (shift_offsets (length us) 1 (length done) fac (0 ∷ offsets_from 0 (us ++ ws)))
      (zeros_split done us rest)
    ∙ ap
        (λ xs.
          shift_offsets (length us) 1 (length done) fac (0 ∷ xs)
            (old ++ zeros (length mine + length rest)))
        (offsets_from-append 0 us ws)
    ∙ ap
        (λ k.
          shift_offsets k 1 (length done) fac (0 ∷ (mine ++ behind))
            (old ++ zeros (length mine + length rest)))
        (sym (length-offsets_from 0 us))
    ∙ shift_offsets-zeros mine (0 ∷ []) behind old 1 (length done) fac (length rest) refl
        (omega (arith, length-offsets_from 0 done))
    ∙ ap (λ xs. (old ++ xs) ++ zeros (length rest))
        (offsets-shift 0 fac us
          ∙ ap (λ k. offsets_from k us) {x = fac + 0} {y = 0 + fac} (omega arith))
    ∙ ap (λ xs. (0 ∷ xs) ++ zeros (length rest)) (sym (offsets_from-append 0 done us))

pub offsets-filling :
    (done us ws rest : List Relation)
    → copy_offsets
        (length us)
        (length done)
        (length (all_factors done))
        (0 ∷ offsets_from 0 (us ++ ws))
        ((0 ∷ offsets_from 0 done) ++ zeros (length (us ++ rest)))
      ≡ (0 ∷ offsets_from 0 (done ++ us)) ++ zeros (length rest)
unfolding copy_offsets
offsets-filling [] us ws rest = first_offsets us ws rest
offsets-filling (d ∷ done) us ws rest =
    if_false
      (copy_to 0 (length us + 1) (0 ∷ offsets_from 0 (us ++ ws))
        ((0 ∷ offsets_from 0 (d ∷ done)) ++ zeros (length (us ++ rest))))
      _ (not_zero (length done))
    ∙ later_offsets (d ∷ done) us ws rest
