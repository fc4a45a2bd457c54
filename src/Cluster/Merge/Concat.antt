-- ===== src/Cluster/Merge/Concat.antt =====
-- `mergeRelationBatches`: the batches of lists give the batch of their concatenation.
use mathlib.Core.List.{append_assoc, append-nil}
use cuda_mpqs.Prelude.{
  ℕ, zero, suc, ◌+◌, ◌-◌, ◌≡◌, refl, sym, ap, ◌∙◌, List, [], ◌∷◌, ◌++◌, map, arith, length, ltb,
  leb, ◌==◌, if◌then◌else◌, set, replicate, length-append, true, if_true, if_false,
}
use cuda_mpqs.Cluster.Batch.{HostRelationBatch, resize, clear, grow}
use cuda_mpqs.Cluster.Relations.{Relation}
use cuda_mpqs.Cluster.Relations.Slices.{length-map}
use cuda_mpqs.Cluster.Relations.View.{
  batch_of, offsets_from, all_factors, all_factors-append, batch_of-counts,
}
use cuda_mpqs.Cluster.Merge.{
  batch_factors, add_total, total_loop, copy_factors, copy_batch, copy_loop, finish_batch_merge,
  merge_relation_batches,
}
use cuda_mpqs.Cluster.Merge.Copies.{zeros, set-same}
use cuda_mpqs.Cluster.Merge.Filling.{
  Part, merged, filling, filling_state, batch_factors-batch_of, column-filling, factors-filling,
  offsets-filling, not_zero,
}

-- One batch.
copy_batch-filling :
    (done us ws rest : List Relation)
    → copy_batch (batch_of (us ++ ws)) (length us) (filling_state done (us ++ rest))
      ≡ filling_state (done ++ us) rest
unfolding copy_batch
copy_batch-filling done us ws rest =
    let n = batch_factors-batch_of us ws in
    let inside : leb (length us) (length (map (λ r. r.char_bits) (us ++ ws))) ≡ true =
      ground (arith, length-map (λ (r : Relation). r.char_bits) (us ++ ws), length-append us ws) in
    let column = λ (f : Relation → ℕ). column-filling f done us ws rest in
    let factors = λ (g : ℕ × ℕ → ℕ).
      ap
        (λ k.
          copy_factors (length (all_factors done)) k (map g (all_factors (us ++ ws)))
            (map g (all_factors done) ++ zeros (length (all_factors (us ++ rest)))))
        n
      ∙ factors-filling g done us ws rest in
    λ i. record {
      out = record {
        sqrt_q = column (λ r. r.sqrt_q) i;
        signs = column (λ r. r.sign) i;
        val_2_exps = column (λ r. r.val_2_exp) i;
        large_primes = column (λ r. r.large_prime) i;
        char_bits =
            (if_true _ (map (λ r. r.char_bits) done ++ zeros (length (us ++ rest))) inside
                ∙ column (λ r. r.char_bits))
              i;
        factor_offsets = offsets-filling done us ws rest i;
        factor_indices = factors (λ f. f.0) i;
        factor_counts = factors (λ f. f.1) i;
        num_relations = length (sym (append_assoc done us rest) i);
        num_factors = length (all_factors (sym (append_assoc done us rest) i));
      };
      rel_cursor = sym (length-append done us) i;
      fac_cursor =
          (ap (λ k. length (all_factors done) + k) n
              ∙ sym (length-append (all_factors done) (all_factors us))
              ∙ ap length (sym (all_factors-append done us)))
            i;
    }

abbrev pub batches_of : List Part → List HostRelationBatch
batches_of [] = []
batches_of ((us, ws) ∷ ps) = batch_of (us ++ ws) ∷ batches_of ps

abbrev pub counts_of : List Part → List ℕ
counts_of [] = []
counts_of ((us, ws) ∷ ps) = length us ∷ counts_of ps

copy_loop-filling :
    (ps : List Part) (done : List Relation)
    → copy_loop (batches_of ps) (counts_of ps) (filling_state done (merged ps))
      ≡ filling_state (done ++ merged ps) []
unfolding copy_loop
copy_loop-filling [] done = ap (λ rs. filling_state rs []) (sym (append-nil done))
copy_loop-filling (([], ws) ∷ ps) done = copy_loop-filling ps done
copy_loop-filling ((u ∷ us, ws) ∷ ps) done =
    let s = filling_state done (u ∷ (us ++ merged ps)) in
    ap (copy_loop (batches_of ps) (counts_of ps)) (
      if_false s (copy_batch (batch_of (u ∷ (us ++ ws))) (suc (length us)) s)
        (not_zero (length us)))
    ∙ ap (copy_loop (batches_of ps) (counts_of ps))
        (copy_batch-filling done (u ∷ us) ws (merged ps))
    ∙ copy_loop-filling ps (done ++ u ∷ us)
    ∙ ap (λ rs. filling_state rs []) (append_assoc done (u ∷ us) (merged ps))

total_loop-merged :
    (ps : List Part) (rels facs : ℕ)
    → total_loop (batches_of ps) (counts_of ps) (rels, facs)
      ≡ (rels + length (merged ps), facs + length (all_factors (merged ps)))
unfolding total_loop add_total
total_loop-merged [] rels facs =
    let r : rels ≡ rels + 0 = omega arith in
    let f : facs ≡ facs + 0 = omega arith in λ i. (r i, f i)
total_loop-merged (([], ws) ∷ ps) rels facs = total_loop-merged ps rels facs
total_loop-merged ((u ∷ us, ws) ∷ ps) rels facs =
    let n = batch_factors-batch_of (u ∷ us) ws in
    let rs = u ∷ us in
    let more : rels + length rs + length (merged ps) ≡ rels + length (rs ++ merged ps) =
      omega (arith, length-append rs (merged ps)) in
    let facs_more : facs
          + batch_factors (batch_of (rs ++ ws)) (length rs)
          + length (all_factors (merged ps))
        ≡ facs + length (all_factors (rs ++ merged ps)) =
      omega (
        arith,
        n,
        ap length (all_factors-append rs (merged ps)),
        length-append (all_factors rs) (all_factors (merged ps)),
      ) in
    ap (total_loop (batches_of ps) (counts_of ps)) (
      if_false (rels, facs)
        (rels + length rs, facs + batch_factors (batch_of (rs ++ ws)) (length rs))
        (not_zero (length us)))
    ∙ total_loop-merged ps (rels + length rs)
        (facs + batch_factors (batch_of (rs ++ ws)) (length rs))
    ∙ (λ i. (more i, facs_more i))

grow-nil : (n : ℕ) → grow n [] ≡ zeros n
unfolding grow
grow-nil zero = refl
grow-nil (suc n) =
    let more : ltb 0 (suc n) ≡ true = ground arith in
    if_true (replicate (suc n - 0) 0) [] more ∙ ap zeros {x = suc n - 0} {y = suc n} (omega arith)

resize-filling :
    (rs : List Relation) → resize clear (length rs) (length (all_factors rs)) ≡ filling [] rs
unfolding resize clear
resize-filling rs = λ i. record {
  sqrt_q = grow-nil (length rs) i;
  signs = grow-nil (length rs) i;
  val_2_exps = grow-nil (length rs) i;
  large_primes = grow-nil (length rs) i;
  char_bits = grow-nil (length rs) i;
  factor_offsets =
      (ap (λ k. grow k []) {x = length rs + 1} {y = suc (length rs)} (omega arith)
          ∙ grow-nil (suc (length rs)))
        i;
  factor_indices = grow-nil (length (all_factors rs)) i;
  factor_counts = grow-nil (length (all_factors rs)) i;
  num_relations = length rs;
  num_factors = length (all_factors rs);
}

finish_batch_merge-filling :
    (rs : List Relation)
    → finish_batch_merge (length rs) (length (all_factors rs)) (filling rs []) ≡ batch_of rs
unfolding finish_batch_merge
finish_batch_merge-filling rs =
    let last = (batch_of-counts rs).1 in
    λ i. record {
      sqrt_q = append-nil (map (λ r. r.sqrt_q) rs) i;
      signs = append-nil (map (λ r. r.sign) rs) i;
      val_2_exps = append-nil (map (λ r. r.val_2_exp) rs) i;
      large_primes = append-nil (map (λ r. r.large_prime) rs) i;
      char_bits = append-nil (map (λ r. r.char_bits) rs) i;
      factor_offsets =
          (ap (λ xs. set (0 ∷ xs) (length rs) (length (all_factors rs)))
                (append-nil (offsets_from 0 rs))
              ∙ set-same (0 ∷ offsets_from 0 rs) (length rs) (length (all_factors rs)) last)
            i;
      factor_indices = append-nil (map (λ f. f.0) (all_factors rs)) i;
      factor_counts = append-nil (map (λ f. f.1) (all_factors rs)) i;
      num_relations = length rs;
      num_factors = length (all_factors rs);
    }

-- Merging the first relations of some batches of lists gives the batch of all of them in their order, with its offsets; without any relation it gives the empty batch.
pub merge_relation_batches_lem :
    (ps : List Part)
    → merge_relation_batches (batches_of ps) (counts_of ps)
      ≡ (if length (merged ps) == 0 then clear else batch_of (merged ps))
unfolding merge_relation_batches
merge_relation_batches_lem ps =
    let rs = merged ps in
    let finish = λ (t : ℕ × ℕ).
      if t.0 == 0
      then clear
      else finish_batch_merge t.0 t.1
          (copy_loop (batches_of ps) (counts_of ps)
            (record { out = resize clear t.0 t.1; rel_cursor = 0; fac_cursor = 0 })).out in
    let relations : 0 + length rs ≡ length rs = omega arith in
    let factors : 0 + length (all_factors rs) ≡ length (all_factors rs) = omega arith in
    let totals : total_loop (batches_of ps) (counts_of ps) (0, 0)
        ≡ (length rs, length (all_factors rs)) =
      total_loop-merged ps 0 0 ∙ (λ i. (relations i, factors i)) in
    ap finish totals
    ∙ ap
        (λ b.
          if length rs == 0
          then clear
          else finish_batch_merge (length rs) (length (all_factors rs))
              (copy_loop (batches_of ps) (counts_of ps)
                (record { out = b; rel_cursor = 0; fac_cursor = 0 })).out)
        (resize-filling rs)
    ∙ ap
        (λ s.
          if length rs == 0
          then clear
          else finish_batch_merge (length rs) (length (all_factors rs)) s.out)
        (copy_loop-filling ps [])
    ∙ ap (λ b. if length rs == 0 then clear else b) (finish_batch_merge-filling rs)
