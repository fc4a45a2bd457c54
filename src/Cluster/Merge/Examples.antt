-- ===== src/Cluster/Merge/Examples.antt =====
-- `mergeRelationBatches`: two batches with a relation left over, and an empty one between them.
use cuda_mpqs.Prelude.{ℕ, ◌≡◌, refl, List, [], ◌∷◌, length, ◌==◌, if◌then◌else◌}
use cuda_mpqs.Cluster.Batch.{clear}
use cuda_mpqs.Cluster.Relations.{Relation}
use cuda_mpqs.Cluster.Relations.View.{batch_of}
use cuda_mpqs.Cluster.Merge.{merge_relation_batches, total_loop, add_total, batch_factors}
use cuda_mpqs.Cluster.Merge.Filling.{Part, merged}
use cuda_mpqs.Cluster.Merge.Concat.{batches_of, counts_of, merge_relation_batches_lem}

abbrev relation : ℕ → List (ℕ × ℕ) → Relation
relation root factors = record {
  sqrt_q = root;
  sign = 1;
  val_2_exp = 3;
  large_prime = 1;
  factors = factors;
  char_bits = 5;
}

abbrev parts : List Part
parts =
    (relation 10 ((2, 1) ∷ (7, 2) ∷ []) ∷ relation 11 ((3, 1) ∷ []) ∷ [], relation 12 [] ∷ [])
    ∷ ([], relation 13 ((5, 4) ∷ []) ∷ [])
    ∷ (relation 14 ((9, 1) ∷ []) ∷ [], [])
    ∷ []

totals : total_loop (batches_of parts) (counts_of parts) (0, 0) ≡ (3, 4)
unfolding total_loop add_total batch_factors
totals = refl

merge_relation_batches_lem_example :
    merge_relation_batches (batches_of parts) (counts_of parts)
    ≡ (if length (merged parts) == 0 then clear else batch_of (merged parts))
merge_relation_batches_lem_example = merge_relation_batches_lem parts
