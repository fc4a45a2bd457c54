-- ===== src/Cluster/Accumulator/Examples.antt =====
-- `RelationAccumulator`: three relations, two of which have the same hash.
use cuda_mpqs.Prelude.{ℕ, ◌+◌, ◌^◌, ◌<◌, ◌≡◌, refl, List, [], ◌∷◌, count, arith, All}
use cuda_mpqs.Cluster.Relations.{Relation}
use cuda_mpqs.Cluster.Relations.View.{batch_of}
use cuda_mpqs.Cluster.Accumulator.{add_relations, hash_of, hash_loop, shift_val}
use cuda_mpqs.Cluster.Accumulator.Refine.{
  relation_hash, Kept, keep_all, holding, add_relations-holding,
}
use cuda_mpqs.Cluster.Accumulator.Distinct.{
  IsDistinct, Grows, add_relations_lem, add_relations-again,
}

abbrev relation : ℕ → ℕ → Relation
relation root index = record {
  sqrt_q = root;
  sign = 1;
  val_2_exp = 0;
  large_prime = 1;
  factors = (index, 1) ∷ [];
  char_bits = 0;
}

abbrev relations : List Relation
relations = relation 10 2 ∷ relation 11 3 ∷ relation 12 2 ∷ []

-- One factor, with the count 1 and the index 2.
hash_value : relation_hash (relation 10 2) ≡ 2 ^ 48 + 2 ^ 32 + 0x3c6ef373
unfolding hash_of hash_loop shift_val
hash_value = refl

abbrev nothing : Kept
nothing = record { kept = []; seen = []; per_source = λ s. 0 }

nothing-IsDistinct : IsDistinct nothing
nothing-IsDistinct = record { same_hashes = λ h. refl; at_most_once = λ h. omega arith }

add_relations-holding_example :
    add_relations (batch_of relations) 3 (holding 100 105 nothing)
    ≡ holding 100 105 (keep_all 3 relations nothing)
add_relations-holding_example = add_relations-holding 3 100 105 relations nothing

add_relations_lem_example :
    (k' : Kept) × (add_relations (batch_of relations) 3 (holding 100 105 nothing)
      ≡ holding 100 105 k')
    × IsDistinct k'
    × Grows 3 nothing k'
    × All (λ r. 0 < count (relation_hash r) k'.seen) relations
add_relations_lem_example = add_relations_lem 3 100 105 relations nothing nothing-IsDistinct

add_relations-again_example :
    let once = add_relations (batch_of relations) 3 (holding 100 105 nothing) in
    add_relations (batch_of relations) 4 once ≡ once
add_relations-again_example = add_relations-again 3 4 100 105 relations nothing nothing-IsDistinct
