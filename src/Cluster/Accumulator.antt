-- ===== src/Cluster/Accumulator.antt =====
-- src/cluster/accumulator.h: `RelationAccumulator`; src/common/relation_hash.h: `computeRelationHash`. The
-- set of hashes is the list of those inserted, the newest first.
pub mod Refine
pub mod Distinct
mod Examples
use cuda_mpqs.Prelude.{
  ℕ, zero, suc, ◌+◌, ◌-◌, ◌*◌, ◌%◌, ◌^◌, List, [], ◌∷◌, Bool, true, false, ltb, leb, ◌==◌,
  if◌then◌else◌, bit_xor, get_or, count,
}
use cuda_mpqs.Cluster.Batch.{HostRelationBatch, clear}
use cuda_mpqs.Cluster.Relations.{
  Relation, extract_partial, factor_count, empty_batch, push_relation,
}

-- The loop over the factors: the xor of the counts and of the scaled indices.
unfoldable pub hash_loop : List (ℕ × ℕ) → ℕ → ℕ → ℕ × ℕ
hash_loop [] exp_xor body_xor = (exp_xor, body_xor)
hash_loop ((index, n) ∷ fs) exp_xor body_xor =
    hash_loop fs (bit_xor exp_xor (n % 2 ^ 16)) (bit_xor body_xor (index * 0x9e3779b9 % 2 ^ 32))

-- `sign_val * (1 << (val_2_exp & 0x1F))` as a `uint32_t`.
unfoldable pub shift_val : ℕ → ℕ → ℕ
shift_val sign val_2_exp =
    let shifted = 2 ^ (val_2_exp % 32) in if sign == 1 then shifted else (2 ^ 32 - shifted) % 2 ^ 32

unfoldable pub hash_of : ℕ → Relation → ℕ
unfolding hash_loop shift_val
hash_of n r =
    let (exp_xor, body_xor) = hash_loop r.factors 0 0 in
    n % 2 ^ 16 * 2 ^ 48 + exp_xor * 2 ^ 32 + bit_xor body_xor (shift_val r.sign r.val_2_exp)

unfoldable pub compute_relation_hash : HostRelationBatch → ℕ → ℕ
unfolding hash_of
compute_relation_hash batch i = hash_of (factor_count batch i) (extract_partial batch i)

pub record RelationAccumulator : Type 0 where
  pub target : ℕ
  pub effective_target : ℕ
  pub accumulated : HostRelationBatch
  pub seen : List ℕ
  pub per_source : ℕ → ℕ

-- The effective target is `ceil(target * dedup_margin)`, computed on floating-point numbers.
unfoldable pub new_accumulator : ℕ → ℕ → RelationAccumulator
unfolding empty_batch
new_accumulator target effective_target = record {
  target = target;
  effective_target = effective_target;
  accumulated = empty_batch;
  seen = [];
  per_source = λ s. 0;
}

unfoldable pub append_single_relation :
    HostRelationBatch → HostRelationBatch → ℕ → HostRelationBatch
unfolding push_relation extract_partial factor_count
append_single_relation dest src i = push_relation dest (extract_partial src i) (factor_count src i)

-- The body of the loop of `addRelations`.
unfoldable pub add_relation : HostRelationBatch → ℕ → ℕ → RelationAccumulator → RelationAccumulator
unfolding compute_relation_hash append_single_relation
add_relation batch source_id i a =
    let hash = compute_relation_hash batch i in
    if ltb 0 (count hash a.seen) then a else record a {
      accumulated = append_single_relation a.accumulated batch i;
      seen = hash ∷ a.seen;
      per_source = λ s. if s == source_id then a.per_source s + 1 else a.per_source s;
    }

-- The loop over `n` relations, from the index `i` on.
unfoldable pub add_relations_loop :
    HostRelationBatch → ℕ → ℕ → ℕ → RelationAccumulator → RelationAccumulator
unfolding add_relation
add_relations_loop batch source_id zero i a = a
add_relations_loop batch source_id (suc n) i a =
    add_relations_loop batch source_id n (i + 1) (add_relation batch source_id i a)

unfoldable pub add_relations : HostRelationBatch → ℕ → RelationAccumulator → RelationAccumulator
unfolding add_relations_loop
add_relations batch source_id a = add_relations_loop batch source_id batch.num_relations 0 a

unfoldable pub add_lp_relations : HostRelationBatch → RelationAccumulator → RelationAccumulator
unfolding add_relations
add_lp_relations batch a = add_relations batch 255 a

unfoldable pub total_relations : RelationAccumulator → ℕ
total_relations a = a.accumulated.num_relations

unfoldable pub target_reached : RelationAccumulator → Bool
target_reached a = leb a.effective_target a.accumulated.num_relations

unfoldable pub relations_from : RelationAccumulator → ℕ → ℕ
relations_from a source_id = a.per_source source_id

-- `extractFinal` moves the batch out.
unfoldable pub extract_final : RelationAccumulator → HostRelationBatch × RelationAccumulator
unfolding clear
extract_final a = (a.accumulated, record a { accumulated = clear })
