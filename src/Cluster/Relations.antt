-- ===== src/Cluster/Relations.antt =====
-- src/common/mpqs_soa.h, src/cluster/cpu_lp.h, src/cluster/accumulator.h: the relations of a
-- `HostRelationBatch`, one by one. The parallel vectors of factor indices and factor counts are one list
-- of pairs here.
pub mod Slices
pub mod View
use cuda_mpqs.Prelude.{
  ℕ, zero, suc, ◌+◌, ◌-◌, List, [], ◌∷◌, ◌++◌, map, ltb, if◌then◌else◌, take, drop, get_or, length,
}
use cuda_mpqs.Cluster.Batch.{HostRelationBatch}

-- `PartialRelation`
pub record Relation : Type 0 where
  pub sqrt_q : ℕ
  pub sign : ℕ
  pub val_2_exp : ℕ
  pub large_prime : ℕ
  pub factors : List (ℕ × ℕ)
  pub char_bits : ℕ

unfoldable pub zip : List ℕ → List ℕ → List (ℕ × ℕ)
zip (x ∷ xs) (y ∷ ys) = (x, y) ∷ zip xs ys
zip _ _ = []

-- The elements from one index up to another.
unfoldable pub slice : ℕ → ℕ → List ℕ → List ℕ
slice first last xs = take (last - first) (drop first xs)

-- The number of factors of the relation at an index.
unfoldable pub factor_count : HostRelationBatch → ℕ → ℕ
factor_count batch i = get_or batch.factor_offsets (i + 1) 0 - get_or batch.factor_offsets i 0

-- The relation at an index.
unfoldable pub extract_partial : HostRelationBatch → ℕ → Relation
unfolding zip slice
extract_partial batch i =
    let start = get_or batch.factor_offsets i 0 in
    let stop = get_or batch.factor_offsets (i + 1) 0 in
    record {
      sqrt_q = get_or batch.sqrt_q i 0;
      sign = get_or batch.signs i 0;
      val_2_exp = get_or batch.val_2_exps i 0;
      large_prime = get_or batch.large_primes i 0;
      factors = zip (slice start stop batch.factor_indices) (slice start stop batch.factor_counts);
      char_bits = if ltb i (length batch.char_bits) then get_or batch.char_bits i 0 else 0;
    }

-- A batch without relations, with the first offset in place.
unfoldable pub empty_batch : HostRelationBatch
empty_batch = record {
  sqrt_q = [];
  signs = [];
  val_2_exps = [];
  large_primes = [];
  char_bits = [];
  factor_offsets = 0 ∷ [];
  factor_indices = [];
  factor_counts = [];
  num_relations = 0;
  num_factors = 0;
}

-- A relation of `n` factors at the end of a batch.
unfoldable pub push_relation : HostRelationBatch → Relation → ℕ → HostRelationBatch
push_relation batch r n =
    let num_factors = batch.num_factors + n in
    record {
      sqrt_q = batch.sqrt_q ++ r.sqrt_q ∷ [];
      signs = batch.signs ++ r.sign ∷ [];
      val_2_exps = batch.val_2_exps ++ r.val_2_exp ∷ [];
      large_primes = batch.large_primes ++ r.large_prime ∷ [];
      char_bits = batch.char_bits ++ r.char_bits ∷ [];
      factor_offsets = batch.factor_offsets ++ num_factors ∷ [];
      factor_indices = batch.factor_indices ++ map (λ f. f.0) r.factors;
      factor_counts = batch.factor_counts ++ map (λ f. f.1) r.factors;
      num_relations = batch.num_relations + 1;
      num_factors = num_factors;
    }
