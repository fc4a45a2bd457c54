-- ===== src/Cluster/Merge.antt =====
-- src/cluster/serialization.cpp: `mergeRelationBatches`.
pub mod Copies
pub mod Filling
pub mod Concat
mod Examples
use cuda_mpqs.Prelude.{
  ℕ, zero, suc, ◌+◌, List, [], ◌∷◌, ◌++◌, ltb, leb, ◌==◌, if◌then◌else◌, take, drop, length, get_or,
  set,
}
use cuda_mpqs.Cluster.Batch.{HostRelationBatch, resize, clear}

-- `memcpy` of `n` elements to a position of a vector.
unfoldable pub copy_to : ℕ → ℕ → List ℕ → List ℕ → List ℕ
copy_to pos n from to = take pos to ++ (take n from ++ drop (pos + n) to)

-- The factors of the first `n` relations of a batch.
unfoldable pub batch_factors : HostRelationBatch → ℕ → ℕ
batch_factors b n = if ltb n (length b.factor_offsets) then get_or b.factor_offsets n 0 else 0

-- Phase 1: the numbers of relations and factors.
unfoldable pub add_total : HostRelationBatch → ℕ → ℕ × ℕ → ℕ × ℕ
unfolding batch_factors
add_total b n (rels, facs) = if n == 0 then (rels, facs) else (rels + n, facs + batch_factors b n)

unfoldable pub total_loop : List HostRelationBatch → List ℕ → ℕ × ℕ → ℕ × ℕ
unfolding add_total
total_loop (b ∷ bs) (n ∷ ns) totals = total_loop bs ns (add_total b n totals)
total_loop _ _ totals = totals

-- The offsets of a later batch: `n` of them from the index `j` on.
unfoldable pub shift_offsets : ℕ → ℕ → ℕ → ℕ → List ℕ → List ℕ → List ℕ
shift_offsets zero j rel_cursor fac_cursor from to = to
shift_offsets (suc n) j rel_cursor fac_cursor from to =
    shift_offsets n (j + 1) rel_cursor fac_cursor from
      (set to (rel_cursor + j) (get_or from j 0 + fac_cursor))

pub record MergeState : Type 0 where
  pub out : HostRelationBatch
  pub rel_cursor : ℕ
  pub fac_cursor : ℕ

unfoldable pub copy_factors : ℕ → ℕ → List ℕ → List ℕ → List ℕ
unfolding copy_to
copy_factors pos n_facs from to = if ltb 0 n_facs then copy_to pos n_facs from to else to

unfoldable pub copy_offsets : ℕ → ℕ → ℕ → List ℕ → List ℕ → List ℕ
unfolding copy_to shift_offsets
copy_offsets n rel_cursor fac_cursor from to =
    if rel_cursor == 0
    then copy_to 0 (n + 1) from to
    else shift_offsets n 1 rel_cursor fac_cursor from to

-- Phase 3 for the first `n` relations of a batch, with `n` not zero.
unfoldable pub copy_batch : HostRelationBatch → ℕ → MergeState → MergeState
unfolding batch_factors copy_to copy_factors copy_offsets
copy_batch b n s =
    let n_facs = batch_factors b n in
    let rel = s.rel_cursor in
    let fac = s.fac_cursor in
    record {
      out = record s.out {
        sqrt_q = copy_to rel n b.sqrt_q s.out.sqrt_q;
        signs = copy_to rel n b.signs s.out.signs;
        val_2_exps = copy_to rel n b.val_2_exps s.out.val_2_exps;
        large_primes = copy_to rel n b.large_primes s.out.large_primes;
        char_bits =
            if leb n (length b.char_bits)
            then copy_to rel n b.char_bits s.out.char_bits
            else s.out.char_bits;
        factor_indices = copy_factors fac n_facs b.factor_indices s.out.factor_indices;
        factor_counts = copy_factors fac n_facs b.factor_counts s.out.factor_counts;
        factor_offsets = copy_offsets n rel fac b.factor_offsets s.out.factor_offsets;
      };
      rel_cursor = rel + n;
      fac_cursor = fac + n_facs;
    }

unfoldable pub copy_loop : List HostRelationBatch → List ℕ → MergeState → MergeState
unfolding copy_batch
copy_loop (b ∷ bs) (n ∷ ns) s = copy_loop bs ns (if n == 0 then s else copy_batch b n s)
copy_loop _ _ s = s

-- The last offset and the counters.
unfoldable pub finish_batch_merge : ℕ → ℕ → HostRelationBatch → HostRelationBatch
finish_batch_merge total_rels total_factors out = record out {
  factor_offsets = set out.factor_offsets total_rels total_factors;
  num_relations = total_rels;
  num_factors = total_factors;
}

unfoldable pub merge_relation_batches : List HostRelationBatch → List ℕ → HostRelationBatch
unfolding total_loop resize clear copy_loop finish_batch_merge
merge_relation_batches batches counts =
    let (total_rels, total_factors) = total_loop batches counts (0, 0) in
    if total_rels == 0
    then clear
    else finish_batch_merge total_rels total_factors
        (copy_loop batches counts (record {
          out = resize clear total_rels total_factors;
          rel_cursor = 0;
          fac_cursor = 0;
        })).out
