-- ===== src/Cluster/Batch.antt =====
-- src/common/mpqs_soa: `HostRelationBatch`; src/cluster/serialization.cpp: `serializeRelationBatch` and
-- `deserializeRelationBatch`. A `uint512`, an `int32_t` or an `unsigned __int128` is the number that
-- its bytes stand for.
pub mod Send
pub mod Receive
pub mod RoundTrip
mod Examples
use cuda_mpqs.Prelude.{
  ℕ, zero, suc, ◌+◌, ◌-◌, ◌*◌, ◌%◌, ◌^◌, List, [], ◌∷◌, ◌++◌, Bool, true, false, ◌&&◌, not, ltb,
  leb, if◌then◌else◌, take, length, replicate, get_or, add32,
}
use cuda_mpqs.Cluster.Wire.{
  Writer, new_writer, write_bytes, write_value, write_array, SafeReader, new_reader, read_value,
  read_array,
}

pub record HostRelationBatch : Type 0 where
  pub sqrt_q : List ℕ
  pub signs : List ℕ
  pub val_2_exps : List ℕ
  pub large_primes : List ℕ
  pub char_bits : List ℕ
  pub factor_offsets : List ℕ
  pub factor_indices : List ℕ
  pub factor_counts : List ℕ
  pub num_relations : ℕ
  pub num_factors : ℕ

-- `if (v.size() < n) v.resize(n);`
unfoldable pub grow : ℕ → List ℕ → List ℕ
grow n xs = if ltb (length xs) n then xs ++ replicate (n - length xs) 0 else xs

unfoldable pub resize : HostRelationBatch → ℕ → ℕ → HostRelationBatch
unfolding grow
resize b n_rels n_factors = record {
  sqrt_q = grow n_rels b.sqrt_q;
  signs = grow n_rels b.signs;
  val_2_exps = grow n_rels b.val_2_exps;
  large_primes = grow n_rels b.large_primes;
  char_bits = grow n_rels b.char_bits;
  factor_offsets = grow (n_rels + 1) b.factor_offsets;
  factor_indices = grow n_factors b.factor_indices;
  factor_counts = grow n_factors b.factor_counts;
  num_relations = n_rels;
  num_factors = n_factors;
}

unfoldable pub clear : HostRelationBatch
clear = record {
  sqrt_q = [];
  signs = [];
  val_2_exps = [];
  large_primes = [];
  char_bits = [];
  factor_offsets = [];
  factor_indices = [];
  factor_counts = [];
  num_relations = 0;
  num_factors = 0;
}

-- The factors of the first `count` relations.
unfoldable pub factors_of : HostRelationBatch → ℕ → ℕ
factors_of b count =
    if ltb 0 count && ltb count (length b.factor_offsets)
    then get_or b.factor_offsets count 0
    else 0

pub batch_size : ℕ → ℕ → ℕ
batch_size count num_factors =
    8 + count * (64 + 1 + 4 + 16 + 4) + (count + 1) * 8 + num_factors * 4 + num_factors * 1

-- `char_bits`, or zeros where the batch has none.
unfoldable pub wire_char_bits : HostRelationBatch → ℕ → List ℕ
wire_char_bits b count = if leb count (length b.char_bits) then b.char_bits else replicate count 0

pub write_factors : HostRelationBatch → ℕ → Writer → Writer
unfolding write_array
write_factors b num_factors w =
    if ltb 0 num_factors
    then write_array 1 num_factors b.factor_counts (write_array 4 num_factors b.factor_indices w)
    else w

pub write_relations : HostRelationBatch → ℕ → ℕ → Writer → Writer
unfolding write_factors write_array wire_char_bits
write_relations b count num_factors w =
    if ltb 0 count
    then (let w1 = write_array 64 count b.sqrt_q w in
        let w2 = write_array 1 count b.signs w1 in
        let w3 = write_array 4 count b.val_2_exps w2 in
        let w4 = write_array 16 count b.large_primes w3 in
        let w5 = write_array 4 count (wire_char_bits b count) w4 in
        let w6 = write_array 8 (count + 1) b.factor_offsets w5 in write_factors b num_factors w6)
    else w

-- The buffer, and the number of bytes written.
unfoldable pub serialize_relation_batch : HostRelationBatch → ℕ → Writer
unfolding factors_of batch_size write_relations new_writer write_value
serialize_relation_batch b count =
    let num_factors = factors_of b count in
    let w = new_writer (batch_size count num_factors) in
    write_relations b count num_factors
      (write_value 4 (num_factors % 2 ^ 32) (write_value 4 (count % 2 ^ 32) w))

pub read_factors : ℕ → SafeReader → HostRelationBatch → SafeReader × HostRelationBatch
unfolding read_array
read_factors n_facs r b =
    if ltb 0 n_facs
    then (let (r1, indices) = read_array 4 n_facs r b.factor_indices in
        let (r2, counts) = read_array 1 n_facs r1 b.factor_counts in
        (r2, record b { factor_indices = indices; factor_counts = counts }))
    else (r, b)

-- The number of offsets is computed on `uint32_t`.
pub read_relations : ℕ → ℕ → SafeReader → HostRelationBatch → SafeReader × HostRelationBatch
unfolding read_factors read_array
read_relations n_rels n_facs r b =
    let (r1, sqrt_q) = read_array 64 n_rels r b.sqrt_q in
    let (r2, signs) = read_array 1 n_rels r1 b.signs in
    let (r3, val_2_exps) = read_array 4 n_rels r2 b.val_2_exps in
    let (r4, large_primes) = read_array 16 n_rels r3 b.large_primes in
    let (r5, char_bits) = read_array 4 n_rels r4 b.char_bits in
    let (r6, factor_offsets) = read_array 8 (add32 n_rels 1) r5 b.factor_offsets in
    read_factors n_facs r6 (record b {
      sqrt_q = sqrt_q;
      signs = signs;
      val_2_exps = val_2_exps;
      large_primes = large_primes;
      char_bits = char_bits;
      factor_offsets = factor_offsets;
    })

-- The counters are set, unless a read of the relations failed.
pub finish_batch : ℕ → ℕ → SafeReader × HostRelationBatch → HostRelationBatch × ℕ
finish_batch n_rels n_facs (r, b) =
    if ltb 0 n_rels && not r.ok
    then (b, 0)
    else (record b { num_relations = n_rels; num_factors = n_facs }, n_rels)

pub read_batch : ℕ → ℕ → SafeReader → HostRelationBatch → HostRelationBatch × ℕ
unfolding resize read_relations finish_batch
read_batch n_rels n_facs r out =
    if r.ok
    then (let b = resize out n_rels n_facs in
        finish_batch n_rels n_facs
          (if ltb 0 n_rels then read_relations n_rels n_facs r b else (r, b)))
    else (out, 0)

-- The batch read into `out`, and the number of relations; 0 on an error.
unfoldable pub deserialize_relation_batch : List ℕ → HostRelationBatch → HostRelationBatch × ℕ
unfolding read_batch new_reader read_value
deserialize_relation_batch bytes out =
    if ltb (length bytes) 8
    then (out, 0)
    else let (r1, n_rels) = read_value 4 (new_reader bytes) 0 in
      let (r2, n_facs) = read_value 4 r1 0 in read_batch n_rels n_facs r2 out
