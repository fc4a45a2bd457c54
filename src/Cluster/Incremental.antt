-- ===== src/Cluster/Incremental.antt =====
-- src/cluster/serialization.cpp: `serializeIncrementalBatch` and `deserializeIncrementalBatch`.
pub mod RoundTrip
use cuda_mpqs.Prelude.{
  ℕ, ◌+◌, ◌%◌, ◌^◌, List, Bool, true, false, ◌||◌, not, ltb, if◌then◌else◌, take, drop, length,
}
use cuda_mpqs.Cluster.Wire.{
  Writer, new_writer, write_bytes, write_value, SafeReader, new_reader, read_value,
}
use cuda_mpqs.Cluster.Batch.{
  HostRelationBatch, serialize_relation_batch, deserialize_relation_batch,
}

pub write_sub_batch : Writer → Writer → Writer
unfolding write_bytes write_value
write_sub_batch sub w =
    write_bytes (write_value 4 (sub.offset % 2 ^ 32) w) (take sub.offset sub.buf)

-- The buffer and its length.
pub serialize_incremental_batch : HostRelationBatch → ℕ → HostRelationBatch → ℕ → List ℕ × ℕ
unfolding write_sub_batch serialize_relation_batch new_writer
serialize_incremental_batch full_batch full_count partial_batch partial_count =
    let full = serialize_relation_batch full_batch full_count in
    let partial = serialize_relation_batch partial_batch partial_count in
    let total = 4 + full.offset + 4 + partial.offset in
    ((write_sub_batch partial (write_sub_batch full (new_writer total))).buf, total)

pub record Incremental : Type 0 where
  pub accepted : Bool
  pub full_out : HostRelationBatch
  pub partial_out : HostRelationBatch

-- The bytes of a sub-batch of the given length, and whether they are there.
pub has_sub_batch : SafeReader → ℕ → Bool
has_sub_batch r len = not (not r.ok || ltb r.total (r.pos + len))

pub sub_batch : SafeReader → ℕ → List ℕ
sub_batch r len = take len (drop r.pos r.data')

pub read_partial : SafeReader → HostRelationBatch → HostRelationBatch → Incremental
unfolding has_sub_batch sub_batch deserialize_relation_batch read_value
read_partial r full_out partial_out =
    let (r1, partial_len) = read_value 4 r 0 in
    record {
      accepted = has_sub_batch r1 partial_len;
      full_out = full_out;
      partial_out =
          if has_sub_batch r1 partial_len
          then (deserialize_relation_batch (sub_batch r1 partial_len) partial_out).0
          else partial_out;
    }

abbrev rejected : HostRelationBatch → HostRelationBatch → Incremental
rejected full_out partial_out = record {
  accepted = false;
  full_out = full_out;
  partial_out = partial_out;
}

-- After the length of the first sub-batch.
pub read_full : SafeReader × ℕ → HostRelationBatch → HostRelationBatch → Incremental
unfolding read_partial
read_full (r1, full_len) full_out partial_out =
    if has_sub_batch r1 full_len
    then read_partial (record r1 { pos = r1.pos + full_len })
        (deserialize_relation_batch (sub_batch r1 full_len) full_out).0 partial_out
    else rejected full_out partial_out

-- The results of the sub-batches are not looked at.
pub deserialize_incremental_batch : List ℕ → HostRelationBatch → HostRelationBatch → Incremental
unfolding read_full new_reader
deserialize_incremental_batch bytes full_out partial_out =
    if ltb (length bytes) 8
    then rejected full_out partial_out
    else read_full (read_value 4 (new_reader bytes) 0) full_out partial_out
