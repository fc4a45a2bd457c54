-- ===== src/Cluster/Batch/Examples.antt =====
-- serialization: a small batch on the wire, alone and with a second one, and the theorems there.
use cuda_mpqs.Prelude.{◌^◌, ◌<◌, ◌≤◌, ◌≡◌, refl, [], ◌∷◌, true, take, length, arith}
use cuda_mpqs.Cluster.Batch.{
  HostRelationBatch, clear, factors_of, batch_size, wire_char_bits, serialize_relation_batch,
  deserialize_relation_batch,
}
use cuda_mpqs.Cluster.Wire.{le_bytes, array_bytes, le_value}
use cuda_mpqs.Cluster.Batch.Send.{Holds, offset_count, factor_bytes, relation_bytes, wire_bytes}
use cuda_mpqs.Cluster.Batch.Receive.{FitsTypes}
use cuda_mpqs.Cluster.Batch.RoundTrip.{IsReceived, deserialize-serialize}
use cuda_mpqs.Cluster.Incremental.{serialize_incremental_batch, deserialize_incremental_batch}
use cuda_mpqs.Cluster.Incremental.RoundTrip.{deserialize-serialize_incremental}

-- Two relations, the second with the exponent -1; there are no character bits.
abbrev small : HostRelationBatch
small = record {
  sqrt_q = 5 ∷ 7 ∷ [];
  signs = 0 ∷ 1 ∷ [];
  val_2_exps = 3 ∷ 4294967295 ∷ [];
  large_primes = 1 ∷ 101 ∷ [];
  char_bits = [];
  factor_offsets = 0 ∷ 1 ∷ 3 ∷ [];
  factor_indices = 2 ∷ 0 ∷ 4 ∷ [];
  factor_counts = 1 ∷ 2 ∷ 1 ∷ [];
  num_relations = 2;
  num_factors = 3;
}

small-Holds : Holds 2 small
unfolding factors_of offset_count
small-Holds = record {
  sqrt_q = omega arith;
  signs = omega arith;
  val_2_exps = omega arith;
  large_primes = omega arith;
  factor_offsets = omega arith;
  factor_indices = omega arith;
  factor_counts = omega arith;
  relations_fit = omega arith;
  factors_fit = omega arith;
}

small-FitsTypes : FitsTypes 2 small
unfolding factors_of offset_count wire_char_bits
small-FitsTypes = record {
  sqrt_q = (omega arith, (omega arith, tt));
  signs = (omega arith, (omega arith, tt));
  val_2_exps = (omega arith, (omega arith, tt));
  large_primes = (omega arith, (omega arith, tt));
  char_bits = (omega arith, (omega arith, tt));
  factor_offsets = (omega arith, (omega arith, (omega arith, tt)));
  factor_indices = (omega arith, (omega arith, (omega arith, tt)));
  factor_counts = (omega arith, (omega arith, (omega arith, tt)));
}

none-Holds : Holds 0 clear
unfolding factors_of offset_count clear
none-Holds = record {
  sqrt_q = omega arith;
  signs = omega arith;
  val_2_exps = omega arith;
  large_primes = omega arith;
  factor_offsets = omega arith;
  factor_indices = omega arith;
  factor_counts = omega arith;
  relations_fit = omega arith;
  factors_fit = omega arith;
}

none-FitsTypes : FitsTypes 0 clear
unfolding factors_of offset_count
none-FitsTypes = record {
  sqrt_q = tt;
  signs = tt;
  val_2_exps = tt;
  large_primes = tt;
  char_bits = tt;
  factor_offsets = tt;
  factor_indices = tt;
  factor_counts = tt;
}

deserialize-serialize_example :
    let w = serialize_relation_batch small 2 in
    (length w.buf ≡ batch_size 2 (factors_of small 2))
    × (w.offset ≤ length w.buf)
    × ((out : HostRelationBatch) × (deserialize_relation_batch (take w.offset w.buf) clear
          ≡ (out, 2))
        × IsReceived 2 small out)
deserialize-serialize_example = deserialize-serialize small clear 2 small-Holds small-FitsTypes

small-size : length (serialize_relation_batch small 2).buf ≡ 225
unfolding serialize_relation_batch le_bytes array_bytes
small-size = refl

small-deserialize : (deserialize_relation_batch (serialize_relation_batch small 2).buf clear).1 ≡ 2
unfolding serialize_relation_batch deserialize_relation_batch le_bytes array_bytes le_value
small-deserialize = refl

-- A buffer that is cut off is refused.
small-cut :
    (deserialize_relation_batch (take 224 (serialize_relation_batch small 2).buf) clear).1 ≡ 0
unfolding serialize_relation_batch deserialize_relation_batch le_bytes array_bytes le_value
small-cut = refl

small-wire_bytes : length (wire_bytes small 2) < 2 ^ 32
unfolding wire_bytes relation_bytes factor_bytes offset_count factors_of wire_char_bits le_bytes
    array_bytes clear
small-wire_bytes = omega arith

none-wire_bytes : length (wire_bytes clear 0) < 2 ^ 32
unfolding wire_bytes relation_bytes factor_bytes offset_count factors_of wire_char_bits le_bytes
    array_bytes clear
none-wire_bytes = omega arith

deserialize-serialize_incremental_example :
    let i =
      deserialize_incremental_batch (serialize_incremental_batch small 2 clear 0).0 clear clear in
    (i.accepted ≡ true) × IsReceived 2 small i.full_out × IsReceived 0 clear i.partial_out
deserialize-serialize_incremental_example =
    deserialize-serialize_incremental small clear clear clear 2 0 small-Holds none-Holds
      small-FitsTypes none-FitsTypes small-wire_bytes none-wire_bytes
