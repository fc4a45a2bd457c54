-- ===== src/Cluster/WorkAssign/Examples.antt =====
-- serialization: an assignment with a snapshot, and the round trip of it.
use cuda_mpqs.Prelude.{◌≡◌, refl, [], ◌∷◌, some, true, length, take, arith}
use cuda_mpqs.Cluster.Wire.{le_bytes, array_bytes, le_value}
use cuda_mpqs.Cluster.WorkAssign.{
  AFactorsSnapshot, FactoringData, Params, WorkAssign, serialize_work_assign,
  deserialize_work_assign,
}
use cuda_mpqs.Cluster.WorkAssign.Send.{HasFactors}
use cuda_mpqs.Cluster.WorkAssign.Receive.{FitsTypes, SnapshotFits}
use cuda_mpqs.Cluster.WorkAssign.RoundTrip.{received_assign, deserialize-serialize_work_assign}

abbrev small_data : FactoringData
small_data = record {
  n = 8051;
  m = 512;
  f = 30;
  size = 3;
  factor_base = 2 ∷ 5 ∷ 7 ∷ [];
  root_n = 1 ∷ 1 ∷ 1 ∷ [];
  a_factors = 1 ∷ 2 ∷ [];
}

abbrev small_params : Params
small_params = record {
  sieve_batch_size = 16;
  threshold_override = 0;
  lp1_bound = 1000;
  poly_range_start = 40;
  poly_range_count = 10;
  target_relations = 25;
}

abbrev small_snapshot : AFactorsSnapshot
small_snapshot = record {
  a_factors = 1 ∷ 2 ∷ [];
  lower_half_start = 1;
  upper_half_start = 2;
  shc_dim = 2;
}

abbrev empty_assign : WorkAssign
empty_assign = record {
  fdata = record { n = 0; m = 0; f = 0; size = 0; factor_base = []; root_n = []; a_factors = [] };
  params = record {
    sieve_batch_size = 0;
    threshold_override = 0;
    lp1_bound = 0;
    poly_range_start = 0;
    poly_range_count = 0;
    target_relations = 0;
  };
  fb_hash_out = 0;
  snapshot_out =
      some (record { a_factors = []; lower_half_start = 0; upper_half_start = 0; shc_dim = 0 });
}

small-FitsTypes : FitsTypes small_data small_params
small-FitsTypes = record {
  n = omega arith;
  m = omega arith;
  f = omega arith;
  size = omega arith;
  sieve_batch_size = omega arith;
  threshold_override = omega arith;
  lp1_bound = omega arith;
  poly_range_start = omega arith;
  poly_range_count = omega arith;
  target_relations = omega arith;
}

small-HasFactors : HasFactors (some small_snapshot)
unfolding HasFactors
small-HasFactors = omega arith

small-SnapshotFits : SnapshotFits (some small_snapshot)
unfolding SnapshotFits
small-SnapshotFits = (omega arith, omega arith, omega arith, (omega arith, (omega arith, tt)))

deserialize-serialize_work_assign_example :
    deserialize_work_assign
      (serialize_work_assign small_data small_params (some small_snapshot)).buf
      empty_assign
    ≡ (true, received_assign small_data small_params (some small_snapshot) empty_assign)
deserialize-serialize_work_assign_example =
    deserialize-serialize_work_assign small_data small_params (some small_snapshot) empty_assign
      small-FitsTypes small-HasFactors small-SnapshotFits

small-length :
    length (serialize_work_assign small_data small_params (some small_snapshot)).buf ≡ 152
unfolding serialize_work_assign le_bytes array_bytes
small-length = refl

-- A message without its last bytes is accepted; the halves of the snapshot stay as they were.
short_message :
    let r =
      deserialize_work_assign
        (take 144 (serialize_work_assign small_data small_params (some small_snapshot)).buf)
        empty_assign in
    r.0 ≡ true
unfolding serialize_work_assign deserialize_work_assign le_bytes array_bytes le_value
short_message = refl
