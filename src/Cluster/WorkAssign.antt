-- ===== src/Cluster/WorkAssign.antt =====
-- src/cluster/serialization.cpp: `computeFactorBaseHash`, `serializeWorkAssign` and
-- `deserializeWorkAssign`, with the fields of `factoringData` and `AFactorsSnapshot`
-- (src/sieve/common.h) that they use.
pub mod Send
pub mod Receive
pub mod RoundTrip
mod Examples
use cuda_mpqs.Prelude.{
  ℕ, ◌+◌, ◌*◌, ◌%◌, ◌^◌, bit_xor, List, [], ◌∷◌, Option, none, some, Bool, true, false, not, ltb,
  if◌then◌else◌, length, take, replicate, ◌++◌, ◌-◌,
}
use cuda_mpqs.Cluster.Wire.{
  le_bytes, array_bytes, Writer, new_writer, write_bytes, write_value, write_array, SafeReader,
  new_reader, read_value, read_array,
}
use cuda_mpqs.Cluster.Batch.{grow}

pub record AFactorsSnapshot : Type 0 where
  pub a_factors : List ℕ
  pub lower_half_start : ℕ
  pub upper_half_start : ℕ
  pub shc_dim : ℕ

pub record FactoringData : Type 0 where
  pub n : ℕ
  pub m : ℕ
  pub f : ℕ
  pub size : ℕ
  pub factor_base : List ℕ
  pub root_n : List ℕ
  pub a_factors : List ℕ

-- The numbers that go with the data.
pub record Params : Type 0 where
  pub sieve_batch_size : ℕ
  pub threshold_override : ℕ
  pub lp1_bound : ℕ
  pub poly_range_start : ℕ
  pub poly_range_count : ℕ
  pub target_relations : ℕ

-- FNV-1a on 64 bits.
pub mix : ℕ → List ℕ → ℕ
mix h [] = h
mix h (b ∷ bs) = mix (bit_xor h b * 1099511628211 % 2 ^ 64) bs

pub compute_factor_base_hash : FactoringData → ℕ
unfolding mix
compute_factor_base_hash d =
    let h1 = mix 1469598103934665603 (le_bytes 4 (length d.factor_base % 2 ^ 32)) in
    mix (mix h1 (array_bytes 4 d.factor_base)) (array_bytes 4 d.root_n)

pub snapshot_size : Option AFactorsSnapshot → ℕ
snapshot_size none = 0
snapshot_size (some s) = 4 + s.shc_dim * 4 + 2 * 4

pub write_snapshot : Option AFactorsSnapshot → Writer → Writer
unfolding write_value write_array
write_snapshot none w = w
write_snapshot (some s) w =
    let w1 = write_value 4 s.shc_dim w in
    let w2 = if ltb 0 s.shc_dim then write_array 4 s.shc_dim s.a_factors w1 else w1 in
    write_value 4 s.upper_half_start (write_value 4 s.lower_half_start w2)

-- The 124 bytes of the header.
pub write_header : FactoringData → Params → Writer → Writer
unfolding write_value write_bytes
write_header d p w =
    let w1 = write_value 64 d.n w in
    let w2 = write_value 4 (length d.factor_base % 2 ^ 32) w1 in
    let w3 = write_value 4 d.f (write_value 4 d.m w2) in
    let w4 = write_value 4 p.sieve_batch_size w3 in
    let w5 = write_value 1 (length d.a_factors % 2 ^ 8) w4 in
    let w6 = write_bytes w5 (0 ∷ 0 ∷ 0 ∷ []) in
    let w7 = write_value 8 p.lp1_bound (write_value 8 p.threshold_override w6) in
    let w8 = write_value 8 p.poly_range_count (write_value 8 p.poly_range_start w7) in
    write_value 8 p.target_relations w8

-- The buffer, and the number of bytes written.
unfoldable pub serialize_work_assign : FactoringData → Params → Option AFactorsSnapshot → Writer
unfolding write_header write_snapshot snapshot_size new_writer compute_factor_base_hash
serialize_work_assign d p snapshot =
    let w = new_writer (124 + 8 + snapshot_size snapshot) in
    write_snapshot snapshot (write_value 8 (compute_factor_base_hash d) (write_header d p w))

-- What the receiver fills in; `snapshot_out` is `none` for a null pointer.
pub record WorkAssign : Type 0 where
  pub fdata : FactoringData
  pub params : Params
  pub fb_hash_out : ℕ
  pub snapshot_out : Option AFactorsSnapshot

pub record Header : Type 0 where
  pub fb_size : ℕ
  pub fdata : FactoringData
  pub params : Params

-- The reads of the header; three bytes of padding are skipped.
pub read_header : SafeReader → FactoringData → Params → SafeReader × Header
unfolding read_value
read_header r d p =
    let (r1, n) = read_value 64 r d.n in
    let (r2, fb_size) = read_value 4 r1 0 in
    let (r3, m) = read_value 4 r2 d.m in
    let (r4, f) = read_value 4 r3 d.f in
    let (r5, sieve_batch_size) = read_value 4 r4 p.sieve_batch_size in
    let (r6, shc_dim) = read_value 1 r5 0 in
    let (r7, threshold_override) =
      read_value 8 (record r6 { pos = r6.pos + 3 }) p.threshold_override in
    let (r8, lp1_bound) = read_value 8 r7 p.lp1_bound in
    let (r9, poly_range_start) = read_value 8 r8 p.poly_range_start in
    let (r10, poly_range_count) = read_value 8 r9 p.poly_range_count in
    let (r11, target_relations) = read_value 8 r10 p.target_relations in
    (
      r11,
      record {
        fb_size = fb_size;
        fdata = record d { n = n; m = m; f = f };
        params = record {
          sieve_batch_size = sieve_batch_size;
          threshold_override = threshold_override;
          lp1_bound = lp1_bound;
          poly_range_start = poly_range_start;
          poly_range_count = poly_range_count;
          target_relations = target_relations;
        };
      },
    )

-- `v.resize(n);`
pub resize_to : ℕ → List ℕ → List ℕ
resize_to n xs = take n xs ++ replicate (n - length xs) 0

-- A read that fails ends the reads; what was read before stays.
pub read_upper : SafeReader → AFactorsSnapshot → AFactorsSnapshot
unfolding read_value
read_upper r s = record s { upper_half_start = (read_value 4 r s.upper_half_start).1 }

pub after_lower : SafeReader × ℕ → AFactorsSnapshot → AFactorsSnapshot
unfolding read_upper
after_lower (r, lower) s =
    let s1 = record s { lower_half_start = lower } in if r.ok then read_upper r s1 else s1

pub read_halves : SafeReader → AFactorsSnapshot → AFactorsSnapshot
unfolding after_lower
read_halves r s = after_lower (read_value 4 r s.lower_half_start) s

pub after_factors : SafeReader × List ℕ → AFactorsSnapshot → AFactorsSnapshot
unfolding read_halves
after_factors (r, factors) s =
    let s1 = record s { a_factors = factors } in if r.ok then read_halves r s1 else s1

pub after_dim : SafeReader × ℕ → AFactorsSnapshot → AFactorsSnapshot
unfolding after_factors resize_to read_array
after_dim (r, dim) s =
    let s1 = record s { shc_dim = dim } in
    if r.ok
    then (if ltb 0 dim
        then after_factors (read_array 4 dim r (resize_to dim s.a_factors)) s1
        else read_halves r s1)
    else s

-- The extension is read if there is a place for it and bytes are left.
pub read_snapshot : SafeReader → Option AFactorsSnapshot → Option AFactorsSnapshot
unfolding after_dim
read_snapshot r none = none
read_snapshot r (some s) = some (if ltb r.pos r.total then after_dim (read_value 4 r 0) s else s)

pub after_hash : SafeReader × ℕ → Header → WorkAssign → Bool × WorkAssign
unfolding read_snapshot
after_hash (r, hash) h out =
    let out1 : WorkAssign = record {
      fdata = record (h.fdata) { size = h.fb_size };
      params = h.params;
      fb_hash_out = hash;
      snapshot_out = out.snapshot_out;
    } in
    if r.ok
    then (true, record out1 { snapshot_out = read_snapshot r out.snapshot_out })
    else (false, out1)

pub after_header : SafeReader × Header → WorkAssign → Bool × WorkAssign
unfolding after_hash
after_header (r, h) out =
    if r.ok
    then after_hash (read_value 8 r out.fb_hash_out) h out
    else (false, record out { fdata = h.fdata; params = h.params })

unfoldable pub deserialize_work_assign : List ℕ → WorkAssign → Bool × WorkAssign
unfolding after_header read_header new_reader
deserialize_work_assign bytes out =
    if ltb (length bytes) 132
    then (false, out)
    else after_header (read_header (new_reader bytes) out.fdata out.params) out
