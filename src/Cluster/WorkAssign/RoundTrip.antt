-- ===== src/Cluster/WorkAssign/RoundTrip.antt =====
-- serializeWorkAssign and deserializeWorkAssign: a message on both sides.
use cuda_mpqs.Prelude.{
  ℕ, ◌*◌, ◌%◌, ◌^◌, bit_xor, ◌<◌, ◌≡◌, ap, ◌∙◌, List, [], ◌∷◌, ◌++◌, Option, true, false, ltb,
  if_true, if_false, length, arith,
}
use cuda_mpqs.Cluster.Wire.{le_bytes, array_bytes, SafeReader, new_reader, read_value}
use cuda_mpqs.Cluster.Wire.Reading.{new_reader-IsAt, skip}
use cuda_mpqs.Cluster.WorkAssign.{
  AFactorsSnapshot, FactoringData, Params, Header, WorkAssign, mix, compute_factor_base_hash,
  read_snapshot, after_hash, after_header, read_header, serialize_work_assign,
  deserialize_work_assign,
}
use cuda_mpqs.Cluster.WorkAssign.Send.{
  snapshot_bytes, HasFactors, assign_bytes, assign_bytes-long, serialize_work_assign-bytes,
}
use cuda_mpqs.Cluster.WorkAssign.Receive.{
  FitsTypes, reads_value, HeaderRead, read_header_lem, received, SnapshotFits, read_snapshot_lem,
}

-- What the receiver of an assignment has.
pub received_assign : FactoringData → Params → Option AFactorsSnapshot → WorkAssign → WorkAssign
received_assign d p sent out = record {
  fdata = record (out.fdata) { n = d.n; m = d.m; f = d.f; size = length d.factor_base };
  params = p;
  fb_hash_out = compute_factor_base_hash d;
  snapshot_out = received sent out.snapshot_out;
}

deserialize_work_assign-header :
    (bytes : List ℕ) (out : WorkAssign)
    → ltb (length bytes) 132 ≡ false
    → deserialize_work_assign bytes out
      ≡ after_header (read_header (new_reader bytes) out.fdata out.params) out
unfolding deserialize_work_assign
deserialize_work_assign-header bytes out long =
    if_false (false, out) (after_header (read_header (new_reader bytes) out.fdata out.params) out)
      long

after_header_lem :
    (d : FactoringData) (p : Params) (sent : Option AFactorsSnapshot) (out : WorkAssign)
    (x : SafeReader × Header)
    → compute_factor_base_hash d < 2 ^ 64
    → HasFactors sent
    → SnapshotFits sent
    → HeaderRead d p out.fdata (le_bytes 8 (compute_factor_base_hash d) ++ snapshot_bytes sent) x
    → after_header x out ≡ (true, received_assign d p sent out)
unfolding after_header after_hash received_assign
after_header_lem d p sent out (r, h) fit has f hr =
    let v =
      reads_value 8 (compute_factor_base_hash d) out.fb_hash_out (snapshot_bytes sent) r
        (omega arith) hr.next in
    let out1 : WorkAssign = record {
      fdata = record (h.fdata) { size = h.fb_size };
      params = h.params;
      fb_hash_out = compute_factor_base_hash d;
      snapshot_out = out.snapshot_out;
    } in
    if_true (after_hash (read_value 8 r out.fb_hash_out) h out)
      (false, record out { fdata = h.fdata; params = h.params }) hr.next.fine
    ∙ ap (λ q. after_hash q h out) v.reads
    ∙ if_true (true, record out1 { snapshot_out = read_snapshot (skip 8 r) out.snapshot_out })
        (false, out1) v.next.fine
    ∙ rw (
      hr.fb_size,
      hr.fdata,
      hr.params,
      read_snapshot_lem sent out.snapshot_out (skip 8 r) has f v.next,
    )

mix-lt : (bs : List ℕ) (h : ℕ) → h < 2 ^ 64 → mix h bs < 2 ^ 64
unfolding mix
mix-lt [] h l = l
mix-lt (b ∷ bs) h l = mix-lt bs (bit_xor h b * 1099511628211 % 2 ^ 64) (omega arith)

hash-lt : (d : FactoringData) → compute_factor_base_hash d < 2 ^ 64
unfolding compute_factor_base_hash
hash-lt d = mix-lt (array_bytes 4 d.root_n) _ (
    mix-lt (array_bytes 4 d.factor_base) _
      (mix-lt (le_bytes 4 (length d.factor_base % 2 ^ 32)) 1469598103934665603 (omega arith)))

-- A work assignment whose numbers fit in their types is received as it was sent: the receiver accepts the bytes and has the sender's N, M, F, parameters, factor base size and factor base hash, and the snapshot if one was sent and is asked for. Without a snapshot the receiver's stays as it was.
pub deserialize-serialize_work_assign :
    (d : FactoringData) (p : Params) (sent : Option AFactorsSnapshot) (out : WorkAssign)
    → FitsTypes d p
    → HasFactors sent
    → SnapshotFits sent
    → deserialize_work_assign (serialize_work_assign d p sent).buf out
      ≡ (true, received_assign d p sent out)
deserialize-serialize_work_assign d p sent out fit has f =
    let bytes = assign_bytes d p sent in
    let r = new_reader bytes in
    let e = (serialize_work_assign-bytes d p sent has).0 in
    let at = new_reader-IsAt bytes in
    let hr =
      read_header_lem d out.fdata p out.params r
        (le_bytes 8 (compute_factor_base_hash d) ++ snapshot_bytes sent) fit
        (unfold assign_bytes in at) in
    ap (λ l. deserialize_work_assign l out) e
    ∙ deserialize_work_assign-header bytes out (assign_bytes-long d p sent)
    ∙ after_header_lem d p sent out (read_header r out.fdata out.params) (hash-lt d) has f hr
