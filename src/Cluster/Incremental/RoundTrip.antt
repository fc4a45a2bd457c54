-- ===== src/Cluster/Incremental/RoundTrip.antt =====
-- serializeIncrementalBatch and deserializeIncrementalBatch: a message on both sides.
use mathlib.Core.List.{append_assoc, append-nil}
use cuda_mpqs.Prelude.{
  ℕ, ◌+◌, ◌%◌, ◌^◌, ◌<◌, ◌≤◌, ◌≡◌, refl, sym, ap, ◌∙◌, subst, List, [], ◌++◌, true, false, ltb,
  if_true, if_false, take, length, length-append, take-append, take-all, arith,
}
use cuda_mpqs.Cluster.Wire.{le_bytes, Writer, new_writer, SafeReader, new_reader, read_value}
use cuda_mpqs.Cluster.Wire.Bytes.{length-le_bytes}
use cuda_mpqs.Cluster.Wire.Reading.{IsAt, new_reader-IsAt, skip, skip-IsAt, read_value-IsAt}
use cuda_mpqs.Cluster.Wire.Writing.{
  IsWritten, IsSent, new_writer-IsSent, write_value-IsSent, write_bytes-IsSent,
}
use cuda_mpqs.Cluster.Batch.{
  HostRelationBatch, serialize_relation_batch, deserialize_relation_batch,
}
use cuda_mpqs.Cluster.Batch.Send.{Holds, wire_bytes, serialize_relation_batch-IsWritten}
use cuda_mpqs.Cluster.Batch.Receive.{FitsTypes}
use cuda_mpqs.Cluster.Batch.RoundTrip.{IsReceived, deserialize_wire_bytes}
use cuda_mpqs.Cluster.Incremental.{
  write_sub_batch, serialize_incremental_batch, has_sub_batch, sub_batch, read_partial, read_full,
  rejected, deserialize_incremental_batch,
}

-- A sub-batch with its length.
framed : List ℕ → List ℕ
framed bytes = le_bytes 4 (length bytes % 2 ^ 32) ++ bytes

write_sub_batch-IsSent :
    (total n : ℕ) (out bytes : List ℕ) (sub w : Writer) {size : ℕ}
    → IsWritten size bytes sub
    → n + 4 + length bytes ≤ total
    → IsSent total n out w
    → IsSent total (n + 4 + length bytes) (out ++ framed bytes) (write_sub_batch sub w)
unfolding write_sub_batch framed
write_sub_batch-IsSent total n out bytes sub w s h v =
    let s1 = write_value-IsSent total n 4 (sub.offset % 2 ^ 32) out w (omega arith) v in
    let s2 =
      write_bytes-IsSent total (n + 4) (length bytes) _ (take sub.offset sub.buf) _
        (ap length s.done) h s1 in
    let same = append_assoc out (le_bytes 4 (sub.offset % 2 ^ 32)) (take sub.offset sub.buf) in
    subst (λ l. IsSent total (n + 4 + length bytes) l (write_sub_batch sub w))
      (same ∙ rw (s.done, s.at_end)) s2

-- The whole buffer is the two sub-batches.
serialize_incremental_batch-bytes :
    (fb pb : HostRelationBatch) (fc pc : ℕ)
    → Holds fc fb
    → Holds pc pb
    → (serialize_incremental_batch fb fc pb pc).0
      ≡ framed (wire_bytes fb fc) ++ framed (wire_bytes pb pc)
unfolding serialize_incremental_batch
serialize_incremental_batch-bytes fb pb fc pc hf hp =
    let full = serialize_relation_batch fb fc in
    let partial = serialize_relation_batch pb pc in
    let total = 4 + full.offset + 4 + partial.offset in
    let sf = serialize_relation_batch-IsWritten fb fc hf in
    let sp = serialize_relation_batch-IsWritten pb pc hp in
    let s1 =
      write_sub_batch-IsSent total 0 [] (wire_bytes fb fc) full (new_writer total) sf
        (omega (arith, sf.at_end)) (new_writer-IsSent total) in
    let s2 =
      write_sub_batch-IsSent total _ _ (wire_bytes pb pc) partial _ sp
        (omega (arith, sf.at_end, sp.at_end)) s1 in
    let w = write_sub_batch partial (write_sub_batch full (new_writer total)) in
    let whole : w.offset ≡ length w.buf =
      omega (arith, s2.written.at_end, s2.count, s2.written.size, sf.at_end, sp.at_end) in
    sym (take-all w.buf) ∙ ap (λ k. take k w.buf) (sym whole) ∙ s2.written.done

read_framed :
    (bytes rest : List ℕ) (r : SafeReader)
    → length bytes < 2 ^ 32
    → IsAt (framed bytes ++ rest) r
    → (read_value 4 r 0 ≡ (skip 4 r, length bytes))
      × (has_sub_batch (skip 4 r) (length bytes) ≡ true)
      × (sub_batch (skip 4 r) (length bytes) ≡ bytes)
      × IsAt rest (skip (length bytes) (skip 4 r))
unfolding framed has_sub_batch sub_batch
read_framed bytes rest r fit at =
    let len = length bytes in
    let head = le_bytes 4 (len % 2 ^ 32) in
    let at1 = subst (λ l. IsAt l r) (append_assoc head bytes rest) at in
    let at2 = skip-IsAt 4 head (bytes ++ rest) r (length-le_bytes 4 _) at1 in
    (
      subst (λ x. read_value 4 r 0 ≡ (skip 4 r, x)) (omega arith)
          (read_value-IsAt 4 (len % 2 ^ 32) (bytes ++ rest) r 0 (omega arith) at1),
      ground (arith, at2.fine, at2.room, length-append bytes rest),
      rw at2.ahead (take-append bytes rest),
      skip-IsAt len bytes rest (skip 4 r) refl at2,
    )

read_partial_lem :
    (pb full_out partial_out : HostRelationBatch) (pc : ℕ) (r : SafeReader)
    → Holds pc pb
    → FitsTypes pc pb
    → length (wire_bytes pb pc) < 2 ^ 32
    → IsAt (framed (wire_bytes pb pc)) r
    → let i = read_partial r full_out partial_out in
      (i.accepted ≡ true) × (i.full_out ≡ full_out) × IsReceived pc pb i.partial_out
unfolding read_partial
read_partial_lem pb full_out partial_out pc r h f fit at =
    let bytes = wire_bytes pb pc in
    let (e1, e2, e3, at') =
      read_framed bytes [] r fit (subst (λ l. IsAt l r) (sym (append-nil (framed bytes))) at) in
    let (out, e, got) = deserialize_wire_bytes pb partial_out pc h f in
    (rw (e1, e2), refl, rw (e1, e2, e3, e) got)

deserialize_incremental_batch-full :
    (all : List ℕ) (full_out partial_out : HostRelationBatch)
    → ltb (length all) 8 ≡ false
    → deserialize_incremental_batch all full_out partial_out
      ≡ read_full (read_value 4 (new_reader all) 0) full_out partial_out
unfolding deserialize_incremental_batch
deserialize_incremental_batch-full all full_out partial_out long =
    if_false (rejected full_out partial_out)
      (read_full (read_value 4 (new_reader all) 0) full_out partial_out) long

read_full-partial :
    (r1 : SafeReader) (len : ℕ) (full_out partial_out : HostRelationBatch)
    → has_sub_batch r1 len ≡ true
    → read_full (r1, len) full_out partial_out
      ≡ read_partial
          (skip len r1)
          (deserialize_relation_batch (sub_batch r1 len) full_out).0
          partial_out
unfolding read_full skip
read_full-partial r1 len full_out partial_out here =
    if_true
      (read_partial (record r1 { pos = r1.pos + len })
        (deserialize_relation_batch (sub_batch r1 len) full_out).0 partial_out)
      (rejected full_out partial_out) here

after_full :
    (full_out partial_out b : HostRelationBatch) (n : ℕ) (bytes rest all : List ℕ)
    → ltb (length all) 8 ≡ false
    → length bytes < 2 ^ 32
    → all ≡ framed bytes ++ rest
    → deserialize_relation_batch bytes full_out ≡ (b, n)
    → (r : SafeReader) × IsAt rest r
      × (deserialize_incremental_batch all full_out partial_out ≡ read_partial r b partial_out)
after_full full_out partial_out b n bytes rest all long fit same e =
    let r0 = new_reader all in
    let at0 = subst (λ l. IsAt l r0) same (new_reader-IsAt all) in
    let (e1, e2, e3, at') = read_framed bytes rest r0 fit at0 in
    let r = skip (length bytes) (skip 4 r0) in
    (
      r,
      at',
      deserialize_incremental_batch-full all full_out partial_out long
          ∙ ap (λ p. read_full p full_out partial_out) e1
          ∙ read_full-partial (skip 4 r0) (length bytes) full_out partial_out e2
          ∙ ap (λ l. read_partial r (deserialize_relation_batch l full_out).0 partial_out) e3
          ∙ ap (λ (p : HostRelationBatch × ℕ). read_partial r p.0 partial_out) e,
    )

framed-long : (xs ys : List ℕ) → ltb (length (framed xs ++ framed ys)) 8 ≡ false
unfolding framed
framed-long xs ys =
    let hx = le_bytes 4 (length xs % 2 ^ 32) in
    let hy = le_bytes 4 (length ys % 2 ^ 32) in
    ground (
      arith,
      length-append (hx ++ xs) (hy ++ ys),
      length-append hx xs,
      length-append hy ys,
      length-le_bytes 4 (length xs % 2 ^ 32),
      length-le_bytes 4 (length ys % 2 ^ 32),
    )

-- Two batches that hold their relations, with values that fit in their types and fewer than 2^32 bytes each, are both received as they were sent.
pub deserialize-serialize_incremental :
    (fb pb full_out partial_out : HostRelationBatch) (fc pc : ℕ)
    → Holds fc fb
    → Holds pc pb
    → FitsTypes fc fb
    → FitsTypes pc pb
    → length (wire_bytes fb fc) < 2 ^ 32
    → length (wire_bytes pb pc) < 2 ^ 32
    → let i =
        deserialize_incremental_batch
          (serialize_incremental_batch fb fc pb pc).0
          full_out
          partial_out in
      (i.accepted ≡ true) × IsReceived fc fb i.full_out × IsReceived pc pb i.partial_out
deserialize-serialize_incremental fb pb full_out partial_out fc pc hf hp ff fp nf np =
    let bytes = wire_bytes fb fc in
    let rest = framed (wire_bytes pb pc) in
    let (b, e, got) = deserialize_wire_bytes fb full_out fc hf ff in
    let (r, at, run) =
      after_full full_out partial_out b fc bytes rest (framed bytes ++ rest)
        (framed-long bytes (wire_bytes pb pc)) nf refl e in
    let (ok, kept, got') = read_partial_lem pb b partial_out pc r hp fp np at in
    rw (serialize_incremental_batch-bytes fb pb fc pc hf hp, run)
      (ok, subst (IsReceived fc fb) (sym kept) got, got')
