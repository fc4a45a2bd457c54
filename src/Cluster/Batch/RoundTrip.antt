-- ===== src/Cluster/Batch/RoundTrip.antt =====
-- serializeRelationBatch and deserializeRelationBatch: a message on both sides.
use mathlib.Core.List.{append-nil}
use cuda_mpqs.Prelude.{
  ℕ, zero, suc, ◌%◌, ◌^◌, ◌≤◌, ◌≡◌, refl, sym, ap, ◌∙◌, subst, List, [], ◌++◌, true, false, ltb,
  if◌then◌else◌, if_true, take, length, length-append, length-take_le, arith,
}
use cuda_mpqs.Cluster.Wire.{le_bytes, SafeReader, new_reader, read_value}
use cuda_mpqs.Cluster.Wire.Bytes.{length-le_bytes}
use cuda_mpqs.Cluster.Wire.Reading.{IsAt, new_reader-IsAt, skip, skip-IsAt, read_value-IsAt}
use cuda_mpqs.Cluster.Batch.{
  HostRelationBatch, resize, batch_size, factors_of, finish_batch, read_batch, read_relations,
  serialize_relation_batch, deserialize_relation_batch,
}
use cuda_mpqs.Cluster.Batch.Send.{
  Holds, offset_count, factor_bytes, relation_bytes, wire_bytes, serialize_relation_batch-IsWritten,
}
use cuda_mpqs.Cluster.Batch.Receive.{FitsTypes, IsCopy, read_relations_lem}

-- `out` is the batch of the first `count` relations of `b`.
pub record IsReceived (count : ℕ) (b out : HostRelationBatch) : Type 0 where
  pub copy : IsCopy count (factors_of b count) b out
  pub relations : out.num_relations ≡ count
  pub factors : out.num_factors ≡ factors_of b count

finish_batch-fine :
    (k nf : ℕ) (out : HostRelationBatch) (r : SafeReader)
    → r.ok ≡ true
    → finish_batch (suc k) nf (r, out)
      ≡ (record out { num_relations = suc k; num_factors = nf }, suc k)
unfolding finish_batch
finish_batch-fine k nf out r fine = rw fine (ground arith)

read_batch-finish :
    (k nf : ℕ) (out : HostRelationBatch) (r : SafeReader)
    → r.ok ≡ true
    → read_batch (suc k) nf r out
      ≡ finish_batch (suc k) nf (read_relations (suc k) nf r (resize out (suc k) nf))
unfolding read_batch
read_batch-finish k nf out r fine =
    let b = resize out (suc k) nf in
    if_true
      (finish_batch (suc k) nf (if ltb 0 (suc k) then read_relations (suc k) nf r b else (r, b)))
      (out, 0) fine
    ∙ ap (finish_batch (suc k) nf) (if_true (read_relations (suc k) nf r b) (r, b) (ground arith))

read_batch-some :
    (k nf : ℕ) (out out' : HostRelationBatch) (r r' : SafeReader)
    → r.ok ≡ true
    → read_relations (suc k) nf r (resize out (suc k) nf) ≡ (r', out')
    → r'.ok ≡ true
    → read_batch (suc k) nf r out ≡ (record out' { num_relations = suc k; num_factors = nf }, suc k)
read_batch-some k nf out out' r r' fine e fine' =
    read_batch-finish k nf out r fine
    ∙ ap (finish_batch (suc k) nf) e
    ∙ finish_batch-fine k nf out' r' fine'

read_batch_lem :
    (count : ℕ) (b out : HostRelationBatch) (r : SafeReader) (rest : List ℕ)
    → let nf = factors_of b count in
      Holds count b
      → FitsTypes count b
      → IsAt (relation_bytes b count (factor_bytes b nf) ++ rest) r
      → (out' : HostRelationBatch) × (read_batch count nf r out ≡ (out', count))
        × IsReceived count b out'
unfolding read_batch finish_batch offset_count factors_of
read_batch_lem zero b out r rest v f at = (
  resize out 0 0,
  rw at.fine,
  record {
    copy = record {
      sqrt_q = refl;
      signs = refl;
      val_2_exps = refl;
      large_primes = refl;
      char_bits = refl;
      factor_offsets = refl;
      factor_indices = refl;
      factor_counts = refl;
    };
    relations = refl;
    factors = refl;
  },
)
read_batch_lem (suc k) b out r rest v f at =
    let nf = factors_of b (suc k) in
    let some' : ltb 0 (suc k) ≡ true = ground arith in
    let rr = read_relations_lem k nf b (resize out (suc k) nf) r rest v f refl at in
    (
      record rr.batch { num_relations = suc k; num_factors = nf },
      read_batch-some k nf out rr.batch r rr.reader at.fine rr.reads rr.fine,
      record {
        copy = record {
          sqrt_q = rr.copy.sqrt_q;
          signs = rr.copy.signs;
          val_2_exps = rr.copy.val_2_exps;
          large_primes = rr.copy.large_primes;
          char_bits = rr.copy.char_bits;
          factor_offsets = rr.copy.factor_offsets;
          factor_indices = rr.copy.factor_indices;
          factor_counts = rr.copy.factor_counts;
        };
        relations = refl;
        factors = refl;
      },
    )

length-wire_bytes :
    (b : HostRelationBatch) (count : ℕ) → ltb (length (wire_bytes b count)) 8 ≡ false
unfolding wire_bytes
length-wire_bytes b count =
    let nf = factors_of b count in
    let n1 = le_bytes 4 (count % 2 ^ 32) in
    let n2 = le_bytes 4 (nf % 2 ^ 32) in
    let body = relation_bytes b count (factor_bytes b nf) in
    ground (
      arith,
      length-append n1 (n2 ++ body),
      length-append n2 body,
      length-le_bytes 4 (count % 2 ^ 32),
      length-le_bytes 4 (nf % 2 ^ 32),
    )

-- The header gives both counts, and the rest is read as the relations.
pub deserialize_wire_bytes :
    (b out : HostRelationBatch) (count : ℕ)
    → Holds count b
    → FitsTypes count b
    → (out' : HostRelationBatch) × (deserialize_relation_batch (wire_bytes b count) out
        ≡ (out', count))
      × IsReceived count b out'
unfolding deserialize_relation_batch
deserialize_wire_bytes b out count v f =
    let nf = factors_of b count in
    let body = relation_bytes b count (factor_bytes b nf) in
    let n2 = le_bytes 4 (nf % 2 ^ 32) in
    let bytes = wire_bytes b count in
    let r0 = new_reader bytes in
    let at0 : IsAt (le_bytes 4 (count % 2 ^ 32) ++ (n2 ++ body)) r0 =
      unfold wire_bytes in new_reader-IsAt bytes in
    let w1 : count % 2 ^ 32 ≡ count = omega (arith, v.relations_fit) in
    let w2 : nf % 2 ^ 32 ≡ nf = omega (arith, v.factors_fit) in
    let r1 = skip 4 r0 in
    let at1 = skip-IsAt 4 (le_bytes 4 (count % 2 ^ 32)) (n2 ++ body) r0 (length-le_bytes 4 _) at0 in
    let at2 = skip-IsAt 4 n2 body r1 (length-le_bytes 4 _) at1 in
    let e1 =
      subst (λ x. read_value 4 r0 0 ≡ (r1, x)) w1
        (read_value-IsAt 4 (count % 2 ^ 32) (n2 ++ body) r0 0 (omega arith) at0) in
    let e2 =
      subst (λ x. read_value 4 r1 0 ≡ (skip 4 r1, x)) w2
        (read_value-IsAt 4 (nf % 2 ^ 32) body r1 0 (omega arith) at1) in
    let (out', e, c) =
      read_batch_lem count b out (skip 4 r1) [] v f
        (subst (λ l. IsAt l (skip 4 r1)) (sym (append-nil body)) at2) in
    (out', rw (length-wire_bytes b count, e1, e2) e, c)

-- The first `count` relations of a batch that holds them, with fewer than 2^32 - 1 relations and 2^32 factors whose values fit in their types, are received as they were sent, into whatever batch they are received: the receiver returns `count`, its arrays begin with the sent ones and its counters are the sent counts, also for `count` 0. The buffer has just the computed size, so nothing is written beyond it.
pub deserialize-serialize :
    (b out : HostRelationBatch) (count : ℕ)
    → Holds count b
    → FitsTypes count b
    → let w = serialize_relation_batch b count in
      (length w.buf ≡ batch_size count (factors_of b count))
      × (w.offset ≤ length w.buf)
      × ((out' : HostRelationBatch) × (deserialize_relation_batch (take w.offset w.buf) out
            ≡ (out', count))
          × IsReceived count b out')
deserialize-serialize b out count v f =
    let s = serialize_relation_batch-IsWritten b count v in
    let w = serialize_relation_batch b count in
    (
      s.size,
      omega (arith, s.at_end, ap length s.done, length-take_le w.offset w.buf),
      subst
          (λ l.
            (out' : HostRelationBatch) × (deserialize_relation_batch l out ≡ (out', count))
            × IsReceived count b out')
          (sym s.done) (deserialize_wire_bytes b out count v f),
    )
