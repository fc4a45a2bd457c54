-- ===== src/Cluster/Batch/Send.antt =====
-- serializeRelationBatch: the bytes that it writes.
use mathlib.Core.List.{append_assoc, append-nil}
use cuda_mpqs.Prelude.{
  ℕ, zero, suc, ◌+◌, ◌-◌, ◌*◌, ◌%◌, ◌^◌, ◌<◌, ◌≤◌, ◌≡◌, refl, sym, subst, List, [], ◌++◌, true, ltb,
  take, length, length-replicate, replicate, arith,
}
use cuda_mpqs.Cluster.Wire.{le_bytes, array_bytes, Writer, new_writer}
use cuda_mpqs.Cluster.Wire.Writing.{
  IsWritten, IsSent, new_writer-IsSent, write_value-IsSent, write_array-IsSent, IsSent-cast,
}
use cuda_mpqs.Cluster.Batch.{
  HostRelationBatch, factors_of, batch_size, wire_char_bits, write_factors, write_relations,
  serialize_relation_batch,
}

-- The offsets that are sent: none without relations.
unfoldable pub offset_count : ℕ → ℕ
offset_count zero = 0
offset_count (suc n) = n + 2

-- A batch that holds `count` relations.
pub record Holds (count : ℕ) (b : HostRelationBatch) : Type 0 where
  pub sqrt_q : count ≤ length b.sqrt_q
  pub signs : count ≤ length b.signs
  pub val_2_exps : count ≤ length b.val_2_exps
  pub large_primes : count ≤ length b.large_primes
  pub factor_offsets : offset_count count ≤ length b.factor_offsets
  pub factor_indices : factors_of b count ≤ length b.factor_indices
  pub factor_counts : factors_of b count ≤ length b.factor_counts
  pub relations_fit : count < 2 ^ 32 - 1
  pub factors_fit : factors_of b count < 2 ^ 32

unfoldable pub factor_bytes : HostRelationBatch → ℕ → List ℕ
factor_bytes b nf =
    array_bytes 4 (take nf b.factor_indices) ++ array_bytes 1 (take nf b.factor_counts)

unfoldable pub relation_bytes : HostRelationBatch → ℕ → List ℕ → List ℕ
relation_bytes b count rest =
    array_bytes 64 (take count b.sqrt_q)
    ++ (array_bytes 1 (take count b.signs)
        ++ (array_bytes 4 (take count b.val_2_exps)
            ++ (array_bytes 16 (take count b.large_primes)
                ++ (array_bytes 4 (take count (wire_char_bits b count))
                    ++ (array_bytes 8 (take (offset_count count) b.factor_offsets) ++ rest)))))

unfoldable pub wire_bytes : HostRelationBatch → ℕ → List ℕ
wire_bytes b count =
    let nf = factors_of b count in
    le_bytes 4 (count % 2 ^ 32)
    ++ (le_bytes 4 (nf % 2 ^ 32) ++ relation_bytes b count (factor_bytes b nf))

pub length-wire_char_bits :
    (b : HostRelationBatch) (count : ℕ) → count ≤ length (wire_char_bits b count)
unfolding wire_char_bits
length-wire_char_bits b count =
    let zeros : length (replicate {A = ℕ} count 0) ≡ count = length-replicate count 0 in
    ground (arith, zeros)

write_factors-IsSent :
    (total n nf : ℕ) (b : HostRelationBatch) (out : List ℕ) (w : Writer)
    → nf ≤ length b.factor_indices
    → nf ≤ length b.factor_counts
    → n + nf * 4 + nf * 1 ≤ total
    → IsSent total n out w
    → IsSent total (n + nf * 4 + nf * 1) (out ++ factor_bytes b nf) (write_factors b nf w)
unfolding write_factors factor_bytes array_bytes
write_factors-IsSent total n zero b out w hi hc h s =
    IsSent-cast total w (omega arith) (sym (append-nil out)) s
write_factors-IsSent total n (suc k) b out w hi hc h s =
    let nf = suc k in
    let some' : ltb 0 (suc k) ≡ true = ground arith in
    let s1 = write_array-IsSent total n 4 nf b.factor_indices out w hi (omega arith) s in
    let s2 = write_array-IsSent total (n + nf * 4) 1 nf b.factor_counts _ _ hc h s1 in
    rw some' (
      IsSent-cast total _ refl
        (append_assoc out (array_bytes 4 (take nf b.factor_indices))
          (array_bytes 1 (take nf b.factor_counts)))
        s2)

some_relations-IsSent :
    (total k nf : ℕ) (b : HostRelationBatch) (out : List ℕ) (w : Writer)
    → Holds (suc k) b
    → nf ≤ length b.factor_indices
    → nf ≤ length b.factor_counts
    → 16 + suc k * 89 + (suc k + 1) * 8 + nf * 4 + nf * 1 ≤ total + 8
    → IsSent total 8 out w
    → (n : ℕ) × IsSent total n
        (out ++ relation_bytes b (suc k) (factor_bytes b nf))
        (write_relations b (suc k) nf w)
unfolding write_relations relation_bytes offset_count
some_relations-IsSent total k nf b out w v hi hc h s =
    let count = suc k in
    let some' : ltb 0 (suc k) ≡ true = ground arith in
    let offsets : k + 2 ≡ suc k + 1 = omega arith in
    let bits = wire_char_bits b count in
    let s1 = write_array-IsSent total 8 64 count b.sqrt_q out w v.sqrt_q (omega arith) s in
    let s2 = write_array-IsSent total _ 1 count b.signs _ _ v.signs (omega arith) s1 in
    let s3 = write_array-IsSent total _ 4 count b.val_2_exps _ _ v.val_2_exps (omega arith) s2 in
    let s4 =
      write_array-IsSent total _ 16 count b.large_primes _ _ v.large_primes (omega arith) s3 in
    let s5 =
      write_array-IsSent total _ 4 count bits _ _ (length-wire_char_bits b count) (omega arith)
        s4 in
    let s6 =
      write_array-IsSent total _ 8 (count + 1) b.factor_offsets _ _
        (omega (arith, v.factor_offsets)) (omega arith) s5 in
    let s7 = write_factors-IsSent total _ nf b _ _ hi hc (omega arith) s6 in
    let end : ℕ =
      8
      + count * 64
      + count * 1
      + count * 4
      + count * 16
      + count * 4
      + (count + 1) * 8
      + nf * 4
      + nf * 1 in
    (end, rw (some', offsets) (IsSent-cast total _ refl (simp (append_assoc) refl) s7))

no_relations-IsSent :
    (total : ℕ) (b : HostRelationBatch) (out : List ℕ) (w : Writer)
    → IsSent total 8 out w
    → (n : ℕ) × IsSent total n
        (out ++ relation_bytes b 0 (factor_bytes b (factors_of b 0)))
        (write_relations b 0 (factors_of b 0) w)
unfolding write_relations relation_bytes factors_of array_bytes offset_count factor_bytes
no_relations-IsSent total b out w s = (8, IsSent-cast total w refl (sym (append-nil out)) s)

write_relations-IsSent :
    (total count : ℕ) (b : HostRelationBatch) (out : List ℕ) (w : Writer)
    → let nf = factors_of b count in
      Holds count b
      → batch_size count nf ≤ total
      → IsSent total 8 out w
      → (n : ℕ) × IsSent total n
          (out ++ relation_bytes b count (factor_bytes b nf))
          (write_relations b count nf w)
unfolding batch_size
write_relations-IsSent total zero b out w v h s = no_relations-IsSent total b out w s
write_relations-IsSent total (suc k) b out w v h s =
    some_relations-IsSent total k (factors_of b (suc k)) b out w v v.factor_indices v.factor_counts
      (omega (arith, h)) s

-- The buffer has the computed size, and what is written of it are the bytes of the batch.
pub serialize_relation_batch-IsWritten :
    (b : HostRelationBatch) (count : ℕ)
    → Holds count b
    → IsWritten
        (batch_size count (factors_of b count))
        (wire_bytes b count)
        (serialize_relation_batch b count)
unfolding serialize_relation_batch wire_bytes
serialize_relation_batch-IsWritten b count v =
    let nf = factors_of b count in
    let total = batch_size count nf in
    let big : 16 ≤ total = unfold batch_size in omega arith in
    let s1 =
      write_value-IsSent total 0 4 (count % 2 ^ 32) [] (new_writer total) (omega arith)
        (new_writer-IsSent total) in
    let s2 = write_value-IsSent total 4 4 (nf % 2 ^ 32) _ _ (omega arith) s1 in
    let (n, s3) = write_relations-IsSent total count b _ _ v (omega arith) s2 in
    subst (λ l. IsWritten total l (serialize_relation_batch b count))
      (append_assoc (le_bytes 4 (count % 2 ^ 32)) (le_bytes 4 (nf % 2 ^ 32)) _) s3.written
