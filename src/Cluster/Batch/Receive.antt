-- ===== src/Cluster/Batch/Receive.antt =====
-- deserializeRelationBatch: what it makes of the bytes of a batch.
use mathlib.Core.List.{append_assoc}
use cuda_mpqs.Prelude.{
  ℕ, zero, suc, ◌+◌, ◌*◌, ◌≤◌, ◌≡◌, refl, sym, ap, ◌∙◌, subst, List, ◌++◌, true, ltb, take, drop,
  length, length-take, take-append, add32, arith,
}
use cuda_mpqs.Cluster.Wire.{array_bytes, SafeReader, read_array}
use cuda_mpqs.Cluster.Wire.Bytes.{Fits}
use cuda_mpqs.Cluster.Wire.Reading.{IsAt, skip, read_array-IsAt, array-IsAt}
use cuda_mpqs.Cluster.Batch.{
  HostRelationBatch, factors_of, wire_char_bits, read_factors, read_relations,
}
use cuda_mpqs.Cluster.Batch.Send.{
  Holds, offset_count, factor_bytes, relation_bytes, length-wire_char_bits,
}

-- The values of a batch fit in their types.
pub record FitsTypes (count : ℕ) (b : HostRelationBatch) : Type 0 where
  pub sqrt_q : Fits 64 (take count b.sqrt_q)
  pub signs : Fits 1 (take count b.signs)
  pub val_2_exps : Fits 4 (take count b.val_2_exps)
  pub large_primes : Fits 16 (take count b.large_primes)
  pub char_bits : Fits 4 (take count (wire_char_bits b count))
  pub factor_offsets : Fits 8 (take (offset_count count) b.factor_offsets)
  pub factor_indices : Fits 4 (take (factors_of b count) b.factor_indices)
  pub factor_counts : Fits 1 (take (factors_of b count) b.factor_counts)

-- The arrays of `out` begin with the relations of `b`.
pub record IsCopy (count nf : ℕ) (b out : HostRelationBatch) : Type 0 where
  pub sqrt_q : take count out.sqrt_q ≡ take count b.sqrt_q
  pub signs : take count out.signs ≡ take count b.signs
  pub val_2_exps : take count out.val_2_exps ≡ take count b.val_2_exps
  pub large_primes : take count out.large_primes ≡ take count b.large_primes
  pub char_bits : take count out.char_bits ≡ take count (wire_char_bits b count)
  pub factor_offsets :
      take (offset_count count) out.factor_offsets ≡ take (offset_count count) b.factor_offsets
  pub factor_indices : take nf out.factor_indices ≡ take nf b.factor_indices
  pub factor_counts : take nf out.factor_counts ≡ take nf b.factor_counts

take_prefix :
    (n : ℕ) (xs dst : List ℕ) → n ≤ length xs → take n (take n xs ++ drop n dst) ≡ take n xs
take_prefix n xs dst h =
    ap (λ k. take k (take n xs ++ drop n dst)) (sym (length-take n xs h))
    ∙ take-append (take n xs) (drop n dst)

-- What comes of the factors.
record FactorsRead (nf : ℕ) (b out : HostRelationBatch) (r : SafeReader) : Type 0 where
  reader : SafeReader
  indices : List ℕ
  counts : List ℕ
  reads :
      read_factors nf r out
      ≡ (reader, record out { factor_indices = indices; factor_counts = counts })
  fine : reader.ok ≡ true
  indices_copy : take nf indices ≡ take nf b.factor_indices
  counts_copy : take nf counts ≡ take nf b.factor_counts

read_factors_lem :
    (nf : ℕ) (b out : HostRelationBatch) (r : SafeReader) (rest : List ℕ)
    → nf ≤ length b.factor_indices
    → nf ≤ length b.factor_counts
    → Fits 4 (take nf b.factor_indices)
    → Fits 1 (take nf b.factor_counts)
    → IsAt (factor_bytes b nf ++ rest) r
    → FactorsRead nf b out r
unfolding read_factors factor_bytes
read_factors_lem zero b out r rest hi hc fi fc at = record {
  reader = r;
  indices = out.factor_indices;
  counts = out.factor_counts;
  reads = refl;
  fine = at.fine;
  indices_copy = refl;
  counts_copy = refl;
}
read_factors_lem (suc k) b out r rest hi hc fi fc at =
    let nf = suc k in
    let some' : ltb 0 (suc k) ≡ true = ground arith in
    let xs = take nf b.factor_indices in
    let ys = take nf b.factor_counts in
    let at1 = subst (λ l. IsAt l r) (append_assoc (array_bytes 4 xs) (array_bytes 1 ys) rest) at in
    let lx = length-take nf b.factor_indices hi in
    let ly = length-take nf b.factor_counts hc in
    let e1 = read_array-IsAt 4 nf xs (array_bytes 1 ys ++ rest) r out.factor_indices lx fi at1 in
    let at2 = array-IsAt 4 nf xs (array_bytes 1 ys ++ rest) r lx at1 in
    let e2 = read_array-IsAt 1 nf ys rest (skip (nf * 4) r) out.factor_counts ly fc at2 in
    record {
      reader = skip (nf * 1) (skip (nf * 4) r);
      indices = xs ++ drop nf out.factor_indices;
      counts = ys ++ drop nf out.factor_counts;
      reads = rw (some', e1, e2);
      fine = (array-IsAt 1 nf ys rest (skip (nf * 4) r) ly at2).fine;
      indices_copy = take_prefix nf b.factor_indices out.factor_indices hi;
      counts_copy = take_prefix nf b.factor_counts out.factor_counts hc;
    }

relation_bytes-append :
    (b : HostRelationBatch) (count : ℕ) (xs rest : List ℕ)
    → relation_bytes b count xs ++ rest ≡ relation_bytes b count (xs ++ rest)
unfolding relation_bytes
relation_bytes-append b count xs rest = simp (append_assoc) refl

pub record RelationsRead (count nf : ℕ) (b out : HostRelationBatch) (r : SafeReader) : Type 0 where
  pub reader : SafeReader
  pub batch : HostRelationBatch
  pub reads : read_relations count nf r out ≡ (reader, batch)
  pub fine : reader.ok ≡ true
  pub copy : IsCopy count nf b batch

pub read_relations_lem :
    (k nf : ℕ) (b out : HostRelationBatch) (r : SafeReader) (rest : List ℕ)
    → Holds (suc k) b
    → FitsTypes (suc k) b
    → factors_of b (suc k) ≡ nf
    → IsAt (relation_bytes b (suc k) (factor_bytes b nf) ++ rest) r
    → RelationsRead (suc k) nf b out r
unfolding read_relations relation_bytes offset_count
read_relations_lem k nf b out r rest v f same at =
    let n = suc k in
    let m = k + 2 in
    let fb = factor_bytes b nf ++ rest in
    let offsets : add32 (suc k) 1 ≡ k + 2 = omega (arith, v.relations_fit) in
    let bits = wire_char_bits b n in
    let x1 = take n b.sqrt_q in
    let x2 = take n b.signs in
    let x3 = take n b.val_2_exps in
    let x4 = take n b.large_primes in
    let x5 = take n bits in
    let x6 = take m b.factor_offsets in
    let l1 = length-take n b.sqrt_q v.sqrt_q in
    let l2 = length-take n b.signs v.signs in
    let l3 = length-take n b.val_2_exps v.val_2_exps in
    let l4 = length-take n b.large_primes v.large_primes in
    let h5 = length-wire_char_bits b n in
    let l5 = length-take n bits h5 in
    let h6 : m ≤ length b.factor_offsets = omega (arith, v.factor_offsets) in
    let l6 = length-take m b.factor_offsets h6 in
    let t6 = array_bytes 8 x6 ++ fb in
    let t5 = array_bytes 4 x5 ++ t6 in
    let t4 = array_bytes 16 x4 ++ t5 in
    let t3 = array_bytes 4 x3 ++ t4 in
    let t2 = array_bytes 1 x2 ++ t3 in
    let at1 : IsAt (array_bytes 64 x1 ++ t2) r =
      subst (λ l. IsAt l r) (relation_bytes-append b n (factor_bytes b nf) rest) at in
    let r1 = skip (n * 64) r in
    let r2 = skip (n * 1) r1 in
    let r3 = skip (n * 4) r2 in
    let r4 = skip (n * 16) r3 in
    let r5 = skip (n * 4) r4 in
    let r6 = skip (m * 8) r5 in
    let at2 = array-IsAt 64 n x1 t2 r l1 at1 in
    let at3 = array-IsAt 1 n x2 t3 r1 l2 at2 in
    let at4 = array-IsAt 4 n x3 t4 r2 l3 at3 in
    let at5 = array-IsAt 16 n x4 t5 r3 l4 at4 in
    let at6 = array-IsAt 4 n x5 t6 r4 l5 at5 in
    let at7 = array-IsAt 8 m x6 fb r5 l6 at6 in
    let e1 = read_array-IsAt 64 n x1 t2 r out.sqrt_q l1 f.sqrt_q at1 in
    let e2 = read_array-IsAt 1 n x2 t3 r1 out.signs l2 f.signs at2 in
    let e3 = read_array-IsAt 4 n x3 t4 r2 out.val_2_exps l3 f.val_2_exps at3 in
    let e4 = read_array-IsAt 16 n x4 t5 r3 out.large_primes l4 f.large_primes at4 in
    let e5 = read_array-IsAt 4 n x5 t6 r4 out.char_bits l5 f.char_bits at5 in
    let e6 = read_array-IsAt 8 m x6 fb r5 out.factor_offsets l6 f.factor_offsets at6 in
    let e6' =
      subst (λ j. read_array 8 j r5 out.factor_offsets ≡ (r6, x6 ++ drop m out.factor_offsets))
        (sym offsets) e6 in
    let mid : HostRelationBatch = record out {
      sqrt_q = x1 ++ drop n out.sqrt_q;
      signs = x2 ++ drop n out.signs;
      val_2_exps = x3 ++ drop n out.val_2_exps;
      large_primes = x4 ++ drop n out.large_primes;
      char_bits = x5 ++ drop n out.char_bits;
      factor_offsets = x6 ++ drop m out.factor_offsets;
    } in
    let fr =
      read_factors_lem nf b mid r6 rest
        (subst (λ j. j ≤ length b.factor_indices) same v.factor_indices)
        (subst (λ j. j ≤ length b.factor_counts) same v.factor_counts)
        (subst (λ j. Fits 4 (take j b.factor_indices)) same f.factor_indices)
        (subst (λ j. Fits 1 (take j b.factor_counts)) same f.factor_counts) at7 in
    record {
      reader = fr.reader;
      batch = record mid { factor_indices = fr.indices; factor_counts = fr.counts };
      reads = rw (e1, e2, e3, e4, e5, e6') (fr.reads);
      fine = fr.fine;
      copy = record {
        sqrt_q = take_prefix n b.sqrt_q out.sqrt_q v.sqrt_q;
        signs = take_prefix n b.signs out.signs v.signs;
        val_2_exps = take_prefix n b.val_2_exps out.val_2_exps v.val_2_exps;
        large_primes = take_prefix n b.large_primes out.large_primes v.large_primes;
        char_bits = take_prefix n bits out.char_bits h5;
        factor_offsets = take_prefix m b.factor_offsets out.factor_offsets h6;
        factor_indices = fr.indices_copy;
        factor_counts = fr.counts_copy;
      };
    }
