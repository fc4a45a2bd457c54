-- ===== src/Cluster/WorkAssign/Send.antt =====
-- serializeWorkAssign: the bytes that it writes.
use mathlib.Core.List.{append_assoc, append-nil}
use cuda_mpqs.Prelude.{
  ℕ, zero, suc, ◌+◌, ◌*◌, ◌%◌, ◌^◌, ◌≤◌, ◌≡◌, refl, sym, ap, ◌∙◌, List, [], ◌∷◌, ◌++◌, Option, none,
  some, true, false, ltb, if◌then◌else◌, take, length, length-append, take-all, arith,
}
use cuda_mpqs.Cluster.Wire.{le_bytes, array_bytes, Writer, new_writer, write_array}
use cuda_mpqs.Cluster.Wire.Bytes.{length-le_bytes}
use cuda_mpqs.Cluster.Wire.Writing.{
  IsSent, new_writer-IsSent, write_value-IsSent, write_array-IsSent, write_bytes-IsSent,
  IsSent-cast,
}
use cuda_mpqs.Cluster.WorkAssign.{
  AFactorsSnapshot, FactoringData, Params, compute_factor_base_hash, snapshot_size, write_snapshot,
  write_header, serialize_work_assign,
}

unfoldable pub header_bytes : FactoringData → Params → List ℕ → List ℕ
header_bytes d p rest =
    le_bytes 64 d.n
    ++ (le_bytes 4 (length d.factor_base % 2 ^ 32)
        ++ (le_bytes 4 d.m
            ++ (le_bytes 4 d.f
                ++ (le_bytes 4 p.sieve_batch_size
                    ++ (le_bytes 1 (length d.a_factors % 2 ^ 8)
                        ++ ((0 ∷ 0 ∷ 0 ∷ [])
                            ++ (le_bytes 8 p.threshold_override
                                ++ (le_bytes 8 p.lp1_bound
                                    ++ (le_bytes 8 p.poly_range_start
                                        ++ (le_bytes 8 p.poly_range_count
                                            ++ (le_bytes 8 p.target_relations ++ rest)))))))))))

unfoldable pub snapshot_bytes : Option AFactorsSnapshot → List ℕ
snapshot_bytes none = []
snapshot_bytes (some s) =
    le_bytes 4 s.shc_dim
    ++ (array_bytes 4 (take s.shc_dim s.a_factors)
        ++ (le_bytes 4 s.lower_half_start ++ le_bytes 4 s.upper_half_start))

-- The snapshot has its factors.
unfoldable pub HasFactors : Option AFactorsSnapshot → Type 0
HasFactors none = Unit {0}
HasFactors (some s) = s.shc_dim ≤ length s.a_factors

write_header-IsSent :
    (total : ℕ) (d : FactoringData) (p : Params) (w : Writer)
    → 124 ≤ total
    → IsSent total 0 [] w
    → IsSent total 124 (header_bytes d p []) (write_header d p w)
unfolding write_header header_bytes
write_header-IsSent total d p w h s0 =
    let s1 = write_value-IsSent total 0 64 d.n _ _ (omega arith) s0 in
    let s2 = write_value-IsSent total 64 4 (length d.factor_base % 2 ^ 32) _ _ (omega arith) s1 in
    let s3 = write_value-IsSent total 68 4 d.m _ _ (omega arith) s2 in
    let s4 = write_value-IsSent total 72 4 d.f _ _ (omega arith) s3 in
    let s5 = write_value-IsSent total 76 4 p.sieve_batch_size _ _ (omega arith) s4 in
    let s6 = write_value-IsSent total 80 1 (length d.a_factors % 2 ^ 8) _ _ (omega arith) s5 in
    let s7 = write_bytes-IsSent total 81 3 _ (0 ∷ 0 ∷ 0 ∷ []) _ refl (omega arith) s6 in
    let s8 = write_value-IsSent total 84 8 p.threshold_override _ _ (omega arith) s7 in
    let s9 = write_value-IsSent total 92 8 p.lp1_bound _ _ (omega arith) s8 in
    let s10 = write_value-IsSent total 100 8 p.poly_range_start _ _ (omega arith) s9 in
    let s11 = write_value-IsSent total 108 8 p.poly_range_count _ _ (omega arith) s10 in
    let s12 = write_value-IsSent total 116 8 p.target_relations _ _ (omega arith) s11 in
    IsSent-cast total _ refl (simp (append_assoc, append-nil) refl) s12

write_snapshot-IsSent :
    (total n : ℕ) (snapshot : Option AFactorsSnapshot) (out : List ℕ) (w : Writer)
    → HasFactors snapshot
    → n + snapshot_size snapshot ≤ total
    → IsSent total n out w
    → IsSent total
        (n + snapshot_size snapshot)
        (out ++ snapshot_bytes snapshot)
        (write_snapshot snapshot w)
unfolding HasFactors snapshot_size snapshot_bytes write_snapshot
write_snapshot-IsSent total n none out w f h s =
    IsSent-cast total w (omega arith) (sym (append-nil out)) s
write_snapshot-IsSent total n (some a) out w f h s =
    let s1 = write_value-IsSent total n 4 a.shc_dim out w (omega arith) s in
    let s2 = factors a.shc_dim a.a_factors _ _ f (omega arith) s1 in
    let s3 = write_value-IsSent total _ 4 a.lower_half_start _ _ (omega arith) s2 in
    let s4 = write_value-IsSent total _ 4 a.upper_half_start _ _ (omega arith) s3 in
    IsSent-cast total _ (omega arith) (simp (append_assoc) refl) s4
  where
    factors :
        (dim : ℕ) (xs out' : List ℕ) (w' : Writer)
        → dim ≤ length xs
        → n + 4 + dim * 4 ≤ total
        → IsSent total (n + 4) out' w'
        → IsSent total
            (n + 4 + dim * 4)
            (out' ++ array_bytes 4 (take dim xs))
            (if ltb 0 dim then write_array 4 dim xs w' else w')
    factors zero xs out' w' l h' s' =
        unfold array_bytes in IsSent-cast total w' (omega arith) (sym (append-nil out')) s'
    factors (suc k) xs out' w' l h' s' =
        let some' : ltb 0 (suc k) ≡ true = ground arith in
        rw some' (write_array-IsSent total (n + 4) 4 (suc k) xs out' w' l h' s')

unfoldable pub assign_bytes : FactoringData → Params → Option AFactorsSnapshot → List ℕ
assign_bytes d p snapshot =
    header_bytes d p (le_bytes 8 (compute_factor_base_hash d) ++ snapshot_bytes snapshot)

header_bytes-append :
    (d : FactoringData) (p : Params) (rest : List ℕ)
    → header_bytes d p [] ++ rest ≡ header_bytes d p rest
unfolding header_bytes
header_bytes-append d p rest = simp (append_assoc, append-nil) refl

-- The buffer is filled exactly.
pub serialize_work_assign-bytes :
    (d : FactoringData) (p : Params) (snapshot : Option AFactorsSnapshot)
    → HasFactors snapshot
    → let w = serialize_work_assign d p snapshot in
      (w.buf ≡ assign_bytes d p snapshot) × (w.offset ≡ length w.buf)
unfolding serialize_work_assign assign_bytes
serialize_work_assign-bytes d p snapshot f =
    let total = 124 + 8 + snapshot_size snapshot in
    let hash = le_bytes 8 (compute_factor_base_hash d) in
    let s1 =
      write_header-IsSent total d p (new_writer total) (omega arith) (new_writer-IsSent total) in
    let s2 = write_value-IsSent total 124 8 (compute_factor_base_hash d) _ _ (omega arith) s1 in
    let s3 = write_snapshot-IsSent total (124 + 8) snapshot _ _ f (omega arith) s2 in
    let w = serialize_work_assign d p snapshot in
    let whole : w.offset ≡ length w.buf =
      omega (arith, s3.written.at_end, s3.count, s3.written.size) in
    (
      sym (take-all w.buf)
          ∙ ap (λ k. take k w.buf) (sym whole)
          ∙ s3.written.done
          ∙ append_assoc (header_bytes d p []) hash (snapshot_bytes snapshot)
          ∙ header_bytes-append d p (hash ++ snapshot_bytes snapshot),
      whole,
    )

length-header_bytes :
    (d : FactoringData) (p : Params) (rest : List ℕ)
    → length (header_bytes d p rest) ≡ 124 + length rest
unfolding header_bytes
length-header_bytes d p rest = simp (length-append, length-le_bytes) (omega arith)

pub assign_bytes-long :
    (d : FactoringData) (p : Params) (snapshot : Option AFactorsSnapshot)
    → ltb (length (assign_bytes d p snapshot)) 132 ≡ false
unfolding assign_bytes
assign_bytes-long d p snapshot =
    let hash = le_bytes 8 (compute_factor_base_hash d) in
    ground (
      arith,
      length-header_bytes d p (hash ++ snapshot_bytes snapshot),
      length-append hash (snapshot_bytes snapshot),
      length-le_bytes 8 (compute_factor_base_hash d),
    )
