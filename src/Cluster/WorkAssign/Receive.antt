-- ===== src/Cluster/WorkAssign/Receive.antt =====
-- deserializeWorkAssign: what it makes of the header and of the snapshot.
use mathlib.Core.List.{append-nil}
use cuda_mpqs.Prelude.{
  ℕ, zero, suc, ◌-◌, ◌*◌, ◌%◌, ◌^◌, ◌<◌, ◌≤◌, ◌≡◌, refl, sym, ap, ◌∙◌, subst, List, [], ◌∷◌, ◌++◌,
  Option, none, some, true, false, ltb, if_true, if_false, take, drop, length, length-append,
  length-take, length-take_le, length-replicate, replicate, arith,
}
use cuda_mpqs.Cluster.Wire.{le_bytes, array_bytes, SafeReader, read_value, read_array}
use cuda_mpqs.Cluster.Wire.Bytes.{length-le_bytes, Fits}
use cuda_mpqs.Cluster.Wire.Reading.{
  IsAt, skip, skip-IsAt, read_value-IsAt, read_array-IsAt, array-IsAt,
}
use cuda_mpqs.Cluster.WorkAssign.{
  AFactorsSnapshot, FactoringData, Params, Header, resize_to, read_upper, after_lower, read_halves,
  after_factors, after_dim, read_snapshot, read_header,
}
use cuda_mpqs.Cluster.WorkAssign.Send.{header_bytes, snapshot_bytes, HasFactors}

-- The numbers fit in their types.
pub record FitsTypes (d : FactoringData) (p : Params) : Type 0 where
  pub n : d.n < 2 ^ 512
  pub m : d.m < 2 ^ 32
  pub f : d.f < 2 ^ 32
  pub size : length d.factor_base < 2 ^ 32
  pub sieve_batch_size : p.sieve_batch_size < 2 ^ 32
  pub threshold_override : p.threshold_override < 2 ^ 64
  pub lp1_bound : p.lp1_bound < 2 ^ 64
  pub poly_range_start : p.poly_range_start < 2 ^ 64
  pub poly_range_count : p.poly_range_count < 2 ^ 64
  pub target_relations : p.target_relations < 2 ^ 64

-- A value that stands next, and the reader behind it.
pub record ReadsValue (width v dst : ℕ) (rest : List ℕ) (r : SafeReader) : Type 0 where
  pub reads : read_value width r dst ≡ (skip width r, v)
  pub next : IsAt rest (skip width r)

pub reads_value :
    (width v dst : ℕ) (rest : List ℕ) (r : SafeReader)
    → v < 256 ^ width
    → IsAt (le_bytes width v ++ rest) r
    → ReadsValue width v dst rest r
reads_value width v dst rest r f at = record {
  reads = read_value-IsAt width v rest r dst f at;
  next = skip-IsAt width (le_bytes width v) rest r (length-le_bytes width v) at;
}

pub record HeaderRead (d : FactoringData) (p : Params) (out : FactoringData) (rest : List ℕ)
    (x : SafeReader × Header) : Type 0 where
  pub next : IsAt rest x.0
  pub fb_size : x.1.fb_size ≡ length d.factor_base
  pub fdata : x.1.fdata ≡ record out { n = d.n; m = d.m; f = d.f }
  pub params : x.1.params ≡ p

pub read_header_lem :
    (d out : FactoringData) (p old : Params) (r : SafeReader) (rest : List ℕ)
    → FitsTypes d p
    → IsAt (header_bytes d p rest) r
    → HeaderRead d p out rest (read_header r out old)
unfolding read_header header_bytes skip
read_header_lem d out p old r rest f at =
    let size = length d.factor_base in
    let dim = length d.a_factors in
    let v1 = reads_value 64 d.n out.n _ r (omega (arith, f.n)) at in
    let v2 = reads_value 4 (size % 2 ^ 32) 0 _ _ (omega arith) v1.next in
    let v3 = reads_value 4 d.m out.m _ _ (omega (arith, f.m)) v2.next in
    let v4 = reads_value 4 d.f out.f _ _ (omega (arith, f.f)) v3.next in
    let v5 =
      reads_value 4 p.sieve_batch_size old.sieve_batch_size _ _ (omega (arith, f.sieve_batch_size))
        v4.next in
    let v6 = reads_value 1 (dim % 2 ^ 8) 0 _ _ (omega arith) v5.next in
    let pad = skip-IsAt 3 (0 ∷ 0 ∷ 0 ∷ []) _ _ refl v6.next in
    let v7 =
      reads_value 8 p.threshold_override old.threshold_override _ _
        (omega (arith, f.threshold_override)) pad in
    let v8 = reads_value 8 p.lp1_bound old.lp1_bound _ _ (omega (arith, f.lp1_bound)) v7.next in
    let v9 =
      reads_value 8 p.poly_range_start old.poly_range_start _ _ (omega (arith, f.poly_range_start))
        v8.next in
    let v10 =
      reads_value 8 p.poly_range_count old.poly_range_count _ _ (omega (arith, f.poly_range_count))
        v9.next in
    let v11 =
      reads_value 8 p.target_relations old.target_relations rest _
        (omega (arith, f.target_relations)) v10.next in
    rw
      (
        v1.reads, v2.reads, v3.reads, v4.reads, v5.reads, v6.reads, v7.reads, v8.reads, v9.reads,
        v10.reads, v11.reads,
      )
      (record { next = v11.next; fb_size = omega (arith, f.size); fdata = refl; params = refl })

-- The factors after the reads: without any, the old ones stay.
unfoldable pub received_factors : ℕ → List ℕ → List ℕ → List ℕ
received_factors zero xs old = old
received_factors (suc k) xs old = take (suc k) xs

-- The snapshot after the reads: the one that was sent, if one was and there is a place for it.
unfoldable pub received :
    Option AFactorsSnapshot → Option AFactorsSnapshot → Option AFactorsSnapshot
received none old = old
received (some s) none = none
received (some s) (some old) =
    some (record s { a_factors = received_factors s.shc_dim s.a_factors old.a_factors })

unfoldable pub SnapshotFits : Option AFactorsSnapshot → Type 0
SnapshotFits none = Unit {0}
SnapshotFits (some s) =
    (s.shc_dim < 2 ^ 32)
    × (s.lower_half_start < 2 ^ 32)
    × (s.upper_half_start < 2 ^ 32)
    × Fits 4 (take s.shc_dim s.a_factors)

drop-beyond : (n : ℕ) (xs : List ℕ) → length xs ≤ n → drop n xs ≡ []
drop-beyond zero [] h = refl
drop-beyond zero (x ∷ xs) h = absurd (omega arith)
drop-beyond (suc n) [] h = refl
drop-beyond (suc n) (x ∷ xs) h = drop-beyond n xs (omega arith)

drop-resize_to : (n : ℕ) (xs : List ℕ) → drop n (resize_to n xs) ≡ []
unfolding resize_to
drop-resize_to n xs =
    let zeros : length (replicate {A = ℕ} (n - length xs) 0) ≡ n - length xs =
      length-replicate (n - length xs) 0 in
    drop-beyond n (take n xs ++ replicate (n - length xs) 0) (
      ground (
        arith,
        length-append (take n xs) (replicate (n - length xs) 0),
        zeros,
        length-take_le n xs,
        length-take n xs,
      ))

read_halves_lem :
    (lower upper : ℕ) (s : AFactorsSnapshot) (r : SafeReader)
    → lower < 2 ^ 32
    → upper < 2 ^ 32
    → IsAt (le_bytes 4 lower ++ le_bytes 4 upper) r
    → read_halves r s ≡ record s { lower_half_start = lower; upper_half_start = upper }
unfolding read_halves after_lower read_upper
read_halves_lem lower upper s r hl hu at =
    let v1 = reads_value 4 lower s.lower_half_start (le_bytes 4 upper) r (omega arith) at in
    let at2 = subst (λ l. IsAt l (skip 4 r)) (sym (append-nil (le_bytes 4 upper))) v1.next in
    let v2 = reads_value 4 upper s.upper_half_start [] (skip 4 r) (omega arith) at2 in
    let s1 : AFactorsSnapshot = record s { lower_half_start = lower } in
    ap (λ p. after_lower p s) v1.reads
    ∙ if_true (read_upper (skip 4 r) s1) s1 v1.next.fine
    ∙ ap (λ (p : SafeReader × ℕ). record s1 { upper_half_start = p.1 }) v2.reads

after_dim_lem :
    (dim lower upper : ℕ) (xs : List ℕ) (s : AFactorsSnapshot) (r : SafeReader)
    → dim ≤ length xs
    → Fits 4 (take dim xs)
    → lower < 2 ^ 32
    → upper < 2 ^ 32
    → IsAt (array_bytes 4 (take dim xs) ++ (le_bytes 4 lower ++ le_bytes 4 upper)) r
    → 0 < dim
    → after_dim (r, dim) s ≡ record {
      a_factors = take dim xs;
      lower_half_start = lower;
      upper_half_start = upper;
      shc_dim = dim;
    }
unfolding after_dim after_factors
after_dim_lem dim lower upper xs s r h f hl hu at pos =
    let some' : ltb 0 dim ≡ true = ground arith in
    let len = length-take dim xs h in
    let halves = le_bytes 4 lower ++ le_bytes 4 upper in
    let e = read_array-IsAt 4 dim (take dim xs) halves r (resize_to dim s.a_factors) len f at in
    let at' = array-IsAt 4 dim (take dim xs) halves r len at in
    let s1 : AFactorsSnapshot = record s { shc_dim = dim } in
    let ys = take dim xs ++ drop dim (resize_to dim s.a_factors) in
    let s2 : AFactorsSnapshot = record s1 { a_factors = ys } in
    let r1 = skip (dim * 4) r in
    let all : ys ≡ take dim xs = rw (drop-resize_to dim s.a_factors) (append-nil (take dim xs)) in
    if_true _ s at.fine
    ∙ if_true (after_factors (read_array 4 dim r (resize_to dim s.a_factors)) s1) (read_halves r s1)
        some'
    ∙ ap (λ p. after_factors p s1) e
    ∙ if_true (read_halves r1 s2) s2 at'.fine
    ∙ read_halves_lem lower upper s2 r1 hl hu at'
    ∙ ap
        (λ l. record {
          a_factors = l;
          lower_half_start = lower;
          upper_half_start = upper;
          shc_dim = dim;
        })
        all

read_dim_lem :
    (dim lower upper : ℕ) (xs : List ℕ) (s : AFactorsSnapshot) (r : SafeReader)
    → dim ≤ length xs
    → Fits 4 (take dim xs)
    → lower < 2 ^ 32
    → upper < 2 ^ 32
    → IsAt (array_bytes 4 (take dim xs) ++ (le_bytes 4 lower ++ le_bytes 4 upper)) r
    → after_dim (r, dim) s ≡ record {
      a_factors = received_factors dim xs s.a_factors;
      lower_half_start = lower;
      upper_half_start = upper;
      shc_dim = dim;
    }
unfolding received_factors after_dim array_bytes
read_dim_lem zero lower upper xs s r h f hl hu at =
    let s1 : AFactorsSnapshot = record s { shc_dim = 0 } in
    if_true (read_halves r s1) s at.fine ∙ read_halves_lem lower upper s1 r hl hu at
read_dim_lem (suc k) lower upper xs s r h f hl hu at =
    after_dim_lem (suc k) lower upper xs s r h f hl hu at (omega arith)

pub read_snapshot_lem :
    (sent old : Option AFactorsSnapshot) (r : SafeReader)
    → HasFactors sent
    → SnapshotFits sent
    → IsAt (snapshot_bytes sent) r
    → read_snapshot r old ≡ received sent old
unfolding HasFactors SnapshotFits snapshot_bytes read_snapshot received
read_snapshot_lem none none r h f at = refl
read_snapshot_lem none (some s) r h f at =
    let no_more : ltb r.pos r.total ≡ false = ground (arith, at.room) in
    ap some (if_false (after_dim (read_value 4 r 0) s) s no_more)
read_snapshot_lem (some a) none r h f at = refl
read_snapshot_lem (some a) (some s) r h f at =
    let body =
      array_bytes 4 (take a.shc_dim a.a_factors)
      ++ (le_bytes 4 a.lower_half_start ++ le_bytes 4 a.upper_half_start) in
    let more : ltb r.pos r.total ≡ true =
      ground
        (arith, at.room, length-append (le_bytes 4 a.shc_dim) body, length-le_bytes 4 a.shc_dim) in
    let v = reads_value 4 a.shc_dim 0 body r (omega (arith, f.0)) at in
    ap some (
      if_true (after_dim (read_value 4 r 0) s) s more
      ∙ ap (λ p. after_dim p s) v.reads
      ∙ read_dim_lem a.shc_dim a.lower_half_start a.upper_half_start a.a_factors s (skip 4 r) h f.3
          f.1 f.2 v.next)
