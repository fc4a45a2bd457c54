-- ===== src/Cluster/Tcp/Header.antt =====
-- `FrameHeader` in a buffer, and frames whose bytes have only arrived in part.
use mathlib.Core.List.{append_assoc}
use mathlib.Core.Path.{ap₂}
use cuda_mpqs.Prelude.{
  ℕ, zero, suc, ◌+◌, ◌^◌, ◌<◌, ◌≤◌, ◌≡◌, refl, sym, ap, ◌∙◌, List, [], ◌∷◌, ◌++◌, arith, take, drop,
  length, length-append, drop-append,
}
use cuda_mpqs.Cluster.Wire.{le_bytes, le_value}
use cuda_mpqs.Cluster.Wire.Bytes.{length-le_bytes, le_value-le_bytes, take-le_bytes}
use cuda_mpqs.Cluster.Tcp.{FrameHeader, frame_header_bytes, read_frame_header}

module _ {ℓ} {A : Type ℓ} where
  pub take-prefix : (k : ℕ) (xs ys : List A) → k ≤ length xs → take k (xs ++ ys) ≡ take k xs
  take-prefix zero xs ys h = refl
  take-prefix (suc k) [] ys h = absurd (omega arith)
  take-prefix (suc k) (x ∷ xs) ys h = ap (◌∷◌ x) (take-prefix k xs ys (omega arith))

  pub drop-prefix : (k : ℕ) (xs ys : List A) → k ≤ length xs → drop k (xs ++ ys) ≡ drop k xs ++ ys
  drop-prefix zero xs ys h = refl
  drop-prefix (suc k) [] ys h = absurd (omega arith)
  drop-prefix (suc k) (x ∷ xs) ys h = drop-prefix k xs ys (omega arith)

  pub length-drop_le : (k : ℕ) (xs : List A) → k ≤ length xs → length (drop k xs) + k ≡ length xs
  length-drop_le zero xs h = omega arith
  length-drop_le (suc k) [] h = absurd (omega arith)
  length-drop_le (suc k) (x ∷ xs) h = omega (arith, length-drop_le k xs (omega arith))

-- A field of the header lies in the bytes that have arrived.
field :
    (k d : ℕ) (xs ys : List ℕ)
    → d + k ≤ length xs
    → le_value (take k (drop d (xs ++ ys))) ≡ le_value (take k (drop d xs))
field k d xs ys h =
    ap (λ zs. le_value (take k zs)) (drop-prefix d xs ys (omega arith))
    ∙ ap le_value (take-prefix k (drop d xs) ys (omega (arith, length-drop_le d xs (omega arith))))

pub read_frame_header-prefix :
    (xs ys : List ℕ) → 11 ≤ length xs → read_frame_header (xs ++ ys) ≡ read_frame_header xs
unfolding read_frame_header
read_frame_header-prefix xs ys h = λ i. record {
  magic = field 2 0 xs ys (omega arith) i;
  msg_type = field 1 2 xs ys (omega arith) i;
  seq_no = field 4 3 xs ys (omega arith) i;
  payload_len = field 4 7 xs ys (omega arith) i;
}

-- The fields fit their types.
pub record FitsHeader (h : FrameHeader) : Type 0 where
  pub magic : h.magic < 2 ^ 16
  pub msg_type : h.msg_type < 2 ^ 8
  pub seq_no : h.seq_no < 2 ^ 32
  pub payload_len : h.payload_len < 2 ^ 32

-- The value that stands behind `before`.
stands :
    (w v d : ℕ) (before rest bytes : List ℕ)
    → length before ≡ d
    → bytes ≡ before ++ (le_bytes w v ++ rest)
    → v < 256 ^ w
    → le_value (take w (drop d bytes)) ≡ v
stands w v d before rest bytes n e f =
    ap (λ k. le_value (take w (drop k bytes))) (sym n)
    ∙ ap (λ bs. le_value (take w (drop (length before) bs))) e
    ∙ ap (λ bs. le_value (take w bs)) (drop-append before (le_bytes w v ++ rest))
    ∙ ap le_value (take-le_bytes w v rest)
    ∙ le_value-le_bytes w v f

-- The header is read back.
pub read_frame_header-frame_header_bytes :
    (h : FrameHeader) (rest : List ℕ)
    → FitsHeader h
    → read_frame_header (frame_header_bytes h ++ rest) ≡ h
unfolding read_frame_header frame_header_bytes
read_frame_header-frame_header_bytes h rest f =
    let m = le_bytes 2 h.magic in
    let t = le_bytes 1 h.msg_type in
    let s = le_bytes 4 h.seq_no in
    let l = le_bytes 4 h.payload_len in
    let bytes = (m ++ (t ++ (s ++ l))) ++ rest in
    let e0 : bytes ≡ m ++ (t ++ (s ++ (l ++ rest))) =
      append_assoc m (t ++ (s ++ l)) rest
      ∙ ap (λ x. m ++ x)
          (append_assoc t (s ++ l) rest ∙ ap (λ x. t ++ x) (append_assoc s l rest)) in
    let e1 : bytes ≡ (m ++ t) ++ (s ++ (l ++ rest)) = e0 ∙ sym (append_assoc m t _) in
    let e2 : bytes ≡ ((m ++ t) ++ s) ++ (l ++ rest) = e1 ∙ sym (append_assoc (m ++ t) s _) in
    let nm = length-le_bytes 2 h.magic in
    let nt = length-append m t ∙ ap₂ ◌+◌ nm (length-le_bytes 1 h.msg_type) in
    let ns = length-append (m ++ t) s ∙ ap₂ ◌+◌ nt (length-le_bytes 4 h.seq_no) in
    λ i. record {
      magic = stands 2 h.magic 0 [] (t ++ (s ++ (l ++ rest))) bytes refl e0 f.magic i;
      msg_type = stands 1 h.msg_type 2 m (s ++ (l ++ rest)) bytes nm e0 f.msg_type i;
      seq_no = stands 4 h.seq_no 3 (m ++ t) (l ++ rest) bytes nt e1 f.seq_no i;
      payload_len = stands 4 h.payload_len 7 ((m ++ t) ++ s) rest bytes ns e2 f.payload_len i;
    }

pub length-frame_header_bytes : (h : FrameHeader) → length (frame_header_bytes h) ≡ 11
unfolding frame_header_bytes
length-frame_header_bytes h = grind (
  arith,
  length-append (le_bytes 2 h.magic)
      (le_bytes 1 h.msg_type ++ (le_bytes 4 h.seq_no ++ le_bytes 4 h.payload_len)),
  length-append (le_bytes 1 h.msg_type) (le_bytes 4 h.seq_no ++ le_bytes 4 h.payload_len),
  length-append (le_bytes 4 h.seq_no) (le_bytes 4 h.payload_len),
  length-le_bytes 2 h.magic,
  length-le_bytes 1 h.msg_type,
  length-le_bytes 4 h.seq_no,
  length-le_bytes 4 h.payload_len,
)
