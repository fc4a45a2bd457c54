-- ===== src/Cluster/Tcp/Receive.antt =====
-- `recvMsg`: what it makes of its buffer.
use mathlib.Core.List.{append_assoc}
use cuda_mpqs.Prelude.{
  ℕ, ◌+◌, ◌^◌, ◌<◌, ◌≤◌, ◌≡◌, refl, sym, ap, ◌∙◌, List, ◌++◌, arith, take, drop, length,
  length-append, take-append, drop-append, true, false, ltb, ◌==◌, ◌||◌, not, if◌then◌else◌,
  if_false, Bool-cases, inl, inr,
}
use cuda_mpqs.Cluster.Wire.{le_bytes, le_value}
use cuda_mpqs.Cluster.Wire.Bytes.{length-le_bytes, le_value-le_bytes, take-le_bytes}
use cuda_mpqs.Cluster.Tcp.{
  FrameHeader, frame_header_bytes, read_frame_header, header_size, crc32_size, protocol_magic,
  max_payload_bytes, compute_crc32, Frame, incomplete, malformed, corrupt, complete, check_frame,
  check_buffer,
}
use cuda_mpqs.Cluster.Tcp.Header.{
  read_frame_header-prefix, FitsHeader, read_frame_header-frame_header_bytes,
  length-frame_header_bytes,
}

-- The bytes of a frame with some checksum.
abbrev pub wire : FrameHeader → List ℕ → ℕ → List ℕ
wire h payload crc = (frame_header_bytes h ++ payload) ++ le_bytes 4 crc

-- A header that the receiver accepts, for the payload.
pub record IsSound (h : FrameHeader) (payload : List ℕ) (crc : ℕ) : Type 0 where
  pub fits : FitsHeader h
  pub magic : h.magic ≡ protocol_magic
  pub size : h.payload_len ≡ length payload
  pub bounded : length payload ≤ max_payload_bytes
  pub crc_fits : crc < 2 ^ 32

-- What the buffer holds once the frame is in it.
abbrev pub verdict : FrameHeader → List ℕ → ℕ → List ℕ → Frame
verdict h payload crc rest =
    if crc == compute_crc32 (frame_header_bytes h ++ payload)
    then complete h.msg_type payload rest
    else corrupt rest

length-wire :
    (h : FrameHeader) (payload : List ℕ) (crc : ℕ)
    → length (wire h payload crc) ≡ 11 + length payload + 4
length-wire h payload crc = omega (
  arith,
  length-append (frame_header_bytes h ++ payload) (le_bytes 4 crc),
  length-append (frame_header_bytes h) payload,
  length-frame_header_bytes h,
  length-le_bytes 4 crc,
)

-- The header passes the tests.
accepted :
    (h : FrameHeader) (payload : List ℕ) (crc : ℕ)
    → IsSound h payload crc
    → (not (h.magic == protocol_magic) || ltb max_payload_bytes h.payload_len) ≡ false
accepted h payload crc s =
    let m = s.magic in
    let n = s.size in
    let b = s.bounded in
    let e : (h.magic == protocol_magic) ≡ true = ground arith in
    let l : ltb max_payload_bytes h.payload_len ≡ false = ground arith in rw (e, l) refl

check_buffer-read :
    (h : FrameHeader) (payload : List ℕ) (crc : ℕ) (buf : List ℕ)
    → IsSound h payload crc
    → 11 ≤ length buf
    → read_frame_header buf ≡ h
    → check_buffer buf ≡ check_frame h buf
unfolding check_buffer
check_buffer-read h payload crc buf s long e =
    let enough : ltb (length buf) header_size ≡ false = ground arith in
    if_false incomplete
      (if not ((read_frame_header buf).magic == protocol_magic)
          || ltb max_payload_bytes (read_frame_header buf).payload_len
        then malformed
        else check_frame (read_frame_header buf) buf)
      enough
    ∙ ap
        (λ g.
          if not (g.magic == protocol_magic) || ltb max_payload_bytes g.payload_len
          then malformed
          else check_frame g buf)
        e
    ∙ if_false malformed (check_frame h buf) (accepted h payload crc s)

-- A frame of which a part is missing is waited for.
pub check_buffer-short :
    (h : FrameHeader) (payload : List ℕ) (crc : ℕ) (buf rest extra : List ℕ)
    → IsSound h payload crc
    → buf ++ rest ≡ wire h payload crc ++ extra
    → length buf < length (wire h payload crc)
    → check_buffer buf ≡ incomplete
unfolding check_buffer check_frame
check_buffer-short h payload crc buf rest extra s e short =
    elim (Bool-cases (ltb (length buf) header_size)) [
      | inl few ↦ rw few refl
      | inr more ↦
          let long : 11 ≤ length buf = ground arith in
          let whole : wire h payload crc ++ extra
              ≡ frame_header_bytes h ++ (payload ++ (le_bytes 4 crc ++ extra)) =
            append_assoc (frame_header_bytes h ++ payload) (le_bytes 4 crc) extra
            ∙ append_assoc (frame_header_bytes h) payload (le_bytes 4 crc ++ extra) in
          let head : read_frame_header buf ≡ h =
            sym (read_frame_header-prefix buf rest long)
            ∙ ap read_frame_header (e ∙ whole)
            ∙ read_frame_header-frame_header_bytes h _ s.fits in
          let few : ltb (length buf) (header_size + h.payload_len + crc32_size) ≡ true =
            ground (arith, length-wire h payload crc, s.size) in
          check_buffer-read h payload crc buf s long head ∙ unfold check_frame in rw few refl
    ]

-- A whole frame is taken from the buffer, whatever follows it.
pub check_buffer-wire :
    (h : FrameHeader) (payload : List ℕ) (crc : ℕ) (extra : List ℕ)
    → IsSound h payload crc
    → check_buffer (wire h payload crc ++ extra) ≡ verdict h payload crc extra
unfolding check_frame
check_buffer-wire h payload crc extra s =
    let frame = frame_header_bytes h ++ payload in
    let buf = wire h payload crc ++ extra in
    let nf : length frame ≡ 11 + length payload =
      omega (arith, length-append (frame_header_bytes h) payload, length-frame_header_bytes h) in
    let total = length-append (wire h payload crc) extra in
    let nw = length-wire h payload crc in
    let whole : buf ≡ frame ++ (le_bytes 4 crc ++ extra) =
      append_assoc frame (le_bytes 4 crc) extra in
    let parts : buf ≡ frame_header_bytes h ++ (payload ++ (le_bytes 4 crc ++ extra)) =
      whole ∙ append_assoc (frame_header_bytes h) payload (le_bytes 4 crc ++ extra) in
    let long : 11 ≤ length buf = omega (arith, total, nw) in
    let head : read_frame_header buf ≡ h =
      ap read_frame_header parts ∙ read_frame_header-frame_header_bytes h _ s.fits in
    let size : header_size + h.payload_len ≡ length frame = omega (arith, nf, s.size) in
    let enough : ltb (length buf) (header_size + h.payload_len + crc32_size) ≡ false =
      ground (arith, total, nw, s.size) in
    let body : drop (header_size + h.payload_len) buf ≡ le_bytes 4 crc ++ extra =
      ap (λ k. drop k buf) size ∙ ap (drop (length frame)) whole ∙ drop-append frame _ in
    let crc_read : le_value (take 4 (drop (header_size + h.payload_len) buf)) ≡ crc =
      ap (λ bs. le_value (take 4 bs)) body
      ∙ ap le_value (take-le_bytes 4 crc extra)
      ∙ le_value-le_bytes 4 crc s.crc_fits in
    let summed : take (header_size + h.payload_len) buf ≡ frame =
      ap (λ k. take k buf) size ∙ ap (take (length frame)) whole ∙ take-append frame _ in
    let behind : drop (header_size + h.payload_len + crc32_size) buf ≡ extra =
      ap (λ k. drop k buf) {x = header_size + h.payload_len + crc32_size}
        {y = length (wire h payload crc)} (omega (arith, nw, s.size))
      ∙ drop-append (wire h payload crc) extra in
    let message : take h.payload_len (drop header_size buf) ≡ payload =
      ap (λ k. take h.payload_len (drop k buf)) (sym (length-frame_header_bytes h))
      ∙ ap (λ bs. take h.payload_len (drop (length (frame_header_bytes h)) bs)) parts
      ∙ ap (take h.payload_len) (drop-append (frame_header_bytes h) _)
      ∙ ap (λ k. take k (payload ++ (le_bytes 4 crc ++ extra))) s.size
      ∙ take-append payload _ in
    check_buffer-read h payload crc buf s long head
    ∙ unfold check_frame in rw (enough, crc_read, summed, behind, message) refl
