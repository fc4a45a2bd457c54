-- ===== src/Cluster/Tcp/Stream.antt =====
-- `recvMsg`: a stream of bytes that arrives in pieces.
use mathlib.Core.List.{append_assoc}
use cuda_mpqs.Prelude.{
  ℕ, zero, suc, ◌^◌, ◌<◌, ◌≤◌, ◌≡◌, refl, sym, ap, ◌∙◌, List, [], ◌∷◌, ◌++◌, map, arith, take, drop,
  length, length-append, take-append, drop-append, true, ltb, ◌==◌, if◌then◌else◌, if_true,
  Bool-cases, inl, inr, ltb→lt,
}
use cuda_mpqs.Cluster.Tcp.{
  FrameHeader, frame_header_bytes, protocol_magic, max_payload_bytes, compute_crc32, check_buffer,
  RecvResult, received, end_of_stream, recv_interrupted, no_data, recv_failed, closed, RecvOutcome,
  returned, got_msg, timeout, blocked, after_check, recv_msg, frame_buf, frame_bytes,
}
use cuda_mpqs.Cluster.Tcp.Header.{take-prefix, drop-prefix}
use cuda_mpqs.Cluster.Tcp.Receive.{wire, IsSound, verdict, check_buffer-short, check_buffer-wire}

-- What is returned once the frame is in the buffer.
abbrev pub reply : FrameHeader → List ℕ → ℕ → List ℕ → List RecvResult → RecvOutcome
reply h payload crc rest results =
    if crc == compute_crc32 (frame_header_bytes h ++ payload)
    then returned got_msg h.msg_type payload rest results
    else returned timeout 0 [] rest results

after_check-verdict :
    (h : FrameHeader) (payload : List ℕ) (crc : ℕ) (rest : List ℕ) (results : List RecvResult)
    (more : RecvOutcome)
    → after_check (verdict h payload crc rest) results more ≡ reply h payload crc rest results
unfolding after_check
after_check-verdict h payload crc rest results more =
    elim (Bool-cases (crc == compute_crc32 (frame_header_bytes h ++ payload))) [
      | inl good ↦ rw good refl
      | inr bad ↦ rw bad refl
    ]

abbrev pub concat : List (List ℕ) → List ℕ
concat [] = []
concat (c ∷ cs) = c ++ concat cs

pub take-drop : (n : ℕ) (xs : List ℕ) → take n xs ++ drop n xs ≡ xs
take-drop zero xs = refl
take-drop (suc n) [] = refl
take-drop (suc n) (x ∷ xs) = ap (◌∷◌ x) (take-drop n xs)

-- A buffer that holds the frame returns at once.
recv_msg-full :
    (h : FrameHeader) (payload : List ℕ) (crc : ℕ) (extra : List ℕ) (results : List RecvResult)
    → IsSound h payload crc
    → recv_msg (wire h payload crc ++ extra) results ≡ reply h payload crc extra results
unfolding recv_msg
recv_msg-full h payload crc extra results s = go results
  where
    buf : List ℕ
    buf = wire h payload crc ++ extra

    at :
        (rs : List RecvResult) (more : RecvOutcome)
        → after_check (check_buffer buf) rs more ≡ reply h payload crc extra rs
    at rs more =
        ap (λ f. after_check f rs more) (check_buffer-wire h payload crc extra s)
        ∙ after_check-verdict h payload crc extra rs more

    go : (rs : List RecvResult) → recv_msg buf rs ≡ reply h payload crc extra rs
    go [] = at [] (blocked buf)
    go (received bytes ∷ rs) = at (received bytes ∷ rs) (recv_msg (buf ++ bytes) rs)
    go (end_of_stream ∷ rs) = at (end_of_stream ∷ rs) (returned closed 0 [] buf rs)
    go (recv_interrupted ∷ rs) = at (recv_interrupted ∷ rs) (recv_msg buf rs)
    go (no_data ∷ rs) = at (no_data ∷ rs) (returned timeout 0 [] buf rs)
    go (recv_failed ∷ rs) = at (recv_failed ∷ rs) (returned closed 0 [] buf rs)

-- The part of a stream behind a frame that has arrived.
behind :
    (n : ℕ) (frame extra buf rest : List ℕ)
    → length frame ≡ n
    → n ≤ length buf
    → buf ++ rest ≡ frame ++ extra
    → (buf ≡ frame ++ drop n buf) × (drop n buf ++ rest ≡ extra)
behind n frame extra buf rest e le whole =
    let head : take n buf ≡ frame =
      sym (take-prefix n buf rest le)
      ∙ ap (take n) whole
      ∙ ap (λ k. take k (frame ++ extra)) (sym e)
      ∙ take-append frame extra in
    (
      sym (take-drop n buf) ∙ ap (λ xs. xs ++ drop n buf) head,
      sym (drop-prefix n buf rest le)
          ∙ ap (drop n) whole
          ∙ ap (λ k. drop k (frame ++ extra)) (sym e)
          ∙ drop-append frame extra,
    )

-- The outcome of `recvMsg` on a stream of pieces: a reply, and what is left of the stream.
abbrev pub Replies :
    FrameHeader → List ℕ → ℕ → List ℕ → List ℕ → List (List ℕ) → List RecvResult → Type 0
Replies h payload crc buf extra pieces results =
    (rest : List ℕ) × (later : List (List ℕ)) × (recv_msg buf (map received pieces ++ results)
      ≡ reply h payload crc rest (map received later ++ results))
    × (rest ++ concat later ≡ extra)

stream_full :
    (h : FrameHeader) (payload : List ℕ) (crc : ℕ) (buf extra : List ℕ) (pieces : List (List ℕ))
    (results : List RecvResult)
    → IsSound h payload crc
    → buf ++ concat pieces ≡ wire h payload crc ++ extra
    → length (wire h payload crc) ≤ length buf
    → Replies h payload crc buf extra pieces results
stream_full h payload crc buf extra pieces results s e long =
    let n = length (wire h payload crc) in
    let (whole, left') = behind n (wire h payload crc) extra buf (concat pieces) refl long e in
    (
      drop n buf,
      pieces,
      ap (λ b. recv_msg b (map received pieces ++ results)) whole
          ∙ recv_msg-full h payload crc (drop n buf) _ s,
      left',
    )

recv_msg-wait :
    (h : FrameHeader) (payload : List ℕ) (crc : ℕ) (buf extra p : List ℕ) (ps : List (List ℕ))
    (results : List RecvResult)
    → IsSound h payload crc
    → buf ++ (p ++ concat ps) ≡ wire h payload crc ++ extra
    → length buf < length (wire h payload crc)
    → recv_msg buf (map received (p ∷ ps) ++ results)
      ≡ recv_msg (buf ++ p) (map received ps ++ results)
unfolding recv_msg after_check
recv_msg-wait h payload crc buf extra p ps results s e short =
    ap
      (λ f.
        after_check f (map received (p ∷ ps) ++ results)
          (recv_msg (buf ++ p) (map received ps ++ results)))
      (check_buffer-short h payload crc buf (p ++ concat ps) extra s e short)

-- Whatever the pieces in which a stream arrives, `recvMsg` returns as soon as the first frame is whole, and keeps exactly the bytes behind it: it returns the message where the checksum is right, and a timeout where it is wrong.
pub recv_msg-Replies :
    (h : FrameHeader) (payload : List ℕ) (crc : ℕ) (buf extra : List ℕ) (pieces : List (List ℕ))
    (results : List RecvResult)
    → IsSound h payload crc
    → buf ++ concat pieces ≡ wire h payload crc ++ extra
    → Replies h payload crc buf extra pieces results
recv_msg-Replies h payload crc buf extra [] results s e =
    let n = length-append (wire h payload crc) extra in
    let m = length-append buf [] in
    stream_full h payload crc buf extra [] results s e (omega (arith, ap length e, n, m))
recv_msg-Replies h payload crc buf extra (p ∷ ps) results s e =
    elim (Bool-cases (ltb (length buf) (length (wire h payload crc)))) [
      | inr long ↦ stream_full h payload crc buf extra (p ∷ ps) results s e (ground arith)
      | inl short ↦
          let (rest, later, out, kept) =
            recv_msg-Replies h payload crc (buf ++ p) extra ps results s
              (append_assoc buf p (concat ps) ∙ e) in
          (
            rest,
            later,
            recv_msg-wait h payload crc buf extra p ps results s e (ltb→lt _ _ short) ∙ out,
            kept,
          )
    ]

frame_header : ℕ → ℕ → List ℕ → FrameHeader
frame_header seq msg_type payload = record {
  magic = protocol_magic;
  msg_type = msg_type;
  seq_no = seq;
  payload_len = length payload;
}

-- A message of at most 64 MiB that `sendMsg` has framed is received with its type and payload, in whatever pieces its bytes arrive and whatever follows it, and the bytes that follow it are kept.
pub recv_msg-frame_bytes :
    (seq msg_type : ℕ) (payload extra : List ℕ) (pieces : List (List ℕ)) (results : List RecvResult)
    → seq < 2 ^ 32
    → msg_type < 2 ^ 8
    → length payload ≤ max_payload_bytes
    → concat pieces ≡ frame_bytes seq msg_type payload ++ extra
    → (rest : List ℕ) × (later : List (List ℕ)) × (recv_msg [] (map received pieces ++ results)
        ≡ returned got_msg msg_type payload rest (map received later ++ results))
      × (rest ++ concat later ≡ extra)
unfolding frame_bytes frame_buf frame_header
recv_msg-frame_bytes seq msg_type payload extra pieces results fs ft fp e =
    let h = frame_header seq msg_type payload in
    let frame = frame_header_bytes h ++ payload in
    let crc = compute_crc32 frame in
    let sound : IsSound h payload crc = record {
      fits = record {
        magic = omega arith;
        msg_type = ft;
        seq_no = fs;
        payload_len = omega (arith, fp);
      };
      magic = refl;
      size = refl;
      bounded = fp;
      crc_fits = unfold compute_crc32 in omega arith;
    } in
    let (rest, later, out, kept) = recv_msg-Replies h payload crc [] extra pieces results sound e in
    let good : (crc == crc) ≡ true = ground arith in
    (
      rest,
      later,
      out
          ∙ if_true (returned got_msg msg_type payload rest (map received later ++ results))
              (returned timeout 0 [] rest (map received later ++ results)) good,
      kept,
    )
