-- ===== src/Cluster/Tcp/Send.antt =====
-- `sendExact` and `sendMsg`: what goes out.
use mathlib.Core.List.{append_assoc}
use cuda_mpqs.Prelude.{
  ℕ, zero, suc, ◌+◌, ◌≡◌, refl, sym, ap, ◌∙◌, List, [], ◌∷◌, ◌++◌, take, drop, ltb, Bool-cases, inl,
  inr, Bool, true, false, add32,
}
use cuda_mpqs.Cluster.Wire.{le_bytes}
use cuda_mpqs.Cluster.Tcp.{
  SendResult, taken, send_interrupted, send_again, send_failed, SendOutcome, sending, all_sent,
  send_error, send_exact, send_checksum, send_msg, TcpSocket, frame_buf, frame_bytes, compute_crc32,
}
use cuda_mpqs.Cluster.Tcp.Stream.{take-drop}

-- A call that has returned without an error.
abbrev pub is_sent : SendOutcome → Bool
is_sent (all_sent results) = true
is_sent _ = false

-- What went out is the start of the bytes, and all of them when the call reports success.
pub record Sends (bytes : List ℕ) (r : List ℕ × SendOutcome) : Type 0 where
  pub rest : List ℕ
  pub prefix : r.0 ++ rest ≡ bytes
  pub whole : is_sent r.1 ≡ true → r.0 ≡ bytes

nothing-Sends : (bytes : List ℕ) (o : SendOutcome) → is_sent o ≡ false → Sends bytes ([], o)
nothing-Sends bytes o e = record { rest = bytes; prefix = refl; whole = λ s. absurd (cc) }

send_exact-Sends :
    (results : List SendResult) (bytes : List ℕ) (retries : ℕ)
    → Sends bytes (send_exact results bytes retries)
unfolding send_exact
send_exact-Sends results [] retries = record { rest = []; prefix = refl; whole = λ s. refl }
send_exact-Sends [] (b ∷ bytes) retries = nothing-Sends (b ∷ bytes) sending refl
send_exact-Sends (taken zero ∷ results) (b ∷ bytes) retries =
    nothing-Sends (b ∷ bytes) (send_error results) refl
send_exact-Sends (taken (suc n) ∷ results) (b ∷ bytes) retries =
    let h = send_exact-Sends results (drop n bytes) 0 in
    let out = (send_exact results (drop n bytes) 0).0 in
    let joined = take-drop (suc n) (b ∷ bytes) in
    record {
      rest = h.rest;
      prefix =
          append_assoc (take (suc n) (b ∷ bytes)) out h.rest
          ∙ ap (λ xs. take (suc n) (b ∷ bytes) ++ xs) h.prefix
          ∙ joined;
      whole = λ s. ap (λ xs. take (suc n) (b ∷ bytes) ++ xs) (h.whole s) ∙ joined;
    }
send_exact-Sends (send_interrupted ∷ results) (b ∷ bytes) retries =
    send_exact-Sends results (b ∷ bytes) retries
send_exact-Sends (send_again ∷ results) (b ∷ bytes) retries =
    elim (Bool-cases (ltb 1000 (retries + 1))) [
      | inl stuck ↦ rw stuck (nothing-Sends (b ∷ bytes) (send_error results) refl)
      | inr again ↦ rw again (send_exact-Sends results (b ∷ bytes) (retries + 1))
    ]
send_exact-Sends (send_failed ∷ results) (b ∷ bytes) retries =
    nothing-Sends (b ∷ bytes) (send_error results) refl

cut-Sends :
    (crc : ℕ) (bytes out : List ℕ) (o : SendOutcome)
    → Sends bytes (out, o)
    → is_sent o ≡ false
    → Sends (bytes ++ le_bytes 4 crc) (out, o)
cut-Sends crc bytes out o h e = record {
  rest = h.rest ++ le_bytes 4 crc;
  prefix =
      sym (append_assoc out h.rest (le_bytes 4 crc)) ∙ ap (λ xs. xs ++ le_bytes 4 crc) h.prefix;
  whole = λ s. absurd (cc);
}

send_checksum-Sends :
    (crc : ℕ) (bytes : List ℕ) (r : List ℕ × SendOutcome)
    → Sends bytes r
    → Sends (bytes ++ le_bytes 4 crc) (send_checksum crc r)
unfolding send_checksum
send_checksum-Sends crc bytes (out, all_sent results) h =
    let k = send_exact-Sends results (le_bytes 4 crc) 0 in
    let all' : out ≡ bytes = h.whole refl in
    record {
      rest = k.rest;
      prefix =
          append_assoc out (send_exact results (le_bytes 4 crc) 0).0 k.rest
          ∙ ap (λ xs. out ++ xs) k.prefix
          ∙ ap (λ xs. xs ++ le_bytes 4 crc) all';
      whole = λ s. ap (λ xs. out ++ xs) (k.whole s) ∙ ap (λ xs. xs ++ le_bytes 4 crc) all';
    }
send_checksum-Sends crc bytes (out, sending) h = cut-Sends crc bytes out sending h refl
send_checksum-Sends crc bytes (out, send_error results) h =
    cut-Sends crc bytes out (send_error results) h refl

-- `sendMsg` puts a start of the frame on the wire, whatever the system calls return, and the whole frame when it reports success; in every case the sequence number moves on by one, modulo 2^32.
pub send_msg-Sends :
    (results : List SendResult) (s : TcpSocket) (msg_type : ℕ) (payload : List ℕ)
    → let r = send_msg results s msg_type payload in
      Sends (frame_bytes s.send_seq msg_type payload) (r.0, r.1)
      × (r.2.send_seq ≡ add32 s.send_seq 1)
      × (r.2.recv_buf ≡ s.recv_buf)
unfolding send_msg frame_bytes
send_msg-Sends results s msg_type payload =
    let frame = frame_buf s.send_seq msg_type payload in
    (
      send_checksum-Sends (compute_crc32 frame) frame (send_exact results frame 0)
          (send_exact-Sends results frame 0),
      refl,
      refl,
    )
