-- ===== src/Cluster/Tcp.antt =====
-- src/cluster/tcp_transport.cpp: `computeCRC32`, `sendMsg`, `sendExact` and `recvMsg`, with the frame of
-- cluster_common.h. The results of the system calls `send` and `recv` are lists; a list that runs out
-- is a call that blocks.
pub mod Header
pub mod Receive
pub mod Stream
pub mod Send
mod Examples
use cuda_mpqs.Prelude.{
  ℕ, zero, suc, ◌+◌, ◌-◌, ◌/◌, ◌%◌, ◌^◌, List, [], ◌∷◌, ◌++◌, Bool, true, false, not, ◌||◌, ltb,
  leb, ◌==◌, if◌then◌else◌, take, drop, length, bit_and, bit_xor, add32, min,
}
use cuda_mpqs.Cluster.Wire.{le_bytes, le_value}

-- An entry of the table: eight shifts.
unfoldable pub crc_rounds : ℕ → ℕ → ℕ
crc_rounds zero crc = crc
crc_rounds (suc n) crc = crc_rounds n (bit_xor (crc / 2) (if crc % 2 == 1 then 0xEDB88320 else 0))

unfoldable pub crc_loop : List ℕ → ℕ → ℕ
unfolding crc_rounds
crc_loop [] crc = crc
crc_loop (b ∷ bs) crc =
    crc_loop bs (bit_xor (crc / 2 ^ 8) (crc_rounds 8 (bit_and (bit_xor crc b) 0xFF)))

unfoldable pub compute_crc32 : List ℕ → ℕ
unfolding crc_loop
compute_crc32 bytes = bit_xor (crc_loop bytes 0xFFFFFFFF) 0xFFFFFFFF % 2 ^ 32

pub record FrameHeader : Type 0 where
  pub magic : ℕ
  pub msg_type : ℕ
  pub seq_no : ℕ
  pub payload_len : ℕ

abbrev pub protocol_magic : ℕ
protocol_magic = 0x4D52

abbrev pub header_size : ℕ
header_size = 11

abbrev pub crc32_size : ℕ
crc32_size = 4

abbrev pub max_payload_bytes : ℕ
max_payload_bytes = 67108864

-- The packed header in memory, and read from memory.
unfoldable pub frame_header_bytes : FrameHeader → List ℕ
unfolding le_bytes
frame_header_bytes h =
    le_bytes 2 h.magic
    ++ (le_bytes 1 h.msg_type ++ (le_bytes 4 h.seq_no ++ le_bytes 4 h.payload_len))

unfoldable pub read_frame_header : List ℕ → FrameHeader
unfolding le_value
read_frame_header bytes = record {
  magic = le_value (take 2 bytes);
  msg_type = le_value (take 1 (drop 2 bytes));
  seq_no = le_value (take 4 (drop 3 bytes));
  payload_len = le_value (take 4 (drop 7 bytes));
}

-- The result of a call of `send`: bytes taken, EINTR, EAGAIN, or another error.
pub data SendResult : Type 0 where
  taken : ℕ → SendResult
  send_interrupted : SendResult
  send_again : SendResult
  send_failed : SendResult

-- The bytes on the wire, and whether the call has returned, and with what.
pub data SendOutcome : Type 0 where
  sending : SendOutcome
  all_sent : List SendResult → SendOutcome
  send_error : List SendResult → SendOutcome

-- The loop of `sendExact`: the bytes that are left and the retries so far. The first part of the result
-- is what went out.
unfoldable pub send_exact : List SendResult → List ℕ → ℕ → List ℕ × SendOutcome
send_exact results [] retries = ([], all_sent results)
send_exact [] (b ∷ bytes) retries = ([], sending)
send_exact (taken zero ∷ results) (b ∷ bytes) retries = ([], send_error results)
send_exact (taken (suc n) ∷ results) (b ∷ bytes) retries =
    let (out, outcome) = send_exact results (drop n bytes) 0 in
    (take (suc n) (b ∷ bytes) ++ out, outcome)
send_exact (send_interrupted ∷ results) (b ∷ bytes) retries = send_exact results (b ∷ bytes) retries
send_exact (send_again ∷ results) (b ∷ bytes) retries =
    let rest = send_exact results (b ∷ bytes) (retries + 1) in
    if ltb 1000 (retries + 1) then ([], send_error results) else rest
send_exact (send_failed ∷ results) (b ∷ bytes) retries = ([], send_error results)

-- The frame that `sendMsg` builds: header and payload, and then the checksum.
unfoldable pub frame_buf : ℕ → ℕ → List ℕ → List ℕ
unfolding frame_header_bytes
frame_buf seq msg_type payload =
    let hdr : FrameHeader = record {
      magic = protocol_magic;
      msg_type = msg_type;
      seq_no = seq;
      payload_len = length payload;
    } in
    frame_header_bytes hdr ++ payload

unfoldable pub frame_bytes : ℕ → ℕ → List ℕ → List ℕ
unfolding frame_buf compute_crc32
frame_bytes seq msg_type payload =
    let frame = frame_buf seq msg_type payload in frame ++ le_bytes 4 (compute_crc32 frame)

pub record TcpSocket : Type 0 where
  pub send_seq : ℕ
  pub recv_buf : List ℕ

-- `sendMsg`: the checksum follows when the rest of the frame has gone out.
unfoldable pub send_checksum : ℕ → List ℕ × SendOutcome → List ℕ × SendOutcome
unfolding send_exact
send_checksum crc (out, all_sent results) =
    let (out', outcome) = send_exact results (le_bytes 4 crc) 0 in (out ++ out', outcome)
send_checksum crc (out, outcome) = (out, outcome)

unfoldable pub send_msg :
    List SendResult → TcpSocket → ℕ → List ℕ → List ℕ × SendOutcome × TcpSocket
unfolding frame_buf compute_crc32 send_exact send_checksum
send_msg results s msg_type payload =
    let frame = frame_buf s.send_seq msg_type payload in
    let (out, outcome) = send_checksum (compute_crc32 frame) (send_exact results frame 0) in
    (out, outcome, record s { send_seq = add32 s.send_seq 1 })

-- The result of a call of `recv`: bytes, end of the stream, EINTR, EAGAIN, or another error.
pub data RecvResult : Type 0 where
  received : List ℕ → RecvResult
  end_of_stream : RecvResult
  recv_interrupted : RecvResult
  no_data : RecvResult
  recv_failed : RecvResult

pub data RecvStatus : Type 0 where
  got_msg : RecvStatus
  timeout : RecvStatus
  closed : RecvStatus

-- What the buffer holds.
pub data Frame : Type 0 where
  incomplete : Frame
  malformed : Frame
  corrupt : List ℕ → Frame
  complete : ℕ → List ℕ → List ℕ → Frame

-- The frame at the start of the buffer whose header has been read.
unfoldable pub check_frame : FrameHeader → List ℕ → Frame
unfolding compute_crc32
check_frame hdr buf =
    let size = header_size + hdr.payload_len in
    if ltb (length buf) (size + crc32_size)
    then incomplete
    else let wire_crc = le_value (take 4 (drop size buf)) in
      let rest = drop (size + crc32_size) buf in
      if wire_crc == compute_crc32 (take size buf)
      then complete hdr.msg_type (take hdr.payload_len (drop header_size buf)) rest
      else corrupt rest

unfoldable pub check_buffer : List ℕ → Frame
unfolding read_frame_header check_frame
check_buffer buf =
    if ltb (length buf) header_size
    then incomplete
    else let hdr = read_frame_header buf in
      if not (hdr.magic == protocol_magic) || ltb max_payload_bytes hdr.payload_len
      then malformed
      else check_frame hdr buf

-- The outcome of `recvMsg`: it blocks, or it returns a status, a message (empty unless one was got), the
-- buffer and the results of `recv` not used.
pub data RecvOutcome : Type 0 where
  blocked : List ℕ → RecvOutcome
  returned : RecvStatus → ℕ → List ℕ → List ℕ → List RecvResult → RecvOutcome

-- The return of `recvMsg` after a look at the buffer, or else `more`.
unfoldable pub after_check : Frame → List RecvResult → RecvOutcome → RecvOutcome
after_check incomplete results more = more
after_check malformed results more = returned timeout 0 [] [] results
after_check (corrupt rest) results more = returned timeout 0 [] rest results
after_check (complete msg_type payload rest) results more =
    returned got_msg msg_type payload rest results

unfoldable pub recv_msg : List ℕ → List RecvResult → RecvOutcome
unfolding check_buffer after_check
recv_msg buf [] = after_check (check_buffer buf) [] (blocked buf)
recv_msg buf (received bytes ∷ results) =
    after_check (check_buffer buf) (received bytes ∷ results) (recv_msg (buf ++ bytes) results)
recv_msg buf (end_of_stream ∷ results) =
    after_check (check_buffer buf) (end_of_stream ∷ results) (returned closed 0 [] buf results)
recv_msg buf (recv_interrupted ∷ results) =
    after_check (check_buffer buf) (recv_interrupted ∷ results) (recv_msg buf results)
recv_msg buf (no_data ∷ results) =
    after_check (check_buffer buf) (no_data ∷ results) (returned timeout 0 [] buf results)
recv_msg buf (recv_failed ∷ results) =
    after_check (check_buffer buf) (recv_failed ∷ results) (returned closed 0 [] buf results)
