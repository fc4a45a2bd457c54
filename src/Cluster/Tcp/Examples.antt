-- ===== src/Cluster/Tcp/Examples.antt =====
-- A short message over a connection.
use mathlib.Core.List.{append-nil}
use cuda_mpqs.Prelude.{ℕ, ◌≡◌, refl, ap, ◌∙◌, List, [], ◌∷◌, ◌++◌, map, arith, take, drop, add32}
use cuda_mpqs.Cluster.Tcp.{
  TcpSocket, taken, send_again, received, no_data, recv_msg, returned, got_msg, frame_bytes,
  compute_crc32, crc_loop, crc_rounds, send_msg, FrameHeader, protocol_magic,
}
use cuda_mpqs.Cluster.Tcp.Receive.{IsSound, wire}
use cuda_mpqs.Cluster.Tcp.Stream.{
  Replies, concat, recv_msg-Replies, recv_msg-frame_bytes, take-drop,
}
use cuda_mpqs.Cluster.Tcp.Send.{Sends, send_msg-Sends}

-- The check value of CRC-32: the checksum of the digits from 1 to 9.
check_value : compute_crc32 (49 ∷ 50 ∷ 51 ∷ 52 ∷ 53 ∷ 54 ∷ 55 ∷ 56 ∷ 57 ∷ []) ≡ 0xCBF43926
unfolding compute_crc32 crc_loop crc_rounds
check_value = refl

abbrev stream : List ℕ
stream = frame_bytes 7 2 (10 ∷ 20 ∷ 30 ∷ []) ++ 82 ∷ 77 ∷ []

abbrev pieces : List (List ℕ)
pieces = take 5 stream ∷ drop 5 stream ∷ []

pieces_whole : concat pieces ≡ frame_bytes 7 2 (10 ∷ 20 ∷ 30 ∷ []) ++ 82 ∷ 77 ∷ []
pieces_whole = ap (λ xs. take 5 stream ++ xs) (append-nil (drop 5 stream)) ∙ take-drop 5 stream

recv_msg-frame_bytes_example :
    (rest : List ℕ) × (later : List (List ℕ)) × (recv_msg [] (map received pieces ++ no_data ∷ [])
      ≡ returned got_msg 2 (10 ∷ 20 ∷ 30 ∷ []) rest (map received later ++ no_data ∷ []))
    × (rest ++ concat later ≡ 82 ∷ 77 ∷ [])
recv_msg-frame_bytes_example =
    recv_msg-frame_bytes 7 2 (10 ∷ 20 ∷ 30 ∷ []) (82 ∷ 77 ∷ []) pieces (no_data ∷ []) (omega arith)
      (omega arith) (omega arith) pieces_whole

abbrev header : FrameHeader
header = record { magic = protocol_magic; msg_type = 2; seq_no = 7; payload_len = 3 }

header-IsSound : IsSound header (10 ∷ 20 ∷ 30 ∷ []) 99
header-IsSound = record {
  fits = record {
    magic = omega arith;
    msg_type = omega arith;
    seq_no = omega arith;
    payload_len = omega arith;
  };
  magic = refl;
  size = refl;
  bounded = omega arith;
  crc_fits = omega arith;
}

recv_msg-Replies_example :
    Replies header (10 ∷ 20 ∷ 30 ∷ []) 99 (wire header (10 ∷ 20 ∷ 30 ∷ []) 99) [] [] (no_data ∷ [])
recv_msg-Replies_example =
    recv_msg-Replies header (10 ∷ 20 ∷ 30 ∷ []) 99 (wire header (10 ∷ 20 ∷ 30 ∷ []) 99) [] []
      (no_data ∷ []) header-IsSound refl

abbrev socket : TcpSocket
socket = record { send_seq = 7; recv_buf = [] }

send_msg-Sends_example :
    let r = send_msg (taken 5 ∷ send_again ∷ taken 9 ∷ taken 4 ∷ []) socket 2 (10 ∷ 20 ∷ 30 ∷ []) in
    Sends (frame_bytes 7 2 (10 ∷ 20 ∷ 30 ∷ [])) (r.0, r.1)
    × (r.2.send_seq ≡ add32 7 1)
    × (r.2.recv_buf ≡ [])
send_msg-Sends_example =
    send_msg-Sends (taken 5 ∷ send_again ∷ taken 9 ∷ taken 4 ∷ []) socket 2 (10 ∷ 20 ∷ 30 ∷ [])
