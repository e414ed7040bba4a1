-- ===== src/Sender.antt =====
-- src/common/replay_sender.cpp: messages are gathered in packets, which are sent when the next message
-- does not fit. What is sent is a list of packets; the pacing is left out.
pub mod Room
use feed_handler.Prelude.{
  ℕ, ◌+◌, ◌%◌, ◌^◌, List, [], ◌∷◌, ◌++◌, Option, none, some, ◌>>=◌, length, take, replicate, ltb,
  ◌==◌, if◌then◌else◌,
}
use feed_handler.Wire.Bytes.{Buffer, write_byte, write_be16, write_be64}
use feed_handler.Feed.{k_header_size}

abbrev pub k_max_packet_size : ℕ
k_max_packet_size = 1400

-- The local variables of `main`, and the packets sent.
pub record Sender : Type 0 where
  pub packet : Buffer
  pub packet_used : ℕ
  pub packet_first_seq : ℕ
  pub packet_msg_count : ℕ
  pub next_seq : ℕ
  pub total_sent : ℕ
  pub sent : List Buffer

-- `std::memcpy(packet+p, bytes, length)`
unfoldable pub write_bytes : Buffer → ℕ → List ℕ → Option Buffer
write_bytes buf p [] = some buf
write_bytes buf p (b ∷ bs) = write_byte buf p b >>= λ buf'. write_bytes buf' (p + 1) bs

-- "SESSION001"
abbrev session_id : List ℕ
session_id = b'S' ∷ b'E' ∷ b'S' ∷ b'S' ∷ b'I' ∷ b'O' ∷ b'N' ∷ b'0' ∷ b'0' ∷ b'1' ∷ []

-- The header's bytes.
unfoldable pub write_header : Sender → Option Buffer
write_header s = do
  p1 ← write_bytes s.packet 0 (replicate 10 b' ')
  p2 ← write_bytes p1 0 session_id
  p3 ← write_be64 p2 10 s.packet_first_seq
  write_be16 p3 18 s.packet_msg_count

unfoldable pub flush_packet : Sender → Option Sender
flush_packet s =
    if s.packet_msg_count == 0
    then some s
    else write_header s >>= λ p. some (record s {
      packet = p;
      sent = s.sent ++ take s.packet_used p ∷ [];
      total_sent = (s.total_sent + s.packet_msg_count) % 2 ^ 64;
      packet_used = k_header_size;
      packet_msg_count = 0;
    })

-- The message goes behind what the packet holds.
unfoldable pub put_message : Sender → List ℕ → Option Sender
put_message s msg =
    let first = if s.packet_msg_count == 0 then s.next_seq else s.packet_first_seq in
    write_be16 s.packet s.packet_used (length msg) >>= λ p1.
    write_bytes p1 (s.packet_used + 2) msg >>= λ p2. some (record s {
      packet = p2;
      packet_first_seq = first;
      packet_used = s.packet_used + (2 + length msg);
      packet_msg_count = (s.packet_msg_count + 1) % 2 ^ 16;
      next_seq = (s.next_seq + 1) % 2 ^ 64;
    })

-- The body of the loop.
unfoldable pub add_message : Sender → List ℕ → Option Sender
add_message s msg =
    if ltb k_max_packet_size (s.packet_used + (2 + length msg))
    then (flush_packet s >>= λ s'. put_message s' msg)
    else put_message s msg

-- The loop over the file's messages, and the flush after it.
unfoldable pub send_all : Sender → List (List ℕ) → Option Sender
send_all s [] = flush_packet s
send_all s (msg ∷ msgs) = add_message s msg >>= λ s'. send_all s' msgs

-- The variables before the loop; the packet's bytes are not set.
unfoldable pub begin : Buffer → Sender
begin packet = record {
  packet = packet;
  packet_used = k_header_size;
  packet_first_seq = 1;
  packet_msg_count = 0;
  next_seq = 1;
  total_sent = 0;
  sent = [];
}
