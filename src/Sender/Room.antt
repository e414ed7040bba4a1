-- ===== src/Sender/Room.antt =====
-- Whether a message has room in the packet.
use feed_handler.Prelude.{
  ℕ, zero, suc, ◌*◌, ◌++◌, take, ◌+◌, ◌/◌, ◌%◌, ◌^◌, ◌≤◌, ◌<◌, ◌≡◌, refl, ◌∙◌, List, [], ◌∷◌,
  Option, none, some, length, set, replicate, length-set, ltb, ◌==◌, if◌then◌else◌, arith,
  Bool-cases, inl, inr, true, lt→ltb, ltb→ge, ltb→lt,
}
use feed_handler.Wire.Bytes.{Buffer, write_byte, store_le, bswap, write_be16, write_be64}
use feed_handler.Feed.{k_header_size}
use feed_handler.Sender.{
  Sender, k_max_packet_size, write_bytes, write_header, flush_packet, put_message, add_message,
  send_all, begin,
}

-- A write that returns a buffer of the same length.
abbrev Writes : Buffer → Option Buffer → Type 0
Writes buf out = (buf' : Buffer) × (out ≡ some buf') × (length buf' ≡ length buf)

write_byte-Writes : (buf : Buffer) (p b : ℕ) → p < length buf → Writes buf (write_byte buf p b)
unfolding write_byte
write_byte-Writes buf p b h = (set buf p b, rw (lt→ltb p (length buf) h) refl, length-set buf p b)

store_le-Writes :
    (n : ℕ) (buf : Buffer) (p v : ℕ) → p + n ≤ length buf → Writes buf (store_le n buf p v)
unfolding store_le
store_le-Writes zero buf p v h = (buf, refl, refl)
store_le-Writes (suc n) buf p v h =
    let (b1, e, l) = write_byte-Writes buf p (v % 256) (omega arith) in
    let (b2, f, k) = store_le-Writes n b1 (suc p) (v / 256) (omega arith) in (b2, rw e f, k ∙ l)

write_bytes-Writes :
    (bs : List ℕ) (buf : Buffer) (p : ℕ)
    → p + length bs ≤ length buf
    → Writes buf (write_bytes buf p bs)
unfolding write_bytes
write_bytes-Writes [] buf p h = (buf, refl, refl)
write_bytes-Writes (b ∷ bs) buf p h =
    let (b1, e, l) = write_byte-Writes buf p b (omega arith) in
    let (b2, f, k) = write_bytes-Writes bs b1 (p + 1) (omega arith) in (b2, rw e f, k ∙ l)

-- A write that reaches beyond the buffer is a fault.
write_bytes-none :
    (bs : List ℕ) (buf : Buffer) (p : ℕ)
    → length buf < p + length bs
    → p ≤ length buf
    → write_bytes buf p bs ≡ none
unfolding write_bytes write_byte
write_bytes-none [] buf p h k = absurd (omega arith)
write_bytes-none (b ∷ bs) buf p h k = elim (Bool-cases (ltb p (length buf))) [
  | inl inside ↦ rw inside (
      write_bytes-none bs (set buf p b) (p + 1) (omega (arith, length-set buf p b))
        (omega (arith, length-set buf p b, ltb→lt p (length buf) inside)))
  | inr outside ↦ rw outside refl
]

-- The packet has its size, and what it holds lies inside.
pub record IsValid (s : Sender) : Type 0 where
  pub width : length s.packet ≡ k_max_packet_size
  pub header_in : k_header_size ≤ s.packet_used
  pub used_in : s.packet_used ≤ k_max_packet_size
  pub empty_used : s.packet_msg_count ≡ 0 → s.packet_used ≡ k_header_size
  pub counted : k_header_size + s.packet_msg_count * 2 ≤ s.packet_used

write_header-Writes : (s : Sender) → IsValid s → Writes s.packet (write_header s)
unfolding write_header write_be64 write_be16
write_header-Writes s v =
    let (p1, e1, l1) = write_bytes-Writes (replicate 10 b' ') s.packet 0 (omega (arith, v.width)) in
    let (p2, e2, l2) =
      write_bytes-Writes (b'S' ∷ b'E' ∷ b'S' ∷ b'S' ∷ b'I' ∷ b'O' ∷ b'N' ∷ b'0' ∷ b'0' ∷ b'1' ∷ [])
        p1 0 (omega (arith, v.width)) in
    let (p3, e3, l3) =
      store_le-Writes 8 p2 10 (bswap 8 s.packet_first_seq) (omega (arith, v.width)) in
    let (p4, e4, l4) =
      store_le-Writes 2 p3 18 (bswap 2 s.packet_msg_count) (omega (arith, v.width)) in
    (p4, rw (e1, e2, e3) e4, l4 ∙ l3 ∙ l2 ∙ l1)

-- After a flush the packet is empty.
flush_packet-IsValid :
    (s : Sender)
    → IsValid s
    → (s' : Sender) × (flush_packet s ≡ some s') × IsValid s' × (s'.packet_used ≡ k_header_size)
unfolding flush_packet
flush_packet-IsValid s v = elim (Bool-cases (s.packet_msg_count == 0)) [
  | inl e ↦ (s, rw e refl, v, v.empty_used (ground arith))
  | inr ne ↦
      let (p, e, l) = write_header-Writes s v in
      let s' : Sender = record s {
        packet = p;
        sent = s.sent ++ take s.packet_used p ∷ [];
        total_sent = (s.total_sent + s.packet_msg_count) % 2 ^ 64;
        packet_used = k_header_size;
        packet_msg_count = 0;
      } in
      (
        s',
        rw (ne, e) refl,
        record {
          width = l ∙ v.width;
          header_in = omega arith;
          used_in = omega arith;
          empty_used = λ z. refl;
          counted = omega arith;
        },
        refl,
      )
]

put_message-IsValid :
    (s : Sender) (msg : List ℕ)
    → IsValid s
    → s.packet_used + (2 + length msg) ≤ k_max_packet_size
    → (s' : Sender) × (put_message s msg ≡ some s') × IsValid s'
unfolding put_message write_be16
put_message-IsValid s msg v room =
    let (p1, e1, l1) =
      store_le-Writes 2 s.packet s.packet_used (bswap 2 (length msg)) (omega (arith, v.width)) in
    let (p2, e2, l2) = write_bytes-Writes msg p1 (s.packet_used + 2) (omega (arith, v.width)) in
    let s' : Sender = record s {
      packet = p2;
      packet_first_seq = if s.packet_msg_count == 0 then s.next_seq else s.packet_first_seq;
      packet_used = s.packet_used + (2 + length msg);
      packet_msg_count = (s.packet_msg_count + 1) % 2 ^ 16;
      next_seq = (s.next_seq + 1) % 2 ^ 64;
    } in
    (
      s',
      rw (e1, e2) refl,
      record {
        width = l2 ∙ l1 ∙ v.width;
        header_in = omega (arith, v.header_in);
        used_in = room;
        empty_used = λ z. absurd (omega (arith, v.counted));
        counted = omega (arith, v.counted);
      },
    )

-- A message of at most 1,378 bytes is taken, after a flush if need be, with every write inside the
-- packet, and the sender's state stays well formed.
add_message-IsValid :
    (s : Sender) (msg : List ℕ)
    → IsValid s
    → length msg ≤ 1378
    → (s' : Sender) × (add_message s msg ≡ some s') × IsValid s'
unfolding add_message
add_message-IsValid s msg v small =
    elim (Bool-cases (ltb k_max_packet_size (s.packet_used + (2 + length msg)))) [
      | inl full ↦
          let (f, e, w, used) = flush_packet-IsValid s v in
          let (s', g, x) = put_message-IsValid f msg w (omega arith) in (s', rw (full, e) g, x)
      | inr room ↦
          let (s', g, x) = put_message-IsValid s msg v (ltb→ge _ _ room) in (s', rw room g, x)
    ]

-- A longer message is written beyond the end of the packet, whatever the packet held before.
pub add_message-none :
    (s : Sender) (msg : List ℕ) → IsValid s → 1378 < length msg → add_message s msg ≡ none
unfolding add_message put_message write_be16
add_message-none s msg v large =
    let (f, e, w, used) = flush_packet-IsValid s v in
    let full : ltb k_max_packet_size (s.packet_used + (2 + length msg)) ≡ true =
      lt→ltb _ _ (omega (arith, v.header_in)) in
    let (p1, e1, l1) =
      store_le-Writes 2 f.packet f.packet_used (bswap 2 (length msg)) (omega (arith, w.width)) in
    let out =
      write_bytes-none msg p1 (f.packet_used + 2) (omega (arith, w.width))
        (omega (arith, w.width)) in
    rw (full, e, e1, out) refl

abbrev pub AllShort : List (List ℕ) → Type 0
AllShort [] = Unit
AllShort (msg ∷ msgs) = (length msg ≤ 1378) × AllShort msgs

send_all_lem :
    (s : Sender) (msgs : List (List ℕ))
    → IsValid s
    → AllShort msgs
    → (s' : Sender) × (send_all s msgs ≡ some s') × (s'.packet_used ≡ k_header_size)
unfolding send_all
send_all_lem s [] v short = let (s', e, w, used) = flush_packet-IsValid s v in (s', e, used)
send_all_lem s (msg ∷ msgs) v short =
    let (s1, e, w) = add_message-IsValid s msg v short.0 in
    let (s', f, used) = send_all_lem s1 msgs w short.1 in (s', rw e f, used)

pub begin-IsValid : (packet : Buffer) → length packet ≡ k_max_packet_size → IsValid (begin packet)
unfolding begin
begin-IsValid packet width = record {
  width = width;
  header_in = omega arith;
  used_in = omega arith;
  empty_used = λ z. refl;
  counted = omega arith;
}

-- Whatever messages of at most 1,378 bytes a file has, the sender, begun with a packet buffer of 1,400
-- bytes, makes every write inside that buffer, and has nothing left in it at the end.
pub send_all-Returns :
    (packet : Buffer) (msgs : List (List ℕ))
    → length packet ≡ k_max_packet_size
    → AllShort msgs
    → (s' : Sender) × (send_all (begin packet) msgs ≡ some s') × (s'.packet_used ≡ k_header_size)
send_all-Returns packet msgs width short =
    send_all_lem (begin packet) msgs (begin-IsValid packet width) short
