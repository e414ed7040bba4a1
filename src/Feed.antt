-- ===== src/Feed.antt =====
-- The loops that take messages from a packet or a file to the books: the receive loops of
-- src/v1/receiver.cpp, src/v2/receiver.cpp and src/v3/receiver.cpp, `ItchFileReader::next` of
-- src/common/itch_reader.cpp, and the loops of src/v1/main.cpp and src/v3/main.cpp.
pub mod Frames
pub mod Rounds
pub mod Agree
pub mod Books
use feed_handler.Prelude.{
  ℕ, zero, suc, ◌+◌, ◌%◌, ◌^◌, Bool, List, Option, none, some, ◌>>=◌, get_elem?, length, ltb, ◌==◌,
  if◌then◌else◌,
}
use feed_handler.Wire.Bytes.{Buffer, read_be16, read_be64}
use feed_handler.Wire.AddOrder
use feed_handler.Wire.AddOrder.{AddOrder}
use feed_handler.Wire.OrderExecuted
use feed_handler.Wire.OrderExecuted.{OrderExecuted}
use feed_handler.Wire.OrderCancel
use feed_handler.Wire.OrderCancel.{OrderCancel}
use feed_handler.Wire.OrderDelete
use feed_handler.Wire.OrderDelete.{OrderDelete}
use feed_handler.Wire.OrderReplace
use feed_handler.Wire.OrderReplace.{OrderReplace}
use feed_handler.Receiver.Gaps
use feed_handler.Receiver.Gaps.{Tracker}
use feed_handler.Receiver.Expected
use feed_handler.Receiver.Expected.{Expected}

-- `mold::kHeaderSize`
abbrev pub k_header_size : ℕ
k_header_size = 20

-- What the loops ask of the books, of either version: one operation for each message type, on the
-- book of the message's stock.
pub record Handlers (S : Type 0) : Type 0 where
  pub add : S → AddOrder → S
  pub execute : S → OrderExecuted → S
  pub cancel : S → OrderCancel → S
  pub delete : S → OrderDelete → S
  pub replace : S → OrderReplace → S

module _ {S : Type 0} (h : Handlers S) where
  -- A `case` of the `switch`.
  unfoldable pub apply_case : ℕ → S → Buffer → ℕ → Option S
  apply_case type s buf msg =
      if type == b'A'
      then (do m ← AddOrder.parse buf msg; some (h.add s m))
      else if type == b'E'
      then (do m ← OrderExecuted.parse buf msg; some (h.execute s m))
      else if type == b'X'
      then (do m ← OrderCancel.parse buf msg; some (h.cancel s m))
      else if type == b'D'
      then (do m ← OrderDelete.parse buf msg; some (h.delete s m))
      else if type == b'U'
      then (do m ← OrderReplace.parse buf msg; some (h.replace s m))
      else some s

  -- The `switch` on the message's first byte; `none` is a read outside the buffer.
  unfoldable pub dispatch : S → Buffer → ℕ → Option S
  dispatch s buf msg = do type ← get_elem? buf msg; apply_case type s buf msg

  -- The loop over the `left` messages of a packet of `n` bytes that are still to come; the result has
  -- the number of messages processed.
  unfoldable pub walk : ℕ → Buffer → ℕ → ℕ → S → ℕ → Option (S × ℕ)
  walk zero buf n off s messages = some (s, messages)
  walk (suc left) buf n off s messages =
      let next = λ (len : ℕ). dispatch s buf (off + 2) >>= λ s'.
      walk left buf n (off + 2 + len) s' ((messages + 1) % 2 ^ 64) in
      if ltb n (off + 2)
      then some (s, messages)
      else read_be16 buf off >>= λ len.
          if ltb n (off + 2 + len) then some (s, messages) else next len

  -- One received packet of `n` bytes, in v1.
  unfoldable pub receive_v1 : Expected → Buffer → ℕ → S → ℕ → Option (Expected × S × ℕ)
  receive_v1 t buf n s messages =
      let taken = (do
        seq ← read_be64 buf 10
        count ← read_be16 buf 18
        let (t', accept) = Expected.observe t seq count
        out ← if accept then walk count buf n k_header_size s messages else some (s, messages)
        some (t', out.0, out.1)) in
      if ltb n k_header_size then some (t, s, messages) else taken

  -- One received packet of `n` bytes, in v2 and v3.
  unfoldable pub receive : Tracker → Buffer → ℕ → S → ℕ → Option (Tracker × S × ℕ)
  receive t buf n s messages =
      let taken = (do
        seq ← read_be64 buf 10
        count ← read_be16 buf 18
        let (t', accept) = Gaps.observe t seq count
        out ← if accept then walk count buf n k_header_size s messages else some (s, messages)
        some (t', out.0, out.1)) in
      if ltb n k_header_size then some (t, s, messages) else taken

-- `ItchFileReader::next` at `offset_`, on a file that is the whole buffer: the message's index and
-- length and the new offset, or `none` for `false`.
unfoldable pub next_message : Buffer → ℕ → Option (ℕ × ℕ × ℕ)
next_message file offset =
    if ltb (length file) (offset + 2)
    then none
    else read_be16 file offset >>= λ len.
        if ltb (length file) (offset + 2 + len)
        then none
        else some (offset + 2, len, offset + 2 + len)

module _ {S : Type 0} (h : Handlers S) where
  -- The loop of `main` over a file; the result has the number of messages.
  unfoldable pub replay_file : ℕ → Buffer → ℕ → S → ℕ → Option (S × ℕ)
  replay_file zero file offset s count = some (s, count)
  replay_file (suc fuel) file offset s count = elim (next_message file offset) [
    | none ↦ some (s, count)
    | some (msg, len, offset') ↦
        dispatch h s file msg >>= λ s'. replay_file fuel file offset' s' ((count + 1) % 2 ^ 64)
  ]
