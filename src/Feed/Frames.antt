-- ===== src/Feed/Frames.antt =====
-- The loops on well-formed input: messages that each have their length in front.
use feed_handler.Prelude.{
  ℕ, zero, suc, ◌+◌, ◌%◌, ◌^◌, ◌≤◌, ◌<◌, ◌≡◌, refl, ap, ◌∙◌, List, [], ◌∷◌, ◌++◌, none, some,
  get_elem?, length, length-append, if◌then◌else◌, arith, ge→ltb, lt→ltb, Bool-cases, inl, inr,
}
use feed_handler.Wire.Bytes.{Buffer, read_be16}
use feed_handler.Wire.Layout.{
  be_bytes, At, At-append, At-field, length-be_bytes, read_be16-At, read_be64-At,
}
use feed_handler.Wire.Message
use feed_handler.Wire.Message.{
  Message, added, executed, canceled, deleted, replaced, other, IsOther, wire_size, length-encode,
}
use feed_handler.Wire.AddOrder.{parse-encode_add_order}
use feed_handler.Wire.OrderExecuted.{parse-encode_order_executed}
use feed_handler.Wire.OrderCancel.{parse-encode_order_cancel}
use feed_handler.Wire.OrderDelete.{parse-encode_order_delete}
use feed_handler.Wire.OrderReplace.{parse-encode_order_replace}
use feed_handler.Receiver.Gaps.{Tracker, observe}
use feed_handler.Feed.{
  k_header_size, Handlers, apply_case, dispatch, walk, receive, next_message, replay_file,
}

-- The messages as a packet or a file holds them.
abbrev pub frames : List Message → List ℕ
frames [] = []
frames (m ∷ ms) = be_bytes 2 (wire_size m) ++ (Message.encode m ++ frames ms)

abbrev pub AllFit : List Message → Type 0
AllFit [] = Unit
AllFit (m ∷ ms) = Message.Fits m × AllFit ms

-- The first byte of a message.
pub At-first :
    (buf : Buffer) (p type : ℕ) (body : List ℕ)
    → At buf p (type ∷ body)
    → get_elem? buf p ≡ some type
unfolding At
At-first buf p type body at = at.0

-- A frame, and the frames behind it.
pub At-frame :
    (buf : Buffer) (p : ℕ) (m : Message) (ms : List Message)
    → Message.Fits m
    → At buf p (frames (m ∷ ms))
    → (read_be16 buf p ≡ some (wire_size m))
      × At buf (p + 2) (Message.encode m)
      × At buf (p + 2 + wire_size m) (frames ms)
At-frame buf p m ms fit at =
    let (size, rest) = At-field buf p (p + 2) 2 (wire_size m) _ at (omega arith) in
    let (here, behind) =
      At-append buf (p + 2) (p + 2 + wire_size m) (Message.encode m) (frames ms) rest
        (omega (arith, length-encode m fit)) in
    (read_be16-At buf p (wire_size m) size (small m fit), here, behind)
  where
    small : (m : Message) → Message.Fits m → wire_size m < 2 ^ 16
    small (added m) fit = omega arith
    small (executed m) fit = omega arith
    small (canceled m) fit = omega arith
    small (deleted m) fit = omega arith
    small (replaced m) fit = omega arith
    small (other type body) fit = fit.1

pub length-frames :
    (m : Message) (ms : List Message)
    → Message.Fits m
    → length (frames (m ∷ ms)) ≡ 2 + wire_size m + length (frames ms)
length-frames m ms fit = omega (
  arith,
  length-append (be_bytes 2 (wire_size m)) (Message.encode m ++ frames ms),
  length-be_bytes 2 (wire_size m),
  length-append (Message.encode m) (frames ms),
  length-encode m fit,
)

-- `next` finds the frame, and after the last one nothing.
pub next_message-frame :
    (file : Buffer) (offset : ℕ) (m : Message) (ms : List Message)
    → Message.Fits m
    → At file offset (frames (m ∷ ms))
    → offset + length (frames (m ∷ ms)) ≤ length file
    → next_message file offset ≡ some (offset + 2, wire_size m, offset + 2 + wire_size m)
unfolding next_message
next_message-frame file offset m ms fit at inside =
    let (size, here, behind) = At-frame file offset m ms fit at in
    let len = length-frames m ms fit in
    rw
      (
        ge→ltb (length file) (offset + 2) (omega (arith, len)),
        size,
        ge→ltb (length file) (offset + 2 + wire_size m) (omega (arith, len)),
      )
      refl

pub next_message-end :
    (file : Buffer) (offset : ℕ) → offset ≡ length file → next_message file offset ≡ none
unfolding next_message
next_message-end file offset e = rw (lt→ltb (length file) (offset + 2) (omega arith)) refl

module _ {S : Type 0} (h : Handlers S) where
  -- The operation that a message asks for; one of another type asks for none.
  abbrev pub apply : S → Message → S
  apply s (added m) = h.add s m
  apply s (executed m) = h.execute s m
  apply s (canceled m) = h.cancel s m
  apply s (deleted m) = h.delete s m
  apply s (replaced m) = h.replace s m
  apply s (other type body) = s

  abbrev pub apply_all : S → List Message → S
  apply_all s [] = s
  apply_all s (m ∷ ms) = apply_all (apply s m) ms

  -- The `switch` on an encoded message does what the message asks for.
  pub dispatch-encode :
      (s : S) (buf : Buffer) (p : ℕ) (m : Message)
      → Message.Fits m
      → At buf p (Message.encode m)
      → dispatch h s buf p ≡ some (apply s m)
  unfolding dispatch apply_case
  dispatch-encode s buf p (added m) fit at =
      let (code, parsed) = parse-encode_add_order buf p m fit at in rw (code, parsed)
  dispatch-encode s buf p (executed m) fit at =
      let (code, parsed) = parse-encode_order_executed buf p m fit at in rw (code, parsed)
  dispatch-encode s buf p (canceled m) fit at =
      let (code, parsed) = parse-encode_order_cancel buf p m fit at in rw (code, parsed)
  dispatch-encode s buf p (deleted m) fit at =
      let (code, parsed) = parse-encode_order_delete buf p m fit at in rw (code, parsed)
  dispatch-encode s buf p (replaced m) fit at =
      let (code, parsed) = parse-encode_order_replace buf p m fit at in rw (code, parsed)
  dispatch-encode s buf p (other type body) (is, _) at =
      rw
        (
          At-first buf p type body at,
          is.not_added,
          is.not_executed,
          is.not_canceled,
          is.not_deleted,
          is.not_replaced,
        )
        refl

  -- The loop over a packet takes every message that lies inside the packet, in order, to the books,
  -- and counts each.
  pub walk-frames :
      (ms : List Message) (buf : Buffer) (n off : ℕ) (s : S) (messages : ℕ)
      → AllFit ms
      → At buf off (frames ms)
      → off + length (frames ms) ≤ n
      → messages + length ms < 2 ^ 64
      → walk h (length ms) buf n off s messages ≡ some (apply_all s ms, messages + length ms)
  unfolding walk
  walk-frames [] buf n off s messages fit at inside few =
      let none_left : messages + length {A = Message} [] ≡ messages = omega arith in
      rw none_left refl
  walk-frames (m ∷ ms) buf n off s messages fit at inside few =
      let (size, here, behind) = At-frame buf off m ms fit.0 at in
      let len = length-frames m ms fit.0 in
      let count : (messages + 1) % 2 ^ 64 ≡ messages + 1 = omega arith in
      let rest =
        walk-frames ms buf n (off + 2 + wire_size m) (apply s m) (messages + 1) fit.1 behind
          (omega (arith, len)) (omega arith) in
      rw
        (
          ge→ltb n (off + 2) (omega (arith, len)),
          size,
          ge→ltb n (off + 2 + wire_size m) (omega (arith, len)),
          dispatch-encode s buf (off + 2) m fit.0 here,
          count,
        )
        (rest ∙ ap (λ (c : ℕ). some (apply_all (apply s m) ms, c)) (omega arith))

  -- The loop over a file of messages of the five types at their sizes and of other types that ends
  -- with its last message takes those of the five types, in order, to the books, leaves the books
  -- alone on the others, counts every message, and stops, if the count stays below 2 ^ 64; one more
  -- round of fuel than there are messages is enough.
  pub replay_file-frames :
      (ms : List Message) (fuel : ℕ) (file : Buffer) (offset : ℕ) (s : S) (count : ℕ)
      → AllFit ms
      → At file offset (frames ms)
      → offset + length (frames ms) ≡ length file
      → count + length ms < 2 ^ 64
      → length ms < fuel
      → replay_file h fuel file offset s count ≡ some (apply_all s ms, count + length ms)
  unfolding replay_file
  replay_file-frames ms zero file offset s count fit at all few enough = absurd (omega arith)
  replay_file-frames [] (suc fuel) file offset s count fit at all few enough =
      let none_left : count + length {A = Message} [] ≡ count = omega arith in
      rw (none_left, next_message-end file offset (omega arith), replay_file) refl
  replay_file-frames (m ∷ ms) (suc fuel) file offset s count fit at all few enough =
      let (size, here, behind) = At-frame file offset m ms fit.0 at in
      let len = length-frames m ms fit.0 in
      let more : (count + 1) % 2 ^ 64 ≡ count + 1 = omega arith in
      let rest =
        replay_file-frames ms fuel file (offset + 2 + wire_size m) (apply s m) (count + 1) fit.1
          behind (omega (arith, len)) (omega arith) (omega arith) in
      rw
        (
          next_message-frame file offset m ms fit.0 at (omega arith),
          dispatch-encode s file (offset + 2) m fit.0 here,
          more,
          replay_file,
        )
        (rest ∙ ap (λ (c : ℕ). some (apply_all (apply s m) ms, c)) (omega arith))

  -- A packet that has its sequence number, its count and that many messages behind the header, each
  -- of one of the five types at its size or of another type, is treated so, if the count of
  -- messages stays below 2 ^ 64: if the tracker accepts it, the messages of the five types go to
  -- the books in order, the others leave the books alone, and all are counted; if not, the books
  -- and the count stay. The tracker moves on in either case.
  pub receive-frames :
      (t : Tracker) (buf : Buffer) (n seq : ℕ) (ms : List Message) (s : S) (messages : ℕ)
      → At buf 10 (be_bytes 8 seq ++ (be_bytes 2 (length ms) ++ frames ms))
      → seq < 2 ^ 64
      → length ms < 2 ^ 16
      → AllFit ms
      → k_header_size + length (frames ms) ≤ n
      → messages + length ms < 2 ^ 64
      → receive h t buf n s messages ≡ (
          let (t', accept) = observe t seq (length ms) in
          if accept
          then some (t', apply_all s ms, messages + length ms)
          else some (t', s, messages))
  unfolding receive
  receive-frames t buf n seq ms s messages at seq_fits count_fits fit inside few =
      let (numbered, rest) = At-field buf 10 18 8 seq _ at refl in
      let (counted, behind) = At-field buf 18 20 2 (length ms) (frames ms) rest refl in
      let walked = walk-frames ms buf n k_header_size s messages fit behind inside few in
      rw
        (
          ge→ltb n k_header_size (omega arith),
          read_be64-At buf 10 seq numbered seq_fits,
          read_be16-At buf 18 (length ms) counted count_fits,
          walked,
        )
        (elim (Bool-cases (observe t seq (length ms)).1) [ inl e ↦ rw e refl | inr e ↦ rw e refl ])
