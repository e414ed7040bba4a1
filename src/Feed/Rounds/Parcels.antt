-- ===== src/Feed/Rounds/Parcels.antt =====
-- The rounds on well-formed packets.
use feed_handler.Prelude.{
  ℕ, ◌+◌, ◌^◌, ◌≤◌, ◌<◌, ◌≡◌, refl, ap, true, List, [], ◌∷◌, ◌++◌, append-nil, append_assoc, some,
  length, length-append, ltb, leb, ◌&&◌, if◌then◌else◌, arith, Bool-cases, inl, inr, map,
}
use feed_handler.Wire.Bytes.{Buffer}
use feed_handler.Wire.Layout.{be_bytes, At}
use feed_handler.Wire.Message.{Message}
use feed_handler.Receiver.Gaps.{Tracker, observe}
use feed_handler.Feed.{k_header_size, Handlers}
use feed_handler.Feed.Frames.{apply, apply_all, frames, AllFit, receive-frames}
use feed_handler.Feed.Rounds.{Completion, Run, take_packet, complete, drain}

-- A completion that holds a packet: its first number and its messages.
pub record Parcel : Type 0 where
  pub idx : ℕ
  pub buf : Buffer
  pub size : ℕ
  pub seq : ℕ
  pub ms : List Message

abbrev pub completion : Parcel → Completion
completion p = record { idx = p.idx; res = some p.size; buf = p.buf }

-- The header has the number and the count, and the messages lie behind it, inside the packet.
pub record IsPacked (p : Parcel) : Type 0 where
  pub at : At p.buf 10 (be_bytes 8 p.seq ++ (be_bytes 2 (length p.ms) ++ frames p.ms))
  pub seq_fits : p.seq < 2 ^ 64
  pub count_fits : length p.ms < 2 ^ 16
  pub fit : AllFit p.ms
  pub inside : k_header_size + length (frames p.ms) ≤ p.size

abbrev pub AllPacked : List Parcel → Type 0
AllPacked [] = Unit
AllPacked (p ∷ ps) = IsPacked p × AllPacked ps

-- The tracker after the packets, and the messages of those that it accepts, in order.
unfoldable pub accepted : Tracker → List Parcel → Tracker × List Message
accepted t [] = (t, [])
accepted t (p ∷ ps) =
    let (t', accept) = observe t p.seq (length p.ms) in
    let (last, ms) = accepted t' ps in (last, if accept then p.ms ++ ms else ms)

abbrev pub indices : List Parcel → List ℕ
indices [] = []
indices (p ∷ ps) = p.idx ∷ indices ps

-- The number of messages in the packets.
abbrev pub total : List Parcel → ℕ
total [] = 0
total (p ∷ ps) = length p.ms + total ps

module _ {S : Type 0} (h : Handlers S) where
  -- The loop's variables after the packets.
  abbrev pub after : Run S → List Parcel → Run S
  after r ps =
      let (t, ms) = accepted r.tracker ps in
      record {
        tracker = t;
        books = apply_all h r.books ms;
        messages = r.messages + length ms;
        prepared = r.prepared ++ indices ps;
        submitted = r.submitted;
      }

  pub complete-packet :
      (r : Run S) (p : Parcel)
      → IsPacked p
      → r.messages + length p.ms < 2 ^ 64
      → complete h r (completion p)
        ≡ some (
            let (t, accept) = observe r.tracker p.seq (length p.ms) in
            record {
              tracker = t;
              books = if accept then apply_all h r.books p.ms else r.books;
              messages = if accept then r.messages + length p.ms else r.messages;
              prepared = r.prepared ++ p.idx ∷ [];
              submitted = r.submitted;
            })
  unfolding complete take_packet
  complete-packet r p v few =
      let got =
        receive-frames h r.tracker p.buf p.size p.seq p.ms r.books r.messages v.at v.seq_fits
          v.count_fits v.fit v.inside few in
      let long : ltb 0 p.size && leb k_header_size p.size ≡ true = ground (arith, v.inside) in
      rw (long, got)
        (elim (Bool-cases (observe r.tracker p.seq (length p.ms)).1) [
          | inl e ↦ rw e refl
          | inr e ↦ rw e refl
        ])

  pub apply_all-append :
      (s : S) (ms ns : List Message) → apply_all h s (ms ++ ns) ≡ apply_all h (apply_all h s ms) ns
  apply_all-append s [] ns = refl
  apply_all-append s (m ∷ ms) ns = apply_all-append (apply h s m) ms ns

  pub drain-packets :
      (ps : List Parcel) (r : Run S)
      → AllPacked ps
      → r.messages + total ps < 2 ^ 64
      → drain h (map completion ps) r ≡ some (after r ps)
  unfolding drain accepted
  drain-packets [] r v few =
      rw append-nil (ap (λ (n : ℕ). some (record r { messages = n })) (omega arith))
  drain-packets (p ∷ ps) r v few =
      let here = complete-packet r p v.0 (omega arith) in
      let t' = (observe r.tracker p.seq (length p.ms)).0 in
      let out = accepted t' ps in
      let requeued : (r.prepared ++ p.idx ∷ []) ++ indices ps ≡ r.prepared ++ p.idx ∷ indices ps =
        append_assoc r.prepared (p.idx ∷ []) (indices ps) in
      elim (Bool-cases (observe r.tracker p.seq (length p.ms)).1) [
        | inl e ↦
            let r1 = record r {
              tracker = t';
              books = apply_all h r.books p.ms;
              messages = r.messages + length p.ms;
              prepared = r.prepared ++ p.idx ∷ [];
            } in
            let rest = drain-packets ps r1 v.1 (omega arith) in
            let sum : r.messages + length p.ms + length out.1
                ≡ r.messages + length (p.ms ++ out.1) =
              rw length-append (omega arith) in
            rw (here, e, apply_all-append r.books p.ms out.1, ← sum, ← requeued) rest
        | inr e ↦
            let r1 = record r { tracker = t'; prepared = r.prepared ++ p.idx ∷ [] } in
            let rest = drain-packets ps r1 v.1 (omega arith) in rw (here, e, ← requeued) rest
      ]
