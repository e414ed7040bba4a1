-- ===== src/Analysis/Windows.antt =====
-- What the second pass counts, on a whole file.
use feed_handler.Prelude.{
  ℕ, suc, get_elem?, zero, ap, ◌+◌, ◌-◌, ◌^◌, ◌≤◌, ◌<◌, ◌≡◌, refl, sym, ◌∙◌, List, [], ◌∷◌, some,
  length, arith,
}
use feed_handler.Wire.AddOrder.{AddOrder}
use feed_handler.Wire.Bytes.{Buffer}
use feed_handler.Wire.Layout.{At}
use feed_handler.Wire.Message
use feed_handler.Wire.Message.{
  Message, added, executed, canceled, deleted, replaced, other, wire_size,
}
use feed_handler.Wire.AddOrder.{parse-encode_add_order}
use feed_handler.Wire.OrderExecuted.{parse-encode_order_executed}
use feed_handler.Wire.OrderCancel.{parse-encode_order_cancel}
use feed_handler.Wire.OrderDelete.{parse-encode_order_delete}
use feed_handler.Wire.OrderReplace.{parse-encode_order_replace}
use feed_handler.Feed.Frames.{
  At-first, frames, AllFit, At-frame, length-frames, next_message-frame, next_message-end,
}
use feed_handler.Map.{find}
use feed_handler.Analysis.Counts.{within, fractions, window_all, window_all-Counts}
use feed_handler.Analysis.{window_case, window_pass, Windowed, window_add, no_windowed}

-- The add-order messages.
abbrev pub adds_in : List Message → List AddOrder
adds_in [] = []
adds_in (added m ∷ ms) = m ∷ adds_in ms
adds_in (executed m ∷ ms) = adds_in ms
adds_in (canceled m ∷ ms) = adds_in ms
adds_in (deleted m ∷ ms) = adds_in ms
adds_in (replaced m ∷ ms) = adds_in ms
adds_in (other type body ∷ ms) = adds_in ms

-- The windowed counts after a message.
abbrev window_one : ℕ → Windowed → Message → Windowed
window_one w v (added m) = window_add w v m
window_one w v (executed m) = v
window_one w v (canceled m) = v
window_one w v (deleted m) = v
window_one w v (replaced m) = v
window_one w v (other type body) = v

window_all-adds_in :
    (w : ℕ) (v : Windowed) (m : Message) (ms : List Message)
    → window_all w v (adds_in (m ∷ ms)) ≡ window_all w (window_one w v m) (adds_in ms)
window_all-adds_in w v (added m) ms = refl
window_all-adds_in w v (executed m) ms = refl
window_all-adds_in w v (canceled m) ms = refl
window_all-adds_in w v (deleted m) ms = refl
window_all-adds_in w v (replaced m) ms = refl
window_all-adds_in w v (other type body) ms = refl

-- The first byte of an encoded message, and what the second pass does with it.
window_case-encode :
    (w : ℕ) (v : Windowed) (buf : Buffer) (p : ℕ) (m : Message)
    → Message.Fits m
    → At buf p (Message.encode m)
    → (type : ℕ) × (get_elem? buf p ≡ some type)
      × (window_case w type v buf p ≡ some (window_one w v m))
unfolding window_case
window_case-encode w v buf p (added m) fit at =
    let (code, parsed) = parse-encode_add_order buf p m fit at in (_, code, rw parsed refl)
window_case-encode w v buf p (executed m) fit at =
    let (code, parsed) = parse-encode_order_executed buf p m fit at in (_, code, refl)
window_case-encode w v buf p (canceled m) fit at =
    let (code, parsed) = parse-encode_order_cancel buf p m fit at in (_, code, refl)
window_case-encode w v buf p (deleted m) fit at =
    let (code, parsed) = parse-encode_order_delete buf p m fit at in (_, code, refl)
window_case-encode w v buf p (replaced m) fit at =
    let (code, parsed) = parse-encode_order_replace buf p m fit at in (_, code, refl)
window_case-encode w v buf p (other type body) (is, _) at =
    (type, At-first buf p type body at, ground (arith, is.not_added))

window_pass-lem :
    (w : ℕ) (ms : List Message) (fuel : ℕ) (file : Buffer) (offset : ℕ) (v : Windowed)
    → AllFit ms
    → At file offset (frames ms)
    → offset + length (frames ms) ≡ length file
    → length ms < fuel
    → window_pass w fuel file offset v ≡ some (window_all w v (adds_in ms))
unfolding window_pass
window_pass-lem w ms zero file offset v fit at all enough = absurd (omega arith)
window_pass-lem w [] (suc fuel) file offset v fit at all enough =
    rw (next_message-end file offset (omega arith), window_pass) refl
window_pass-lem w (m ∷ ms) (suc fuel) file offset v fit at all enough =
    let (size, here, behind) = At-frame file offset m ms fit.0 at in
    let len = length-frames m ms fit.0 in
    let (type, code, done) = window_case-encode w v file (offset + 2) m fit.0 here in
    let rest =
      window_pass-lem w ms fuel file (offset + 2 + wire_size m) (window_one w v m) fit.1 behind
        (omega (arith, len)) (omega arith) in
    rw (next_message-frame file offset m ms fit.0 at (omega arith), code, done, window_pass)
      (rest ∙ ap some (sym (window_all-adds_in w v m ms)))

-- The counts of the second pass on the add orders of a feed.
pub record IsCounted (w : ℕ) (ms : List AddOrder) (v : Windowed) : Type 0 where
  pub inner : v.in_window ≡ within w [] ms
  pub outer : v.overflow ≡ length ms - within w [] ms
  pub whole : within w [] ms ≤ length ms
  pub part : v.subpenny ≡ fractions ms

-- On a file of messages of the five types at their sizes and of other types that ends with its last
-- message, the second pass, with a window of `w` cents, ends, and one more round of fuel than there are
-- messages is enough. It counts in the window each add order with a price in whole cents that is the
-- first such order of its stock and side, or whose price in cents is not below the first one's less
-- `w / 2` and is below that plus `w`, all other add orders as overflow, and as prices in fractions of a cent those
-- that are not in whole cents, if the file has fewer than 2 ^ 64 add orders.
pub window_pass-IsCounted :
    (w : ℕ) (ms : List Message) (fuel : ℕ) (file : Buffer)
    → AllFit ms
    → At file 0 (frames ms)
    → length (frames ms) ≡ length file
    → length (adds_in ms) < 2 ^ 64
    → length ms < fuel
    → (v : Windowed) × (window_pass w fuel file 0 no_windowed ≡ some v) × IsCounted w (adds_in ms) v
unfolding find
window_pass-IsCounted w ms fuel file fit at all few enough =
    let c =
      window_all-Counts w (adds_in ms) no_windowed [] (λ m. refl) (omega arith) (omega arith) in
    (
      window_all w no_windowed (adds_in ms),
      window_pass-lem w ms fuel file 0 no_windowed fit at (omega arith) enough,
      record {
        inner = omega (arith, c.inner);
        outer = omega (arith, c.inner, c.whole);
        whole = omega (arith, c.inner, c.whole);
        part = omega (arith, c.part);
      },
    )
