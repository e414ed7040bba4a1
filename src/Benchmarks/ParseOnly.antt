-- ===== src/Benchmarks/ParseOnly.antt =====
-- What bench_parse_only.cpp reports.
use feed_handler.Prelude.{
  ℕ, ◌+◌, ◌%◌, ◌^◌, ◌<◌, ◌≡◌, refl, ap, ap₂, ◌∙◌, List, [], ◌∷◌, some, length, arith,
}
use feed_handler.Wire.Bytes.{Buffer}
use feed_handler.Wire.Layout.{At}
use feed_handler.Wire.Message.{Message, added, executed, canceled, deleted, replaced, other}
use feed_handler.Wire.AddOrder.{parse-encode_add_order}
use feed_handler.Wire.OrderExecuted.{parse-encode_order_executed}
use feed_handler.Wire.OrderCancel.{parse-encode_order_cancel}
use feed_handler.Wire.OrderDelete.{parse-encode_order_delete}
use feed_handler.Wire.OrderReplace.{parse-encode_order_replace}
use feed_handler.Feed.Frames.{At-first, frames, AllFit}
use feed_handler.Benchmarks.{Sums, parse_case, parse_step, parse_only}
use feed_handler.Benchmarks.Loops.{all, Does, loop-frames}

-- What the benchmark adds for a message: the reference number or numbers, the price and the shares that
-- the message has, and but for a replacement the stock's locate code.
abbrev pub numbers_of : Message → ℕ
numbers_of (added m) = m.order_ref + m.price + m.shares + m.stock_locate
numbers_of (executed m) = m.order_ref + m.executed_shares + m.stock_locate
numbers_of (canceled m) = m.order_ref + m.canceled_shares + m.stock_locate
numbers_of (deleted m) = m.order_ref + m.stock_locate
numbers_of (replaced m) = m.original_order_ref + m.new_order_ref + m.price + m.shares
numbers_of (other type body) = 0

abbrev pub numbers_in : List Message → ℕ
numbers_in [] = 0
numbers_in (m ∷ ms) = numbers_of m + numbers_in ms

-- The sums after a message.
abbrev one_sum : Sums → Message → Sums
one_sum (sink, msg_count) (other type body) = (sink, (msg_count + 1) % 2 ^ 64)
one_sum (sink, msg_count) m = ((sink + numbers_of m) % 2 ^ 64, (msg_count + 1) % 2 ^ 64)

parse_step-Does : Does parse_step one_sum
unfolding parse_step parse_case
parse_step-Does (sink, msg_count) buf p (added m) fit at =
    let (code, parsed) = parse-encode_add_order buf p m fit at in (_, code, rw parsed refl)
parse_step-Does (sink, msg_count) buf p (executed m) fit at =
    let (code, parsed) = parse-encode_order_executed buf p m fit at in (_, code, rw parsed refl)
parse_step-Does (sink, msg_count) buf p (canceled m) fit at =
    let (code, parsed) = parse-encode_order_cancel buf p m fit at in (_, code, rw parsed refl)
parse_step-Does (sink, msg_count) buf p (deleted m) fit at =
    let (code, parsed) = parse-encode_order_delete buf p m fit at in (_, code, rw parsed refl)
parse_step-Does (sink, msg_count) buf p (replaced m) fit at =
    let (code, parsed) = parse-encode_order_replace buf p m fit at in (_, code, rw parsed refl)
parse_step-Does (sink, msg_count) buf p (other type body) (is, _) at = (
  type,
  At-first buf p type body at,
  rw (is.not_added, is.not_executed, is.not_canceled, is.not_deleted, is.not_replaced) refl,
)

one_sum-numbers :
    (sink msg_count : ℕ) (m : Message)
    → sink < 2 ^ 64
    → one_sum (sink, msg_count) m ≡ ((sink + numbers_of m) % 2 ^ 64, (msg_count + 1) % 2 ^ 64)
one_sum-numbers sink msg_count (added m) fits = refl
one_sum-numbers sink msg_count (executed m) fits = refl
one_sum-numbers sink msg_count (canceled m) fits = refl
one_sum-numbers sink msg_count (deleted m) fits = refl
one_sum-numbers sink msg_count (replaced m) fits = refl
one_sum-numbers sink msg_count (other type body) fits =
    ap (λ (k : ℕ). (k, (msg_count + 1) % 2 ^ 64)) (omega arith)

abbrev pair : ℕ → ℕ → Sums
pair a b = (a, b)

all_sums :
    (sink msg_count : ℕ) (ms : List Message)
    → sink < 2 ^ 64
    → msg_count + length ms < 2 ^ 64
    → all one_sum (sink, msg_count) ms
      ≡ ((sink + numbers_in ms) % 2 ^ 64, (msg_count + length ms) % 2 ^ 64)
all_sums sink msg_count [] fits few = ap₂ pair (omega arith) (omega arith)
all_sums sink msg_count (m ∷ ms) fits few =
    let less : (msg_count + 1) % 2 ^ 64 ≡ msg_count + 1 = omega arith in
    let rest =
      all_sums ((sink + numbers_of m) % 2 ^ 64) (msg_count + 1) ms (omega arith) (omega arith) in
    rw (one_sum-numbers sink msg_count m fits, less) (rest ∙ ap₂ pair (omega arith) (omega arith))

-- On a file of fewer than 2 ^ 64 messages of the five types at their sizes and of other types that
-- ends with its last message, the parse benchmark ends, and one more round of fuel than there are
-- messages is enough. It reports how many messages there are, of whatever type, and as `sink` the
-- sum, modulo 2 ^ 64, of the reference numbers, prices, shares and locate codes of all messages of
-- the five types, but not the locate codes of replacements.
pub parse_only-frames :
    (ms : List Message) (fuel : ℕ) (file : Buffer)
    → AllFit ms
    → At file 0 (frames ms)
    → length (frames ms) ≡ length file
    → length ms < 2 ^ 64
    → length ms < fuel
    → parse_only fuel file ≡ some (numbers_in ms % 2 ^ 64, length ms)
unfolding parse_only
parse_only-frames ms fuel file fit at whole few enough =
    loop-frames parse_step one_sum parse_step-Does ms fuel file 0 (0, 0) fit at (omega arith) enough
    ∙ ap some (
        all_sums 0 0 ms (omega arith) (omega arith)
        ∙ ap₂ pair (ap (λ (n : ℕ). n % 2 ^ 64) (omega arith)) (omega arith))
