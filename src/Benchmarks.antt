-- ===== src/Benchmarks.antt =====
-- src/common/bench_parse_only.cpp and the loops of src/common/bench_latency.cpp. The time stamp counter
-- is the function `tsc` from the number of the reading to its value.
pub mod Loops
pub mod ParseOnly
pub mod Latency
use feed_handler.Prelude.{
  ℕ, zero, suc, ◌+◌, ◌-◌, ◌%◌, ◌^◌, Bool, List, [], ◌∷◌, ◌++◌, Option, none, some, ◌>>=◌, get_elem?,
  ◌==◌, if◌then◌else◌,
}
use feed_handler.Map.{Map}
use feed_handler.Wire.Bytes.{Buffer}
use feed_handler.Wire.AddOrder
use feed_handler.Wire.OrderExecuted
use feed_handler.Wire.OrderCancel
use feed_handler.Wire.OrderDelete
use feed_handler.Wire.OrderReplace
use feed_handler.Feed.{next_message}
use feed_handler.Feed.Books.{on_book, SharedBooks, on_shared}
use feed_handler.V1
use feed_handler.V3.OrderBook

-- `while (reader.next(msg, len)) { switch (msg[0]) ... }`, for the `switch` of each benchmark.
unfoldable pub loop : {S : Type 0} → (ℕ → S → Buffer → ℕ → Option S) → ℕ → Buffer → ℕ → S → Option S
loop switch zero file offset s = some s
loop switch (suc fuel) file offset s = elim (next_message file offset) [
  | none ↦ some s
  | some (msg, len, offset') ↦ get_elem? file msg >>= λ type.
      switch type s file msg >>= λ s'. loop switch fuel file offset' s'
]

-- The `switch` of bench_parse_only.cpp, on `sink`.
unfoldable pub parse_case : ℕ → ℕ → Buffer → ℕ → Option ℕ
parse_case type s buf msg =
    if type == b'A'
    then (do
      m ← AddOrder.parse buf msg
      some ((s + (m.order_ref + m.price + m.shares + m.stock_locate)) % 2 ^ 64))
    else if type == b'E'
    then (do
      m ← OrderExecuted.parse buf msg
      some ((s + (m.order_ref + m.executed_shares + m.stock_locate)) % 2 ^ 64))
    else if type == b'X'
    then (do
      m ← OrderCancel.parse buf msg
      some ((s + (m.order_ref + m.canceled_shares + m.stock_locate)) % 2 ^ 64))
    else if type == b'D'
    then (do m ← OrderDelete.parse buf msg; some ((s + (m.order_ref + m.stock_locate)) % 2 ^ 64))
    else if type == b'U'
    then (do
      m ← OrderReplace.parse buf msg
      some ((s + (m.original_order_ref + m.new_order_ref + m.price + m.shares)) % 2 ^ 64))
    else some s

-- `sink` and `msg_count`.
abbrev pub Sums : Type 0
Sums = ℕ × ℕ

-- The body of its loop.
unfoldable pub parse_step : ℕ → Sums → Buffer → ℕ → Option Sums
parse_step type (sink, msg_count) buf msg = do
  sink' ← parse_case type sink buf msg
  some (sink', (msg_count + 1) % 2 ^ 64)

unfoldable pub parse_only : ℕ → Buffer → Option Sums
parse_only fuel file = loop parse_step fuel file 0 (0, 0)

-- The books of a benchmark, the samples so far, and the number of readings of the counter.
pub record Bench (S : Type 0) : Type 0 where
  pub books : S
  pub samples : List ℕ
  pub readings : ℕ

-- `uint32_t(t1 - t0)`
abbrev pub elapsed : ℕ → ℕ → ℕ
elapsed t0 t1 = (t1 + 2 ^ 64 - t0) % 2 ^ 64 % 2 ^ 32

module _ (tsc : ℕ → ℕ) where
  -- `t0 = tsc_start(); ...; t1 = tsc_end(); s.push_back(uint32_t(t1 - t0));`, where the call between leaves
  -- `books`.
  unfoldable pub timed_call : {S : Type 0} → Bench S → S → Bench S
  timed_call s books = record {
    books = books;
    samples = s.samples ++ elapsed (tsc s.readings) (tsc (s.readings + 1)) ∷ [];
    readings = s.readings + 2;
  }

  -- The `switch` of `run_v1`.
  unfoldable pub v1_case :
      ℕ → Bench (Map V1.OrderBook) → Buffer → ℕ → Option (Bench (Map V1.OrderBook))
  v1_case type s buf msg =
      if type == b'A'
      then (do
        m ← AddOrder.parse buf msg
        some (timed_call s (on_book s.books m.stock_locate (λ b. V1.add_order b m))))
      else if type == b'E'
      then (do
        m ← OrderExecuted.parse buf msg
        some (timed_call s (on_book s.books m.stock_locate (λ b. V1.execute_order b m))))
      else if type == b'X'
      then (do
        m ← OrderCancel.parse buf msg
        some (timed_call s (on_book s.books m.stock_locate (λ b. V1.cancel_order b m))))
      else if type == b'D'
      then (do
        m ← OrderDelete.parse buf msg
        some (timed_call s (on_book s.books m.stock_locate (λ b. V1.delete_order b m))))
      else if type == b'U'
      then (do
        m ← OrderReplace.parse buf msg
        some (timed_call s (on_book s.books m.stock_locate (λ b. V1.replace_order b m))))
      else some s

  -- The `switch` of `run_v3`.
  unfoldable pub v3_case : ℕ → Bench SharedBooks → Buffer → ℕ → Option (Bench SharedBooks)
  v3_case type s buf msg =
      if type == b'A'
      then (do
        m ← AddOrder.parse buf msg
        some (timed_call s (on_shared s.books m.stock_locate (λ b. OrderBook.add_order b m))))
      else if type == b'E'
      then (do
        m ← OrderExecuted.parse buf msg
        some (timed_call s (on_shared s.books m.stock_locate (λ b. OrderBook.execute_order b m))))
      else if type == b'X'
      then (do
        m ← OrderCancel.parse buf msg
        some (timed_call s (on_shared s.books m.stock_locate (λ b. OrderBook.cancel_order b m))))
      else if type == b'D'
      then (do
        m ← OrderDelete.parse buf msg
        some (timed_call s (on_shared s.books m.stock_locate (λ b. OrderBook.delete_order b m))))
      else if type == b'U'
      then (do
        m ← OrderReplace.parse buf msg
        some (timed_call s (on_shared s.books m.stock_locate (λ b. OrderBook.replace_order b m))))
      else some s

  abbrev pub fresh_bench : {S : Type 0} → S → Bench S
  fresh_bench books = record { books = books; samples = []; readings = 0 }

  unfoldable pub run_v1 : ℕ → Buffer → Option (Bench (Map V1.OrderBook))
  run_v1 fuel file = loop v1_case fuel file 0 (fresh_bench [])

  -- `books` are the pool and the table that the loop begins with, and no book.
  unfoldable pub run_v3 : ℕ → Buffer → SharedBooks → Option (Bench SharedBooks)
  run_v3 fuel file books = loop v3_case fuel file 0 (fresh_bench books)
