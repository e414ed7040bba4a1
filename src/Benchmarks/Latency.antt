-- ===== src/Benchmarks/Latency.antt =====
-- What the loops of bench_latency.cpp leave: the books, and a sample for each message that they take.
use feed_handler.Prelude.{ℕ, zero, suc, ◌+◌, ◌*◌, ◌≡◌, List, [], ◌∷◌, ◌++◌}
use feed_handler.Wire.Message.{Message, other}
use feed_handler.Map.{Map}
use feed_handler.V1
use feed_handler.Feed.Frames.{apply}
use feed_handler.Feed.{Handlers}
use feed_handler.Benchmarks.{Bench, elapsed, timed_call}

-- How many messages have one of the five types.
abbrev pub tick : Message → ℕ
tick (other type body) = 0
tick m = 1

abbrev pub taken : List Message → ℕ
taken [] = 0
taken (m ∷ ms) = tick m + taken ms

module _ (tsc : ℕ → ℕ) where
  -- The times between the readings of each pair.
  abbrev pub laps : ℕ → List ℕ
  laps zero = []
  laps (suc n) = laps n ++ elapsed (tsc (n * 2)) (tsc (n * 2 + 1)) ∷ []

  -- The benchmark after a message.
  abbrev one_bench : {S : Type 0} → Handlers S → Bench S → Message → Bench S
  one_bench h s (other type body) = s
  one_bench h s m = timed_call tsc s (apply h s.books m)

  -- The benchmark has `books` and `n` samples, each the time between the two readings of its own.
  pub record IsTimed {S : Type 0} (s : Bench S) (books : S) (n : ℕ) : Type 0 where
    pub ended : s.books ≡ books
    pub sampled : s.samples ≡ laps n
    pub read : s.readings ≡ n * 2
