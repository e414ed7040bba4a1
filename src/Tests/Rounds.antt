-- ===== src/Tests/Rounds.antt =====
-- The receive rounds of v2 on two packets, the second of which repeats the first; the benchmarks and the
-- analysis on a file of three messages, one of a type that the program passes over.
use feed_handler.Prelude.{
  ℕ, ◌+◌, ◌*◌, ◌^◌, ◌%◌, ◌≡◌, sym, ap, append-nil, List, [], ◌∷◌, ◌++◌, some, length, replicate,
  arith,
}
use feed_handler.Wire.Bytes.{Buffer}
use feed_handler.Wire.Layout.{be_bytes, At-middle}
use feed_handler.Wire.Message.{Message, added, executed}
use feed_handler.Receiver.Gaps
use feed_handler.V1.{OrderBook}
use feed_handler.Map.{Map}
use feed_handler.Feed.Frames.{frames, apply_all, AllFit}
use feed_handler.Feed.Books.{SharedBooks, v1_books}
use feed_handler.Feed.Rounds.{run}
use feed_handler.Feed.Rounds.Parcels.{Parcel, IsPacked, accepted, indices}
use feed_handler.Feed.Rounds.Batches.{all_of, rounds, idle, run-packets}
use feed_handler.V3.RefTable
use feed_handler.V3.ObjectPool
use feed_handler.Benchmarks.{parse_only}
use feed_handler.Benchmarks.ParseOnly.{numbers_in, parse_only-frames}
use feed_handler.Analysis.{Survey, Windowed, start, stats_of, survey, window_pass, no_windowed}
use feed_handler.Analysis.Windows.{IsCounted, adds_in, window_pass-IsCounted}
use feed_handler.Analysis.Exact.{IsExact}
use feed_handler.Analysis.Prices.{Priced, survey-IsExact}
use feed_handler.Tests.Messages.{
  add_order, add_order-Fits, order_executed, system_event, system_event-Fits, order_executed-Fits,
}

abbrev three : List Message
three = added add_order ∷ system_event ∷ executed order_executed ∷ []

three-AllFit : AllFit three
three-AllFit = (add_order-Fits, (system_event-Fits, (order_executed-Fits, tt)))

abbrev payload : List ℕ
payload = be_bytes 8 1 ++ (be_bytes 2 (length three) ++ frames three)

abbrev parcel : ℕ → Parcel
parcel idx = record {
  idx = idx;
  buf = replicate 10 32 ++ payload ++ 0 ∷ [];
  size = 20 + length (frames three);
  seq = 1;
  ms = three;
}

parcel-IsPacked : (idx : ℕ) → IsPacked (parcel idx)
parcel-IsPacked idx = record {
  at = At-middle (replicate 10 32) payload (0 ∷ []);
  seq_fits = omega arith;
  count_fits = omega arith;
  fit = three-AllFit;
  inside = omega arith;
}

abbrev batches : List (List Parcel)
batches = (parcel 0 ∷ []) ∷ (parcel 1 ∷ []) ∷ []

abbrev no_books : Map OrderBook
no_books = []

run-packets_example :
    run v1_books (rounds batches) (idle v1_books Gaps.start no_books 0 (0 ∷ 1 ∷ []))
    ≡ some (
        let (t, ms) = accepted Gaps.start (all_of batches) in
        idle v1_books t
          (apply_all v1_books no_books ms)
          (0 + length ms)
          ((0 ∷ 1 ∷ []) ++ indices (all_of batches)))
run-packets_example =
    run-packets v1_books batches Gaps.start no_books 0 (0 ∷ 1 ∷ [])
      (parcel-IsPacked 0, (parcel-IsPacked 1, tt)) (omega arith)

abbrev file : Buffer
file = [] ++ frames three ++ []

-- A counter that advances by 30 from reading to reading.
abbrev ticks : ℕ → ℕ
ticks n = n * 30

abbrev shared : SharedBooks
shared = record { pool = ObjectPool.new 4; refs = RefTable.new 8; books = [] }

parse_only-frames_example : parse_only 4 file ≡ some (numbers_in three % 2 ^ 64, length three)
parse_only-frames_example =
    parse_only-frames three 4 file three-AllFit (At-middle [] (frames three) [])
      (ap length (sym (append-nil (frames three)))) (omega arith) (omega arith)

window_pass-IsCounted_example :
    (v : Windowed) × (window_pass 256 4 file 0 no_windowed ≡ some v)
    × IsCounted 256 (adds_in three) v
window_pass-IsCounted_example =
    window_pass-IsCounted 256 three 4 file three-AllFit (At-middle [] (frames three) [])
      (ap length (sym (append-nil (frames three)))) (omega arith) (omega arith)

survey-IsExact_example :
    (v : Survey) × (survey 4 file 0 start ≡ some v)
    × ((q : ℕ) → IsExact (stats_of v.stats q) (Priced q three))
survey-IsExact_example =
    survey-IsExact three 4 file three-AllFit (At-middle [] (frames three) [])
      (ap length (sym (append-nil (frames three)))) (omega arith)
