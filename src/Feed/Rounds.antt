-- ===== src/Feed/Rounds.antt =====
-- The receive loops as a whole: src/v1/receiver.cpp, one datagram at a time, and src/v2/receiver.cpp and
-- src/v3/receiver.cpp, in rounds of completed receives. What the kernel hands over is the input: the
-- datagrams, or the completions with what their buffers hold.
pub mod Parcels
pub mod Batches
use feed_handler.Prelude.{
  ℕ, zero, suc, ◌+◌, ◌^◌, ◌%◌, Bool, List, [], ◌∷◌, ◌++◌, Option, none, some, ◌>>=◌, ltb, leb, ◌&&◌,
  if◌then◌else◌,
}
use feed_handler.Map.{Map}
use feed_handler.Wire.Bytes.{Buffer}
use feed_handler.Receiver.Gaps
use feed_handler.Receiver.Gaps.{Tracker}
use feed_handler.Receiver.Expected.{Expected}
use feed_handler.Feed.{k_header_size, Handlers, receive_v1, receive}
use feed_handler.Feed.Books.{SharedBooks, v1_books, v3_books}
use feed_handler.V1

-- What `recvfrom` returns: a datagram of `n` bytes, or an error, of which the time-out is one.
pub data Arrival : Type 0 where
  datagram : Buffer → ℕ → Arrival
  failed : Arrival

-- The loop of v1, over the datagrams that arrive.
unfoldable pub run_v1 :
    List Arrival → Expected → Map V1.OrderBook → ℕ → Option (Expected × Map V1.OrderBook × ℕ)
run_v1 [] t books messages = some (t, books, messages)
run_v1 (failed ∷ more) t books messages = some (t, books, messages)
run_v1 (datagram buf n ∷ more) t books messages = do
  out ← receive_v1 v1_books t buf n books messages
  run_v1 more out.0 out.1 out.2

-- A completed receive: its buffer's index, `cqe->res`, `none` for an error, and what the buffer holds.
pub record Completion : Type 0 where
  pub idx : ℕ
  pub res : Option ℕ
  pub buf : Buffer

-- What `io_uring_wait_cqe_timeout` reports: completions, or -ETIME, or another error.
pub data Wait : Type 0 where
  ready : List Completion → Wait
  timed_out : Wait
  broken : Wait

-- The variables of the loop, and the receives: those prepared and those submitted.
pub record Run (S : Type 0) : Type 0 where
  pub tracker : Tracker
  pub books : S
  pub messages : ℕ
  pub prepared : List ℕ
  pub submitted : List ℕ

-- `prep_recv(idx)`
abbrev pub prep_recv : {S : Type 0} → Run S → ℕ → Run S
prep_recv r idx = record r { prepared = r.prepared ++ idx ∷ [] }

-- `io_uring_submit(&ring)`
abbrev pub submit : {S : Type 0} → Run S → Run S
submit r = record r { prepared = []; submitted = r.submitted ++ r.prepared }

-- `for(unsigned i=0;i<kQueueDepth;i++) prep_recv(i);`
unfoldable pub prep_all : {S : Type 0} → ℕ → ℕ → Run S → Run S
prep_all zero i r = r
prep_all (suc n) i r = prep_all n (suc i) (prep_recv r i)

unfoldable pub start_run : {S : Type 0} → ℕ → S → Run S
start_run depth books = submit (
    prep_all depth 0
      (record { tracker = Gaps.start; books = books; messages = 0; prepared = []; submitted = [] }))

module _ {S : Type 0} (h : Handlers S) where
  -- `if(n>0&&static_cast<size_t>(n)>=mold::kHeaderSize){...}`
  unfoldable pub take_packet : Run S → Completion → Option (Tracker × S × ℕ)
  take_packet r c = elim c.res [
    | none ↦ some (r.tracker, r.books, r.messages)
    | some n ↦
        let taken = receive h r.tracker c.buf n r.books r.messages in
        if ltb 0 n && leb k_header_size n then taken else some (r.tracker, r.books, r.messages)
  ]

  -- The body of `io_uring_for_each_cqe`.
  unfoldable pub complete : Run S → Completion → Option (Run S)
  complete r c = do
    out ← take_packet r c
    some (prep_recv (record r { tracker = out.0; books = out.1; messages = out.2 }) c.idx)

  -- The loop over the completions of a round.
  unfoldable pub drain : List Completion → Run S → Option (Run S)
  drain [] r = some r
  drain (c ∷ cs) r = complete r c >>= λ r'. drain cs r'

  -- `if(completed>0) io_uring_submit(&ring);`
  abbrev pub submit_if : List Completion → Run S → Run S
  submit_if [] r = r
  submit_if (c ∷ cs) r = submit r

  -- The loop over the rounds.
  unfoldable pub run : List Wait → Run S → Option (Run S)
  run [] r = some r
  run (timed_out ∷ more) r = some r
  run (broken ∷ more) r = some r
  run (ready cs ∷ more) r = drain cs r >>= λ r'. run more (submit_if cs r')

-- The loops of v2 and v3, which differ in their books only.
unfoldable pub run_v2 : List Wait → Run (Map V1.OrderBook) → Option (Run (Map V1.OrderBook))
run_v2 = run v1_books

unfoldable pub complete_v3 : Run SharedBooks → Completion → Option (Run SharedBooks)
complete_v3 = complete v3_books

unfoldable pub run_v3 : List Wait → Run SharedBooks → Option (Run SharedBooks)
run_v3 = run v3_books
