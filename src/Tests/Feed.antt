-- ===== src/Tests/Feed.antt =====
-- A packet and a file of three messages: an order of 100 shares, a message of another type, and an
-- execution of 40.
use feed_handler.Prelude.{
  ap, sym, append-nil, ℕ, ◌+◌, ◌≡◌, List, [], ◌∷◌, ◌++◌, some, length, replicate, if◌then◌else◌,
  arith,
}
use feed_handler.Wire.Bytes.{Buffer}
use feed_handler.Wire.Layout.{be_bytes, At-middle}
use feed_handler.Wire.Message.{Message, added, executed}
use feed_handler.Receiver.Gaps.{start, observe}
use feed_handler.V1.{OrderBook}
use feed_handler.Map.{Map}
use feed_handler.Feed.{receive, replay_file}
use feed_handler.Feed.Frames.{frames, apply_all, receive-frames, replay_file-frames}
use feed_handler.Feed.Books.{v1_books, one_book, book_of, of_stock, book_of-apply_all}
use feed_handler.Tests.Messages.{
  add_order, add_order-Fits, order_executed, system_event, system_event-Fits, order_executed-Fits,
}

abbrev three : List Message
three = added add_order ∷ system_event ∷ executed order_executed ∷ []

abbrev payload : List ℕ
payload = be_bytes 8 1 ++ (be_bytes 2 (length three) ++ frames three)

abbrev packet : Buffer
packet = replicate 10 32 ++ payload ++ 0 ∷ []

abbrev no_books : Map OrderBook
no_books = []

receive-frames_example : receive v1_books start packet (20 + length (frames three)) no_books 0 ≡ (
    let (t', accept) = observe start 1 (length three) in
    if accept
    then some (t', apply_all v1_books no_books three, 0 + length three)
    else some (t', no_books, 0))
receive-frames_example =
    receive-frames v1_books start packet (20 + length (frames three)) 1 three no_books 0
      (At-middle (replicate 10 32) payload (0 ∷ [])) (omega arith) (omega arith)
      (add_order-Fits, (system_event-Fits, (order_executed-Fits, tt))) (omega arith) (omega arith)

abbrev file : Buffer
file = [] ++ frames three ++ []

replay_file-frames_example :
    replay_file v1_books 4 file 0 no_books 0
    ≡ some (apply_all v1_books no_books three, 0 + length three)
replay_file-frames_example =
    replay_file-frames v1_books three 4 file 0 no_books 0
      (add_order-Fits, (system_event-Fits, (order_executed-Fits, tt)))
      (At-middle [] (frames three) []) (omega (arith, ap length (sym (append-nil (frames three)))))
      (omega arith) (omega arith)

book_of-apply_all_example :
    book_of (apply_all v1_books no_books three) 1
    ≡ apply_all one_book (book_of no_books 1) (of_stock 1 three)
book_of-apply_all_example = book_of-apply_all no_books three 1
