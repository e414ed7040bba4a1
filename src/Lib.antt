-- ===== src/Lib.antt =====
-- A model of feed-handler, a C++ receiver of Nasdaq TotalView-ITCH messages in MoldUDP64 packets, and
-- proofs about it.
--
-- The program decodes messages from bytes, tracks the sequence numbers of the packets that carry them,
-- and applies the messages of accepted packets to order books, one for each stock. It has three
-- versions: v1 and v2 share a book on `std::map` and `std::list`, v2 and v3 share the tracking of gaps,
-- and v3 has a book of its own on flat arrays, with an order pool and a hash table.
--
-- Prelude: the native numbers with their Boolean tests, lists, results and bit operations.
-- Map: `std::map` and `std::unordered_map` as association lists in the order of the keys.
-- Wire: include/common/itch_messages.hpp and include/common/mold_udp64.hpp. A buffer is a list of
--   bytes, a pointer an index into it, and an access outside the buffer gives no result. Wire.Bytes has
--   `read_be16` to `read_be64` and `write_be16`, `write_be64`; each message type has a module with its
--   record, `kWireSize` and `parse`, and with `encode`, the layout of the protocol.
-- Receiver: the tracking of sequence numbers in the receive loops. Receiver.Expected is that of
--   src/v1/receiver.cpp; Receiver.Gaps is that of src/v2/receiver.cpp, which src/v3/receiver.cpp
--   repeats. `observe` is what one packet's header does, `session` a whole run of packets in the order
--   of their arrival, any order, loss and repetition included.
-- Spec: what an order book promises, without its data structures. Spec.Messages has what each message
--   asks of it, and what a feed keeps to. A message is of one of the five types that the books take, or
--   of another one, which every loop passes over.
-- V1: include/v1/order_book.hpp and src/v1/order_book.cpp, one function for each method. List nodes
--   have addresses that are never used again, so an iterator is an address.
-- V3: include/v3 and src/v3/order_book.cpp, one function for each method: V3.RefTable, V3.ObjectPool,
--   V3.Bitmap for `occupied_`, V3.BookState for the levels and V3.OrderBook for the rest of the book.
--   All v3 books share one pool and one table, so a method of the book takes and gives a `Store` of all
--   three. V3.Links is the theory of the linked queues, V3.Owned that of pool and table together, and
--   V3.OrderBook.Valid the well-formedness of a store that serves one book; V3.OrderBook.Placing, Placed,
--   Dropping and Reducing are what the methods do to it, and V3.OrderBook.Fronts is about the levels that
--   `best_bid_idx_` and `best_ask_idx_` point to, V3.OrderBook.Stranded about an add with a full table.
-- Feed: from bytes to books. `receive` is a received packet in v2 and v3, `receive_v1` in v1,
--   `next_message` is `next` of src/common/itch_reader.cpp, and `replay_file` the loop of src/v1/main.cpp
--   and src/v3/main.cpp. They work on any books that fill `Handlers`; Feed.Books has those of v1 and v2,
--   and those of v3. Feed.Agree compares v1 and v3. Feed.Rounds is the outer loop of the three
--   receivers: what arrives is a list, of datagrams in v1, of rounds of completed receives in v2 and v3.
-- Sender: src/common/replay_sender.cpp, the packets that it gathers messages in and sends.
-- Benchmarks: src/common/bench_parse_only.cpp, and `run_v1` and `run_v3` of
--   src/common/bench_latency.cpp, each with its own `switch`. Benchmarks.Loops has what their loops share.
-- Analysis: the two passes of src/common/analyze_data.cpp, `survey` and `window_pass`. Analysis.Exact is
--   about the prices of each stock, Analysis.Counts about the windows, order by order.
-- Tests: every theorem at a concrete input.
--
-- Numbers are natural numbers, with the wrap-around of 16, 32 and 64 bits written out. The loops of the
-- hash table take the number of slots as fuel, which suffices since a valid table has an empty slot.
-- `memcpy` of an integer has the byte order of a little-endian host.
--
-- The loop over a file takes one round of fuel more than the file has messages. In the v3 book
-- `base_cents_` is kept with kWindow/2 added, so that it is never negative, and an index of -1 is `none`.
--
-- Not modelled: sockets, io_uring, `mmap` and printing, which are calls of the operating system and the
-- library; the time stamp counter is a parameter of the benchmarks. The benchmarks' and the analysis'
-- percentiles are in floating point and left out, as are the tests of the program.
pub mod Prelude
pub mod Map
pub mod Wire
pub mod Receiver
pub mod Spec
pub mod V1
pub mod V3
pub mod Benchmarks
pub mod Analysis
pub mod Feed
pub mod Sender
pub mod Tests
