-- ===== src/V3/OrderBook/Steps.antt =====
-- The best indices of a new book and of one that an order leaves, and the v3 operations as what the loops
-- ask for.
use feed_handler.Prelude.{
  ℕ, ◌/◌, ◌%◌, ◌≡◌, Bool, true, false, replicate, get_or-replicate, length-replicate, arith,
}
use feed_handler.Prelude.Bits.{test_bit-zero}
use feed_handler.V3.Bitmap.{word_at}
use feed_handler.V3.BookState.{OrderBook, Store, new_book}
use feed_handler.V3.OrderBook.{
  unlink_order, add_order, execute_order, cancel_order, delete_order, replace_order, settle,
}
use feed_handler.V3.OrderBook.Indices.{BestOf, lower_best-IsBest}
use feed_handler.Feed.{Handlers}

-- A single book with its pool and table as what the loops ask for.
abbrev pub one_store : Handlers Store
one_store = record {
  add = add_order;
  execute = execute_order;
  cancel = cancel_order;
  delete = delete_order;
  replace = replace_order;
}

-- A new book has no best prices.
pub new_book-IsBest : BestOf new_book
unfolding new_book
new_book-IsBest = record {
  width = length-replicate {A = ℕ} 32 0;
  fits = λ w. rw (empty w) (omega arith);
  top_bid = λ i upto inside. rw (empty (i / 64)) (test_bit-zero (i % 64));
  top_ask = λ i from low under. rw (empty (i / 64)) (test_bit-zero (i % 64));
}
  where
    empty : (w : ℕ) → word_at (replicate 32 0) w ≡ 0
    empty w = get_or-replicate {A = ℕ} 32 w 0

settle-IsBest : (b : OrderBook) (emptied : Bool) (l : ℕ) → BestOf b → BestOf (settle b emptied l)
unfolding settle
settle-IsBest b true l v = lower_best-IsBest b v l
settle-IsBest b false l v = v

module _ (s : Store) (v : BestOf s.book) where
  pub unlink_order-IsBest : (o : ℕ) → BestOf (unlink_order s o).book
  unfolding unlink_order
  unlink_order-IsBest o = settle-IsBest _ _ _ v
