-- ===== src/Tests/Queues.antt =====
-- The queue of a price: a bid arrives, is executed in part, and is deleted.
use feed_handler.Prelude.{refl, [], ◌∷◌, ◌++◌, ◌==◌, leb, if◌then◌else◌, arith}
use feed_handler.V3.RefTable
use feed_handler.V3.RefTable.{k_null_idx}
use feed_handler.V3.ObjectPool
use feed_handler.V3.ObjectPool.{pooled}
use feed_handler.V3.BookState.{new_book, level_for, set_base, in_window}
use feed_handler.V3.OrderBook.{add_order, delete_order, take_shares}
use feed_handler.V3.OrderBook.Queues.{Queue, add_order-Queue, take_shares-Queue, delete_order-Queue}
use feed_handler.V3.Links.Chain.{without}
use feed_handler.Tests.Messages
use feed_handler.Tests.Messages.{order_delete}
use feed_handler.Tests.Agree.{
  store, store-Refines, store-HasRoom, store-slot, one_bid, one_bid-IsValid,
}

nobody_yet : Queue store 512 []
unfolding new_book
nobody_yet = refl

add_order-Queue_example : Queue (add_order store Messages.add_order) 512 (
    if (level_for store.book Messages.add_order.price Messages.add_order.side).0 == 512
    then [] ++ store.pool.free_head ∷ []
    else [])
add_order-Queue_example =
    add_order-Queue store Messages.add_order store-Refines.valid store-HasRoom store-slot
      (omega arith) (omega arith) 512 [] nobody_yet

one_waits : Queue one_bid 512 (0 ∷ [])
unfolding level_for set_base in_window new_book ObjectPool.new ObjectPool.linked
one_waits =
    add_order-Queue store Messages.add_order store-Refines.valid store-HasRoom store-slot
      (omega arith) (omega arith) 512 [] nobody_yet

take_shares-Queue_example : Queue (take_shares one_bid 70000 40) 512 (
    let o = RefTable.find one_bid.refs 70000 in
    if leb (pooled one_bid.pool.slots o).qty 40 then without o (0 ∷ []) else 0 ∷ [])
take_shares-Queue_example =
    take_shares-Queue one_bid 70000 40 one_bid-IsValid (omega arith) 512 (0 ∷ []) one_waits

delete_order-Queue_example :
    Queue
      (delete_order one_bid order_delete)
      512
      (without (RefTable.find one_bid.refs order_delete.order_ref) (0 ∷ []))
delete_order-Queue_example =
    delete_order-Queue one_bid order_delete one_bid-IsValid (omega arith) 512 (0 ∷ []) one_waits
