-- ===== src/Tests/Stranded.antt =====
-- A table of two slots, one of them taken, and another bid.
use feed_handler.Spec.Messages.{follow, Legal}
use feed_handler.Prelude.{
  ℕ, ◌*◌, ◌≤◌, ◌<◌, ◌^◌, ◌≡◌, ◌≢◌, refl, List, [], ◌∷◌, ◌++◌, none, length, length-replicate, ◌==◌,
  if◌then◌else◌, arith,
}
use feed_handler.V3.RefTable
use feed_handler.V3.RefTable.{k_null_idx}
use feed_handler.V3.ObjectPool
use feed_handler.V3.Bitmap.{mark}
use feed_handler.V3.BookState.{
  Store, PriceLevel, new_book, empty_level, level_for, set_base, overflow_level, in_window,
}
use feed_handler.V3.OrderBook
use feed_handler.V3.OrderBook.{take_shares, delete_order}
use feed_handler.V3.OrderBook.Steps.{one_store}
use feed_handler.V3.OrderBook.Valid.{view, Refines}
use feed_handler.V3.OrderBook.Placed.{HasRoom}
use feed_handler.V3.OrderBook.Refine.{apply-Refines}
use feed_handler.V3.OrderBook.Queues.{Queue}
use feed_handler.V3.OrderBook.Stranded.{add_order-half_full}
use feed_handler.V3.OrderBook.Start.{new_store, new_store-Refines}
use feed_handler.Wire.AddOrder.{AddOrder}
use feed_handler.Wire.Message.{added}
use feed_handler.Wire.OrderDelete.{OrderDelete}
use feed_handler.Feed.Frames.{apply}
use feed_handler.Tests.Messages.{add_order}

abbrev tiny : Store
tiny = new_store 4 1

tiny-Refines : Refines tiny (λ ref. none)
tiny-Refines = new_store-Refines 3 0 (omega arith) (omega arith)

levels-new_book : length new_book.levels ≡ 2048
unfolding new_book
levels-new_book = length-replicate {A = PriceLevel} 2048 empty_level

tiny-HasRoom : HasRoom tiny
unfolding RefTable.new ObjectPool.new
tiny-HasRoom = (
  omega (arith, length-replicate {A = RefTable.Slot} 2 RefTable.empty_slot),
  omega (arith, levels-new_book),
)

tiny-slot : tiny.pool.free_head ≢ k_null_idx
unfolding ObjectPool.new
tiny-slot = omega arith

add_order-Legal : Legal (view tiny) (added add_order)
add_order-Legal = rw tiny-Refines.orders_view (omega arith, refl, omega arith, omega arith)

abbrev tight : Store
tight = apply one_store tiny (added add_order)

tight-Refines : Refines tight (follow (view tiny) (added add_order))
tight-Refines =
    apply-Refines tiny (added add_order) tiny-Refines.valid add_order-Legal
      (tiny-HasRoom, tiny-slot)

tight-full : length tight.refs.slots ≤ tight.refs.size * 2
unfolding OrderBook.add_order OrderBook.place_order OrderBook.link_order OrderBook.raise_best
    ObjectPool.allocate ObjectPool.new RefTable.new RefTable.insert RefTable.probe
    RefTable.probe_from RefTable.home RefTable.hash level_for set_base overflow_level in_window
    new_book mark
tight-full = omega arith

tight-few : length tight.book.levels < 2 ^ 32
unfolding OrderBook.add_order OrderBook.place_order OrderBook.link_order OrderBook.raise_best
    ObjectPool.allocate ObjectPool.new RefTable.new RefTable.insert RefTable.probe
    RefTable.probe_from RefTable.home RefTable.hash level_for set_base overflow_level in_window
    new_book mark
tight-few = omega arith

tight-slot : tight.pool.free_head ≢ k_null_idx
unfolding OrderBook.add_order OrderBook.place_order OrderBook.link_order ObjectPool.allocate
    ObjectPool.new ObjectPool.linked level_for in_window set_base new_book
tight-slot = omega arith

abbrev bid : AddOrder
bid = record add_order { order_ref = 70001 }

bid_is_new : view tight 70001 ≡ none
bid_is_new = rw (tight-Refines.orders_view, tiny-Refines.orders_view) refl

add_order-half_full_example :
    ((l : ℕ) (q : List ℕ)
      → Queue tight l q
      → Queue (OrderBook.add_order tight bid) l (
          if (level_for tight.book bid.price bid.side).0 == l
          then q ++ tight.pool.free_head ∷ []
          else q))
    × ((n : ℕ)
        → take_shares (OrderBook.add_order tight bid) 70001 n ≡ OrderBook.add_order tight bid)
    × ((d : OrderDelete)
        → d.order_ref ≡ 70001
        → delete_order (OrderBook.add_order tight bid) d ≡ OrderBook.add_order tight bid)
add_order-half_full_example =
    add_order-half_full tight bid tight-Refines.valid tight-full tight-few tight-slot (omega arith)
      bid_is_new (omega arith) (omega arith)
