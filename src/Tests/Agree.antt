-- ===== src/Tests/Agree.antt =====
-- v1 and v3 on a bid of 100 shares, an ask beyond the price window and an execution of 40.
use feed_handler.Spec.{IsTop}
use feed_handler.Spec.Messages.{follow, Legal, LegalAll, CoveredAll}
use feed_handler.Prelude.{
  ◌≡◌, ◌≢◌, refl, List, [], ◌∷◌, none, length, ◌==◌, arith, length-replicate,
}
use feed_handler.V1
use feed_handler.V3.RefTable
use feed_handler.V3.RefTable.{k_null_idx}
use feed_handler.V3.ObjectPool
use feed_handler.V3.BookState.{
  Store, PriceLevel, new_book, empty_level, level_for, set_base, overflow_level, in_window,
}
use feed_handler.V3.Bitmap.{mark}
use feed_handler.V3.BookState.Keys.{Gives}
use feed_handler.V3.BookState.LevelFor.{level_for-Gives}
use feed_handler.V3.OrderBook
use feed_handler.V3.OrderBook.Steps.{one_store}
use feed_handler.V3.OrderBook.Valid.{IsValid, view, Refines}
use feed_handler.V3.OrderBook.Placed.{HasRoom}
use feed_handler.V3.OrderBook.Refine.{apply-Refines}
use feed_handler.V3.OrderBook.Fronts.{IsHighest, IsLowest, apply-IsHighest-IsLowest}
use feed_handler.V3.OrderBook.View.{v3-best_bid_ask-IsTop}
use feed_handler.V3.OrderBook.Start.{new_store, new_store-Refines}
use feed_handler.Wire.AddOrder.{AddOrder}
use feed_handler.Wire.Message.{Message, added, executed}
use feed_handler.Feed.Frames.{apply, apply_all}
use feed_handler.Feed.Books.{one_book}
use feed_handler.Feed.Agree.{v1_v3-agree}
use feed_handler.Tests.Messages.{add_order, order_executed}

abbrev pub store : Store
store = new_store 4 3

pub store-Refines : Refines store (λ ref. none)
store-Refines = new_store-Refines 3 2 (omega arith) (omega arith)

levels-new_book : length new_book.levels ≡ 2048
unfolding new_book
levels-new_book = length-replicate {A = PriceLevel} 2048 empty_level

pub store-HasRoom : HasRoom store
unfolding RefTable.new ObjectPool.new
store-HasRoom = (
  omega (arith, length-replicate {A = RefTable.Slot} 8 RefTable.empty_slot),
  omega (arith, levels-new_book),
)

pub store-slot : store.pool.free_head ≢ k_null_idx
unfolding ObjectPool.new
store-slot = omega arith

add_order-Legal : Legal (λ ref. none) (added add_order)
add_order-Legal = (omega arith, refl, omega arith, omega arith)

added-Legal : Legal (view store) (added add_order)
added-Legal = rw store-Refines.orders_view add_order-Legal

apply-Refines_example :
    Refines (apply one_store store (added add_order)) (follow (view store) (added add_order))
apply-Refines_example =
    apply-Refines store (added add_order) store-Refines.valid added-Legal
      (store-HasRoom, store-slot)

abbrev pub one_bid : Store
one_bid = apply one_store store (added add_order)

apply-IsHighest-IsLowest_example :
    IsHighest one_bid.book one_bid.book.best_bid_idx
    × IsLowest one_bid.book one_bid.book.best_ask_idx
apply-IsHighest-IsLowest_example =
    apply-IsHighest-IsLowest store (added add_order) store-Refines.valid added-Legal
      (store-HasRoom, store-slot)

pub one_bid-IsValid : IsValid one_bid
one_bid-IsValid =
    (apply-Refines store (added add_order) store-Refines.valid added-Legal
      (store-HasRoom, store-slot)).valid

v3-best_bid_ask-IsTop_example : IsTop (view one_bid) (OrderBook.best_bid_ask one_bid.book)
v3-best_bid_ask-IsTop_example = v3-best_bid_ask-IsTop one_bid one_bid-IsValid

one_bid-HasRoom : HasRoom one_bid
unfolding OrderBook.add_order OrderBook.place_order OrderBook.link_order OrderBook.raise_best
    ObjectPool.allocate ObjectPool.new RefTable.new RefTable.insert RefTable.probe
    RefTable.probe_from RefTable.home RefTable.hash level_for set_base overflow_level in_window
    new_book mark
one_bid-HasRoom = (omega arith, omega arith)

level_for-Gives_example :
    Gives one_bid.book 1234567 (b'S' == b'B') (level_for one_bid.book 1234567 b'S')
level_for-Gives_example =
    level_for-Gives one_bid.book 1234567 b'S' one_bid-IsValid.keys (omega arith)
      (omega (arith, one_bid-HasRoom.1))

one_bid-slot : one_bid.pool.free_head ≢ k_null_idx
unfolding OrderBook.add_order OrderBook.place_order OrderBook.link_order ObjectPool.allocate
    ObjectPool.new ObjectPool.linked level_for in_window set_base new_book
one_bid-slot = omega arith

abbrev ask : AddOrder
ask = record add_order { order_ref = 70001; side = b'S'; price = 1010001 }

abbrev three : List Message
three = added add_order ∷ added ask ∷ executed order_executed ∷ []

three-LegalAll : LegalAll (λ ref. none) three
three-LegalAll =
    (add_order-Legal, ((omega arith, refl, omega arith, omega arith), (omega arith, tt)))

three-CoveredAll : CoveredAll (λ ref. none) three
three-CoveredAll = (tt, (tt, ((λ o e. ground (arith, e)), tt)))

v1_v3-agree_example :
    V1.best_bid_ask (apply_all one_book V1.empty_book three)
    ≡ OrderBook.best_bid_ask (apply_all one_store store three).book
v1_v3-agree_example =
    v1_v3-agree 3 2 three (omega arith) (omega arith) three-LegalAll three-CoveredAll
      ((store-HasRoom, store-slot), ((one_bid-HasRoom, one_bid-slot), (tt, tt)))
