-- ===== src/Feed/Agree.antt =====
-- v1 and v3 on the same feed.
use feed_handler.Spec.{IsTop, IsTop-unique}
use feed_handler.Spec.Messages.{LegalAll, CoveredAll}
use feed_handler.Prelude.{ℕ, suc, ◌^◌, ◌<◌, ◌≡◌, refl, sym, ◌∙◌, List, none, fun_ext}
use feed_handler.Map.{find}
use feed_handler.V1
use feed_handler.V1.Valid
use feed_handler.V1.View
use feed_handler.V1.Follow
use feed_handler.V3.BookState.{Store}
use feed_handler.V3.OrderBook
use feed_handler.V3.OrderBook.Steps.{one_store}
use feed_handler.V3.OrderBook.Valid.{IsValid, view}
use feed_handler.V3.OrderBook.Refine.{RoomAll, apply_all-Refines}
use feed_handler.V3.OrderBook.View.{v3-best_bid_ask-IsTop}
use feed_handler.V3.OrderBook.Start.{new_store, new_store-Refines}
use feed_handler.Wire.Message.{Message}
use feed_handler.Feed.Frames.{apply_all}
use feed_handler.Feed.Books.{one_book}

-- Two books with the same live orders.
agree_lem :
    (b : V1.OrderBook) (s : Store) (ms : List Message)
    → Valid.IsValid b
    → IsValid s
    → View.view b ≡ view s
    → LegalAll (view s) ms
    → CoveredAll (view s) ms
    → RoomAll s ms
    → V1.best_bid_ask (apply_all one_book b ms)
      ≡ OrderBook.best_bid_ask (apply_all one_store s ms).book
agree_lem b s ms vb vs same legal covered room =
    let one = Follow.follow_all-Refines b ms vb (rw same legal) (rw same covered) in
    let three = apply_all-Refines s ms vs legal room in
    let b' = apply_all one_book b ms in
    let s' = apply_all one_store s ms in
    let top : IsTop (view s') (V1.best_bid_ask b') =
      rw (three.orders_view, ← same, ← one.orders_view) (View.best_bid_ask-IsTop b' one.valid) in
    IsTop-unique (view s') (V1.best_bid_ask b') (OrderBook.best_bid_ask s'.book) top
      (v3-best_bid_ask-IsTop s' three.valid)

-- A new v1 book has no orders.
empty-view : View.view V1.empty_book ≡ (λ (ref : ℕ). none)
unfolding View.view find
empty-view = fun_ext (λ ref. refl)

-- From new books on, v1 and v3 report the same best prices after the same messages, if the feed uses no
-- reference number twice at a time nor the reserved one, keeps prices and shares to 32 bits and takes no
-- more shares from an order than it has, and if the v3 pool, table and levels have room.
pub v1_v3-agree :
    (n log : ℕ) (ms : List Message)
    → suc n < 2 ^ 32
    → 2 ^ suc log < 2 ^ 64
    → LegalAll (λ ref. none) ms
    → CoveredAll (λ ref. none) ms
    → RoomAll (new_store (suc n) (suc log)) ms
    → V1.best_bid_ask (apply_all one_book V1.empty_book ms)
      ≡ OrderBook.best_bid_ask (apply_all one_store (new_store (suc n) (suc log)) ms).book
v1_v3-agree n log ms slots table legal covered room =
    let start = new_store-Refines n log slots table in
    agree_lem V1.empty_book (new_store (suc n) (suc log)) ms Valid.empty_book-IsValid start.valid
      (empty-view ∙ sym start.orders_view) (rw start.orders_view legal)
      (rw start.orders_view covered) room
