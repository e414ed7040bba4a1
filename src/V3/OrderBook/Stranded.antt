-- ===== src/V3/OrderBook/Stranded.antt =====
-- An order that v3 adds while its table is half full.
use feed_handler.Prelude.{
  ℕ, ◌*◌, ◌^◌, ◌≤◌, ◌<◌, ◌≡◌, ◌≢◌, refl, List, [], ◌∷◌, ◌++◌, none, length, ◌==◌, if◌then◌else◌,
  arith, ne→==, eq→==,
}
use feed_handler.V3.RefTable
use feed_handler.V3.RefTable.{RefTable, k_empty, k_null_idx}
use feed_handler.V3.BookState.{Store, level_for}
use feed_handler.V3.Owned.{allocate-Takes}
use feed_handler.V3.OrderBook.{link_order, place_order, take_shares, add_order, delete_order}
use feed_handler.V3.OrderBook.Valid.{IsValid, view}
use feed_handler.V3.OrderBook.Placed.{missing-view}
use feed_handler.V3.OrderBook.Queues.{Queue, add_order-Queue_lem}
use feed_handler.Wire.AddOrder.{AddOrder}
use feed_handler.Wire.OrderDelete.{OrderDelete}

insert-half_full :
    (t : RefTable) (key value : ℕ) → length t.slots ≤ t.size * 2 → RefTable.insert t key value ≡ t
unfolding RefTable.insert
insert-half_full t key value full = ground arith

module _ (s : Store) (m : AddOrder) (v : IsValid s) where
  add_order-refs :
      length s.refs.slots ≤ s.refs.size * 2
      → s.pool.free_head ≢ k_null_idx
      → (add_order s m).refs ≡ s.refs
  unfolding add_order place_order link_order
  add_order-refs full slot =
      let a = allocate-Takes s.pool v.free v.owned.pool slot in
      rw (a.result, ne→== a.o k_null_idx a.real) (insert-half_full s.refs m.order_ref a.o full)

  lost_reference :
      length s.refs.slots ≤ s.refs.size * 2
      → s.pool.free_head ≢ k_null_idx
      → m.order_ref ≢ k_empty
      → view s m.order_ref ≡ none
      → RefTable.find (add_order s m).refs m.order_ref ≡ k_null_idx
  lost_reference full slot fine new =
      rw (add_order-refs full slot) (missing-view s m.order_ref fine new)

-- On a valid store that has a free slot and fewer than 2 ^ 32 levels but a table that is at least
-- half full, an add-order message with a price and shares of 32 bits and a reference number that is
-- not in use and not the reserved one puts its order at the end of its level's queue all the same.
-- But no execution or cancellation of any number of shares and no delete message with its reference
-- number that comes next changes anything.
pub add_order-half_full :
    (s : Store) (m : AddOrder)
    → IsValid s
    → length s.refs.slots ≤ s.refs.size * 2
    → length s.book.levels < 2 ^ 32
    → s.pool.free_head ≢ k_null_idx
    → m.order_ref ≢ k_empty
    → view s m.order_ref ≡ none
    → m.price < 2 ^ 32
    → m.shares < 2 ^ 32
    → ((l : ℕ) (q : List ℕ)
        → Queue s l q
        → Queue
            (add_order s m)
            l
            (if (level_for s.book m.price m.side).0 == l then q ++ s.pool.free_head ∷ [] else q))
      × ((n : ℕ) → take_shares (add_order s m) m.order_ref n ≡ add_order s m)
      × ((d : OrderDelete)
          → d.order_ref ≡ m.order_ref
          → delete_order (add_order s m) d ≡ add_order s m)
unfolding take_shares delete_order
add_order-half_full s m v full few slot fine new fits small =
    let lost = eq→== _ _ (lost_reference s m v full slot fine new) in
    (add_order-Queue_lem s m v few slot fits small, λ n. rw lost refl, λ d e. rw (e, lost) refl)
