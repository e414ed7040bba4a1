-- ===== src/V3/OrderBook/Queues.antt =====
-- The queues of a valid book under the messages: orders of one price are served in order of arrival.
use feed_handler.Prelude.{
  ℕ, ◌^◌, ◌<◌, ◌≡◌, ◌≢◌, refl, sym, Bool, true, false, leb, leb→gt, subst, length, List, [], ◌∷◌,
  ◌++◌, ◌==◌, if◌then◌else◌, Bool-cases, inl, inr, ==→eq, ==→ne, ne→==,
}
use feed_handler.V3.RefTable
use feed_handler.V3.RefTable.{k_empty, k_null_idx}
use feed_handler.V3.ObjectPool.{pooled}
use feed_handler.V3.Links.{Links}
use feed_handler.V3.OrderBook.Reducing.{same_links}
use feed_handler.V3.BookState.{Store, level_for}
use feed_handler.V3.BookState.LevelFor.{level_for-Gives, level_for-base_set}
use feed_handler.V3.Links.Chain.{IsQueue, without, IsDetached-IsQueue, without-k_null_idx}
use feed_handler.V3.Owned.{allocate-Takes}
use feed_handler.V3.OrderBook.{
  link_order, drop_order, place_order, add_order, delete_order, take_shares,
}
use feed_handler.V3.OrderBook.Pointers.{links_of}
use feed_handler.V3.OrderBook.Valid.{IsValid}
use feed_handler.V3.OrderBook.Placed.{HasRoom}
use feed_handler.V3.OrderBook.Placing.{appended-IsQueue}
use feed_handler.V3.OrderBook.Dropping.{released}
use feed_handler.Wire.AddOrder.{AddOrder}
use feed_handler.Wire.OrderDelete.{OrderDelete}

-- The slots of the level's orders, the first to be served in front.
abbrev pub Queue : Store → ℕ → List ℕ → Type 0
Queue s l q = IsQueue (links_of s.pool s.book) l q

-- The same whether or not the table has room.
pub add_order-Queue_lem :
    (s : Store) (m : AddOrder)
    → IsValid s
    → length s.book.levels < 2 ^ 32
    → s.pool.free_head ≢ k_null_idx
    → m.price < 2 ^ 32
    → m.shares < 2 ^ 32
    → (l : ℕ) (q : List ℕ) → Queue s l q
    → Queue
        (add_order s m)
        l
        (if (level_for s.book m.price m.side).0 == l then q ++ s.pool.free_head ∷ [] else q)
unfolding add_order place_order link_order
add_order-Queue_lem s m v few slot fits small l q h =
    let a = allocate-Takes s.pool v.free v.owned.pool slot in
    let (k, b) = level_for s.book m.price m.side in
    let g = level_for-Gives s.book m.price m.side v.keys fits few in
    let set = level_for-base_set s.book m.price m.side in
    let queue =
      appended-IsQueue s v a.o a.rest a.split a.left a.alike a.still m.price m.side m.shares small k
        b g set l q h in
    rw (a.result, ne→== a.o k_null_idx a.real, a.first) queue

-- On a valid store with room and a free slot, an add-order message with a price and shares of 32 bits
-- puts its order behind all others of its level, and the queues of all other levels stay as they are.
pub add_order-Queue :
    (s : Store) (m : AddOrder)
    → IsValid s
    → HasRoom s
    → s.pool.free_head ≢ k_null_idx
    → m.price < 2 ^ 32
    → m.shares < 2 ^ 32
    → (l : ℕ) (q : List ℕ) → Queue s l q
    → Queue
        (add_order s m)
        l
        (if (level_for s.book m.price m.side).0 == l then q ++ s.pool.free_head ∷ [] else q)
add_order-Queue s m v room = add_order-Queue_lem s m v room.1

-- On a valid store, a delete message whose reference number is not the reserved one takes its order out
-- of its queue, wherever it stands, and the others keep their order; all other queues stay as they are,
-- and if the reference number is not in the table, all do.
pub delete_order-Queue :
    (s : Store) (m : OrderDelete)
    → IsValid s
    → m.order_ref ≢ k_empty
    → (l : ℕ) (q : List ℕ) → Queue s l q
    → Queue (delete_order s m) l (without (RefTable.find s.refs m.order_ref) q)
unfolding delete_order drop_order
delete_order-Queue s m v fine l q h =
    let o = RefTable.find s.refs m.order_ref in
    elim (Bool-cases (o == k_null_idx)) [
      | inl z ↦
          let same = without-k_null_idx (links_of s.pool s.book) _ q h in
          rw (z, ==→eq o k_null_idx z, same) h
      | inr z ↦
          let (on, mine) = v.owned.named m.order_ref fine (==→ne _ _ z) in
          rw z (
            IsDetached-IsQueue (links_of s.pool s.book) _ v.live v.stamp v.clock o l v.linked on
              (released s v o on) l q h)
    ]

-- On a valid store, an execution or a cancellation of fewer shares than the order has leaves it where
-- it stands in its queue; one of all its shares or more takes it out, and the others keep their order.
pub take_shares-Queue :
    (s : Store) (ref n : ℕ)
    → IsValid s
    → ref ≢ k_empty
    → (l : ℕ) (q : List ℕ) → Queue s l q
    → Queue (take_shares s ref n) l (
        let o = RefTable.find s.refs ref in
        if leb (pooled s.pool.slots o).qty n then without o q else q)
unfolding take_shares drop_order
take_shares-Queue s ref n v fine l q h =
    let o = RefTable.find s.refs ref in
    elim (Bool-cases (o == k_null_idx)) [
      | inl z ↦
          let same = without-k_null_idx (links_of s.pool s.book) _ q h in
          let kept : (if leb (pooled s.pool.slots o).qty n then without o q else q) ≡ q =
            rw (==→eq o k_null_idx z, same) (both (leb (pooled s.pool.slots k_null_idx).qty n) q) in
          rw (z, kept) h
      | inr z ↦
          let (on, mine) = v.owned.named ref fine (==→ne _ _ z) in
          elim (Bool-cases (leb (pooled s.pool.slots o).qty n)) [
            | inl all ↦
                rw (z, all)
                  (IsDetached-IsQueue (links_of s.pool s.book) _ v.live v.stamp v.clock o l v.linked
                    on (released s v o on) l q h)
            | inr some_left ↦
                let same = same_links s v o on n (leb→gt _ n some_left) in
                rw (z, some_left) (subst (λ (c : Links). IsQueue c l q) (sym same) h)
          ]
    ]
  where
    both : (b : Bool) (q : List ℕ) → (if b then q else q) ≡ q
    both true q = refl
    both false q = refl
