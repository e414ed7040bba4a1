-- ===== src/V3/OrderBook/Pointers/Unlinking.antt =====
-- What `unlink_order` writes, slot by slot and level by level.
use feed_handler.Prelude.{
  List, ℕ, ◌+◌, ◌-◌, ◌%◌, ◌^◌, ◌<◌, ◌≡◌, ◌≢◌, refl, Bool, true, false, length, if◌then◌else◌, ◌==◌,
  ◌!=◌, arith, Bool-cases, inl, inr, ==→ne, length-set,
}
use feed_handler.V3.RefTable.{k_null_idx}
use feed_handler.V3.ObjectPool.{PooledOrder, OrderPool, pooled}
use feed_handler.V3.BookState.{PriceLevel, OrderBook, Store, level, set_level, set_pooled}
use feed_handler.V3.ObjectPool.FreeList.{Avoids, IsFree}
use feed_handler.V3.Owned.{IsFree-set}
use feed_handler.V3.BookState.Frame.{SameKeys}
use feed_handler.V3.Links.Detach.{IsDetached}
use feed_handler.V3.OrderBook.{settle, lower_best, rescan_best, unlink_order}
use feed_handler.V3.OrderBook.Pointers.{links_of, pooled-set, level-set, levels-settle}

-- The bitmap and the best indices are apart from the keys.
settle-SameKeys :
    (a b : OrderBook) (emptied : Bool) (l : ℕ) → SameKeys a b → SameKeys a (settle b emptied l)
unfolding settle lower_best rescan_best
settle-SameKeys a b false l e = e
settle-SameKeys a b true l e = record {
  base = ground (arith, e.base);
  base_set = ground (arith, e.base_set);
  overflow_bid = ground (arith, e.overflow_bid);
  overflow_ask = ground (arith, e.overflow_ask);
  overflow_side = ground (arith, e.overflow_side);
  width = ground (arith, e.width);
}

module _ (s : Store) (o : ℕ) (slot : o < length s.pool.slots)
    (range : (pooled s.pool.slots o).level_idx < length s.book.levels)
    (prev : (pooled s.pool.slots o).prev_idx ≢ k_null_idx
      → ((pooled s.pool.slots o).prev_idx < length s.pool.slots)
        × (o ≢ (pooled s.pool.slots o).prev_idx))
    (next : (pooled s.pool.slots o).next_idx ≢ k_null_idx
      → ((pooled s.pool.slots o).next_idx < length s.pool.slots)
        × (o ≢ (pooled s.pool.slots o).next_idx)) where
  abbrev x : PooledOrder
  x = pooled s.pool.slots o

  abbrev p1 : OrderPool
  p1 =
      if x.prev_idx != k_null_idx
      then set_pooled s.pool x.prev_idx
          (record (pooled s.pool.slots x.prev_idx) { next_idx = x.next_idx })
      else s.pool

  pooled-p1 :
      (i : ℕ)
      → i ≢ k_null_idx
      → pooled p1.slots i ≡ (
          if x.prev_idx == i
          then record (pooled s.pool.slots i) { next_idx = x.next_idx }
          else pooled s.pool.slots i)
  pooled-p1 i real = elim (Bool-cases (x.prev_idx == k_null_idx)) [
    | inl e ↦ ground arith
    | inr e ↦
        let y = record (pooled s.pool.slots x.prev_idx) { next_idx = x.next_idx } in
        ground (arith, pooled-set s.pool.slots x.prev_idx i y (prev (==→ne _ _ e)).0)
  ]

  length-p1 : length p1.slots ≡ length s.pool.slots
  length-p1 =
      let y = record (pooled s.pool.slots x.prev_idx) { next_idx = x.next_idx } in
      ground (arith, length-set s.pool.slots x.prev_idx y)

  own-p1 : o ≢ k_null_idx → pooled p1.slots o ≡ x
  own-p1 real = ground (arith, pooled-p1 o real, prev)

  -- The slot after the unlinking.
  abbrev unlinked : ℕ → PooledOrder
  unlinked i = record {
    next_idx = if x.prev_idx == i then x.next_idx else (pooled s.pool.slots i).next_idx;
    prev_idx = if x.next_idx == i then x.prev_idx else (pooled s.pool.slots i).prev_idx;
    qty = (pooled s.pool.slots i).qty;
    level_idx = (pooled s.pool.slots i).level_idx;
  }

  pub pooled-unlink :
      (i : ℕ)
      → o ≢ k_null_idx
      → i ≢ k_null_idx
      → pooled (unlink_order s o).pool.slots i ≡ unlinked i
  unfolding unlink_order
  pooled-unlink i here real =
      let own = own-p1 here in
      elim (Bool-cases (x.next_idx == k_null_idx)) [
        | inl e ↦ ground (arith, pooled-p1 i real)
        | inr e ↦
            let y = record (pooled p1.slots x.next_idx) { prev_idx = x.prev_idx } in
            let bound : x.next_idx < length p1.slots = rw length-p1 (next (==→ne _ _ e)).0 in
            ground (arith, pooled-p1 i real, pooled-set p1.slots x.next_idx i y bound)
      ]

  pub length-unlink : length (unlink_order s o).pool.slots ≡ length s.pool.slots
  unfolding unlink_order
  length-unlink =
      let nx = (pooled p1.slots o).next_idx in
      let y = record (pooled p1.slots nx) { prev_idx = (pooled p1.slots o).prev_idx } in
      ground (arith, length-p1, length-set p1.slots nx y)

  abbrev head : ℕ
  head = if x.prev_idx != k_null_idx then (level s.book x.level_idx).head_idx else x.next_idx

  abbrev o1 : PooledOrder
  o1 = pooled p1.slots o

  abbrev p2 : OrderPool
  p2 =
      if o1.next_idx != k_null_idx
      then set_pooled p1 o1.next_idx
          (record (pooled p1.slots o1.next_idx) { prev_idx = o1.prev_idx })
      else p1

  abbrev shrunk : PriceLevel
  shrunk = record {
    head_idx = head;
    tail_idx =
        if o1.next_idx != k_null_idx then (level s.book x.level_idx).tail_idx else o1.prev_idx;
    total_qty = ((level s.book x.level_idx).total_qty + 2 ^ 32 - (pooled p2.slots o).qty) % 2 ^ 32;
    order_count = ((level s.book x.level_idx).order_count + 2 ^ 32 - 1) % 2 ^ 32;
  }

  pub level-unlink :
      (k : ℕ)
      → level (unlink_order s o).book k ≡ (if x.level_idx == k then shrunk else level s.book k)
  unfolding unlink_order
  level-unlink k =
      rw (levels-settle (set_level s.book x.level_idx shrunk) (head == k_null_idx) x.level_idx)
        (level-set s.book.levels x.level_idx k shrunk range)

  -- The order leaves its queue.
  pub unlink_order-IsDetached :
      (live : ℕ → Bool)
      → ((i : ℕ) → live i ≡ true → i ≢ k_null_idx)
      → live o ≡ true
      → IsDetached
          (links_of s.pool s.book)
          (links_of (unlink_order s o).pool (unlink_order s o).book)
          live
          o
  unlink_order-IsDetached live not_null on =
      let here = not_null o on in
      let own = own-p1 here in
      record {
        nx_at = λ i h _. rw (pooled-unlink i here (not_null i h)) refl;
        pv_at = λ i h _. rw (pooled-unlink i here (not_null i h)) refl;
        lv_at = λ i h _. rw (pooled-unlink i here (not_null i h)) refl;
        hd_at = λ k. rw (level-unlink k) (ground arith);
        tl_at = λ k. rw (level-unlink k) (ground arith);
      }

  -- The free list is not touched.
  pub unlink_order-IsFree :
      (free : List ℕ)
      → o ≢ k_null_idx
      → (x.prev_idx ≢ k_null_idx → Avoids x.prev_idx free)
      → (x.next_idx ≢ k_null_idx → Avoids x.next_idx free)
      → IsFree s.pool free
      → IsFree (unlink_order s o).pool free
  unfolding unlink_order
  unlink_order-IsFree free here off_prev off_next v =
      let y = record (pooled s.pool.slots x.prev_idx) { next_idx = x.next_idx } in
      let first : IsFree p1 free = elim (Bool-cases (x.prev_idx == k_null_idx)) [
        | inl e ↦ let f : x.prev_idx != k_null_idx ≡ false = ground arith in rw f v
        | inr e ↦
            let f : x.prev_idx != k_null_idx ≡ true = ground arith in
            rw f (IsFree-set s.pool free x.prev_idx y (off_prev (==→ne _ _ e)) v)
      ] in
      let own = own-p1 here in
      let z = record (pooled p1.slots o1.next_idx) { prev_idx = o1.prev_idx } in
      elim (Bool-cases (o1.next_idx == k_null_idx)) [
        | inl e ↦ let f : o1.next_idx != k_null_idx ≡ false = ground arith in rw f first
        | inr e ↦
            let f : o1.next_idx != k_null_idx ≡ true = ground arith in
            let ne : x.next_idx ≢ k_null_idx = rw (← own) (==→ne _ _ e) in
            let off : Avoids o1.next_idx free = rw own (off_next ne) in
            rw f (IsFree-set p1 free o1.next_idx z off first)
      ]

  pub unlink_order-SameKeys : SameKeys s.book (unlink_order s o).book
  unfolding unlink_order
  unlink_order-SameKeys =
      settle-SameKeys s.book (set_level s.book x.level_idx shrunk) (head == k_null_idx) x.level_idx
        (record {
          base = refl;
          base_set = refl;
          overflow_bid = refl;
          overflow_ask = refl;
          overflow_side = refl;
          width = length-set s.book.levels x.level_idx shrunk;
        })
