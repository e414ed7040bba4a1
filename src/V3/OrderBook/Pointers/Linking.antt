-- ===== src/V3/OrderBook/Pointers/Linking.antt =====
-- What `link_order` writes, slot by slot and level by level.
use feed_handler.Prelude.{
  List, ℕ, ◌+◌, ◌%◌, ◌^◌, ◌<◌, ◌≡◌, ◌≢◌, true, false, length, if◌then◌else◌, ◌==◌, ◌!=◌, arith,
  Bool-cases, inl, inr, ==→ne, length-set,
}
use feed_handler.V3.RefTable.{k_null_idx}
use feed_handler.V3.ObjectPool.{PooledOrder, pooled}
use feed_handler.V3.BookState.{PriceLevel, Store, level, set_level, set_pooled}
use feed_handler.V3.ObjectPool.FreeList.{Avoids, IsFree}
use feed_handler.V3.Owned.{IsFree-set}
use feed_handler.V3.BookState.Frame.{SameKeys}
use feed_handler.V3.Links.Append.{IsAppended}
use feed_handler.V3.OrderBook.{raise_best, link_order}
use feed_handler.V3.OrderBook.Pointers.{links_of, pooled-set, level-set, levels-raise_best}

module _ (s : Store) (l o qty : ℕ) (slot : o < length s.pool.slots)
    (range : l < length s.book.levels)
    (tail : (level s.book l).tail_idx ≢ k_null_idx
      → (level s.book l).tail_idx < length s.pool.slots) where
  abbrev t : ℕ
  t = (level s.book l).tail_idx

  abbrev fresh : PooledOrder
  fresh = record { next_idx = k_null_idx; prev_idx = t; level_idx = l; qty = qty }

  pub pooled-link :
      (i : ℕ)
      → i ≢ k_null_idx
      → t ≢ o
      → pooled (link_order s l o qty).pool.slots i ≡ (
          if o == i
          then fresh
          else if t == i
          then record (pooled s.pool.slots i) { next_idx = o }
          else pooled s.pool.slots i)
  unfolding link_order
  pooled-link i real apart = elim (Bool-cases (t == k_null_idx)) [
    | inl e ↦ ground (arith, pooled-set s.pool.slots o i fresh slot)
    | inr e ↦
        let p = set_pooled s.pool o fresh in
        let y = record (pooled p.slots t) { next_idx = o } in
        let bound : t < length p.slots = rw length-set (tail (==→ne t k_null_idx e)) in
        let same : pooled p.slots t ≡ pooled s.pool.slots t =
          ground (arith, pooled-set s.pool.slots o t fresh slot) in
        ground (arith, pooled-set s.pool.slots o i fresh slot, pooled-set p.slots t i y bound)
  ]

  abbrev grown : PriceLevel
  grown = record {
    head_idx = if t != k_null_idx then (level s.book l).head_idx else o;
    tail_idx = o;
    total_qty = ((level s.book l).total_qty + qty) % 2 ^ 32;
    order_count = ((level s.book l).order_count + 1) % 2 ^ 32;
  }

  pub level-link :
      (k : ℕ) → level (link_order s l o qty).book k ≡ (if l == k then grown else level s.book k)
  unfolding link_order
  level-link k =
      rw (levels-raise_best (set_level s.book l grown) l) (level-set s.book.levels l k grown range)

  -- The order joins the end of the level's queue.
  pub link_order-IsAppended :
      t ≢ o
      → IsAppended
          (links_of s.pool s.book)
          (links_of (link_order s l o qty).pool (link_order s l o qty).book)
          o
          l
  link_order-IsAppended apart = record {
    nx_at = λ i real. rw (pooled-link i real apart) (ground arith);
    pv_at = λ i real. rw (pooled-link i real apart) (ground arith);
    lv_at = λ i real. rw (pooled-link i real apart) (ground arith);
    tl_at = λ k. rw (level-link k) (ground arith);
    hd_at = λ k. rw (level-link k) (ground arith);
  }

  pub qty-link :
      (i : ℕ)
      → i ≢ k_null_idx
      → t ≢ o
      → (pooled (link_order s l o qty).pool.slots i).qty
        ≡ (if o == i then qty else (pooled s.pool.slots i).qty)
  qty-link i real apart = rw (pooled-link i real apart) (ground arith)

  pub length-link : length (link_order s l o qty).pool.slots ≡ length s.pool.slots
  unfolding link_order
  length-link = elim (Bool-cases (t == k_null_idx)) [
    | inl e ↦ ground (arith, length-set s.pool.slots o fresh)
    | inr e ↦
        let p = set_pooled s.pool o fresh in
        let y = record (pooled p.slots t) { next_idx = o } in
        ground (arith, length-set s.pool.slots o fresh, length-set p.slots t y)
  ]

  -- The free list is not touched.
  pub link_order-IsFree :
      (free : List ℕ)
      → Avoids o free
      → (t ≢ k_null_idx → Avoids t free)
      → IsFree s.pool free
      → IsFree (link_order s l o qty).pool free
  unfolding link_order
  link_order-IsFree free off off_tail v =
      let p = set_pooled s.pool o fresh in
      let y = record (pooled p.slots t) { next_idx = o } in
      let first : IsFree p free = IsFree-set s.pool free o fresh off v in
      elim (Bool-cases (t == k_null_idx)) [
        | inl e ↦ let f : t != k_null_idx ≡ false = ground arith in rw f first
        | inr e ↦
            let f : t != k_null_idx ≡ true = ground arith in
            rw f (IsFree-set p free t y (off_tail (==→ne _ _ e)) first)
      ]

  pub link_order-SameKeys : SameKeys s.book (link_order s l o qty).book
  unfolding link_order raise_best
  link_order-SameKeys = record {
    base = ground arith;
    base_set = ground arith;
    overflow_bid = ground arith;
    overflow_ask = ground arith;
    overflow_side = ground arith;
    width = rw (levels-raise_best (set_level s.book l grown) l) (length-set s.book.levels l grown);
  }
