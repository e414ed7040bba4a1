-- ===== src/V3/OrderBook.antt =====
-- src/v3/order_book.cpp: the methods of the optimised book. Each write through a reference into the pool
-- or the levels is a write to the list.
pub mod Best
pub mod Indices
pub mod Steps
pub mod Fronts
pub mod Stranded
pub mod Pointers
pub mod Valid
pub mod Placing
pub mod Placed
pub mod Dropping
pub mod Reducing
pub mod Queues
pub mod Refine
pub mod Start
pub mod Tops
pub mod View
use feed_handler.Prelude.{
  ℕ, suc, ◌+◌, ◌-◌, ◌*◌, ◌/◌, ◌%◌, ◌^◌, Bool, true, false, ◌&&◌, ◌||◌, not, List, [], ◌∷◌, ◌++◌,
  Option, none, some, length, get_or, set, replicate, ltb, leb, ◌==◌, ◌!=◌, if◌then◌else◌, ◌>>=◌,
}
use feed_handler.Map
use feed_handler.Map.{Map}
use feed_handler.V3.RefTable
use mathlib.Core.Option.{map}
use feed_handler.V3.RefTable.{RefTable, k_null_idx}
use feed_handler.V3.ObjectPool.{PooledOrder, OrderPool, pooled, allocate, release}
use feed_handler.V3.Bitmap.{k_window, k_ask_base, mark, unmark, find_prev_set, find_next_set}
use feed_handler.Wire.AddOrder.{AddOrder}
use feed_handler.Wire.OrderExecuted.{OrderExecuted}
use feed_handler.Wire.OrderCancel.{OrderCancel}
use feed_handler.Wire.OrderDelete.{OrderDelete}
use feed_handler.Wire.OrderReplace.{OrderReplace}
use feed_handler.V3.BookState.{
  PriceLevel, OrderBook, Store, empty_level, new_book, level, set_level, set_pooled, side_of,
  window_price, key_of, price_of, overflow_level, set_base, in_window, level_for,
}

-- The bitmap and the best indices after an order has been linked into the level.
unfoldable pub raise_best : OrderBook → ℕ → OrderBook
raise_best b level_idx =
    let marked = record b {
      occupied = if ltb level_idx (2 * k_window) then mark b.occupied level_idx else b.occupied;
    } in
    if ltb level_idx k_ask_base
    then record marked {
      best_bid_idx = elim b.best_bid_idx [
        | none ↦ some level_idx
        | some best ↦ if ltb best level_idx then some level_idx else some best
      ];
    }
    else if ltb level_idx (2 * k_window)
    then record marked {
      best_ask_idx = elim b.best_ask_idx [
        | none ↦ some level_idx
        | some best ↦ if ltb level_idx best then some level_idx else some best
      ];
    }
    else marked

unfoldable pub link_order : Store → ℕ → ℕ → ℕ → Store
link_order s level_idx order_idx qty =
    let l = level s.book level_idx in
    let p =
      set_pooled s.pool order_idx (record {
        next_idx = k_null_idx;
        prev_idx = l.tail_idx;
        level_idx = level_idx;
        qty = qty;
      }) in
    let p' =
      if l.tail_idx != k_null_idx
      then set_pooled p l.tail_idx (record (pooled p.slots l.tail_idx) { next_idx = order_idx })
      else p in
    let l' : PriceLevel = record {
      head_idx = if l.tail_idx != k_null_idx then l.head_idx else order_idx;
      tail_idx = order_idx;
      total_qty = (l.total_qty + qty) % 2 ^ 32;
      order_count = (l.order_count + 1) % 2 ^ 32;
    } in
    record s { pool = p'; book = raise_best (set_level s.book level_idx l') level_idx }

-- `rescan_best('B')` and `rescan_best('S')`
unfoldable pub rescan_best : OrderBook → Bool → OrderBook
rescan_best b true = record b { best_bid_idx = find_prev_set b.occupied b.best_bid_idx }
rescan_best b false = record b { best_ask_idx = find_next_set b.occupied b.best_ask_idx }

-- `static_cast<int32_t>(level_idx)==best`
abbrev pub is_best : ℕ → Option ℕ → Bool
is_best level_idx best = elim best [ none ↦ false | some idx ↦ level_idx == idx ]

-- What `unlink_order` does when the level has become empty.
unfoldable pub lower_best : OrderBook → ℕ → OrderBook
lower_best b level_idx =
    let b1 = record b {
      occupied = if ltb level_idx (2 * k_window) then unmark b.occupied level_idx else b.occupied;
    } in
    let b2 = if is_best level_idx b1.best_bid_idx then rescan_best b1 true else b1 in
    if is_best level_idx b2.best_ask_idx then rescan_best b2 false else b2

-- `if(lvl.head_idx==kNullIdx){...}`
unfoldable pub settle : OrderBook → Bool → ℕ → OrderBook
settle b emptied level_idx = if emptied then lower_best b level_idx else b

unfoldable pub unlink_order : Store → ℕ → Store
unlink_order s order_idx =
    let level_idx = (pooled s.pool.slots order_idx).level_idx in
    let l = level s.book level_idx in
    let o = pooled s.pool.slots order_idx in
    let p1 =
      if o.prev_idx != k_null_idx
      then set_pooled s.pool o.prev_idx
          (record (pooled s.pool.slots o.prev_idx) { next_idx = o.next_idx })
      else s.pool in
    let o1 = pooled p1.slots order_idx in
    let head = if o.prev_idx != k_null_idx then l.head_idx else o.next_idx in
    let p2 =
      if o1.next_idx != k_null_idx
      then set_pooled p1 o1.next_idx
          (record (pooled p1.slots o1.next_idx) { prev_idx = o1.prev_idx })
      else p1 in
    let o2 = pooled p2.slots order_idx in
    let l' : PriceLevel = record {
      head_idx = head;
      tail_idx = if o1.next_idx != k_null_idx then l.tail_idx else o1.prev_idx;
      total_qty = (l.total_qty + 2 ^ 32 - o2.qty) % 2 ^ 32;
      order_count = (l.order_count + 2 ^ 32 - 1) % 2 ^ 32;
    } in
    let b = set_level s.book level_idx l' in
    record s { pool = p2; book = settle b (head == k_null_idx) level_idx }

-- `unlink_order(idx); pool_.release(idx); refs_.erase(ref);`
unfoldable pub drop_order : Store → ℕ → ℕ → Store
drop_order s ref idx =
    let s' = unlink_order s idx in
    record s' { pool = release s'.pool idx; refs = RefTable.erase s'.refs ref }

-- The tail that `add_order` and `replace_order` have in common.
unfoldable pub place_order : Store → ℕ → ℕ → ℕ → ℕ → Store
place_order s ref side price qty =
    let (idx, p) = allocate s.pool in
    let (level_idx, b) = level_for s.book price side in
    let s' = link_order (record s { pool = p; book = b }) level_idx idx qty in
    if idx == k_null_idx then s else record s' { refs = RefTable.insert s'.refs ref idx }

unfoldable pub add_order : Store → AddOrder → Store
add_order s m = place_order s m.order_ref m.side m.price m.shares

-- The common body of `execute_order` and `cancel_order`.
unfoldable pub take_shares : Store → ℕ → ℕ → Store
take_shares s ref n =
    let idx = RefTable.find s.refs ref in
    let o = pooled s.pool.slots idx in
    let l = level s.book o.level_idx in
    if idx == k_null_idx then s else if leb o.qty n then drop_order s ref idx else record s {
      book =
          set_level s.book o.level_idx
            (record l { total_qty = (l.total_qty + 2 ^ 32 - n) % 2 ^ 32 });
      pool = set_pooled s.pool idx (record o { qty = (o.qty + 2 ^ 32 - n) % 2 ^ 32 });
    }

unfoldable pub execute_order : Store → OrderExecuted → Store
execute_order s m = take_shares s m.order_ref m.executed_shares

unfoldable pub cancel_order : Store → OrderCancel → Store
cancel_order s m = take_shares s m.order_ref m.canceled_shares

unfoldable pub delete_order : Store → OrderDelete → Store
delete_order s m =
    let idx = RefTable.find s.refs m.order_ref in
    if idx == k_null_idx then s else drop_order s m.order_ref idx

unfoldable pub replace_order : Store → OrderReplace → Store
replace_order s m =
    let idx = RefTable.find s.refs m.original_order_ref in
    let side = side_of s.book (pooled s.pool.slots idx).level_idx in
    if idx == k_null_idx
    then s
    else place_order (drop_order s m.original_order_ref idx) m.new_order_ref side m.price m.shares

-- The highest price of an overflow map whose level is not empty, and the lowest one.
unfoldable pub last_live : OrderBook → Map ℕ → Option ℕ
last_live b [] = none
last_live b ((price, idx) ∷ m) = elim (last_live b m) [
  | some p ↦ some p
  | none ↦ if (level b idx).head_idx != k_null_idx then some price else none
]

unfoldable pub first_live : OrderBook → Map ℕ → Option ℕ
first_live b [] = none
first_live b ((price, idx) ∷ m) =
    let rest = first_live b m in if (level b idx).head_idx != k_null_idx then some price else rest

-- The better of the window's best price and the overflow's, by `better overflow window`.
unfoldable pub pick : (ℕ → ℕ → Bool) → Option ℕ → Option ℕ → Option ℕ
pick better none overflow = overflow
pick better (some price) none = some price
pick better (some price) (some other) = if better other price then some other else some price

unfoldable pub best_bid_ask : OrderBook → Option (ℕ × ℕ)
best_bid_ask b = do
  bid ← pick (λ p q. ltb q p) (map (price_of b) b.best_bid_idx) (last_live b b.overflow_bid)
  ask ← pick ltb (map (price_of b) b.best_ask_idx) (first_live b b.overflow_ask)
  some (bid, ask)
