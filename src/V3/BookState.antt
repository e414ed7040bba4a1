-- ===== src/V3/BookState.antt =====
-- The state of include/v3/order_book.hpp, and the levels that prices have, from src/v3/order_book.cpp.
-- All books share a pool and a table, so a method takes a `Store`, which has both and the book that the
-- method is called on. A reference into the pool or the levels is an index.
pub mod Keys
pub mod Frame
pub mod Overflow
pub mod LevelFor
use feed_handler.Prelude.{
  ℕ, ◌+◌, ◌-◌, ◌*◌, ◌/◌, ◌%◌, ◌^◌, Bool, true, false, ◌&&◌, List, [], ◌∷◌, ◌++◌, Option, none, some,
  length, get_or, set, replicate, ltb, leb, ◌==◌, if◌then◌else◌,
}
use feed_handler.Map
use feed_handler.Map.{Map}
use feed_handler.V3.RefTable.{RefTable, k_null_idx}
use feed_handler.V3.ObjectPool.{PooledOrder, OrderPool}
use feed_handler.V3.Bitmap.{k_window, k_ask_base}

pub record PriceLevel : Type 0 where
  pub head_idx : ℕ
  pub tail_idx : ℕ
  pub total_qty : ℕ
  pub order_count : ℕ

-- `base` is `base_cents_+kWindow/2`, which is never negative, where the source has `base_cents_`. The
-- best indices are `none` where the source has -1.
pub record OrderBook : Type 0 where
  pub base : ℕ
  pub base_set : Bool
  pub levels : List PriceLevel
  pub overflow_bid : Map ℕ
  pub overflow_ask : Map ℕ
  pub overflow_side : List ℕ
  pub best_bid_idx : Option ℕ
  pub best_ask_idx : Option ℕ
  pub occupied : List ℕ

pub record Store : Type 0 where
  pub pool : OrderPool
  pub refs : RefTable
  pub book : OrderBook

abbrev pub empty_level : PriceLevel
empty_level = record {
  head_idx = k_null_idx;
  tail_idx = k_null_idx;
  total_qty = 0;
  order_count = 0;
}

-- The constructor.
unfoldable pub new_book : OrderBook
new_book = record {
  base = k_window / 2 - 1;
  base_set = false;
  levels = replicate (2 * k_window) empty_level;
  overflow_bid = [];
  overflow_ask = [];
  overflow_side = [];
  best_bid_idx = none;
  best_ask_idx = none;
  occupied = replicate 32 0;
}

-- `levels_[level_idx]`
abbrev pub level : OrderBook → ℕ → PriceLevel
level b level_idx = get_or b.levels level_idx empty_level

abbrev pub set_level : OrderBook → ℕ → PriceLevel → OrderBook
set_level b level_idx l = record b { levels = set b.levels level_idx l }

-- `pool_[idx]` on the left of an assignment.
abbrev pub set_pooled : OrderPool → ℕ → PooledOrder → OrderPool
set_pooled p idx o = record p { slots = set p.slots idx o }

unfoldable pub side_of : OrderBook → ℕ → ℕ
side_of b level_idx =
    if ltb level_idx k_ask_base
    then b'B'
    else if ltb level_idx (2 * k_window)
    then b'S'
    else get_or b.overflow_side (level_idx - 2 * k_window) 0

-- `static_cast<uint32_t>((base_cents_+off)*100)`
abbrev pub window_price : OrderBook → ℕ → ℕ
window_price b off = (b.base + off + 2 ^ 64 - k_window / 2) * 100 % 2 ^ 32

-- The key of the first entry with this level.
unfoldable pub key_of : Map ℕ → ℕ → ℕ
key_of [] level_idx = 0
key_of ((price, idx) ∷ m) level_idx = if idx == level_idx then price else key_of m level_idx

unfoldable pub price_of : OrderBook → ℕ → ℕ
price_of b level_idx =
    if ltb level_idx k_ask_base
    then window_price b level_idx
    else if ltb level_idx (2 * k_window)
    then window_price b (level_idx - k_ask_base)
    else key_of (if side_of b level_idx == b'B' then b.overflow_bid else b.overflow_ask) level_idx

-- The part of `level_for` for a price outside the window, or not in whole cents.
unfoldable pub overflow_level : OrderBook → ℕ → ℕ → ℕ × OrderBook
overflow_level b price side =
    let overflow = if side == b'B' then b.overflow_bid else b.overflow_ask in
    let idx = length b.levels % 2 ^ 32 in
    let grown = Map.insert price idx overflow in
    elim (Map.find price overflow) [
      | some idx ↦ (idx, b)
      | none ↦ (
        idx,
        record b {
          levels = b.levels ++ empty_level ∷ [];
          overflow_side = b.overflow_side ++ side ∷ [];
          overflow_bid = if side == b'B' then grown else b.overflow_bid;
          overflow_ask = if side == b'B' then b.overflow_ask else grown;
        },
      )
    ]

-- The first order of a book sets its price window.
unfoldable pub set_base : OrderBook → ℕ → OrderBook
set_base b price = if b.base_set then b else record b { base = price / 100; base_set = true }

-- `0<=off&&off<kWindow` for `off` of `price/100-base_cents_`.
unfoldable pub in_window : OrderBook → ℕ → Bool
in_window b price =
    price % 100 == 0
    && (leb b.base (price / 100 + k_window / 2)
        && ltb (price / 100 + k_window / 2 - b.base) k_window)

unfoldable pub level_for : OrderBook → ℕ → ℕ → ℕ × OrderBook
level_for b0 price side =
    let b = set_base b0 price in
    let off = price / 100 + k_window / 2 - b.base in
    if in_window b price
    then (if side == b'B' then off else k_ask_base + off, b)
    else overflow_level b price side
