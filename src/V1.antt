-- ===== src/V1.antt =====
-- include/v1/order_book.hpp and src/v1/order_book.cpp: the baseline book on `std::map` and
-- `std::list`. A list node lives at an address, its index among the nodes ever made; an iterator is
-- the address, a level the list of its nodes' addresses. A node that is erased is not used again.
pub mod Levels
pub mod Valid
pub mod Push
pub mod View
pub mod Follow
pub mod Changes
pub mod Refine
pub mod Take
pub mod Excess
use feed_handler.Prelude.{
  ℕ, suc, ◌+◌, ◌-◌, ◌%◌, ◌^◌, Bool, true, false, List, [], ◌∷◌, ◌++◌, Option, none, some, length,
  get_or, set, ◌==◌, if◌then◌else◌, ◌>>=◌,
}
use feed_handler.Map.{Map, find, insert, erase, first?, last?}
use feed_handler.Wire.AddOrder.{AddOrder}
use feed_handler.Wire.OrderExecuted.{OrderExecuted}
use feed_handler.Wire.OrderCancel.{OrderCancel}
use feed_handler.Wire.OrderDelete.{OrderDelete}
use feed_handler.Wire.OrderReplace.{OrderReplace}

pub record RestingOrder : Type 0 where
  pub ref : ℕ
  pub side : ℕ
  pub price : ℕ
  pub shares : ℕ

pub record OrderLocator : Type 0 where
  pub side : ℕ
  pub price : ℕ
  pub it : ℕ

pub record OrderBook : Type 0 where
  pub nodes : List RestingOrder
  pub bids : Map (List ℕ)
  pub asks : Map (List ℕ)
  pub ref_index : Map OrderLocator

abbrev pub empty_book : OrderBook
empty_book = record { nodes = []; bids = []; asks = []; ref_index = [] }

-- What a read through a dangling iterator would give; no valid book makes such a read.
abbrev pub no_order : RestingOrder
no_order = record { ref = 0; side = 0; price = 0; shares = 0 }

-- `*it`
abbrev pub node : OrderBook → ℕ → RestingOrder
node b it = get_or b.nodes it no_order

abbrev pub is_bid : ℕ → Bool
is_bid side = side == b'B'

-- `(side == 'B') ? bids_ : asks_`
abbrev pub levels : OrderBook → Bool → Map (List ℕ)
levels b true = b.bids
levels b false = b.asks

abbrev pub with_levels : OrderBook → Bool → Map (List ℕ) → OrderBook
with_levels b s m = record b { bids = if s then m else b.bids; asks = if s then b.asks else m }

-- `level.erase(it)`
unfoldable pub unlink : ℕ → List ℕ → List ℕ
unlink it [] = []
unlink it (a ∷ as') = if a == it then as' else a ∷ unlink it as'

-- `levels[price]`, which makes an empty list for a new price.
abbrev pub level_at : Map (List ℕ) → ℕ → List ℕ
level_at m price = elim (find price m) [ none ↦ [] | some level ↦ level ]

-- The node leaves its level, and a level that is left empty is erased. A `find` that missed would
-- make the source go through `levels.end()`; no valid book does so.
unfoldable pub trim : Map (List ℕ) → ℕ → ℕ → Map (List ℕ)
trim m price it = elim (find price m) [
  | none ↦ m
  | some level ↦ elim (unlink it level) [
    | [] ↦ erase price m
    | a ∷ rest ↦ insert price (a ∷ rest) m
  ]
]

unfoldable pub remove_locator : OrderBook → OrderLocator → OrderBook
remove_locator b loc =
    let side = is_bid loc.side in with_levels b side (trim (levels b side) loc.price loc.it)

-- The tail that `add_order` and `replace_order` have in common: a node at the end of its level, and
-- its locator in the index.
unfoldable pub push_order : OrderBook → ℕ → ℕ → ℕ → ℕ → OrderBook
push_order b ref side price shares =
    let it = length b.nodes in
    let m = levels b (is_bid side) in
    let b' = with_levels b (is_bid side) (insert price (level_at m price ++ it ∷ []) m) in
    record b' {
      nodes = b'.nodes ++ record { ref = ref; side = side; price = price; shares = shares } ∷ [];
      ref_index = insert ref (record { side = side; price = price; it = it }) b'.ref_index;
    }

unfoldable pub add_order : OrderBook → AddOrder → OrderBook
add_order b m = push_order b m.order_ref m.side m.price m.shares

-- `remove_locator(loc); ref_index_.erase(idx_it);`
unfoldable pub drop_order : OrderBook → ℕ → OrderLocator → OrderBook
drop_order b ref loc =
    let b' = remove_locator b loc in record b' { ref_index = erase ref b'.ref_index }

-- The common body of `execute_order` and `cancel_order`: `shares -= n` on 32 bits.
unfoldable pub take_shares : OrderBook → ℕ → ℕ → OrderBook
take_shares b ref n = elim (find ref b.ref_index) [
  | none ↦ b
  | some loc ↦
      let o = node b loc.it in
      let left = (o.shares + 2 ^ 32 - n) % 2 ^ 32 in
      let b' = record b { nodes = set b.nodes loc.it (record o { shares = left }) } in
      if left == 0 then drop_order b' ref loc else b'
]

unfoldable pub execute_order : OrderBook → OrderExecuted → OrderBook
execute_order b m = take_shares b m.order_ref m.executed_shares

unfoldable pub cancel_order : OrderBook → OrderCancel → OrderBook
cancel_order b m = take_shares b m.order_ref m.canceled_shares

unfoldable pub delete_order : OrderBook → OrderDelete → OrderBook
delete_order b m = elim (find m.order_ref b.ref_index) [
  | none ↦ b
  | some loc ↦ drop_order b m.order_ref loc
]

unfoldable pub replace_order : OrderBook → OrderReplace → OrderBook
replace_order b m = elim (find m.original_order_ref b.ref_index) [
  | none ↦ b
  | some loc ↦
      push_order (drop_order b m.original_order_ref loc) m.new_order_ref loc.side m.price m.shares
]

-- `none` is `std::nullopt`.
unfoldable pub best_bid_ask : OrderBook → Option (ℕ × ℕ)
best_bid_ask b = do bid ← last? b.bids; ask ← first? b.asks; some (bid.0, ask.0)
