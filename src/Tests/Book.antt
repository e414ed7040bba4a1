-- ===== src/Tests/Book.antt =====
-- The v1 book: a bid of 100 shares at 50 under reference 7, and an ask of 30 at 60 under reference 9.
use feed_handler.Map.{find, insert, first?, last?}
use feed_handler.Prelude.{◌+◌, ◌-◌, ◌^◌, ℕ, true, false, [], ◌≡◌, refl, inr, none, some, arith}
use feed_handler.Spec
use feed_handler.Spec.{Order, IsTop}
use feed_handler.Wire.AddOrder.{AddOrder}
use feed_handler.Wire.OrderExecuted.{OrderExecuted}
use feed_handler.Wire.OrderCancel.{OrderCancel}
use feed_handler.Wire.OrderDelete.{OrderDelete}
use feed_handler.Wire.OrderReplace.{OrderReplace}
use feed_handler.V1.{
  OrderBook, empty_book, push_order, add_order, execute_order, delete_order, replace_order,
  best_bid_ask,
}
use feed_handler.V1.Valid.{IsValid, empty_book-IsValid}
use feed_handler.V1.View.{view, best_bid_ask-IsTop}
use feed_handler.V1.Excess.{execute_order-wraps}
use feed_handler.V1.Refine.{
  Refines, Covers, add_order-Refines, execute_order-Refines, delete_order-Refines,
  replace_order-Refines,
}

abbrev bid : AddOrder
bid = record {
  stock_locate = 1;
  tracking_number = 0;
  timestamp_ns = 5;
  order_ref = 7;
  side = b'B';
  shares = 100;
  stock = [];
  price = 50;
}

abbrev ask : AddOrder
ask = record {
  stock_locate = 1;
  tracking_number = 0;
  timestamp_ns = 6;
  order_ref = 9;
  side = b'S';
  shares = 30;
  stock = [];
  price = 60;
}

abbrev one_order : OrderBook
one_order = add_order empty_book bid

abbrev two_orders : OrderBook
two_orders = add_order one_order ask

abbrev execution : ℕ → OrderExecuted
execution n = record {
  stock_locate = 1;
  tracking_number = 0;
  timestamp_ns = 8;
  order_ref = 7;
  executed_shares = n;
  match_number = 1;
}

abbrev cancellation : OrderCancel
cancellation = record {
  stock_locate = 1;
  tracking_number = 0;
  timestamp_ns = 8;
  order_ref = 9;
  canceled_shares = 30;
}

abbrev deletion : OrderDelete
deletion = record { stock_locate = 1; tracking_number = 0; timestamp_ns = 8; order_ref = 7 }

abbrev replacement : OrderReplace
replacement = record {
  stock_locate = 1;
  tracking_number = 0;
  timestamp_ns = 8;
  original_order_ref = 7;
  new_order_ref = 8;
  shares = 20;
  price = 55;
}

nothing_yet : view empty_book 7 ≡ none
unfolding view find
nothing_yet = refl

add_order-Refines_example :
    Refines one_order
      (Spec.place 7 (record { bid = true; price = 50; shares = 100 }) (view empty_book))
add_order-Refines_example =
    add_order-Refines empty_book empty_book-IsValid bid nothing_yet (omega arith)

one_order-IsValid : IsValid one_order
one_order-IsValid =
    (add_order-Refines empty_book empty_book-IsValid bid nothing_yet (omega arith)).valid

fresh_ask : view one_order 9 ≡ none
unfolding view add_order push_order find insert
fresh_ask = refl

two_orders-IsValid : IsValid two_orders
two_orders-IsValid =
    (add_order-Refines one_order one_order-IsValid ask fresh_ask (omega arith)).valid

seen_bid : view two_orders 7 ≡ some (record { bid = true; price = 50; shares = 100 })
unfolding view add_order push_order find insert
seen_bid = refl

seen_ask : view two_orders 9 ≡ some (record { bid = false; price = 60; shares = 30 })
unfolding view add_order push_order find insert
seen_ask = refl

covered_bid : Covers two_orders 7 40
covered_bid o h = grind (arith, seen_bid)

covered_ask : Covers two_orders 9 30
covered_ask o h = grind (arith, seen_ask)

execute_order-Refines_example :
    Refines (execute_order two_orders (execution 40)) (Spec.reduce 7 40 (view two_orders))
execute_order-Refines_example =
    execute_order-Refines two_orders two_orders-IsValid (execution 40) covered_bid

delete_order-Refines_example :
    Refines (delete_order two_orders deletion) (Spec.remove 7 (view two_orders))
delete_order-Refines_example = delete_order-Refines two_orders two_orders-IsValid deletion

fresh_replacement : view two_orders 8 ≡ none
unfolding view add_order push_order find insert
fresh_replacement = refl

replace_order-Refines_example :
    Refines (replace_order two_orders replacement) (Spec.replace 7 8 55 20 (view two_orders))
replace_order-Refines_example =
    replace_order-Refines two_orders replacement two_orders-IsValid (inr fresh_replacement)
      (omega arith)

best_bid_ask-IsTop_example : IsTop (view two_orders) (best_bid_ask two_orders)
best_bid_ask-IsTop_example = best_bid_ask-IsTop two_orders two_orders-IsValid

-- The prices themselves, and those after the bid has been replaced.
top : best_bid_ask two_orders ≡ some (50, 60)
unfolding best_bid_ask add_order push_order find insert first? last?
top = refl

execute_order-wraps_example :
    view (execute_order two_orders (execution 140)) 7
    ≡ some (record { bid = true; price = 50; shares = 100 + 2 ^ 32 - 140 })
execute_order-wraps_example =
    execute_order-wraps two_orders (execution 140) (record { bid = true; price = 50; shares = 100 })
      two_orders-IsValid seen_bid (omega arith) (omega arith)
