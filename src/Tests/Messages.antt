-- ===== src/Tests/Messages.antt =====
-- Messages in a buffer, after one other byte and before another.
use feed_handler.Prelude.{ℕ, ◌≡◌, refl, List, [], ◌∷◌, ◌++◌, some, get_elem?, replicate, arith}
use feed_handler.Wire.Bytes.{Buffer}
use feed_handler.Wire.Layout.{At-middle}
use feed_handler.Wire.Message
use feed_handler.Wire.Message.{Message, other}
use feed_handler.Wire.AddOrder
use feed_handler.Wire.AddOrder.{AddOrder, parse-encode_add_order, parse-inside_add_order}
use feed_handler.Wire.OrderExecuted
use feed_handler.Wire.OrderExecuted.{
  OrderExecuted, parse-encode_order_executed, parse-inside_order_executed,
}
use feed_handler.Wire.OrderCancel
use feed_handler.Wire.OrderCancel.{OrderCancel, parse-encode_order_cancel}
use feed_handler.Wire.OrderDelete
use feed_handler.Wire.OrderDelete.{OrderDelete, parse-encode_order_delete}
use feed_handler.Wire.OrderReplace
use feed_handler.Wire.OrderReplace.{
  OrderReplace, parse-encode_order_replace, parse-inside_order_replace,
}

abbrev around : List ℕ → Buffer
around bytes = (1 ∷ []) ++ bytes ++ 2 ∷ []

abbrev forty : Buffer
forty = replicate 40 65

abbrev pub add_order : AddOrder
add_order = record {
  stock_locate = 1;
  tracking_number = 2;
  timestamp_ns = 34200000000000;
  order_ref = 70000;
  side = b'B';
  shares = 100;
  stock = 65 ∷ 66 ∷ 67 ∷ 68 ∷ 32 ∷ 32 ∷ 32 ∷ 32 ∷ [];
  price = 1000000;
}

pub add_order-Fits : AddOrder.Fits add_order
add_order-Fits = record {
  locate_fits = omega arith;
  tracking_fits = omega arith;
  timestamp_fits = omega arith;
  ref_fits = omega arith;
  side_fits = omega arith;
  shares_fits = omega arith;
  stock_fits = refl;
  price_fits = omega arith;
}

parse-encode_add_order_example :
    (get_elem? (around (AddOrder.encode add_order)) 1 ≡ some b'A')
    × (AddOrder.parse (around (AddOrder.encode add_order)) 1 ≡ some add_order)
parse-encode_add_order_example =
    parse-encode_add_order (around (AddOrder.encode add_order)) 1 add_order add_order-Fits
      (At-middle (1 ∷ []) (AddOrder.encode add_order) (2 ∷ []))

abbrev pub order_executed : OrderExecuted
order_executed = record {
  stock_locate = 1;
  tracking_number = 2;
  timestamp_ns = 34200000000000;
  order_ref = 70000;
  executed_shares = 40;
  match_number = 12;
}

pub order_executed-Fits : OrderExecuted.Fits order_executed
order_executed-Fits = record {
  locate_fits = omega arith;
  tracking_fits = omega arith;
  timestamp_fits = omega arith;
  ref_fits = omega arith;
  executed_shares_fits = omega arith;
  match_number_fits = omega arith;
}

parse-encode_order_executed_example :
    (get_elem? (around (OrderExecuted.encode order_executed)) 1 ≡ some b'E')
    × (OrderExecuted.parse (around (OrderExecuted.encode order_executed)) 1 ≡ some order_executed)
parse-encode_order_executed_example =
    parse-encode_order_executed (around (OrderExecuted.encode order_executed)) 1 order_executed
      order_executed-Fits (At-middle (1 ∷ []) (OrderExecuted.encode order_executed) (2 ∷ []))

abbrev order_cancel : OrderCancel
order_cancel = record {
  stock_locate = 1;
  tracking_number = 2;
  timestamp_ns = 34200000000000;
  order_ref = 70000;
  canceled_shares = 30;
}

order_cancel-Fits : OrderCancel.Fits order_cancel
order_cancel-Fits = record {
  locate_fits = omega arith;
  tracking_fits = omega arith;
  timestamp_fits = omega arith;
  ref_fits = omega arith;
  canceled_shares_fits = omega arith;
}

abbrev pub order_delete : OrderDelete
order_delete = record {
  stock_locate = 1;
  tracking_number = 2;
  timestamp_ns = 34200000000000;
  order_ref = 70000;
}

order_delete-Fits : OrderDelete.Fits order_delete
order_delete-Fits = record {
  locate_fits = omega arith;
  tracking_fits = omega arith;
  timestamp_fits = omega arith;
  ref_fits = omega arith;
}

abbrev order_replace : OrderReplace
order_replace = record {
  stock_locate = 1;
  tracking_number = 2;
  timestamp_ns = 34200000000000;
  original_order_ref = 70000;
  new_order_ref = 70001;
  shares = 100;
  price = 1000000;
}

order_replace-Fits : OrderReplace.Fits order_replace
order_replace-Fits = record {
  locate_fits = omega arith;
  tracking_fits = omega arith;
  timestamp_fits = omega arith;
  ref_fits = omega arith;
  new_order_ref_fits = omega arith;
  shares_fits = omega arith;
  price_fits = omega arith;
}

parse-encode_order_replace_example :
    (get_elem? (around (OrderReplace.encode order_replace)) 1 ≡ some b'U')
    × (OrderReplace.parse (around (OrderReplace.encode order_replace)) 1 ≡ some order_replace)
parse-encode_order_replace_example =
    parse-encode_order_replace (around (OrderReplace.encode order_replace)) 1 order_replace
      order_replace-Fits (At-middle (1 ∷ []) (OrderReplace.encode order_replace) (2 ∷ []))

-- A message of a type that the program passes over.
abbrev pub system_event : Message
system_event = other b'S' (0 ∷ 0 ∷ 79 ∷ [])

pub system_event-Fits : Message.Fits system_event
system_event-Fits = (
  record {
    not_added = refl;
    not_executed = refl;
    not_canceled = refl;
    not_deleted = refl;
    not_replaced = refl;
  },
  omega arith,
)
