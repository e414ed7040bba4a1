-- ===== src/Wire/Message.antt =====
-- A message of any of the five types or of another one, and its bytes.
use feed_handler.Prelude.{
  ℕ, ◌+◌, ◌^◌, ◌<◌, ◌≡◌, refl, false, List, ◌∷◌, length, length-append, ◌==◌, arith,
}
use feed_handler.Wire.Layout.{be_bytes}
use feed_handler.Wire.Header.{MsgType, header}
use feed_handler.Wire.AddOrder
use feed_handler.Wire.AddOrder.{AddOrder}
use feed_handler.Wire.OrderExecuted
use feed_handler.Wire.OrderExecuted.{OrderExecuted}
use feed_handler.Wire.OrderCancel
use feed_handler.Wire.OrderCancel.{OrderCancel}
use feed_handler.Wire.OrderDelete
use feed_handler.Wire.OrderDelete.{OrderDelete}
use feed_handler.Wire.OrderReplace
use feed_handler.Wire.OrderReplace.{OrderReplace}

-- The byte is none of the five codes that the loops look for.
pub record IsOther (type : ℕ) : Type 0 where
  pub not_added : (type == b'A') ≡ false
  pub not_executed : (type == b'E') ≡ false
  pub not_canceled : (type == b'X') ≡ false
  pub not_deleted : (type == b'D') ≡ false
  pub not_replaced : (type == b'U') ≡ false

-- A message of another type is its first byte and the bytes behind it.
pub data Message : Type 0 where
  added : AddOrder → Message
  executed : OrderExecuted → Message
  canceled : OrderCancel → Message
  deleted : OrderDelete → Message
  replaced : OrderReplace → Message
  other : ℕ → List ℕ → Message

abbrev pub encode : Message → List ℕ
encode (added m) = AddOrder.encode m
encode (executed m) = OrderExecuted.encode m
encode (canceled m) = OrderCancel.encode m
encode (deleted m) = OrderDelete.encode m
encode (replaced m) = OrderReplace.encode m
encode (other type body) = type ∷ body

abbrev pub Fits : Message → Type 0
Fits (added m) = AddOrder.Fits m
Fits (executed m) = OrderExecuted.Fits m
Fits (canceled m) = OrderCancel.Fits m
Fits (deleted m) = OrderDelete.Fits m
Fits (replaced m) = OrderReplace.Fits m
Fits (other type body) = IsOther type × (1 + length body < 2 ^ 16)

abbrev pub wire_size : Message → ℕ
wire_size (added m) = AddOrder.k_wire_size
wire_size (executed m) = OrderExecuted.k_wire_size
wire_size (canceled m) = OrderCancel.k_wire_size
wire_size (deleted m) = OrderDelete.k_wire_size
wire_size (replaced m) = OrderReplace.k_wire_size
wire_size (other type body) = 1 + length body

length-header :
    (type : MsgType) (locate tracking timestamp ref : ℕ) (rest : List ℕ)
    → length (header type locate tracking timestamp ref rest) ≡ 19 + length rest
unfolding be_bytes
length-header type locate tracking timestamp ref rest = omega arith

-- A message of the five types is as long as its type's `kWireSize`.
pub length-encode : (m : Message) → Fits m → length (encode m) ≡ wire_size m
unfolding AddOrder.encode OrderExecuted.encode OrderCancel.encode OrderDelete.encode
    OrderReplace.encode be_bytes
length-encode (added m) fit =
    rw length-header (omega (arith, fit.stock_fits, length-append m.stock (be_bytes 4 m.price)))
length-encode (executed m) fit = rw length-header refl
length-encode (canceled m) fit = rw length-header refl
length-encode (deleted m) fit = rw length-header refl
length-encode (replaced m) fit = rw length-header refl
length-encode (other type body) fit = omega arith
