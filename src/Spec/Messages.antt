-- ===== src/Spec/Messages.antt =====
-- What the messages ask of both books, and what a feed keeps to.
use feed_handler.Spec
use feed_handler.Spec.{Order, Orders}
use feed_handler.Prelude.{ℕ, ◌^◌, ◌≤◌, ◌<◌, ◌≡◌, ◌≢◌, ◌⊎◌, List, [], ◌∷◌, none, some, ◌==◌}
use feed_handler.V3.RefTable.{k_empty}
use feed_handler.Wire.Message.{Message, added, executed, canceled, deleted, replaced, other}

-- The live orders after a message. One of another type leaves them alone.
abbrev pub follow : Orders → Message → Orders
follow v (added m) =
    Spec.place m.order_ref (record { bid = m.side == b'B'; price = m.price; shares = m.shares }) v
follow v (executed m) = Spec.reduce m.order_ref m.executed_shares v
follow v (canceled m) = Spec.reduce m.order_ref m.canceled_shares v
follow v (deleted m) = Spec.remove m.order_ref v
follow v (replaced m) = Spec.replace m.original_order_ref m.new_order_ref m.price m.shares v
follow v (other type body) = v

abbrev pub follow_all : Orders → List Message → Orders
follow_all v [] = v
follow_all v (m ∷ ms) = follow_all (follow v m) ms

-- A new order has a reference number that is not in use, and 32 bits hold its price and its shares. No
-- reference number is the one that v3 reserves.
abbrev pub Legal : Orders → Message → Type 0
Legal v (added m) =
    (m.order_ref ≢ k_empty) × (v m.order_ref ≡ none) × (m.price < 2 ^ 32) × (m.shares < 2 ^ 32)
Legal v (executed m) = m.order_ref ≢ k_empty
Legal v (canceled m) = m.order_ref ≢ k_empty
Legal v (deleted m) = m.order_ref ≢ k_empty
Legal v (replaced m) =
    (m.original_order_ref ≢ k_empty)
    × (m.new_order_ref ≢ k_empty)
    × ((m.new_order_ref ≡ m.original_order_ref) ⊎ (v m.new_order_ref ≡ none))
    × (m.price < 2 ^ 32)
    × (m.shares < 2 ^ 32)
Legal v (other type body) = Unit

abbrev Enough : Orders → ℕ → ℕ → Type 0
Enough v ref n = (o : Order) → v ref ≡ some o → n ≤ o.shares

-- No more shares are executed or canceled than the order has.
abbrev pub Covered : Orders → Message → Type 0
Covered v (executed m) = Enough v m.order_ref m.executed_shares
Covered v (canceled m) = Enough v m.order_ref m.canceled_shares
Covered v m = Unit

abbrev pub LegalAll : Orders → List Message → Type 0
LegalAll v [] = Unit
LegalAll v (m ∷ ms) = Legal v m × LegalAll (follow v m) ms

abbrev pub CoveredAll : Orders → List Message → Type 0
CoveredAll v [] = Unit
CoveredAll v (m ∷ ms) = Covered v m × CoveredAll (follow v m) ms
