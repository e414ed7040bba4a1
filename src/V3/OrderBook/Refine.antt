-- ===== src/V3/OrderBook/Refine.antt =====
-- The v3 book does what the messages ask of the live orders.
use feed_handler.Spec
use feed_handler.Spec.{Orders}
use feed_handler.Spec.Messages.{follow, follow_all, Legal, LegalAll}
use feed_handler.Prelude.{
  ◌≡◌, ◌≢◌, refl, sym, ap, ◌∙◌, inl, inr, List, [], ◌∷◌, none, ◌==◌, arith, Bool-cases, ==→eq,
  ==→ne, fun_ext,
}
use feed_handler.V3.RefTable
use feed_handler.V3.RefTable.{k_empty, k_null_idx}
use feed_handler.V3.ObjectPool.{pooled}
use feed_handler.V3.BookState.{Store, side_of}
use feed_handler.V3.OrderBook.{
  drop_order, add_order, execute_order, cancel_order, delete_order, replace_order,
}
use feed_handler.V3.OrderBook.Steps.{one_store}
use feed_handler.V3.OrderBook.Valid.{IsValid, view, Refines, view-missing, view-known}
use feed_handler.V3.OrderBook.Placed.{HasRoom, place_order-Refines}
use feed_handler.V3.OrderBook.Dropping.{drop_order-Refines, drop_order-room}
use feed_handler.V3.OrderBook.Reducing.{take_shares-Refines}
use feed_handler.Wire.Message.{Message, added, executed, canceled, deleted, replaced, other}
use feed_handler.Wire.OrderDelete.{OrderDelete}
use feed_handler.Wire.OrderReplace.{OrderReplace}
use feed_handler.Feed.Frames.{apply, apply_all}

-- The room that a message asks for. An added order needs a free slot as well.
abbrev pub Room : Store → Message → Type 0
Room s (added m) = HasRoom s × (s.pool.free_head ≢ k_null_idx)
Room s (replaced m) = HasRoom s
Room s m = Unit

abbrev pub RoomAll : Store → List Message → Type 0
RoomAll s [] = Unit
RoomAll s (m ∷ ms) = Room s m × RoomAll (apply one_store s m) ms

replace_order-Refines_lem :
    (s : Store) (m : OrderReplace)
    → IsValid s
    → Legal (view s) (replaced m)
    → HasRoom s
    → Refines
        (replace_order s m)
        (Spec.replace m.original_order_ref m.new_order_ref m.price m.shares (view s))
unfolding replace_order
replace_order-Refines_lem s m v (fine, fine', fresh, fits, small) room =
    let ref = m.original_order_ref in
    let o = RefTable.find s.refs ref in
    elim (Bool-cases (o == k_null_idx)) [
      | inl z ↦
          rw (z, view-missing s ref (==→eq _ _ z), Spec.replace)
            (record { valid = v; orders_view = refl })
      | inr z ↦
          let z' = ==→ne _ _ z in
          let (on, mine) = v.owned.named ref fine z' in
          let d = drop_order-Refines s v o on ref fine mine in
          let (less, slots, levels, head) = drop_order-room s v o on ref fine mine in
          let s' = drop_order s ref o in
          let new : view s' m.new_order_ref ≡ none = rw d.orders_view (ground arith) in
          let side = side_of s.book (pooled s.pool.slots o).level_idx in
          let p =
            place_order-Refines s' m.new_order_ref side m.price m.shares d.valid
              (omega (arith, less, slots, room.0), omega (arith, levels, room.1)) fine' new
              (λ e. z' (sym head ∙ e)) fits small in
          rw (z, view-known s ref o fine z' refl, Spec.replace, ← d.orders_view) p
    ]

delete_order-Refines_lem :
    (s : Store) (m : OrderDelete)
    → IsValid s
    → m.order_ref ≢ k_empty
    → Refines (delete_order s m) (Spec.remove m.order_ref (view s))
unfolding delete_order
delete_order-Refines_lem s m v fine =
    let o = RefTable.find s.refs m.order_ref in
    elim (Bool-cases (o == k_null_idx)) [
      | inl z ↦
          let gone = view-missing s m.order_ref (==→eq _ _ z) in
          rw z (record { valid = v; orders_view = fun_ext (λ r. ground (arith, gone)) })
      | inr z ↦
          let (on, mine) = v.owned.named m.order_ref fine (==→ne _ _ z) in
          rw z (drop_order-Refines s v o on m.order_ref fine mine)
    ]

-- On a valid store that has room for the order that a message adds or replaces, every message whose new
-- reference number is not in use, whose numbers fit 32 bits and whose reference numbers are not the
-- reserved one has the effect on the live orders that it asks for, whether prices are in the window or
-- beyond it, and the store stays valid.
pub apply-Refines :
    (s : Store) (m : Message)
    → IsValid s
    → Legal (view s) m
    → Room s m
    → Refines (apply one_store s m) (follow (view s) m)
unfolding add_order execute_order cancel_order
apply-Refines s (added m) v (fine, fresh, fits, small) (room, slot) =
    place_order-Refines s m.order_ref m.side m.price m.shares v room fine fresh slot fits small
apply-Refines s (executed m) v fine room =
    take_shares-Refines s m.order_ref m.executed_shares v fine
apply-Refines s (canceled m) v fine room =
    take_shares-Refines s m.order_ref m.canceled_shares v fine
apply-Refines s (deleted m) v fine room = delete_order-Refines_lem s m v fine
apply-Refines s (replaced m) v legal room = replace_order-Refines_lem s m v legal room
apply-Refines s (other type body) v legal room = record { valid = v; orders_view = refl }

-- A whole feed, message by message.
pub apply_all-Refines :
    (s : Store) (ms : List Message)
    → IsValid s
    → LegalAll (view s) ms
    → RoomAll s ms
    → Refines (apply_all one_store s ms) (follow_all (view s) ms)
apply_all-Refines s [] v legal room = record { valid = v; orders_view = refl }
apply_all-Refines s (m ∷ ms) v legal room =
    let here = apply-Refines s m v legal.0 room.0 in
    let s' = apply one_store s m in
    let rest = apply_all-Refines s' ms here.valid (rw here.orders_view legal.1) room.1 in
    record {
      valid = rest.valid;
      orders_view = rest.orders_view ∙ ap (λ (w : Orders). follow_all w ms) here.orders_view;
    }
