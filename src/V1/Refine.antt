-- ===== src/V1/Refine.antt =====
-- Each operation of the v1 book does to its live orders what the specification says.
use feed_handler.Map.{find}
use feed_handler.Prelude.{
  ℕ, ◌+◌, ◌-◌, ◌%◌, ◌^◌, ◌≤◌, ◌<◌, ◌≡◌, refl, true, false, ◌⊎◌, none, some, ◌==◌, leb, ◌∙◌,
  Bool-cases, if◌then◌else◌, arith, Option-cases, inl, inr, fun_ext,
}
use feed_handler.Spec
use feed_handler.Spec.{Order, Orders}
use feed_handler.V1.{
  OrderBook, OrderLocator, node, is_bid, push_order, drop_order, take_shares, add_order,
  execute_order, cancel_order, delete_order, replace_order,
}
use feed_handler.V1.Valid.{IsValid, drop_order-IsValid}
use feed_handler.V1.Push.{push_order-IsValid}
use feed_handler.V1.Take.{with_shares, with_shares-IsValid}
use feed_handler.V1.View.{view, order}
use feed_handler.V1.Changes.{view-drop, view-push, view-none, view-with_shares}
use feed_handler.Wire.AddOrder.{AddOrder}
use feed_handler.Wire.OrderExecuted.{OrderExecuted}
use feed_handler.Wire.OrderCancel.{OrderCancel}
use feed_handler.Wire.OrderDelete.{OrderDelete}
use feed_handler.Wire.OrderReplace.{OrderReplace}

-- The book is valid, and its live orders are these.
pub record Refines (b : OrderBook) (orders : Orders) : Type 0 where
  pub valid : IsValid b
  pub orders_view : view b ≡ orders

-- The order `ref` has at least `n` shares, if it is there.
abbrev pub Covers : OrderBook → ℕ → ℕ → Type 0
Covers b ref n = (o : Order) → view b ref ≡ some o → n ≤ o.shares

module _ (b : OrderBook) (v : IsValid b) where
  drop-Refines :
      (ref : ℕ) (loc : OrderLocator)
      → find ref b.ref_index ≡ some loc
      → Refines (drop_order b ref loc) (Spec.remove ref (view b))
  drop-Refines ref loc known = record {
    valid = drop_order-IsValid b v ref loc known;
    orders_view = fun_ext (view-drop b v ref loc known);
  }

  push-Refines :
      (ref side price shares : ℕ)
      → view b ref ≡ none
      → shares < 2 ^ 32
      → Refines
          (push_order b ref side price shares)
          (Spec.place ref (record { bid = is_bid side; price = price; shares = shares }) (view b))
  push-Refines ref side price shares fresh fits =
      let f = view-none b v ref fresh in
      record {
        valid = push_order-IsValid b v ref side price shares f fits;
        orders_view = fun_ext (view-push b v ref side price shares f);
      }

  pub view-some :
      (ref : ℕ) (loc : OrderLocator)
      → find ref b.ref_index ≡ some loc
      → view b ref ≡ some (order (node b loc.it))
  unfolding view
  view-some ref loc h = rw (h, view)

  pub view-absent : (ref : ℕ) → find ref b.ref_index ≡ none → view b ref ≡ none
  unfolding view
  view-absent ref h = rw (h, view)

  module _ (ref n : ℕ) (loc : OrderLocator) (known : find ref b.ref_index ≡ some loc) where
    -- What is left after an execution, erased if it is nothing.
    taken-Refines :
        n ≤ (node b loc.it).shares
        → let left = (node b loc.it).shares - n in
          let b' = with_shares b loc.it left in
          Refines
            (if left == 0 then drop_order b' ref loc else b')
            (Spec.write ref (Spec.reduced n (order (node b loc.it))) (view b))
    taken-Refines enough =
        let o = node b loc.it in
        let left = o.shares - n in
        let b' = with_shares b loc.it left in
        let i = v.indexed ref loc known in
        let v' =
          with_shares-IsValid b loc.it left i.made (omega (arith, v.shares_fit loc.it i.made)) v in
        let seen = view-with_shares b v ref left loc known in
        elim (Bool-cases (left == 0)) [
          | inl z ↦
              let gone : leb o.shares n ≡ true = ground arith in
              rw (z, gone)
                (record {
                  valid = drop_order-IsValid b' v' ref loc known;
                  orders_view =
                      fun_ext λ r. view-drop b' v' ref loc known r ∙ ground (arith, seen r);
                })
          | inr some_left ↦
              let stays : leb o.shares n ≡ false = ground arith in
              rw (some_left, stays) (record { valid = v'; orders_view = fun_ext seen })
        ]

  take-Refines :
      (ref n : ℕ) → Covers b ref n → Refines (take_shares b ref n) (Spec.reduce ref n (view b))
  unfolding take_shares
  take-Refines ref n covers = elim (Option-cases (find ref b.ref_index)) [
    | inl e ↦
        rw (e, take_shares, view-absent ref e, Spec.reduce)
          (record { valid = v; orders_view = refl })
    | inr (loc, e) ↦
        let seen = view-some ref loc e in
        let enough = covers (order (node b loc.it)) seen in
        let fits = v.shares_fit loc.it (v.indexed ref loc e).made in
        let left : ((node b loc.it).shares + 2 ^ 32 - n) % 2 ^ 32 ≡ (node b loc.it).shares - n =
          omega arith in
        rw (e, take_shares, seen, left, Spec.reduce) (taken-Refines ref n loc e enough)
  ]

  -- On a valid book, an add-order message whose reference number is new and whose shares fit 32 bits
  -- places its order, leaves every other order alone, and keeps the book valid.
  pub add_order-Refines :
      (m : AddOrder)
      → view b m.order_ref ≡ none
      → m.shares < 2 ^ 32
      → Refines (add_order b m) (
          Spec.place m.order_ref
            (record { bid = is_bid m.side; price = m.price; shares = m.shares })
            (view b))
  unfolding add_order
  add_order-Refines m fresh fits = push-Refines m.order_ref m.side m.price m.shares fresh fits

  -- On a valid book, an execution of no more shares than the order has takes them away, removes the
  -- order if nothing is left, does nothing for an unknown reference number, and keeps the book valid.
  pub execute_order-Refines :
      (m : OrderExecuted)
      → Covers b m.order_ref m.executed_shares
      → Refines (execute_order b m) (Spec.reduce m.order_ref m.executed_shares (view b))
  unfolding execute_order
  execute_order-Refines m covers = take-Refines m.order_ref m.executed_shares covers

  -- On a valid book, a cancellation of no more shares than the order has takes them away, removes the
  -- order if nothing is left, does nothing for an unknown reference number, and keeps the book valid.
  pub cancel_order-Refines :
      (m : OrderCancel)
      → Covers b m.order_ref m.canceled_shares
      → Refines (cancel_order b m) (Spec.reduce m.order_ref m.canceled_shares (view b))
  unfolding cancel_order
  cancel_order-Refines m covers = take-Refines m.order_ref m.canceled_shares covers

  -- On a valid book, a deletion removes the order, does nothing for an unknown reference number, and
  -- keeps the book valid.
  pub delete_order-Refines :
      (m : OrderDelete) → Refines (delete_order b m) (Spec.remove m.order_ref (view b))
  unfolding delete_order
  delete_order-Refines m = elim (Option-cases (find m.order_ref b.ref_index)) [
    | inl e ↦
        rw (e, delete_order)
          (record {
            valid = v;
            orders_view = fun_ext λ r. ground (arith, view-absent m.order_ref e);
          })
    | inr (loc, e) ↦ rw (e, delete_order) (drop-Refines m.order_ref loc e)
  ]

-- On a valid book, a replacement whose shares fit 32 bits, under a reference number that is new or that
-- of the original, takes the original away and places an order of the new price and shares on its side,
-- does nothing for an unknown original, and keeps the book valid.
pub replace_order-Refines :
    (b : OrderBook) (m : OrderReplace)
    → IsValid b
    → (m.new_order_ref ≡ m.original_order_ref) ⊎ (view b m.new_order_ref ≡ none)
    → m.shares < 2 ^ 32
    → Refines
        (replace_order b m)
        (Spec.replace m.original_order_ref m.new_order_ref m.price m.shares (view b))
unfolding replace_order
replace_order-Refines b m v fresh fits =
    elim (Option-cases (find m.original_order_ref b.ref_index)) [
      | inl e ↦
          rw (e, replace_order, view-absent b v m.original_order_ref e, Spec.replace)
            (record { valid = v; orders_view = refl })
      | inr (loc, e) ↦
          let d = drop-Refines b v m.original_order_ref loc e in
          let b' = drop_order b m.original_order_ref loc in
          let new : view b' m.new_order_ref ≡ none = rw d.orders_view (ground arith) in
          let p = push-Refines b' d.valid m.new_order_ref loc.side m.price m.shares new fits in
          let side = (v.indexed m.original_order_ref loc e).same_side in
          rw
            (
              e,
              replace_order,
              view-some b v m.original_order_ref loc e,
              Spec.replace,
              side,
              ← d.orders_view,
            )
            p
    ]
