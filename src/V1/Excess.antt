-- ===== src/V1/Excess.antt =====
-- An execution of more shares than the order has, which `shares -= n` wraps around.
use feed_handler.Map.{find}
use feed_handler.Prelude.{
  ◌+◌, ◌-◌, ◌%◌, ◌^◌, ◌<◌, ◌≡◌, ◌∙◌, false, none, some, ◌==◌, arith, Option-cases, inl, inr,
}
use feed_handler.Spec.{Order}
use feed_handler.V1.{OrderBook, node, take_shares, execute_order}
use feed_handler.V1.Valid.{IsValid}
use feed_handler.V1.View.{view}
use feed_handler.V1.Changes.{view-with_shares}
use feed_handler.V1.Refine.{view-some, view-absent}
use feed_handler.Wire.OrderExecuted.{OrderExecuted}

-- On a valid book, an execution of more shares than the order has, but of fewer than 2 ^ 32, does not
-- remove the order: it is left with 2 ^ 32 shares more than the difference.
pub execute_order-wraps :
    (b : OrderBook) (m : OrderExecuted) (o : Order)
    → IsValid b
    → view b m.order_ref ≡ some o
    → o.shares < m.executed_shares
    → m.executed_shares < 2 ^ 32
    → view (execute_order b m) m.order_ref
      ≡ some (record o { shares = o.shares + 2 ^ 32 - m.executed_shares })
unfolding execute_order take_shares
execute_order-wraps b m o v seen over fits = elim (Option-cases (find m.order_ref b.ref_index)) [
  | inl e ↦ absurd (missing e)
  | inr (loc, e) ↦
      let left = ((node b loc.it).shares + 2 ^ 32 - m.executed_shares) % 2 ^ 32 in
      let there = view-some b v m.order_ref loc e in
      let shares : (node b loc.it).shares ≡ o.shares = ground (arith, there, seen) in
      let value : left ≡ o.shares + 2 ^ 32 - m.executed_shares = omega arith in
      let some_left : left == 0 ≡ false = ground arith in
      let after = view-with_shares b v m.order_ref left loc e m.order_ref in
      rw (e, execute_order, take_shares, some_left) (after ∙ ground (arith, there, seen))
]
  where
    missing : find m.order_ref b.ref_index ≡ none → ⊥
    missing e = let gone = view-absent b v m.order_ref e in ground arith
