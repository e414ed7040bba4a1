-- ===== src/V1/Changes.antt =====
-- What the changes that the operations of the v1 book are made of do to the live orders.
use feed_handler.Map.{find}
use feed_handler.Prelude.{
  ℕ, ◌≡◌, ◌≢◌, none, some, ◌==◌, ◌∙◌, ap, sym, Bool-cases, arith, Option-cases, inl, inr, ==→eq,
  ==→ne,
}
use feed_handler.Spec
use feed_handler.Spec.{Order, Orders}
use feed_handler.V1.{OrderBook, OrderLocator, node, is_bid, push_order, drop_order}
use feed_handler.V1.Valid.{IsValid, ref_index-drop, nodes-drop}
use feed_handler.V1.Push.{node-push_old, node-push_new, ref_index-push}
use feed_handler.V1.Take.{with_shares, node-with_shares}
use feed_handler.V1.View.{view, order}

module _ (b : OrderBook) (v : IsValid b) where
  pub view-drop :
      (ref : ℕ) (loc : OrderLocator)
      → find ref b.ref_index ≡ some loc
      → (r : ℕ) → view (drop_order b ref loc) r ≡ Spec.remove ref (view b) r
  unfolding view
  view-drop ref loc known r = rw nodes-drop (ground (arith, ref_index-drop b v ref loc known r))

  pub view-push :
      (ref side price shares : ℕ)
      → find ref b.ref_index ≡ none
      → (r : ℕ)
      → view (push_order b ref side price shares) r
        ≡ Spec.place ref (record { bid = is_bid side; price = price; shares = shares }) (view b) r
  unfolding view
  view-push ref side price shares fresh r = elim (Bool-cases (ref == r)) [
    | inl e ↦
        ground (
          arith,
          ref_index-push b v ref side price shares r,
          node-push_new b v ref side price shares,
        )
    | inr ne ↦ elim (Option-cases (find r b.ref_index)) [
      | inl f ↦ ground (arith, ref_index-push b v ref side price shares r)
      | inr (loc, f) ↦ ground (
        arith,
        ref_index-push b v ref side price shares r,
        node-push_old b v ref side price shares loc.it (v.indexed r loc f).made,
      )
    ]
  ]

  pub view-none : (ref : ℕ) → view b ref ≡ none → find ref b.ref_index ≡ none
  unfolding view
  view-none ref h = ground (arith, Option-cases (find ref b.ref_index))

  -- Changed shares show under the reference number of their order only.
  pub view-with_shares :
      (ref left : ℕ) (loc : OrderLocator)
      → find ref b.ref_index ≡ some loc
      → (r : ℕ)
      → view (with_shares b loc.it left) r
        ≡ Spec.write ref (some (record (order (node b loc.it)) { shares = left })) (view b) r
  unfolding view
  view-with_shares ref left loc known r =
      let i = v.indexed ref loc known in
      elim (Bool-cases (ref == r)) [
        | inl e ↦
            rw (← ==→eq ref r e)
              (ground (arith, known, node-with_shares b loc.it left i.made loc.it))
        | inr ne ↦ elim (Option-cases (find r b.ref_index)) [
          | inl f ↦ ground arith
          | inr (l, f) ↦
              let j = v.indexed r l f in
              let apart : loc.it ≢ l.it = λ e.
                ==→ne ref r ne (sym i.same_ref ∙ ap (λ (t : ℕ). (node b t).ref) e ∙ j.same_ref) in
              ground (arith, node-with_shares b loc.it left i.made l.it)
        ]
      ]
