-- ===== src/V1/Take.antt =====
-- Executions and cancellations that leave shares: the node is changed in place.
use feed_handler.Prelude.{
  ℕ, ◌^◌, ◌<◌, ◌≡◌, ◌==◌, ◌∙◌, Bool-cases, if◌then◌else◌, arith, inl, inr, length, get_or, set,
  get_or-set_self, get_or-set_ne, length-set, ==→eq, ==→ne,
}
use feed_handler.V1.{OrderBook, node, no_order}
use feed_handler.V1.Valid.{IsValid}

-- The book with `left` shares in the node at `it`.
abbrev pub with_shares : OrderBook → ℕ → ℕ → OrderBook
with_shares b it left = record b {
  nodes = set b.nodes it (record (get_or b.nodes it no_order) { shares = left });
}

module _ (b : OrderBook) (it left : ℕ) (made : it < length b.nodes) where
  pub node-with_shares :
      (a : ℕ)
      → node (with_shares b it left) a
        ≡ (if it == a then record (get_or b.nodes a no_order) { shares = left } else node b a)
  node-with_shares a = elim (Bool-cases (it == a)) [
    | inl e ↦ rw (e, ← ==→eq it a e) (get_or-set_self b.nodes it _ no_order made)
    | inr ne ↦ rw ne (get_or-set_ne b.nodes it a _ no_order (==→ne it a ne))
  ]

  -- Nothing but the shares of a node changes.
  rest-with_shares :
      (a : ℕ)
      → let n = node (with_shares b it left) a in
        let o = node b a in (n.ref ≡ o.ref) × (n.side ≡ o.side) × (n.price ≡ o.price)
  rest-with_shares a = ground (arith, node-with_shares a)

  pub with_shares-IsValid : left < 2 ^ 32 → IsValid b → IsValid (with_shares b it left)
  with_shares-IsValid fits v = record {
    filled = v.filled;
    index_sorted = v.index_sorted;
    indexed = λ ref loc h.
        let i = v.indexed ref loc h in
        let (r, s, p) = rest-with_shares loc.it in
        record {
          made = omega (
            arith,
            i.made,
            length-set b.nodes it (record (get_or b.nodes it no_order) { shares = left }),
          );
          same_ref = r ∙ i.same_ref;
          same_side = s ∙ i.same_side;
          same_price = p ∙ i.same_price;
          once = i.once;
        };
    listed = λ side p' a h.
        let i = v.listed side p' a h in
        let (r, s, p) = rest-with_shares a in
        record {
          made = omega (
            arith,
            i.made,
            length-set b.nodes it (record (get_or b.nodes it no_order) { shares = left }),
          );
          on_side = rw s i.on_side;
          at_price = p ∙ i.at_price;
          found = rw (r, s, p) i.found;
        };
    shares_fit = λ a h.
        let old : a < length b.nodes =
          omega (
            arith,
            length-set b.nodes it (record (get_or b.nodes it no_order) { shares = left }),
          ) in
        ground (arith, node-with_shares a, v.shares_fit a old);
  }
