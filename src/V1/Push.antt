-- ===== src/V1/Push.antt =====
-- A new order at the end of its level keeps the v1 book valid.
use feed_handler.Map.{find, insert}
use feed_handler.Map.Sorted.{find-insert, insert-SortedFrom}
use feed_handler.Prelude.{
  ℕ, ◌+◌, ◌^◌, ◌≤◌, ◌<◌, ◌≡◌, ◌≢◌, Bool, true, ◌&&◌, [], ◌∷◌, ◌++◌, none, some, ◌==◌, ◌∙◌, ap,
  subst, ==→eq, Bool-cases, if◌then◌else◌, arith, inl, inr, length, get_or-append_left,
  get_or-append_length, length-append,
}
use feed_handler.V1.{
  RestingOrder, OrderBook, OrderLocator, node, no_order, levels, level_at, is_bid, push_order,
}
use feed_handler.V1.Levels.{
  count, count-snoc, same_side, same_side→eq, same_side_refl, levels-with_levels, level_at-insert,
  insert-IsFilled, with_levels-IsFilled,
}
use feed_handler.V1.Valid.{level, IsIndexed, IsListed, IsValid}

module _ (b : OrderBook) (v : IsValid b) (ref side price shares : ℕ) where
  abbrev pub new_order : RestingOrder
  new_order = record { ref = ref; side = side; price = price; shares = shares }

  pub node-push_old :
      (a : ℕ) → a < length b.nodes → node (push_order b ref side price shares) a ≡ node b a
  unfolding push_order
  node-push_old a h = get_or-append_left b.nodes (new_order ∷ []) a no_order h

  pub node-push_new : node (push_order b ref side price shares) (length b.nodes) ≡ new_order
  unfolding push_order
  node-push_new = get_or-append_length b.nodes new_order no_order

  length-push : length (push_order b ref side price shares).nodes ≡ length b.nodes + 1
  unfolding push_order
  length-push = length-append b.nodes (new_order ∷ []) ∙ omega arith

  pub ref_index-push :
      (r : ℕ)
      → find r (push_order b ref side price shares).ref_index ≡ (
          if ref == r
          then some (record { side = side; price = price; it = length b.nodes })
          else find r b.ref_index)
  unfolding push_order
  ref_index-push r = find-insert ref r _ b.ref_index

  count-push :
      (a : ℕ) (s : Bool) (q : ℕ)
      → count a (level (push_order b ref side price shares) s q)
        ≡ count a (level b s q)
          + (if same_side (is_bid side) s && price == q && length b.nodes == a then 1 else 0)
  unfolding push_order
  count-push a s q =
      let bid = is_bid side in
      let m = levels b bid in
      let l = level_at m price ++ length b.nodes ∷ [] in
      elim (Bool-cases (same_side bid s)) [
        | inl e ↦
            let same = same_side→eq bid s e in
            rw (levels-with_levels b bid s (insert price l m), e, level_at-insert price q l m)
              (ground (arith, same, count-snoc a (length b.nodes) (level b bid price)))
        | inr ne ↦ rw (levels-with_levels b bid s (insert price l m), ne) (omega arith)
      ]

  module _ (fresh : find ref b.ref_index ≡ none) (fits : shares < 2 ^ 32) where
    abbrev b' : OrderBook
    b' = push_order b ref side price shares

    absent : (s : Bool) (q : ℕ) → count (length b.nodes) (level b s q) ≡ 0
    absent s q = elim (Bool-cases (count (length b.nodes) (level b s q) == 0)) [
      | inl e ↦ ground arith
      | inr ne ↦ absurd (omega (arith, (v.listed s q (length b.nodes) (ground arith)).made))
    ]

    new-IsListed : IsListed b' (is_bid side) price (length b.nodes)
    new-IsListed = record {
      made = omega (arith, length-push);
      on_side = ap (λ (o : RestingOrder). is_bid o.side) node-push_new;
      at_price = ap (λ (o : RestingOrder). o.price) node-push_new;
      found = rw node-push_new (ref_index-push ref ∙ ground arith);
    }

    new-IsIndexed : IsIndexed b' ref (record { side = side; price = price; it = length b.nodes })
    new-IsIndexed = record {
      made = omega (arith, length-push);
      same_ref = ap (λ (o : RestingOrder). o.ref) node-push_new;
      same_side = ap (λ (o : RestingOrder). o.side) node-push_new;
      same_price = ap (λ (o : RestingOrder). o.price) node-push_new;
      once = ground (
        arith,
        count-push (length b.nodes) (is_bid side) price,
        absent (is_bid side) price,
        same_side_refl (is_bid side),
      );
    }

    IsListed-push : (s : Bool) (p a : ℕ) → 1 ≤ count a (level b' s p) → IsListed b' s p a
    IsListed-push s p a h = elim (Bool-cases (length b.nodes == a)) [
      | inl e ↦
          let it = ==→eq (length b.nodes) a e in
          let old : count a (level b s p) ≡ 0 = rw (← it) (absent s p) in
          let here : same_side (is_bid side) s && price == p ≡ true =
            ground (arith, count-push a s p) in
          let bid : is_bid side ≡ s = same_side→eq (is_bid side) s (ground arith) in
          let price' : price ≡ p = ground arith in rw (← it, ← bid, ← price') new-IsListed
      | inr ne ↦
          let old = v.listed s p a (ground (arith, count-push a s p)) in
          let n = node-push_old a old.made in
          let other : ref ≢ (node b a).ref = λ e. ground (arith, old.found) in
          record {
            made = omega (arith, length-push, old.made);
            on_side = rw n old.on_side;
            at_price = rw n old.at_price;
            found = rw n (ref_index-push (node b a).ref ∙ ground (arith, old.found));
          }
    ]

    indexed-push : (r : ℕ) (l : OrderLocator) → find r b'.ref_index ≡ some l → IsIndexed b' r l
    indexed-push r l h = elim (Bool-cases (ref == r)) [
      | inl e ↦
          let same = ==→eq ref r e in
          let loc : record { side = side; price = price; it = length b.nodes } ≡ l =
            ground (arith, ref_index-push r) in
          subst (λ (t : ℕ). IsIndexed b' t l) same
            (subst (λ (t : OrderLocator). IsIndexed b' ref t) loc new-IsIndexed)
      | inr ne ↦
          let old = v.indexed r l (ground (arith, ref_index-push r)) in
          let n = node-push_old l.it old.made in
          record {
            made = omega (arith, length-push, old.made);
            same_ref = rw n old.same_ref;
            same_side = rw n old.same_side;
            same_price = rw n old.same_price;
            once = ground (arith, old.once, old.made, count-push l.it (is_bid l.side) l.price);
          }
    ]

    pub push_order-IsValid : IsValid (push_order b ref side price shares)
    push_order-IsValid = record {
      filled =
          unfold push_order in
          λ s.
            with_levels-IsFilled b (is_bid side) s _
              (insert-IsFilled price _ _
                (λ e. absurd (
                  omega (
                    arith,
                    ap length e,
                    length-append (level_at (levels b (is_bid side)) price) (length b.nodes ∷ []),
                  )))
                (v.filled (is_bid side)))
              v.filled;
      index_sorted =
          unfold push_order in insert-SortedFrom ref 0 _ b.ref_index (omega arith) v.index_sorted;
      indexed = indexed-push;
      listed = IsListed-push;
      shares_fit = λ a h. elim (Bool-cases (length b.nodes == a)) [
        | inl e ↦ rw (← ==→eq (length b.nodes) a e, node-push_new) fits
        | inr ne ↦
            let old : a < length b.nodes = ground (arith, length-push) in
            rw (node-push_old a old) (v.shares_fit a old)
      ];
    }
