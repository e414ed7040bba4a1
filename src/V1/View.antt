-- ===== src/V1/View.antt =====
-- The live orders of a v1 book, and its best prices.
use feed_handler.Map.{find, first?, last?}
use feed_handler.Map.Ends.{first?-some, last?-some, first?-none, last?-none}
use feed_handler.Prelude.{
  ℕ, ◌≤◌, ◌≡◌, refl, Bool, true, false, List, [], ◌∷◌, none, some, ◌∙◌, ap, sym, arith,
  Option-cases, inl, inr,
}
use feed_handler.Spec.{Order, Orders, Rests, Beats, IsBest, IsTop}
use feed_handler.V1.{RestingOrder, OrderBook, OrderLocator, node, levels, is_bid, best_bid_ask}
use feed_handler.V1.Levels.{count}
use feed_handler.V1.Valid.{level, IsValid}

abbrev pub order : RestingOrder → Order
order o = record { bid = is_bid o.side; price = o.price; shares = o.shares }

-- The order that the index leads to.
unfoldable pub view : OrderBook → Orders
view b ref = elim (find ref b.ref_index) [ none ↦ none | some loc ↦ some (order (node b loc.it)) ]

module _ (b : OrderBook) (v : IsValid b) where
  -- A price with a level has an order resting there.
  level-Rests : (s : Bool) (p : ℕ) (l : List ℕ) → find p (levels b s) ≡ some l → Rests (view b) s p
  unfolding view count
  level-Rests s p [] h = absurd ((v.filled s).filled p [] h refl)
  level-Rests s p (a ∷ l) h =
      let here : 1 ≤ count a (level b s p) = rw (h, count) (ground arith) in
      let i = v.listed s p a here in
      ((node b a).ref, order (node b a), rw (i.found, view), i.on_side, i.at_price)

  -- A resting order stands in a level of its price.
  Rests-level :
      (s : Bool) (p : ℕ) → Rests (view b) s p → (l : List ℕ) × (find p (levels b s) ≡ some l)
  unfolding view count
  Rests-level s p (ref, o, found, side, price) = elim (Option-cases (find ref b.ref_index)) [
    | inl e ↦ absurd (missing e)
    | inr (loc, e) ↦
        let i = v.indexed ref loc e in
        let same : order (node b loc.it) ≡ o = known loc e in
        let bid : is_bid loc.side ≡ s =
          ap is_bid (sym i.same_side) ∙ ap (λ (t : Order). t.bid) same ∙ side in
        let at : loc.price ≡ p = sym i.same_price ∙ ap (λ (t : Order). t.price) same ∙ price in
        let once : count loc.it (level b s p) ≡ 1 = rw (← bid, ← at) i.once in
        elim (Option-cases (find p (levels b s))) [
          | inl none_there ↦ absurd (nothing loc.it none_there once)
          | inr there ↦ there
        ]
  ]
    where
      missing : find ref b.ref_index ≡ none → ⊥
      missing e = ground arith

      known : (loc : OrderLocator) → find ref b.ref_index ≡ some loc → order (node b loc.it) ≡ o
      known loc e = ground (arith, found)

      nothing : (a : ℕ) → find p (levels b s) ≡ none → count a (level b s p) ≡ 1 → ⊥
      nothing a e h = ground arith

  IsBest_lem :
      (s : Bool) (p : ℕ) (l : List ℕ)
      → find p (levels b s) ≡ some l
      → ((q : ℕ) (k : List ℕ) → find q (levels b s) ≡ some k → Beats s p q)
      → IsBest (view b) s p
  IsBest_lem s p l h all = record {
    rests = level-Rests s p l h;
    best = λ q r. let (k, e) = Rests-level s q r in all q k e;
  }

  -- A side without levels has no orders.
  none-Rests : (s : Bool) (q : ℕ) → levels b s ≡ [] → ¬ Rests (view b) s q
  unfolding find
  none-Rests s q e r = let (k, f) = Rests-level s q r in cc (ap (find q) e)

  -- The best prices that a valid v1 book reports are the highest bid and the lowest ask among its live
  -- orders, and it reports none only if it has no bid or no ask.
  pub best_bid_ask-IsTop : IsTop (view b) (best_bid_ask b)
  unfolding best_bid_ask
  best_bid_ask-IsTop = elim (Option-cases (last? b.bids)) [
    | inl e ↦ rw (e, best_bid_ask) (inl (λ q. none-Rests true q (last?-none b.bids e)))
    | inr ((bid, l), e) ↦ elim (Option-cases (first? b.asks)) [
      | inl f ↦ rw (e, f, best_bid_ask) (inr (λ q. none-Rests false q (first?-none b.asks f)))
      | inr ((ask, k), f) ↦
          let top = last?-some 0 b.bids (v.filled true).sorted e in
          let bottom = first?-some 0 b.asks (v.filled false).sorted f in
          rw (e, f, best_bid_ask)
            (IsBest_lem true bid l top.0 top.1, IsBest_lem false ask k bottom.0 bottom.1)
    ]
  ]
