-- ===== src/V3/OrderBook/View.antt =====
-- The best prices of a valid v3 book, against its live orders.
use feed_handler.Spec.{Order, Rests, IsTop}
use feed_handler.Prelude.{
  ℕ, ◌+◌, ◌-◌, ◌*◌, ◌/◌, ◌≤◌, ◌<◌, ◌≡◌, ◌≢◌, refl, ap, ◌∙◌, ◌⊎◌, inl, inr, Bool, true, false,
  Option, none, some, ◌>>=◌, ltb, arith, Bool-cases, length, ltb→lt, ltb→ge, lt→ltb, ge→ltb,
}
use mathlib.Core.Option.{map}
use feed_handler.V3.RefTable
use feed_handler.V3.RefTable.{k_empty, k_null_idx}
use feed_handler.V3.Bitmap.{k_window, k_ask_base}
use feed_handler.V3.Bitmap.Search.{is_set, IsPrev, IsNext}
use feed_handler.V3.ObjectPool.{pooled}
use feed_handler.V3.BookState.{OrderBook, Store, level, price_of, side_of}
use feed_handler.V3.BookState.Keys.{overflow_of, is_bid, IsSane, offset}
use feed_handler.V3.Links.Walk.{has_head}
use feed_handler.V3.OrderBook.{last_live, first_live, pick, best_bid_ask}
use feed_handler.V3.OrderBook.Pointers.{links_of}
use feed_handler.V3.OrderBook.Tops.{
  Top, pick-Top_bid, pick-Top_ask, Lives, last_live-Top, first_live-Top,
}
use feed_handler.V3.OrderBook.Valid.{IsValid, order_at, view, view-known}

module _ (s : Store) (v : IsValid s) where
  abbrev b : OrderBook
  b = s.book

  abbrev Filled : ℕ → Type 0
  Filled l = (level b l).head_idx ≢ k_null_idx

  -- The order at the head of a level rests at the level's price.
  Filled-Rests : (l : ℕ) → Filled l → Rests (view s) (is_bid b l) (price_of b l)
  Filled-Rests l on =
      let i = (level b l).head_idx in
      let (live, at, _) = v.linked.head l on in
      (
        v.owner i,
        order_at s i,
        view-known s (v.owner i) i (v.owned.real i live) on (v.owned.held i live),
        ap (is_bid b) at,
        ap (price_of b) at,
      )

  -- The level of an order that rests.
  record Level (side : Bool) (q : ℕ) : Type 0 where
    l : ℕ
    filled : Filled l
    on_side : is_bid b l ≡ side
    at_price : price_of b l ≡ q
    inside : l < length b.levels
    sane : IsSane b l

  Rests-Level : (side : Bool) (q : ℕ) → Rests (view s) side q → Level side q
  unfolding view
  Rests-Level side q (ref, o, found, on_side, at_price) =
      let i = RefTable.find s.refs ref in
      let fine : ref ≢ k_empty = ground arith in
      let some_i : i ≢ k_null_idx = ground arith in
      let (live, mine) = v.owned.named ref fine some_i in
      let same : order_at s i ≡ o = ground arith in
      record {
        l = (pooled s.pool.slots i).level_idx;
        filled = has_head (links_of s.pool s.book) v.live v.stamp v.clock v.linked i live;
        on_side = ap (λ (t : Order). t.bid) same ∙ on_side;
        at_price = ap (λ (t : Order). t.price) same ∙ at_price;
        inside = v.ranged i live;
        sane = v.sane i live;
      }

  head-IsSane : (l : ℕ) → Filled l → IsSane b l
  head-IsSane l on =
      let (live, at, _) = v.linked.head l on in rw at at (v.sane (level b l).head_idx live)

  -- The prices of the window, and those beyond it.
  abbrev Near : Bool → ℕ → Type 0
  Near side q = (l : ℕ) × (l < 2 * k_window) × Filled l × (is_bid b l ≡ side) × (price_of b l ≡ q)

  is_bid-near : (l : ℕ) → l < 2 * k_window → is_bid b l ≡ ltb l k_ask_base
  unfolding side_of
  is_bid-near l h = ground arith

  -- In each half of the window the prices ascend.
  price_near :
      (l : ℕ)
      → l < 2 * k_window
      → Filled l
      → price_of b l ≡ (b.base + offset l - k_window / 2) * 100
  unfolding price_of
  price_near l h on = let (low, high) = head-IsSane l on h in ground arith

  Filled-is_set : (l : ℕ) → l < 2 * k_window → Filled l → is_set b.occupied l ≡ true
  Filled-is_set l h on = ground (arith, v.marked l h)

  is_set-Filled : (l : ℕ) → l < 2 * k_window → is_set b.occupied l ≡ true → Filled l
  is_set-Filled l h on = ground (arith, v.marked l h)

  Near-Top_bid :
      (o : Option ℕ)
      → IsPrev b.occupied (k_ask_base - 1) k_ask_base o
      → Top true (Near true) (map (price_of b) o)
  Near-Top_bid none p =
      λ q (l, h, on, side, _). ground (arith, p l, Filled-is_set l h on, is_bid-near l h)
  Near-Top_bid (some r) (below, on, none_above) =
      let inside : r < 2 * k_window = omega arith in
      let filled = is_set-Filled r inside on in
      (
        (r, inside, filled, is_bid-near r inside ∙ ground arith, refl),
        λ q (l, h, on', side, price).
            let low : l < k_ask_base = ground (arith, is_bid-near l h) in
            let upto : l ≤ r = ground (arith, none_above l, Filled-is_set l h on') in
            let pl = price_near l h on' in
            let pr = price_near r inside filled in
            let ol : offset l ≡ l = rw (lt→ltb l k_ask_base low) refl in
            let or : offset r ≡ r = rw (lt→ltb r k_ask_base (omega arith)) refl in
            omega (arith, price, pl, pr, ol, or),
      )

  Near-Top_ask :
      (o : Option ℕ)
      → IsNext b.occupied k_ask_base k_ask_base (2 * k_window) o
      → Top false (Near false) (map (price_of b) o)
  Near-Top_ask none p =
      λ q (l, h, on, side, _). ground (arith, p l, Filled-is_set l h on, is_bid-near l h)
  Near-Top_ask (some r) (from, inside, on, none_below) =
      let filled = is_set-Filled r inside on in
      (
        (r, inside, filled, is_bid-near r inside ∙ ground arith, refl),
        λ q (l, h, on', side, price).
            let high : k_ask_base ≤ l = ground (arith, is_bid-near l h) in
            let after : r ≤ l = ground (arith, none_below l, Filled-is_set l h on') in
            let pl = price_near l h on' in
            let pr = price_near r inside filled in
            let ol : offset l ≡ l - k_ask_base = rw (ge→ltb l k_ask_base high) refl in
            let or : offset r ≡ r - k_ask_base = rw (ge→ltb r k_ask_base from) refl in
            omega (arith, price, pl, pr, ol, or),
      )

  -- Where an order of a side rests.
  split :
      (side : Bool) (q : ℕ) → Rests (view s) side q → Near side q ⊎ Lives b (overflow_of b side) q
  split side q r =
      let t = Rests-Level side q r in
      elim (Bool-cases (ltb t.l (2 * k_window))) [
        | inl e ↦ inl (t.l, ltb→lt _ _ e, t.filled, t.on_side, t.at_price)
        | inr e ↦
            let key = v.keys.keyed t.l (ltb→ge _ _ e) t.inside in
            inr (t.l, rw (t.on_side, t.at_price) at key, t.filled)
      ]

  join :
      (side : Bool) (q : ℕ) → Near side q ⊎ Lives b (overflow_of b side) q → Rests (view s) side q
  join side q (inl (l, _, on, e, f)) = rw (e, f) at (Filled-Rests l on)
  join side q (inr (l, key, on)) =
      let (_, _, f, e) = v.keys.listed side q l key in rw (e, f) at (Filled-Rests l on)

  best_lem :
      (side : Bool) (o : Option ℕ)
      → Top side (λ q. Near side q ⊎ Lives b (overflow_of b side) q) o
      → Top side (Rests (view s) side) o
  best_lem side none f = λ q r. f q (split side q r)
  best_lem side (some p) f = (join side p f.0, λ q r. f.1 q (split side q r))

  abbrev bid : Option ℕ
  bid = pick (λ p q. ltb q p) (map (price_of b) b.best_bid_idx) (last_live b b.overflow_bid)

  abbrev ask : Option ℕ
  ask = pick ltb (map (price_of b) b.best_ask_idx) (first_live b b.overflow_ask)

  bid-Top : Top true (Rests (view s) true) bid
  bid-Top = best_lem true bid (
      pick-Top_bid (Near true) (Lives b b.overflow_bid) (map (price_of b) b.best_bid_idx)
        (last_live b b.overflow_bid) (Near-Top_bid b.best_bid_idx v.best.top_bid)
        (last_live-Top b 0 b.overflow_bid (v.keys.sorted true)))

  ask-Top : Top false (Rests (view s) false) ask
  ask-Top = best_lem false ask (
      pick-Top_ask (Near false) (Lives b b.overflow_ask) (map (price_of b) b.best_ask_idx)
        (first_live b b.overflow_ask) (Near-Top_ask b.best_ask_idx v.best.top_ask)
        (first_live-Top b 0 b.overflow_ask (v.keys.sorted false)))

  top_lem :
      (o r : Option ℕ)
      → Top true (Rests (view s) true) o
      → Top false (Rests (view s) false) r
      → IsTop (view s) (do p ← o; q ← r; some (p, q))
  top_lem none r f g = inl f
  top_lem (some p) none f g = inr g
  top_lem (some p) (some q) f g =
      (record { rests = f.0; best = f.1 }, record { rests = g.0; best = g.1 })

  -- The best prices that a valid v3 book reports are the highest bid and the lowest ask among its live
  -- orders, in the window or beyond it, and it reports none only if it has no bid or no ask.
  pub v3-best_bid_ask-IsTop : IsTop (view s) (best_bid_ask s.book)
  unfolding best_bid_ask
  v3-best_bid_ask-IsTop = top_lem bid ask bid-Top ask-Top
