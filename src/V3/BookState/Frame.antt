-- ===== src/V3/BookState/Frame.antt =====
-- Changes of a book that leave the keys of its levels alone.
use feed_handler.Prelude.{ℕ, ◌≡◌, refl, sym, ap, ◌∙◌, Bool, true, false, length}
use feed_handler.Map.{find}
use feed_handler.V3.BookState.{OrderBook, side_of, price_of}
use feed_handler.V3.BookState.Keys.{overflow_of, is_bid, Keyed, IsSane}

pub record SameKeys (b c : OrderBook) : Type 0 where
  pub base : c.base ≡ b.base
  pub base_set : c.base_set ≡ b.base_set
  pub overflow_bid : c.overflow_bid ≡ b.overflow_bid
  pub overflow_ask : c.overflow_ask ≡ b.overflow_ask
  pub overflow_side : c.overflow_side ≡ b.overflow_side
  pub width : length c.levels ≡ length b.levels

module _ (b c : OrderBook) (e : SameKeys b c) where
  pub same_side : (k : ℕ) → side_of c k ≡ side_of b k
  unfolding side_of
  same_side k = rw e.overflow_side refl

  pub same_price : (k : ℕ) → price_of c k ≡ price_of b k
  unfolding price_of
  same_price k = rw (same_side k, e.base, e.overflow_bid, e.overflow_ask) refl

  pub same_map : (s : Bool) → overflow_of c s ≡ overflow_of b s
  same_map true = e.overflow_bid
  same_map false = e.overflow_ask

  pub same_Keyed : Keyed b → Keyed c
  same_Keyed v = record {
    count = rw (e.width, e.overflow_side) v.count;
    sorted = λ s. rw (same_map s) (v.sorted s);
    listed = λ s p l h.
        let (low, under, key, on) = v.listed s p l (sym (ap (find p) (same_map s)) ∙ h) in
        (low, rw e.width under, same_price l ∙ key, rw (same_side l) on);
    keyed = λ l low under.
        rw (same_price l, same_side l, same_map (is_bid b l)) (v.keyed l low (rw e.width at under));
  }

  pub same_IsSane : (l : ℕ) → IsSane b l → IsSane c l
  same_IsSane l h = rw e.base h
