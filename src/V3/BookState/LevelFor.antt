-- ===== src/V3/BookState/LevelFor.antt =====
-- What `level_for` returns and leaves alone, whether the price is in the window or not.
use feed_handler.Prelude.{
  ℕ, ◌+◌, ◌-◌, ◌*◌, ◌/◌, ◌%◌, ◌^◌, ◌≤◌, ◌<◌, ◌≡◌, ◌≢◌, refl, sym, ◌∙◌, Bool, true, false, length,
  if◌then◌else◌, ◌==◌, arith, Bool-cases, inl, inr,
}
use feed_handler.V3.Bitmap.{k_window, k_ask_base}
use feed_handler.V3.BookState.{
  OrderBook, side_of, price_of, set_base, in_window, overflow_level, level_for,
}
use feed_handler.V3.BookState.Keys.{is_bid, Keyed, price_of-far, Gives, IsSane}
use feed_handler.V3.BookState.Overflow.{overflow_level-Gives}

pub set_base_set : (b : OrderBook) (price : ℕ) → b.base_set ≡ true → set_base b price ≡ b
unfolding set_base
set_base_set b price e = ground arith

pub set_base_unset :
    (b : OrderBook) (price : ℕ)
    → b.base_set ≡ false
    → set_base b price ≡ record b { base = price / 100; base_set = true }
unfolding set_base
set_base_unset b price e = ground arith

set_base-Keyed : (b : OrderBook) (price : ℕ) → Keyed b → Keyed (set_base b price)
unfolding side_of
set_base-Keyed b price v = elim (Bool-cases b.base_set) [
  | inl e ↦ rw (set_base_set b price e) v
  | inr e ↦
      let c = record b { base = price / 100; base_set = true } in
      let same : (k : ℕ) → 2 * k_window ≤ k → price_of c k ≡ price_of b k =
        λ k h. price_of-far c k h ∙ sym (price_of-far b k h) in
      rw (set_base_unset b price e) (record {
        count = v.count;
        sorted = v.sorted;
        listed = λ s p l h.
            let (low, under, key, on) = v.listed s p l h in (low, under, same l low ∙ key, on);
        keyed = λ l low under. rw (same l low) (v.keyed l low under);
      })
]

-- Setting the base leaves all else alone.
set_base_lem :
    (b : OrderBook) (price : ℕ)
    → (side : ℕ) (out : ℕ × OrderBook) → Gives (set_base b price) price (side == b'B') out
    → Gives b price (side == b'B') out
unfolding side_of
set_base_lem b price side out g = elim (Bool-cases b.base_set) [
  | inl e ↦ rw (set_base_set b price e) at g
  | inr e ↦
      let unset : b.base_set ≢ true = λ f. cc in
      let c = record b { base = price / 100; base_set = true } in
      let h : Gives c price (side == b'B') out = rw (set_base_unset b price e) at g in
      record {
        keys = h.keys;
        inside = h.inside;
        at_price = h.at_price;
        on_side = h.on_side;
        more = h.more;
        prices = λ f. absurd (unset f);
        sides = h.sides;
        same_levels = h.same_levels;
        sane = h.sane;
        same_base = λ f. absurd (unset f);
        kept_set = λ f. absurd (unset f);
        same_bitmap = h.same_bitmap;
        same_bid = h.same_bid;
        same_ask = h.same_ask;
      }
]

module _ (b : OrderBook) (v : Keyed b) (price side : ℕ) (fits : price < 2 ^ 32)
    (inside : in_window b price ≡ true) where
  abbrev bid : Bool
  bid = side == b'B'

  abbrev off : ℕ
  off = price / 100 + k_window / 2 - b.base

  abbrev slot : ℕ
  slot = if bid then off else k_ask_base + off

  window_facts : (price % 100 ≡ 0) × (b.base ≤ price / 100 + k_window / 2) × (off < k_window)
  unfolding in_window
  window_facts = ground arith

  slot-price : price_of b slot ≡ price
  unfolding price_of
  slot-price = let (whole, above, low) = window_facts in ground arith

  slot-IsSane : IsSane b slot
  slot-IsSane h = let (whole, above, low) = window_facts in ground arith

  slot-is_bid : is_bid b slot ≡ bid
  unfolding side_of
  slot-is_bid = let (whole, above, low) = window_facts in ground arith

  window-Gives : Gives b price bid (slot, b)
  window-Gives = record {
    keys = v;
    inside = let (_, _, low) = window_facts in ground (arith, v.count);
    at_price = slot-price;
    on_side = slot-is_bid;
    more = omega arith;
    prices = λ _ k _. refl;
    sides = λ k _. refl;
    same_levels = λ k. refl;
    sane = slot-IsSane;
    same_base = λ _. refl;
    kept_set = λ e. e;
    same_bitmap = refl;
    same_bid = refl;
    same_ask = refl;
  }

-- On a book whose overflow maps are well formed and whose levels are fewer than 2 ^ 32, `level_for`
-- returns a level in range for a price of 32 bits, whether the price is in the window or beyond it: the
-- level has this price and side, every level from before keeps its side, its orders and, if the window's
-- base was set before, its price, and the maps stay well formed. The base, once set, stays; the best
-- indices and the bitmap are not touched.
pub level_for-Gives :
    (b : OrderBook) (price side : ℕ)
    → Keyed b
    → price < 2 ^ 32
    → length b.levels < 2 ^ 32
    → Gives b price (side == b'B') (level_for b price side)
unfolding level_for
level_for-Gives b price side v fits room =
    let w = set_base-Keyed b price v in
    let small : length (set_base b price).levels < 2 ^ 32 =
      ground (arith, set_base_set b price, set_base_unset b price, Bool-cases b.base_set) in
    set_base_lem b price side (level_for b price side)
      (elim (Bool-cases (in_window (set_base b price) price)) [
        | inl e ↦ rw e (window-Gives (set_base b price) w price side fits e)
        | inr e ↦ rw e (overflow_level-Gives (set_base b price) w price side small)
      ])

-- The base is set from then on.
pub level_for-base_set :
    (b : OrderBook) (price side : ℕ) → (level_for b price side).1.base_set ≡ true
unfolding level_for overflow_level set_base
level_for-base_set b price side = ground arith
