-- ===== src/V3/BookState/Overflow.antt =====
-- What `overflow_level` does to the overflow maps.
use feed_handler.Map.{Map, find, insert}
use feed_handler.Map.Sorted.{find-insert, insert-SortedFrom}
use feed_handler.Prelude.{
  get_or-append_left, get_or-append_default, get_or-append_length, length-append, ℕ, suc, ◌-◌, ◌*◌,
  ◌%◌, ◌^◌, ◌≤◌, ◌<◌, ◌≡◌, ◌≢◌, refl, sym, ap, ◌∙◌, Bool, true, false, [], ◌∷◌, ◌++◌, none, some,
  length, if◌then◌else◌, ◌==◌, ltb, ◌⊎◌, arith, Bool-cases, Option-cases, inl, inr, ==→eq, ==→ne,
}
use feed_handler.V3.Bitmap.{k_window, k_ask_base}
use feed_handler.V3.BookState.{
  OrderBook, empty_level, level, side_of, key_of, price_of, overflow_level,
}
use feed_handler.V3.BookState.Keys.{
  overflow_of, is_bid, Keyed, key_of-insert_new, key_of-insert_other, price_of-far, price_of-near,
  sides?, Gives,
}

module _ (b : OrderBook) (v : Keyed b) (price side : ℕ) where
  abbrev bid : Bool
  bid = side == b'B'

  abbrev idx : ℕ
  idx = length b.levels

  abbrev m : Map ℕ
  m = overflow_of b bid

  abbrev grown : OrderBook
  grown = record b {
    levels = b.levels ++ empty_level ∷ [];
    overflow_side = b.overflow_side ++ side ∷ [];
    overflow_bid = if bid then insert price idx m else b.overflow_bid;
    overflow_ask = if bid then b.overflow_ask else insert price idx m;
  }

  grown-same : overflow_of grown bid ≡ insert price idx m
  grown-same = elim (Bool-cases bid) [ inl e ↦ rw e refl | inr e ↦ rw e refl ]

  grown-other : (s : Bool) → s ≢ bid → overflow_of grown s ≡ overflow_of b s
  grown-other true ne = elim (Bool-cases bid) [ inl e ↦ absurd (ne (sym e)) | inr e ↦ rw e refl ]
  grown-other false ne = elim (Bool-cases bid) [ inl e ↦ rw e refl | inr e ↦ absurd (ne (sym e)) ]

  side-old : (k : ℕ) → k < idx → side_of grown k ≡ side_of b k
  unfolding side_of
  side-old k h =
      ground (arith, get_or-append_left b.overflow_side (side ∷ []) (k - 2 * k_window) 0, v.count)

  side-new : side_of grown idx ≡ side
  unfolding side_of
  side-new =
      let at : idx - 2 * k_window ≡ length b.overflow_side = omega (arith, v.count) in
      let past : ltb idx k_ask_base ≡ false = ground (arith, v.count) in
      let beyond : ltb idx (2 * k_window) ≡ false = ground (arith, v.count) in
      rw (past, beyond, at) (get_or-append_length b.overflow_side side 0)

  module _ (fresh : find price m ≡ none) where
    key-old :
        (s : Bool) (k : ℕ) → idx ≢ k → key_of (overflow_of grown s) k ≡ key_of (overflow_of b s) k
    key-old s k ne = elim (sides? s bid) [
      | inl e ↦ rw (e, grown-same) (key_of-insert_other price idx k m ne fresh)
      | inr other ↦ rw (grown-other s other) refl
    ]

    price-old : (k : ℕ) → k < idx → price_of grown k ≡ price_of b k
    price-old k h = elim (Bool-cases (ltb k (2 * k_window))) [
      | inl e ↦ price_of-near grown b k (ground arith) refl
      | inr e ↦
          let far : 2 * k_window ≤ k = ground arith in
          price_of-far grown k far
          ∙ ap (λ (t : ℕ). key_of (overflow_of grown (t == b'B')) k) (side-old k h)
          ∙ key-old (is_bid b k) k (omega arith)
          ∙ sym (price_of-far b k far)
    ]

    price-new : price_of grown idx ≡ price
    price-new =
        price_of-far grown idx (omega (arith, v.count))
        ∙ ap (λ (t : ℕ). key_of (overflow_of grown (t == b'B')) idx) side-new
        ∙ rw grown-same (
            key_of-insert_new price idx 0 m (v.sorted bid)
              (λ q e. absurd (omega (arith, (v.listed bid q idx e).1))))

    find-grown :
        (s : Bool) (p : ℕ)
        → ((s ≡ bid) × (p ≡ price) × (find p (overflow_of grown s) ≡ some idx))
          ⊎ (find p (overflow_of grown s) ≡ find p (overflow_of b s))
    find-grown s p = elim (sides? s bid) [
      | inl e ↦ elim (Bool-cases (price == p)) [
        | inl f ↦
            inl (e, sym (==→eq _ _ f), rw (e, grown-same) (rw (find-insert price p idx m, f) refl))
        | inr f ↦ inr (rw (e, grown-same) (rw (find-insert price p idx m, f) refl))
      ]
      | inr other ↦ inr (rw (grown-other s other) refl)
    ]

    length-grown : length grown.levels ≡ suc idx
    length-grown = rw length-append (omega arith)

    old-keyed :
        (l : ℕ)
        → 2 * k_window ≤ l
        → l < idx
        → find (price_of grown l) (overflow_of grown (is_bid grown l)) ≡ some l
    old-keyed l low h =
        let key = v.keyed l low h in
        rw (price-old l h, side-old l h)
          (elim (find-grown (is_bid b l) (price_of b l)) [
            | inl (e, f, g) ↦
                let known : find price m ≡ some l = rw (e, f) at key in absurd (cc fresh)
            | inr g ↦ g ∙ key
          ])

    grown-Keyed : Keyed grown
    grown-Keyed = record {
      count = rw (length-append, length-append) (omega (arith, v.count));
      sorted = λ s. elim (sides? s bid) [
        | inl e ↦ rw (e, grown-same) (insert-SortedFrom price 0 idx m (omega arith) (v.sorted bid))
        | inr other ↦ rw (grown-other s other) (v.sorted s)
      ];
      listed = λ s p l h. elim (find-grown s p) [
        | inl (e, f, g) ↦
            let at : l ≡ idx = ground (arith, g) in
            rw at (
              omega (arith, v.count),
              omega (arith, length-grown),
              price-new ∙ sym f,
              rw side-new (sym e),
            )
        | inr g ↦
            let (low, under, key, on) = v.listed s p l (sym g ∙ h) in
            (
              low,
              omega (arith, length-grown, under),
              price-old l under ∙ key,
              rw (side-old l under) on,
            )
      ];
      keyed = λ l low under. elim (Bool-cases (idx == l)) [
        | inl e ↦
            let at : l ≡ idx = sym (==→eq idx l e) in
            rw (at, price-new, side-new, grown-same)
              (rw (find-insert price price idx m) (ground arith))
        | inr e ↦ old-keyed l low (omega (arith, length-grown, ==→ne idx l e))
      ];
    }

  level-grown : (k : ℕ) → level grown k ≡ level b k
  level-grown k = get_or-append_default b.levels k empty_level

  -- The level of a price outside the window, with what stays.
  pub overflow_level-Gives : idx < 2 ^ 32 → Gives b price bid (overflow_level b price side)
  unfolding overflow_level
  overflow_level-Gives room = elim (Option-cases (find price m)) [
    | inl fresh ↦
        let exact : idx % 2 ^ 32 ≡ idx = omega arith in
        rw (fresh, exact, overflow_level)
          (record {
            keys = grown-Keyed fresh;
            inside = omega (arith, length-grown fresh);
            at_price = price-new fresh;
            on_side = rw side-new refl;
            more = omega (arith, length-grown fresh);
            prices = λ _ k h. price-old fresh k h;
            sides = λ k h. rw (side-old k h) refl;
            same_levels = level-grown;
            sane = λ h. absurd (omega (arith, v.count));
            same_base = λ _. refl;
            kept_set = λ e. e;
            same_bitmap = refl;
            same_bid = refl;
            same_ask = refl;
          })
    | inr (l, e) ↦
        let (low, under, key, on) = v.listed bid price l e in
        rw (e, overflow_level)
          (record {
            keys = v;
            inside = under;
            at_price = key;
            on_side = on;
            more = omega arith;
            prices = λ _ k h. refl;
            sides = λ k h. refl;
            same_levels = λ k. refl;
            sane = λ h. absurd (omega (arith, low));
            same_base = λ _. refl;
            kept_set = λ e. e;
            same_bitmap = refl;
            same_bid = refl;
            same_ask = refl;
          })
  ]
