-- ===== src/V3/OrderBook/Indices.antt =====
-- The best indices of a book when a level is filled or emptied.
use feed_handler.Prelude.{
  Bool, true, false, not, ◌&&◌, ◌||◌, ◌==◌, ◌!=◌, ℕ, ◌*◌, ◌/◌, ◌<◌, ◌≡◌, refl, List, length,
  length-set, if◌then◌else◌, ltb, arith, Bool-cases, inl, inr, ltb→lt, ltb→ge,
}
use feed_handler.V3.Bitmap.{k_window, k_ask_base, mark, unmark, find_prev_set, find_next_set}
use feed_handler.V3.Bitmap.Search.{WordsFit, is_set}
use feed_handler.V3.Bitmap.Marks.{is_set-mark, mark-WordsFit, is_set-unmark, unmark-WordsFit}
use feed_handler.V3.BookState.{OrderBook}
use feed_handler.V3.OrderBook.{is_best, rescan_best, raise_best, lower_best, settle}
use feed_handler.V3.OrderBook.Best.{
  IsBest, Marked, Unmarked, raise_bid, keep_bid, raise_ask, keep_ask, lower_bid, lower_ask,
}

abbrev pub BestOf : OrderBook → Type 0
BestOf b = IsBest b.occupied b.best_bid_idx b.best_ask_idx

-- The bitmap that `unlink_order` leaves.
abbrev unmarked : OrderBook → ℕ → List ℕ
unmarked b l = if ltb l (2 * k_window) then unmark b.occupied l else b.occupied

lower_best_lem :
    (b : OrderBook) (l : ℕ)
    → lower_best b l ≡ record b {
      occupied = unmarked b l;
      best_bid_idx =
          if is_best l b.best_bid_idx
          then find_prev_set (unmarked b l) b.best_bid_idx
          else b.best_bid_idx;
      best_ask_idx =
          if is_best l b.best_ask_idx
          then find_next_set (unmarked b l) b.best_ask_idx
          else b.best_ask_idx;
    }
unfolding lower_best rescan_best
lower_best_lem b l = elim (Bool-cases (is_best l b.best_bid_idx)) [
  | inl e ↦ elim (Bool-cases (is_best l b.best_ask_idx)) [
    | inl f ↦ rw (e, f) refl
    | inr f ↦ rw (e, f) refl
  ]
  | inr e ↦ elim (Bool-cases (is_best l b.best_ask_idx)) [
    | inl f ↦ rw (e, f) refl
    | inr f ↦ rw (e, f) refl
  ]
]

module _ (b : OrderBook) (v : BestOf b) (l : ℕ) where
  pub raise_best-IsBest : BestOf (raise_best b l)
  unfolding raise_best mark
  raise_best-IsBest = elim (Bool-cases (ltb l (2 * k_window))) [
    | inl window ↦
        let inside : l / 64 < length b.occupied =
          omega (arith, ltb→lt l (2 * k_window) window, v.width) in
        let new = mark b.occupied l in
        let marked : Marked b.occupied new l = λ i h. is_set-mark b.occupied v.fits l inside i in
        let fits = mark-WordsFit b.occupied v.fits l inside in
        elim (Bool-cases (ltb l k_ask_base)) [
          | inl bid ↦
              rw (window, bid)
                (record {
                  width = width_of;
                  fits = fits;
                  top_bid =
                      raise_bid b.occupied new l b.best_bid_idx marked (ltb→lt l k_ask_base bid)
                        v.top_bid;
                  top_ask =
                      keep_ask b.occupied new l b.best_ask_idx marked (ltb→lt l k_ask_base bid)
                        v.top_ask;
                })
          | inr ask ↦
              rw (window, ask)
                (record {
                  width = width_of;
                  fits = fits;
                  top_bid =
                      keep_bid b.occupied new l b.best_bid_idx marked (ltb→ge l k_ask_base ask)
                        v.top_bid;
                  top_ask =
                      raise_ask b.occupied new l b.best_ask_idx marked (ltb→ge l k_ask_base ask)
                        (ltb→lt l (2 * k_window) window) v.top_ask;
                })
        ]
    | inr beyond ↦ let far : ltb l k_ask_base ≡ false = ground arith in rw (beyond, far) v
  ]
    where
      width_of : length (mark b.occupied l) ≡ 32
      width_of = rw length-set v.width

  unmarked-Unmarked : Unmarked b.occupied (unmarked b l) l
  unmarked-Unmarked i h = elim (Bool-cases (ltb l (2 * k_window))) [
    | inl window ↦ rw window (
        is_set-unmark b.occupied v.fits l (omega (arith, ltb→lt l (2 * k_window) window, v.width))
          i)
    | inr beyond ↦ rw beyond (ground arith)
  ]

  unmarked-WordsFit : WordsFit (unmarked b l)
  unmarked-WordsFit q = elim (Bool-cases (ltb l (2 * k_window))) [
    | inl window ↦ rw window (
        unmark-WordsFit b.occupied v.fits l (omega (arith, ltb→lt l (2 * k_window) window, v.width))
          q)
    | inr beyond ↦ rw beyond (v.fits q)
  ]

  length-unmarked : length (unmarked b l) ≡ 32
  unfolding unmark
  length-unmarked = elim (Bool-cases (ltb l (2 * k_window))) [
    | inl window ↦ rw window (rw length-set v.width)
    | inr beyond ↦ rw beyond v.width
  ]

  pub lower_best-IsBest : BestOf (lower_best b l)
  lower_best-IsBest = rw lower_best_lem (record {
    width = length-unmarked;
    fits = unmarked-WordsFit;
    top_bid =
        lower_bid b.occupied (unmarked b l) l b.best_bid_idx unmarked-WordsFit unmarked-Unmarked
          v.top_bid;
    top_ask =
        lower_ask b.occupied (unmarked b l) l b.best_ask_idx unmarked-WordsFit unmarked-Unmarked
          v.top_ask;
  })

  -- The bitmap of the window after either.
  pub is_set-raise_best :
      (i : ℕ)
      → i < 2 * k_window
      → is_set (raise_best b l).occupied i ≡ is_set b.occupied i || l == i
  unfolding raise_best
  is_set-raise_best i h = elim (Bool-cases (ltb l (2 * k_window))) [
    | inl window ↦
        let inside : l / 64 < length b.occupied =
          omega (arith, ltb→lt l (2 * k_window) window, v.width) in
        ground (arith, is_set-mark b.occupied v.fits l inside i)
    | inr beyond ↦ ground arith
  ]

  pub is_set-lower_best :
      (i : ℕ)
      → i < 2 * k_window
      → is_set (lower_best b l).occupied i ≡ is_set b.occupied i && l != i
  is_set-lower_best i h = rw lower_best_lem (unmarked-Unmarked i h)

  pub is_set-settle :
      (emptied : Bool) (i : ℕ)
      → i < 2 * k_window
      → is_set (settle b emptied l).occupied i ≡ is_set b.occupied i && not (emptied && l == i)
  unfolding settle
  is_set-settle true i h = rw (is_set-lower_best i h) (ground arith)
  is_set-settle false i h = ground arith
