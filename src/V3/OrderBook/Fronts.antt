-- ===== src/V3/OrderBook/Fronts.antt =====
-- Which levels the best indices of a book point to, by the orders that stand there.
use feed_handler.Spec.Messages.{Legal}
use feed_handler.Prelude.{ℕ, ◌*◌, ◌≤◌, ◌<◌, ◌≡◌, ◌-◌, true, false, Option, none, some, arith}
use feed_handler.V3.RefTable.{k_null_idx}
use feed_handler.V3.Bitmap.{k_window, k_ask_base}
use feed_handler.V3.BookState.{OrderBook, Store, level}
use feed_handler.V3.OrderBook.Steps.{one_store}
use feed_handler.V3.Bitmap.Search.{is_set, IsPrev, IsNext}
use feed_handler.V3.OrderBook.Valid.{IsValid, view}
use feed_handler.V3.OrderBook.Refine.{Room, apply-Refines}
use feed_handler.Wire.Message.{Message}
use feed_handler.Feed.Frames.{apply}

-- A level without orders.
abbrev pub IsBare : OrderBook → ℕ → Type 0
IsBare b l = (level b l).head_idx ≡ k_null_idx

-- The highest level of the bid window that has an order, or none if none has.
abbrev pub IsHighest : OrderBook → Option ℕ → Type 0
IsHighest b none = (l : ℕ) → l < k_ask_base → IsBare b l
IsHighest b (some r) =
    (r < k_ask_base) × (¬ IsBare b r) × ((l : ℕ) → r < l → l < k_ask_base → IsBare b l)

-- The lowest level of the ask window that has an order, or none if none has.
abbrev pub IsLowest : OrderBook → Option ℕ → Type 0
IsLowest b none = (l : ℕ) → k_ask_base ≤ l → l < 2 * k_window → IsBare b l
IsLowest b (some r) =
    (k_ask_base ≤ r)
    × (r < 2 * k_window)
    × (¬ IsBare b r)
    × ((l : ℕ) → k_ask_base ≤ l → l < r → IsBare b l)

module _ (s : Store) (v : IsValid s) where
  bare : (l : ℕ) → l < 2 * k_window → is_set s.book.occupied l ≡ false → IsBare s.book l
  bare l inside e = ground (arith, v.marked l inside)

  filled : (l : ℕ) → l < 2 * k_window → is_set s.book.occupied l ≡ true → ¬ IsBare s.book l
  filled l inside e = λ none_here. ground (arith, v.marked l inside)

  best_bid_idx-IsHighest : IsHighest s.book s.book.best_bid_idx
  best_bid_idx-IsHighest = highest s.book.best_bid_idx v.best.top_bid
    where
      highest :
          (o : Option ℕ) → IsPrev s.book.occupied (k_ask_base - 1) k_ask_base o → IsHighest s.book o
      highest none p = λ l inside. bare l (omega arith) (p l (omega arith) inside)
      highest (some r) (upto, on, above) = (
        omega arith,
        filled r (omega arith) on,
        λ l more inside. bare l (omega arith) (above l more (omega arith) inside),
      )

  best_ask_idx-IsLowest : IsLowest s.book s.book.best_ask_idx
  best_ask_idx-IsLowest = lowest s.book.best_ask_idx v.best.top_ask
    where
      lowest :
          (o : Option ℕ)
          → IsNext s.book.occupied k_ask_base k_ask_base (2 * k_window) o
          → IsLowest s.book o
      lowest none p = λ l from inside. bare l inside (p l from from inside)
      lowest (some r) (from, inside, on, below) = (
        from,
        inside,
        filled r inside on,
        λ l low less. bare l (omega arith) (below l low low less),
      )

-- After any message on a valid store that has room for the order that the message adds or replaces,
-- where the message's new reference number is not in use, its numbers fit 32 bits and its reference
-- numbers are not the reserved one, `best_bid_idx_` is the highest level of the bid window that has an
-- order and `best_ask_idx_` the lowest of the ask window that has one, and each is -1 exactly where no
-- level of its window has an order.
pub apply-IsHighest-IsLowest :
    (s : Store) (m : Message)
    → IsValid s
    → Legal (view s) m
    → Room s m
    → IsHighest (apply one_store s m).book (apply one_store s m).book.best_bid_idx
      × IsLowest (apply one_store s m).book (apply one_store s m).book.best_ask_idx
apply-IsHighest-IsLowest s m v legal room =
    let after = apply-Refines s m v legal room in
    (
      best_bid_idx-IsHighest (apply one_store s m) after.valid,
      best_ask_idx-IsLowest (apply one_store s m) after.valid,
    )
