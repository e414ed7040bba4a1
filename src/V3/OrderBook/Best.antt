-- ===== src/V3/OrderBook/Best.antt =====
-- The best indices of a book against its bitmap, under every operation.
use feed_handler.Prelude.{
  ℕ, suc, ◌-◌, ◌*◌, ◌≤◌, ◌<◌, ◌≡◌, ◌&&◌, ◌||◌, List, length, Option, none, some, if◌then◌else◌,
  ◌==◌, ◌!=◌, ltb, arith, Bool-cases, inl, inr,
}
use feed_handler.V3.Bitmap.{k_window, k_ask_base, find_prev_set, find_next_set}
use feed_handler.V3.Bitmap.Search.{is_set, WordsFit, IsPrev, IsNext, find_prev_set-IsPrev}
use feed_handler.V3.Bitmap.Forward.{find_next_set-IsNext}
use feed_handler.V3.OrderBook.{is_best}

-- The bitmap has 32 words of 64 bits, `best_bid_idx_` is the highest occupied level of the bid window,
-- and `best_ask_idx_` the lowest of the ask window.
pub record IsBest (occupied : List ℕ) (bid ask : Option ℕ) : Type 0 where
  pub width : length occupied ≡ 32
  pub fits : WordsFit occupied
  pub top_bid : IsPrev occupied (k_ask_base - 1) k_ask_base bid
  pub top_ask : IsNext occupied k_ask_base k_ask_base (2 * k_window) ask

-- One level more is occupied.
abbrev pub Marked : List ℕ → List ℕ → ℕ → Type 0
Marked old new l = (i : ℕ) → i < 2 * k_window → is_set new i ≡ is_set old i || l == i

-- One level less is occupied.
abbrev pub Unmarked : List ℕ → List ℕ → ℕ → Type 0
Unmarked old new l = (i : ℕ) → i < 2 * k_window → is_set new i ≡ is_set old i && l != i

module _ (old new : List ℕ) (l : ℕ) where
  pub raise_bid :
      (best : Option ℕ)
      → Marked old new l
      → l < k_ask_base
      → IsPrev old (k_ask_base - 1) k_ask_base best
      → IsPrev new
          (k_ask_base - 1)
          k_ask_base
          (elim best [ none ↦ some l | some b ↦ if ltb b l then some l else some b ])
  raise_bid none m h p = (
    omega arith,
    ground (arith, m l (omega arith)),
    λ i up upto inside. ground (arith, m i (omega arith), p i upto inside),
  )
  raise_bid (some b) m h p = elim (Bool-cases (ltb b l)) [
    | inl up ↦ rw up (
      omega arith,
      ground (arith, m l (omega arith)),
      λ i above upto inside. ground (arith, m i (omega arith), p.2 i (ground arith) upto inside),
    )
    | inr down ↦ rw down (
      p.0,
      ground (arith, m b (omega arith), p.1),
      λ i above upto inside. ground (arith, m i (omega arith), p.2 i above upto inside),
    )
  ]

  pub keep_bid :
      (best : Option ℕ)
      → Marked old new l
      → k_ask_base ≤ l
      → IsPrev old (k_ask_base - 1) k_ask_base best
      → IsPrev new (k_ask_base - 1) k_ask_base best
  keep_bid none m h p = λ i upto inside. ground (arith, m i (omega arith), p i upto inside)
  keep_bid (some b) m h p = (
    p.0,
    ground (arith, m b (omega arith), p.1),
    λ i up upto inside. ground (arith, m i (omega arith), p.2 i up upto inside),
  )

  pub raise_ask :
      (best : Option ℕ)
      → Marked old new l
      → k_ask_base ≤ l
      → l < 2 * k_window
      → IsNext old k_ask_base k_ask_base (2 * k_window) best
      → IsNext new k_ask_base k_ask_base
          (2 * k_window)
          (elim best [ none ↦ some l | some b ↦ if ltb l b then some l else some b ])
  raise_ask none m h k p = (
    h,
    k,
    ground (arith, m l k),
    λ i from low under. ground (arith, m i (omega arith), p i from low (omega arith)),
  )
  raise_ask (some b) m h k p = elim (Bool-cases (ltb l b)) [
    | inl down ↦ rw down (
      h,
      k,
      ground (arith, m l k),
      λ i from low under. ground (arith, m i (omega arith), p.3 i from low (ground arith)),
    )
    | inr up ↦ rw up (
      p.0,
      p.1,
      ground (arith, m b p.1, p.2),
      λ i from low under. ground (arith, m i (omega (arith, p.1)), p.3 i from low under),
    )
  ]

  pub keep_ask :
      (best : Option ℕ)
      → Marked old new l
      → l < k_ask_base
      → IsNext old k_ask_base k_ask_base (2 * k_window) best
      → IsNext new k_ask_base k_ask_base (2 * k_window) best
  keep_ask none m h p = λ i from low under. ground (arith, m i under, p i from low under)
  keep_ask (some b) m h p = (
    p.0,
    p.1,
    ground (arith, m b p.1, p.2),
    λ i from low under. ground (arith, m i (omega (arith, p.1)), p.3 i from low under),
  )

  -- The best bid after a level has become empty: searched again if it was that level.
  pub lower_bid :
      (best : Option ℕ)
      → WordsFit new
      → Unmarked old new l
      → IsPrev old (k_ask_base - 1) k_ask_base best
      → IsPrev new
          (k_ask_base - 1)
          k_ask_base
          (if is_best l best then find_prev_set new best else best)
  lower_bid none fits u p = λ i upto inside. ground (arith, u i (omega arith), p i upto inside)
  lower_bid (some b) fits u p = elim (Bool-cases (l == b)) [
    | inl e ↦ rw e (extend (find_prev_set new (some b)) (find_prev_set-IsPrev new fits b))
    | inr ne ↦ rw ne (
      p.0,
      ground (arith, u b (omega (arith, p.0)), p.1),
      λ i above upto inside. ground (arith, u i (omega arith), p.2 i above upto inside),
    )
  ]
    where
      extend :
          (out : Option ℕ) → IsPrev new b (suc b) out → IsPrev new (k_ask_base - 1) k_ask_base out
      extend none q = λ i upto inside. elim (Bool-cases (ltb b i)) [
        | inl above ↦ ground (arith, u i (omega arith), p.2 i (ground arith) upto inside)
        | inr below ↦ q i (ground arith) (ground arith)
      ]
      extend (some r) q = (
        omega (arith, q.0, p.0),
        q.1,
        λ i up upto inside. elim (Bool-cases (ltb b i)) [
          | inl above ↦ ground (arith, u i (omega arith), p.2 i (ground arith) upto inside)
          | inr below ↦ q.2 i up (ground arith) (ground arith)
        ],
      )

  -- The best ask likewise.
  pub lower_ask :
      (best : Option ℕ)
      → WordsFit new
      → Unmarked old new l
      → IsNext old k_ask_base k_ask_base (2 * k_window) best
      → IsNext new k_ask_base k_ask_base
          (2 * k_window)
          (if is_best l best then find_next_set new best else best)
  lower_ask none fits u p = λ i from low under. ground (arith, u i under, p i from low under)
  lower_ask (some b) fits u p = elim (Bool-cases (l == b)) [
    | inl e ↦ rw e (extend (find_next_set new (some b)) (find_next_set-IsNext new fits b))
    | inr ne ↦ rw ne (
      p.0,
      p.1,
      ground (arith, u b p.1, p.2),
      λ i from low under. ground (arith, u i (omega (arith, p.1)), p.3 i from low under),
    )
  ]
    where
      extend :
          (out : Option ℕ)
          → IsNext new b b (2 * k_window) out
          → IsNext new k_ask_base k_ask_base (2 * k_window) out
      extend none q = λ i from low under. elim (Bool-cases (ltb i b)) [
        | inl below ↦ ground (arith, u i under, p.3 i from low (ground arith))
        | inr above ↦ q i (ground arith) (ground arith) under
      ]
      extend (some r) q = (
        omega (arith, q.0, p.0),
        q.1,
        q.2,
        λ i from low under. elim (Bool-cases (ltb i b)) [
          | inl below ↦ ground (arith, u i (omega (arith, q.1)), p.3 i from low (ground arith))
          | inr above ↦ q.3 i (ground arith) (ground arith) under
        ],
      )
