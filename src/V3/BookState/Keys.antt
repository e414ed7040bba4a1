-- ===== src/V3/BookState/Keys.antt =====
-- The levels beyond the window: each stands for one price of one side, by the maps `overflow_bid_` and
-- `overflow_ask_`.
use feed_handler.Map.{Map, find, insert, IsSorted, SortedFrom}
use feed_handler.Map.Sorted.{find-lower}
use feed_handler.Prelude.{
  ℕ, suc, ◌+◌, ◌-◌, ◌*◌, ◌/◌, ◌^◌, ◌≤◌, ◌<◌, ◌≡◌, ◌≢◌, refl, Bool, true, false, [], ◌∷◌, none, some,
  length, if◌then◌else◌, ◌==◌, ltb, ◌⊎◌, arith, inl, inr,
}
use feed_handler.V3.Bitmap.{k_window, k_ask_base}
use feed_handler.V3.BookState.{OrderBook, level, side_of, key_of, price_of}

-- The overflow map of a side.
abbrev pub overflow_of : OrderBook → Bool → Map ℕ
overflow_of b bid = if bid then b.overflow_bid else b.overflow_ask

abbrev pub is_bid : OrderBook → ℕ → Bool
is_bid b l = side_of b l == b'B'

pub record Keyed (b : OrderBook) : Type 0 where
  pub count : length b.levels ≡ 2 * k_window + length b.overflow_side
  pub sorted : (bid : Bool) → IsSorted (overflow_of b bid)
  pub listed :
      (bid : Bool) (p l : ℕ)
      → find p (overflow_of b bid) ≡ some l
      → (2 * k_window ≤ l) × (l < length b.levels) × (price_of b l ≡ p) × (is_bid b l ≡ bid)
  pub keyed :
      (l : ℕ)
      → 2 * k_window ≤ l
      → l < length b.levels
      → find (price_of b l) (overflow_of b (is_bid b l)) ≡ some l

-- The key of a value that is new in the map.
pub key_of-insert_new :
    (p idx lo : ℕ) (m : Map ℕ)
    → SortedFrom lo m
    → ((q : ℕ) → find q m ≢ some idx)
    → key_of (insert p idx m) idx ≡ p
unfolding key_of insert find
key_of-insert_new p idx lo [] s new = ground arith
key_of-insert_new p idx lo ((j, w) ∷ m) s new =
    let apart : w ≢ idx = λ e. new j (ground arith) in
    let rest =
      key_of-insert_new p idx (suc j) m s.1
        (λ q e. new q (ground (arith, find-lower q (suc j) idx m s.1 e))) in
    ground arith

-- The key of another value, when the key is new in the map.
pub key_of-insert_other :
    (p idx l : ℕ) (m : Map ℕ) → idx ≢ l → find p m ≡ none → key_of (insert p idx m) l ≡ key_of m l
unfolding key_of insert find
key_of-insert_other p idx l [] ne h = ground arith
key_of-insert_other p idx l ((j, w) ∷ m) ne h = ground (arith, key_of-insert_other p idx l m ne)

pub price_of-far :
    (b : OrderBook) (k : ℕ)
    → 2 * k_window ≤ k
    → price_of b k ≡ key_of (overflow_of b (is_bid b k)) k
unfolding price_of
price_of-far b k h =
    let past : ltb k k_ask_base ≡ false = ground arith in
    let beyond : ltb k (2 * k_window) ≡ false = ground arith in rw (past, beyond) refl

pub price_of-near :
    (b c : OrderBook) (k : ℕ) → k < 2 * k_window → b.base ≡ c.base → price_of b k ≡ price_of c k
unfolding price_of
price_of-near b c k h e =
    let under : ltb k (2 * k_window) ≡ true = ground arith in rw (under, e) refl

-- Two Booleans are the same or not.
pub sides? : (s t : Bool) → (s ≡ t) ⊎ (s ≢ t)
sides? true true = inl refl
sides? true false = inr (λ e. cc)
sides? false true = inr (λ e. cc)
sides? false false = inl refl

-- The price of the level has 32 bits, if the level is one of the window.
abbrev pub offset : ℕ → ℕ
offset l = if ltb l k_ask_base then l else l - k_ask_base

abbrev pub IsSane : OrderBook → ℕ → Type 0
IsSane b l =
    l < 2 * k_window
    → (k_window / 2 ≤ b.base + offset l) × ((b.base + offset l - k_window / 2) * 100 < 2 ^ 32)

-- What a caller of `level_for` may rely on.
pub record Gives (b : OrderBook) (price : ℕ) (bid : Bool) (out : ℕ × OrderBook) : Type 0 where
  pub keys : Keyed out.1
  pub inside : out.0 < length out.1.levels
  pub at_price : price_of out.1 out.0 ≡ price
  pub on_side : is_bid out.1 out.0 ≡ bid
  pub more : length b.levels ≤ length out.1.levels
  pub prices : b.base_set ≡ true → (k : ℕ) → k < length b.levels → price_of out.1 k ≡ price_of b k
  pub sides : (k : ℕ) → k < length b.levels → is_bid out.1 k ≡ is_bid b k
  pub same_levels : (k : ℕ) → level out.1 k ≡ level b k
  pub sane : IsSane out.1 out.0
  pub same_base : b.base_set ≡ true → out.1.base ≡ b.base
  pub kept_set : b.base_set ≡ true → out.1.base_set ≡ true
  pub same_bitmap : out.1.occupied ≡ b.occupied
  pub same_bid : out.1.best_bid_idx ≡ b.best_bid_idx
  pub same_ask : out.1.best_ask_idx ≡ b.best_ask_idx
