-- ===== src/V3/OrderBook/Start.antt =====
-- A new book with a new pool and a new table.
use feed_handler.Map.{find}
use feed_handler.Prelude.{
  ℕ, suc, ◌*◌, ◌/◌, ◌%◌, ◌^◌, ◌<◌, ◌≡◌, ◌≢◌, refl, ap, Bool, true, false, none, some, [], replicate,
  ◌==◌, ◌!=◌, arith, Bool-cases, inl, inr, ==→ne, fun_ext, get_or-replicate, length-replicate,
}
use feed_handler.Prelude.Bits.{test_bit-zero}
use feed_handler.V3.RefTable
use feed_handler.V3.RefTable.{k_empty, k_null_idx}
use feed_handler.V3.RefTable.Edges.{new-IsValid, find-new}
use feed_handler.V3.ObjectPool
use feed_handler.V3.ObjectPool.{pooled}
use feed_handler.V3.ObjectPool.FreeList.{new-IsFree, iota}
use feed_handler.V3.Bitmap.{k_window, word_at}
use feed_handler.V3.Bitmap.Search.{is_set}
use feed_handler.V3.BookState.{PriceLevel, Store, new_book, level, empty_level}
use feed_handler.V3.BookState.Keys.{overflow_of, Keyed}
use feed_handler.V3.Links.{IsLinked}
use feed_handler.V3.Owned.{IsOwned}
use feed_handler.V3.OrderBook.Pointers.{links_of}
use feed_handler.V3.OrderBook.Steps.{new_book-IsBest}
use feed_handler.V3.OrderBook.Valid.{Refines, view-missing, view-k_empty}

-- What a receiver starts with: `capacity` slots, and a table of 2 ^ log slots.
abbrev pub new_store : ℕ → ℕ → Store
new_store capacity log = record {
  pool = ObjectPool.new capacity;
  refs = RefTable.new (2 ^ log);
  book = new_book;
}

abbrev nobody : ℕ → Bool
nobody i = false

new-level : (l : ℕ) → level new_book l ≡ empty_level
unfolding new_book
new-level l = get_or-replicate {A = PriceLevel} (2 * k_window) l empty_level

no_overflow : (side : Bool) → overflow_of new_book side ≡ []
unfolding new_book
no_overflow true = refl
no_overflow false = refl

nowhere : (p l : ℕ) → find {V = ℕ} p [] ≢ some l
unfolding find
nowhere p l h = absurd (cc h)

module _ (n log : ℕ) (slots : suc n < 2 ^ 32) (table : 2 ^ suc log < 2 ^ 64) where
  abbrev s : Store
  s = new_store (suc n) (suc log)

  nothing : (ref : ℕ) → ref ≢ k_empty → RefTable.find s.refs ref ≡ k_null_idx
  nothing ref fine = find-new log ref table fine

  owned : IsOwned s.pool s.refs nobody (λ i. 0) (iota (suc n) 0)
  owned = record {
    pool = new-IsFree n slots;
    table = new-IsValid log table;
    inside = λ i on. cc on;
    used = λ i on. absurd (cc on);
    real = λ i on. cc on;
    held = λ i on. cc on;
    named = λ ref fine known. absurd (known (nothing ref fine));
  }

  keys : Keyed new_book
  unfolding new_book
  keys = record {
    count = length-replicate {A = PriceLevel} (2 * k_window) empty_level;
    sorted = λ side. rw (no_overflow side) tt;
    listed = λ side p l h. absurd (nowhere p l (rw (no_overflow side) at h));
    keyed = λ l low under.
        absurd (omega (arith, length-replicate {A = PriceLevel} (2 * k_window) empty_level));
  }

  linked : IsLinked (links_of s.pool new_book) nobody (λ i. 0) 0
  linked = record {
    not_null = λ i on. cc on;
    past = λ i on. cc on;
    next = λ i on. cc on;
    last = λ i on. cc on;
    prev = λ i on. cc on;
    first = λ i on. cc on;
    head = λ l ne. absurd (ne (ap (λ (t : PriceLevel). t.head_idx) (new-level l)));
    tail = λ l ne. absurd (ne (ap (λ (t : PriceLevel). t.tail_idx) (new-level l)));
    headless = λ l z. ap (λ (t : PriceLevel). t.tail_idx) (new-level l);
    tailless = λ l z. ap (λ (t : PriceLevel). t.head_idx) (new-level l);
  }

  marked :
      (l : ℕ)
      → l < 2 * k_window
      → is_set new_book.occupied l ≡ (level new_book l).head_idx != k_null_idx
  unfolding new_book
  marked l h =
      let empty : word_at (replicate 32 0) (l / 64) ≡ 0 = get_or-replicate {A = ℕ} 32 (l / 64) 0 in
      rw (new-level l, empty, test_bit-zero (l % 64)) refl

  -- It is well formed and has no orders.
  pub new_store-Refines : Refines s (λ ref. none)
  new_store-Refines = record {
    valid = record {
      live = nobody;
      owner = λ i. 0;
      stamp = λ i. 0;
      clock = 0;
      free = iota (suc n) 0;
      owned = owned;
      linked = linked;
      keys = keys;
      ranged = λ i on. cc on;
      sane = λ i on. absurd (cc on);
      based = λ i on. cc on;
      fits = λ i on. cc on;
      best = new_book-IsBest;
      marked = marked;
    };
    orders_view = fun_ext (λ ref. elim (Bool-cases (ref == k_empty)) [
      | inl e ↦ view-k_empty s ref e
      | inr e ↦ view-missing s ref (nothing ref (==→ne ref k_empty e))
    ]);
  }
