-- ===== src/V3/OrderBook/Pointers.antt =====
-- What `link_order` and `unlink_order` write, read as queues.
pub mod Linking
pub mod Unlinking
use feed_handler.Prelude.{
  ℕ, suc, ◌+◌, ◌-◌, ◌*◌, ◌%◌, ◌^◌, ◌<◌, ◌≡◌, ◌≢◌, refl, sym, ap, ◌∙◌, Bool, true, false, ◌&&◌, List,
  length, get_or, set, Option, none, some, if◌then◌else◌, ◌==◌, ◌!=◌, ltb, arith, Bool-cases, inl,
  inr, ==→eq, ==→ne, ne→==, length-set, get_or-set_self, get_or-set_ne,
}
use feed_handler.V3.RefTable.{k_null_idx}
use feed_handler.V3.ObjectPool.{PooledOrder, OrderPool, no_pooled, pooled}
use feed_handler.V3.BookState.{
  PriceLevel, OrderBook, Store, empty_level, level, set_level, set_pooled,
}
use feed_handler.V3.Bitmap.{k_window, k_ask_base}
use feed_handler.V3.Links.{Links, IsLinked}
use feed_handler.V3.Links.Append.{IsAppended}
use feed_handler.V3.Links.Detach.{IsDetached}
use feed_handler.V3.OrderBook.{
  raise_best, lower_best, rescan_best, settle, is_best, link_order, unlink_order,
}

-- The queues of a book in a pool.
abbrev pub links_of : OrderPool → OrderBook → Links
links_of p b = record {
  nx = λ i. (pooled p.slots i).next_idx;
  pv = λ i. (pooled p.slots i).prev_idx;
  lv = λ i. (pooled p.slots i).level_idx;
  hd = λ l. (level b l).head_idx;
  tl = λ l. (level b l).tail_idx;
}

pub pooled-set :
    (s : List PooledOrder) (i j : ℕ) (x : PooledOrder)
    → i < length s
    → pooled (set s i x) j ≡ (if i == j then x else pooled s j)
pooled-set s i j x h = elim (Bool-cases (i == j)) [
  | inl e ↦ rw (e, ← ==→eq i j e) (get_or-set_self s i x no_pooled h)
  | inr ne ↦ rw ne (get_or-set_ne s i j x no_pooled (==→ne i j ne))
]

pub level-set :
    (s : List PriceLevel) (i j : ℕ) (x : PriceLevel)
    → i < length s
    → get_or (set s i x) j empty_level ≡ (if i == j then x else get_or s j empty_level)
level-set s i j x h = elim (Bool-cases (i == j)) [
  | inl e ↦ rw (e, ← ==→eq i j e) (get_or-set_self s i x empty_level h)
  | inr ne ↦ rw ne (get_or-set_ne s i j x empty_level (==→ne i j ne))
]

-- The best indices and the bitmap are apart from the levels.
pub levels-raise_best : (b : OrderBook) (l : ℕ) → (raise_best b l).levels ≡ b.levels
unfolding raise_best
levels-raise_best b l = ground arith

pub levels-settle :
    (b : OrderBook) (emptied : Bool) (l : ℕ) → (settle b emptied l).levels ≡ b.levels
unfolding settle lower_best rescan_best
levels-settle b true l = ground arith
levels-settle b false l = refl
