-- ===== src/V3/OrderBook/Valid.antt =====
-- The well-formedness of a book with its pool and its table: the orders in use, their queues, their
-- levels, the bitmap and the best indices.
use feed_handler.Prelude.{
  ℕ, ◌*◌, ◌^◌, ◌<◌, ◌≡◌, ◌≢◌, refl, ap₂, Bool, List, length, ◌!=◌, ◌==◌, if◌then◌else◌, none, some,
  fun_ext, true, false, sym, ◌∙◌, arith, ap, ne→==, ==→eq, ==→ne, Bool-cases, inl, inr, Option,
  refl,
}
use feed_handler.Spec
use feed_handler.Spec.{Order, Orders}
use feed_handler.V3.RefTable
use feed_handler.V3.RefTable.{k_empty, k_null_idx}
use feed_handler.V3.Bitmap.{k_window}
use feed_handler.V3.Bitmap.Search.{is_set}
use feed_handler.V3.ObjectPool.{PooledOrder, OrderPool, pooled}
use feed_handler.V3.BookState.{PriceLevel, OrderBook, Store, level, price_of}
use feed_handler.V3.BookState.Keys.{Keyed, IsSane, is_bid}
use feed_handler.V3.Links.{Links, IsLinked}
use feed_handler.V3.Owned.{IsOwned}
use feed_handler.V3.OrderBook.Pointers.{links_of}
use feed_handler.V3.OrderBook.Indices.{BestOf}

-- `live` are the slots in use, `owner` their reference numbers, `stamp` when each order arrived and
-- `free` the other slots.
pub record IsValid (s : Store) : Type 0 where
  pub live : ℕ → Bool
  pub owner : ℕ → ℕ
  pub stamp : ℕ → ℕ
  pub clock : ℕ
  pub free : List ℕ
  pub owned : IsOwned s.pool s.refs live owner free
  pub linked : IsLinked (links_of s.pool s.book) live stamp clock
  pub keys : Keyed s.book
  pub ranged : (i : ℕ) → live i ≡ true → (pooled s.pool.slots i).level_idx < length s.book.levels
  pub sane : (i : ℕ) → live i ≡ true → IsSane s.book (pooled s.pool.slots i).level_idx
  pub based : (i : ℕ) → live i ≡ true → s.book.base_set ≡ true
  pub fits : (i : ℕ) → live i ≡ true → (pooled s.pool.slots i).qty < 2 ^ 32
  pub best : BestOf s.book
  pub marked :
      (l : ℕ)
      → l < 2 * k_window
      → is_set s.book.occupied l ≡ (level s.book l).head_idx != k_null_idx

-- Queues that are read from the same slots and the same levels.
abbrev links_from : List PooledOrder → (ℕ → PriceLevel) → Links
links_from s f = record {
  nx = λ i. (pooled s i).next_idx;
  pv = λ i. (pooled s i).prev_idx;
  lv = λ i. (pooled s i).level_idx;
  hd = λ l. (f l).head_idx;
  tl = λ l. (f l).tail_idx;
}

pub links_of_cong :
    (p q : OrderPool) (b c : OrderBook)
    → p.slots ≡ q.slots
    → ((k : ℕ) → level b k ≡ level c k)
    → links_of p b ≡ links_of q c
links_of_cong p q b c e same = ap₂ links_from e (fun_ext same)

-- The order in a slot, and the live orders by reference number.
abbrev pub order_at : Store → ℕ → Order
order_at s i =
    let o = pooled s.pool.slots i in
    record { bid = is_bid s.book o.level_idx; price = price_of s.book o.level_idx; shares = o.qty }

unfoldable pub view : Store → Orders
view s ref =
    let i = RefTable.find s.refs ref in
    if ref == k_empty then none else if i == k_null_idx then none else some (order_at s i)

pub record Refines (s : Store) (orders : Orders) : Type 0 where
  pub valid : IsValid s
  pub orders_view : view s ≡ orders

pub view-k_empty : (s : Store) (ref : ℕ) → ref == k_empty ≡ true → view s ref ≡ none
unfolding view
view-k_empty s ref e = rw e refl

pub view-missing : (s : Store) (ref : ℕ) → RefTable.find s.refs ref ≡ k_null_idx → view s ref ≡ none
unfolding view
view-missing s ref e = ground arith

pub view-known :
    (s : Store) (ref i : ℕ)
    → ref ≢ k_empty
    → i ≢ k_null_idx
    → RefTable.find s.refs ref ≡ i
    → view s ref ≡ some (order_at s i)
unfolding view
view-known s ref i fine real e =
    let f : RefTable.find s.refs ref == k_null_idx ≡ false = ne→== _ _ (λ z. real (sym e ∙ z)) in
    rw (ne→== ref k_empty fine, f, e) refl

-- A store in which one reference number leads to something else, and all others to the orders they did.
pub view-write :
    (s s' : Store) (ref : ℕ) (x : Option Order)
    → ref ≢ k_empty
    → view s' ref ≡ x
    → ((r : ℕ)
        → r ≢ k_empty
        → (ref == r) ≡ false
        → RefTable.find s'.refs r ≡ RefTable.find s.refs r)
    → ((r : ℕ)
        → r ≢ k_empty
        → (ref == r) ≡ false
        → RefTable.find s.refs r ≢ k_null_idx
        → order_at s' (RefTable.find s.refs r) ≡ order_at s (RefTable.find s.refs r))
    → (r : ℕ) → view s' r ≡ Spec.write ref x (view s) r
view-write s s' ref x fine here found kept r = elim (Bool-cases (ref == r)) [
  | inl e ↦ rw (e, ← ==→eq ref r e) here
  | inr other ↦ rw other (elim (Bool-cases (r == k_empty)) [
    | inl e ↦ view-k_empty s' r e ∙ sym (view-k_empty s r e)
    | inr e ↦
        let fine_r = ==→ne r k_empty e in
        let same = found r fine_r other in
        elim (Bool-cases (RefTable.find s.refs r == k_null_idx)) [
          | inl z ↦
              let z' = ==→eq _ _ z in view-missing s' r (same ∙ z') ∙ sym (view-missing s r z')
          | inr z ↦
              let z' = ==→ne _ _ z in
              let i = RefTable.find s.refs r in
              view-known s' r i fine_r z' same
              ∙ ap some (kept r fine_r other z')
              ∙ sym (view-known s r i fine_r z' refl)
        ]
  ])
]
