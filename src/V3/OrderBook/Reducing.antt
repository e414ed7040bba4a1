-- ===== src/V3/OrderBook/Reducing.antt =====
-- Executions and cancellations on a valid book.
use feed_handler.Spec
use feed_handler.Spec.{Order, Orders, reduced}
use feed_handler.Prelude.{
  ℕ, ◌+◌, ◌-◌, ◌%◌, ◌^◌, ◌<◌, ◌≡◌, ◌≢◌, refl, sym, ap, ◌∙◌, true, false, some, fun_ext,
  if◌then◌else◌, ◌==◌, leb, leb→gt, arith, Bool-cases, inl, inr, ==→eq, ==→ne, ne→==, length-set,
}
use feed_handler.V3.RefTable
use feed_handler.V3.RefTable.{k_empty, k_null_idx}
use feed_handler.V3.ObjectPool.{PooledOrder, pooled}
use feed_handler.V3.BookState.{PriceLevel, Store, level, set_level, set_pooled}
use feed_handler.V3.BookState.Frame.{SameKeys, same_side, same_price, same_Keyed}
use feed_handler.V3.Links.{Links}
use feed_handler.V3.Owned.{IsOwned-pool, IsFree-set}
use feed_handler.V3.OrderBook.{take_shares}
use feed_handler.V3.OrderBook.Pointers.{links_of, pooled-set, level-set}
use feed_handler.V3.OrderBook.Dropping.{drop_order-Refines}
use feed_handler.V3.OrderBook.Valid.{
  IsValid, order_at, view, Refines, view-write, view-missing, view-known,
}

links_ext :
    (c d : Links) → c.nx ≡ d.nx → c.pv ≡ d.pv → c.lv ≡ d.lv → c.hd ≡ d.hd → c.tl ≡ d.tl → c ≡ d
links_ext c d e f g h k = cc

module _ (s : Store) (v : IsValid s) (o : ℕ) (on : v.live o ≡ true) (n : ℕ)
    (left : n < (pooled s.pool.slots o).qty) where
  abbrev x : PooledOrder
  x = pooled s.pool.slots o

  abbrev l : PriceLevel
  l = level s.book x.level_idx

  abbrev y : PooledOrder
  y = record x { qty = (x.qty + 2 ^ 32 - n) % 2 ^ 32 }

  abbrev k : PriceLevel
  k = record l { total_qty = (l.total_qty + 2 ^ 32 - n) % 2 ^ 32 }

  abbrev s1 : Store
  s1 = record s { pool = set_pooled s.pool o y; book = set_level s.book x.level_idx k }

  slot_at : (i : ℕ) → pooled s1.pool.slots i ≡ (if o == i then y else pooled s.pool.slots i)
  slot_at i = pooled-set s.pool.slots o i y (v.owned.inside o on)

  level_of : (i : ℕ) → level s1.book i ≡ (if x.level_idx == i then k else level s.book i)
  level_of i = level-set s.book.levels x.level_idx i k (v.ranged o on)

  less : (x.qty + 2 ^ 32 - n) % 2 ^ 32 ≡ x.qty - n
  less = omega (arith, v.fits o on, left)

  same_lv : (i : ℕ) → (pooled s1.pool.slots i).level_idx ≡ (pooled s.pool.slots i).level_idx
  same_lv i = rw (slot_at i) (ground arith)

  same_hd : (i : ℕ) → (level s1.book i).head_idx ≡ (level s.book i).head_idx
  same_hd i = rw (level_of i) (ground arith)

  pub same_links : links_of s1.pool s1.book ≡ links_of s.pool s.book
  same_links =
      links_ext (links_of s1.pool s1.book) (links_of s.pool s.book)
        (fun_ext (λ i. rw (slot_at i) (ground arith)))
        (fun_ext (λ i. rw (slot_at i) (ground arith))) (fun_ext same_lv) (fun_ext same_hd)
        (fun_ext (λ i. rw (level_of i) (ground arith)))

  same : SameKeys s.book s1.book
  same = record {
    base = refl;
    base_set = refl;
    overflow_bid = refl;
    overflow_ask = refl;
    overflow_side = refl;
    width = length-set s.book.levels x.level_idx k;
  }

  reduced-IsValid : IsValid s1
  reduced-IsValid = record {
    live = v.live;
    owner = v.owner;
    stamp = v.stamp;
    clock = v.clock;
    free = v.free;
    owned =
        IsOwned-pool s.pool s.refs v.live v.owner v.free v.owned s1.pool
          (IsFree-set s.pool v.free o y (v.owned.used o on) v.owned.pool)
          (length-set s.pool.slots o y);
    linked = rw same_links v.linked;
    keys = same_Keyed s.book s1.book same v.keys;
    ranged = λ i h. rw (same_lv i, same.width) (v.ranged i h);
    sane = λ i h. rw (same_lv i) (v.sane i h);
    based = v.based;
    fits = λ i h. rw (slot_at i) (ground (arith, v.fits i h));
    best = v.best;
    marked = λ i h. rw (same_hd i) (v.marked i h);
  }

  order_at-other : (i : ℕ) → o == i ≡ false → order_at s1 i ≡ order_at s i
  order_at-other i ne =
      rw (slot_at i, ne, same_side s.book s1.book same _, same_price s.book s1.book same _) refl

  order_at-own : order_at s1 o ≡ record (order_at s o) { shares = x.qty - n }
  order_at-own =
      let at : pooled s1.pool.slots o ≡ y = ground (arith, slot_at o) in
      rw (at, less, same_side s.book s1.book same _, same_price s.book s1.book same _) refl

  module _ (ref : ℕ) (fine : ref ≢ k_empty) (found : RefTable.find s.refs ref ≡ o)
      (mine : v.owner o ≡ ref) where
    reduced-view :
        (r : ℕ)
        → view s1 r
          ≡ Spec.write ref (some (record (order_at s o) { shares = x.qty - n })) (view s) r
    reduced-view =
        view-write s s1 ref (some (record (order_at s o) { shares = x.qty - n })) fine
          (view-known s1 ref o fine (v.linked.not_null o on) found ∙ ap some order_at-own)
          (λ r fine_r other. refl)
          (λ r fine_r other known.
            let (_, of) = v.owned.named r fine_r known in
            let apart : o ≢ RefTable.find s.refs r =
              λ g. ==→ne ref r other (sym mine ∙ ap v.owner g ∙ of) in
            order_at-other (RefTable.find s.refs r) (ne→== o _ apart))

-- A known order with at most `n` shares leaves, another keeps the difference, and an unknown one changes
-- nothing.
pub take_shares-Refines :
    (s : Store) (ref n : ℕ)
    → IsValid s
    → ref ≢ k_empty
    → Refines (take_shares s ref n) (Spec.reduce ref n (view s))
unfolding take_shares
take_shares-Refines s ref n v fine = elim (Bool-cases (RefTable.find s.refs ref == k_null_idx)) [
  | inl z ↦
      rw (z, view-missing s ref (==→eq _ _ z), Spec.reduce)
        (record { valid = v; orders_view = refl })
  | inr z ↦
      let z' = ==→ne _ _ z in
      let o = RefTable.find s.refs ref in
      let (on, mine) = v.owned.named ref fine z' in
      let known = view-known s ref o fine z' refl in
      elim (Bool-cases (leb (pooled s.pool.slots o).qty n)) [
        | inl all ↦ rw (z, known, Spec.reduce, all) (drop_order-Refines s v o on ref fine mine)
        | inr some_left ↦
            let left = leb→gt _ n some_left in
            rw (z, known, Spec.reduce, some_left)
              (record {
                valid = reduced-IsValid s v o on n left;
                orders_view = fun_ext (reduced-view s v o on n left ref fine refl mine);
              })
      ]
]
