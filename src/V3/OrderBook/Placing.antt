-- ===== src/V3/OrderBook/Placing.antt =====
-- A new order in a valid book.
use feed_handler.Prelude.{
  ℕ, suc, ◌*◌, ◌^◌, ◌<◌, ◌≡◌, ◌≢◌, refl, sym, ap, ◌∙◌, Bool, true, false, ◌||◌, List, some, [], ◌∷◌,
  subst, ◌++◌, length, if◌then◌else◌, ◌==◌, ◌!=◌, arith, Bool-cases, inl, inr,
}
use feed_handler.V3.RefTable
use feed_handler.V3.RefTable.{k_empty, k_null_idx}
use feed_handler.V3.Bitmap.{k_window}
use feed_handler.V3.Bitmap.Search.{is_set}
use feed_handler.V3.ObjectPool.{OrderPool, pooled}
use feed_handler.V3.ObjectPool.FreeList.{IsFree}
use feed_handler.V3.BookState.{OrderBook, Store, level}
use feed_handler.V3.BookState.Keys.{IsSane, Gives}
use feed_handler.V3.BookState.Frame.{SameKeys, same_side, same_price, same_Keyed, same_IsSane}
use feed_handler.V3.Links.{Links, IsLinked}
use feed_handler.V3.Links.Append.{live_apart, IsAppended-IsLinked}
use feed_handler.V3.Links.Chain.{IsQueue, IsAppended-IsQueue}
use feed_handler.V3.Owned.{IsOwned, not_null, free_apart, place-IsOwned}
use feed_handler.V3.RefTable.Insert.{find-insert}
use feed_handler.V3.OrderBook.{link_order}
use feed_handler.V3.OrderBook.Pointers.{links_of}
use feed_handler.V3.OrderBook.Pointers.Linking.{
  pooled-link, level-link, link_order-IsAppended, qty-link, length-link, link_order-IsFree,
  link_order-SameKeys,
}
use feed_handler.V3.OrderBook.Indices.{BestOf, raise_best-IsBest, is_set-raise_best}
use feed_handler.V3.OrderBook.Valid.{IsValid, links_of_cong, order_at, view, view-write, view-known}
use feed_handler.Spec
use feed_handler.Spec.{Order}

-- Before `link_order`: the slot `o` is taken and the level `l` is there.
module _ (s : Store) (v : IsValid s) (o : ℕ) (rest : List ℕ) (taken : v.free ≡ o ∷ rest)
    (p : OrderPool) (alike : p.slots ≡ s.pool.slots) (kept : IsFree p rest) (price side qty : ℕ)
    (small : qty < 2 ^ 32) (l : ℕ) (b : OrderBook) (g : Gives s.book price (side == b'B') (l, b))
    (set : b.base_set ≡ true) where
  abbrev s1 : Store
  s1 = record s { pool = p; book = b }

  abbrev s2 : Store
  s2 = link_order s1 l o qty

  abbrev t : ℕ
  t = (level b l).tail_idx

  owned : IsOwned s.pool s.refs v.live v.owner (o ∷ rest)
  owned = rw taken at v.owned

  off : v.live o ≡ false
  off = free_apart s.pool s.refs v.live v.owner o rest owned

  slot : o < length p.slots
  slot = rw alike owned.pool.links.1

  real : o ≢ k_null_idx
  real = omega (arith, slot, kept.fits)

  linked : IsLinked (links_of p b) v.live v.stamp v.clock
  linked = rw (links_of_cong p s.pool b s.book alike g.same_levels) v.linked

  tail_live : t ≢ k_null_idx → v.live t ≡ true
  tail_live ne = (linked.tail l ne).0

  tail_in : t ≢ k_null_idx → t < length p.slots
  tail_in ne = rw alike (v.owned.inside t (tail_live ne))

  apart : t ≢ o
  apart e = ground (arith, tail_live (λ z. real (sym e ∙ z)), ap v.live e, off)

  linked' :
      IsLinked
        (links_of s2.pool s2.book)
        (λ i. o == i || v.live i)
        (λ i. if o == i then v.clock else v.stamp i)
        (suc v.clock)
  linked' =
      IsAppended-IsLinked (links_of p b) (links_of s2.pool s2.book) v.live v.stamp v.clock o l
        linked off real (link_order-IsAppended s1 l o qty slot g.inside tail_in apart)

  -- The queues, with the new order behind the others of its level.
  pub appended-IsQueue :
      (k : ℕ) (q : List ℕ)
      → IsQueue (links_of s.pool s.book) k q
      → IsQueue (links_of s2.pool s2.book) k (if l == k then q ++ o ∷ [] else q)
  appended-IsQueue k q h =
      let before : IsQueue (links_of p b) k q =
        subst (λ (c : Links). IsQueue c k q)
          (sym (links_of_cong p s.pool b s.book alike g.same_levels)) h in
      IsAppended-IsQueue (links_of p b) (links_of s2.pool s2.book) v.live v.stamp v.clock o l linked
        off real (link_order-IsAppended s1 l o qty slot g.inside tail_in apart) k q before

  free' : IsFree s2.pool rest
  free' =
      link_order-IsFree s1 l o qty slot g.inside tail_in rest owned.pool.links.2
        (λ ne. (owned.used t (tail_live ne)).1) kept

  same : SameKeys b s2.book
  same = link_order-SameKeys s1 l o qty slot g.inside tail_in

  -- What the slots hold.
  level_at :
      (i : ℕ)
      → i ≢ k_null_idx
      → (pooled s2.pool.slots i).level_idx
        ≡ (if o == i then l else (pooled s.pool.slots i).level_idx)
  level_at i ne = rw (pooled-link s1 l o qty slot g.inside tail_in i ne apart, alike) (ground arith)

  qty_at :
      (i : ℕ)
      → i ≢ k_null_idx
      → (pooled s2.pool.slots i).qty ≡ (if o == i then qty else (pooled s.pool.slots i).qty)
  qty_at i ne = rw (qty-link s1 l o qty slot g.inside tail_in i ne apart, alike) refl

  abbrev live' : ℕ → Bool
  live' i = o == i || v.live i

  live'-real : (i : ℕ) → live' i ≡ true → i ≢ k_null_idx
  live'-real i h = linked'.not_null i h

  ranged' : (i : ℕ) → live' i ≡ true → (pooled s2.pool.slots i).level_idx < length s2.book.levels
  ranged' i h =
      rw (level_at i (live'-real i h), same.width)
        (elim (Bool-cases (o == i)) [
          | inl e ↦ rw e g.inside
          | inr e ↦ rw e (omega (arith, v.ranged i (ground arith), g.more))
        ])

  sane' : (i : ℕ) → live' i ≡ true → IsSane s2.book (pooled s2.pool.slots i).level_idx
  sane' i h = rw (level_at i (live'-real i h)) (elim (Bool-cases (o == i)) [
    | inl e ↦ rw e (same_IsSane b s2.book same l g.sane)
    | inr e ↦
        let on : v.live i ≡ true = ground arith in
        let k = (pooled s.pool.slots i).level_idx in
        rw e (same_IsSane b s2.book same k (rw (g.same_base (v.based i on)) (v.sane i on)))
  ])

  fits' : (i : ℕ) → live' i ≡ true → (pooled s2.pool.slots i).qty < 2 ^ 32
  fits' i h = rw (qty_at i (live'-real i h)) (ground (arith, v.fits i))

  best1 : BestOf b
  best1 = rw (g.same_bitmap, g.same_bid, g.same_ask) v.best

  occupied_at :
      (i : ℕ) → i < 2 * k_window → is_set s2.book.occupied i ≡ is_set b.occupied i || l == i
  unfolding link_order
  occupied_at i h = is_set-raise_best _ best1 l i h

  best' : BestOf s2.book
  unfolding link_order
  best' = raise_best-IsBest _ best1 l

  marked' :
      (k : ℕ)
      → k < 2 * k_window
      → is_set s2.book.occupied k ≡ (level s2.book k).head_idx != k_null_idx
  marked' k h =
      rw
        (
          occupied_at k h,
          level-link s1 l o qty slot g.inside tail_in k,
          g.same_bitmap,
          v.marked k h,
        )
        (ground (arith, g.same_levels k, linked.headless l, real))

  order_at-old : (i : ℕ) → v.live i ≡ true → order_at s2 i ≡ order_at s i
  order_at-old i on =
      let ne = not_null s.pool s.refs v.live v.owner v.free v.owned i on in
      let other : o == i ≡ false = live_apart v.live o i off on in
      let k = (pooled s.pool.slots i).level_idx in
      let range = v.ranged i on in
      let lv : (pooled s2.pool.slots i).level_idx ≡ k = rw (level_at i ne, other) refl in
      let q : (pooled s2.pool.slots i).qty ≡ (pooled s.pool.slots i).qty =
        rw (qty_at i ne, other) refl in
      rw
        (
          lv,
          q,
          same_side b s2.book same k,
          same_price b s2.book same k,
          g.prices (v.based i on) k range,
          g.sides k range,
        )
        refl

  order_at-new : order_at s2 o ≡ record { bid = side == b'B'; price = price; shares = qty }
  order_at-new =
      let lv : (pooled s2.pool.slots o).level_idx ≡ l = ground (arith, level_at o real) in
      let q : (pooled s2.pool.slots o).qty ≡ qty = ground (arith, qty_at o real) in
      rw (lv, q, same_side b s2.book same l, same_price b s2.book same l, g.at_price, g.on_side)
        refl

  module _ (ref : ℕ) (fine : ref ≢ k_empty) (fresh : RefTable.find s.refs ref ≡ k_null_idx)
      (room : s.refs.size * 2 < length s.refs.slots) where
    abbrev s3 : Store
    s3 = record s2 { refs = RefTable.insert s.refs ref o }

    pub placed-IsValid : IsValid s3
    placed-IsValid = record {
      live = live';
      owner = λ i. if o == i then ref else v.owner i;
      stamp = λ i. if o == i then v.clock else v.stamp i;
      clock = suc v.clock;
      free = rest;
      owned =
          place-IsOwned s.pool s.refs v.live v.owner o rest s2.pool ref owned free'
            (length-link s1 l o qty slot g.inside tail_in ∙ ap length alike) fine fresh room;
      linked = linked';
      keys = same_Keyed b s2.book same g.keys;
      ranged = ranged';
      sane = sane';
      based = λ i h. same.base_set ∙ set;
      fits = fits';
      best = best';
      marked = marked';
    }

    pub placed-view :
        (r : ℕ)
        → view s3 r
          ≡ Spec.place ref (record { bid = side == b'B'; price = price; shares = qty }) (view s) r
    placed-view =
        let look = find-insert s.refs owned.table ref o fine room in
        view-write s s3 ref (some (record { bid = side == b'B'; price = price; shares = qty })) fine
          (view-known s3 ref o fine real (rw (look ref fine) (ground arith)) ∙ ap some order_at-new)
          (λ r fine_r other. rw (look r fine_r, other) refl)
          (λ r fine_r other known.
            let (on, _) = v.owned.named r fine_r known in order_at-old (RefTable.find s.refs r) on)
