-- ===== src/V3/OrderBook/Dropping.antt =====
-- An order leaves a valid book.
use feed_handler.Spec
use feed_handler.Spec.{Order}
use feed_handler.Prelude.{
  none, ℕ, ◌≤◌, ◌*◌, ◌<◌, ◌≡◌, ◌≢◌, refl, sym, ap, ◌∙◌, Bool, true, not, ◌&&◌, ◌∷◌, fun_ext, length,
  if◌then◌else◌, ◌==◌, ◌!=◌, arith, Bool-cases, inl, inr, ==→eq, ==→ne, ne→==, get_or-set_ne,
}
use feed_handler.V3.RefTable
use feed_handler.V3.RefTable.{k_empty, k_null_idx}
use feed_handler.V3.RefTable.Erase.{find-erase, erase-room}
use feed_handler.V3.Bitmap.{k_window}
use feed_handler.V3.Bitmap.Search.{is_set}
use feed_handler.V3.ObjectPool.{PooledOrder, no_pooled, pooled, release}
use feed_handler.V3.ObjectPool.FreeList.{IsFree}
use feed_handler.V3.BookState.{Store, level}
use feed_handler.V3.BookState.Frame.{SameKeys, same_side, same_price, same_Keyed, same_IsSane}
use feed_handler.V3.Links.Walk.{earlier}
use feed_handler.V3.Links.Detach.{IsDetached}
use feed_handler.V3.Links.Detached.{IsDetached-IsLinked}
use feed_handler.V3.Owned.{IsOwned, IsOwned-pool, drop-IsOwned}
use feed_handler.V3.OrderBook.{unlink_order, drop_order}
use feed_handler.V3.OrderBook.Pointers.{links_of}
use feed_handler.V3.OrderBook.Pointers.Unlinking.{
  pooled-unlink, length-unlink, unlink_order-IsDetached, unlink_order-IsFree, unlink_order-SameKeys,
}
use feed_handler.V3.OrderBook.Indices.{BestOf, is_set-settle}
use feed_handler.V3.OrderBook.Steps.{unlink_order-IsBest}
use feed_handler.V3.OrderBook.Valid.{IsValid, order_at, view, Refines, view-write, view-missing}

module _ (s : Store) (v : IsValid s) (o : ℕ) (on : v.live o ≡ true) where
  abbrev x : PooledOrder
  x = pooled s.pool.slots o

  abbrev s1 : Store
  s1 = unlink_order s o

  real : o ≢ k_null_idx
  real = v.linked.not_null o on

  slot : o < length s.pool.slots
  slot = v.owned.inside o on

  range : x.level_idx < length s.book.levels
  range = v.ranged o on

  prev_live : x.prev_idx ≢ k_null_idx → v.live x.prev_idx ≡ true
  prev_live ne = (v.linked.prev o on ne).0

  next_live : x.next_idx ≢ k_null_idx → v.live x.next_idx ≡ true
  next_live ne = (v.linked.next o on ne).0

  prev_in : x.prev_idx ≢ k_null_idx → (x.prev_idx < length s.pool.slots) × (o ≢ x.prev_idx)
  prev_in ne =
      let before = earlier (links_of s.pool s.book) v.live v.stamp v.clock v.linked o on ne in
      (v.owned.inside x.prev_idx (prev_live ne), λ e. absurd (omega (arith, ap v.stamp e)))

  next_in : x.next_idx ≢ k_null_idx → (x.next_idx < length s.pool.slots) × (o ≢ x.next_idx)
  next_in ne =
      let (_, _, _, after) = v.linked.next o on ne in
      (v.owned.inside x.next_idx (next_live ne), λ e. absurd (omega (arith, ap v.stamp e)))

  detached : IsDetached (links_of s.pool s.book) (links_of s1.pool s1.book) v.live o
  detached = unlink_order-IsDetached s o slot range prev_in next_in v.live v.linked.not_null on

  same : SameKeys s.book s1.book
  same = unlink_order-SameKeys s o slot range prev_in next_in

  free1 : IsFree s1.pool v.free
  free1 =
      unlink_order-IsFree s o slot range prev_in next_in v.free real
        (λ ne. v.owned.used x.prev_idx (prev_live ne))
        (λ ne. v.owned.used x.next_idx (next_live ne)) v.owned.pool

  owned1 : IsOwned s1.pool s.refs v.live v.owner v.free
  owned1 =
      IsOwned-pool s.pool s.refs v.live v.owner v.free v.owned s1.pool free1
        (length-unlink s o slot range prev_in next_in)

  -- The slots of the others after the release.
  pooled-release : (i : ℕ) → o ≢ i → pooled (release s1.pool o).slots i ≡ pooled s1.pool.slots i
  unfolding release
  pooled-release i ne = get_or-set_ne s1.pool.slots o i _ no_pooled ne

  pub released : IsDetached (links_of s.pool s.book) (links_of (release s1.pool o) s1.book) v.live o
  released = record {
    nx_at = λ i h ne. rw (pooled-release i ne) (detached.nx_at i h ne);
    pv_at = λ i h ne. rw (pooled-release i ne) (detached.pv_at i h ne);
    lv_at = λ i h ne. rw (pooled-release i ne) (detached.lv_at i h ne);
    hd_at = detached.hd_at;
    tl_at = detached.tl_at;
  }

  abbrev live' : ℕ → Bool
  live' i = not (o == i) && v.live i

  was : (i : ℕ) → live' i ≡ true → (v.live i ≡ true) × (o ≢ i)
  was i h = (ground arith, ==→ne o i (ground arith))

  level_at :
      (i : ℕ)
      → live' i ≡ true
      → (pooled (release s1.pool o).slots i).level_idx ≡ (pooled s.pool.slots i).level_idx
  level_at i h = let (on', ne) = was i h in released.lv_at i on' ne

  qty_at :
      (i : ℕ)
      → live' i ≡ true
      → (pooled (release s1.pool o).slots i).qty ≡ (pooled s.pool.slots i).qty
  qty_at i h =
      let (on', ne) = was i h in
      rw
        (
          pooled-release i ne,
          pooled-unlink s o slot range prev_in next_in i real (v.linked.not_null i on'),
        )
        refl

  order_at-kept :
      (i : ℕ) → live' i ≡ true → order_at (record s1 { pool = release s1.pool o }) i ≡ order_at s i
  order_at-kept i h =
      let k = (pooled s.pool.slots i).level_idx in
      rw
        (
          level_at i h,
          qty_at i h,
          same_side s.book s1.book same k,
          same_price s.book s1.book same k,
        )
        refl

  best' : BestOf s1.book
  best' = unlink_order-IsBest s v.best o

  -- The level is marked no more if its queue has become empty.
  abbrev emptied : Bool
  emptied =
      (if x.prev_idx != k_null_idx then (level s.book x.level_idx).head_idx else x.next_idx)
      == k_null_idx

  occupied_at :
      (k : ℕ)
      → k < 2 * k_window
      → is_set s1.book.occupied k ≡ is_set s.book.occupied k && not (emptied && x.level_idx == k)
  unfolding unlink_order
  occupied_at k h = is_set-settle _ v.best x.level_idx emptied k h

  marked' :
      (k : ℕ)
      → k < 2 * k_window
      → is_set s1.book.occupied k ≡ (level s1.book k).head_idx != k_null_idx
  marked' k h =
      let at = detached.hd_at k in
      let first = v.linked.first o on in
      rw (occupied_at k h, v.marked k h, at)
        (elim (Bool-cases (x.level_idx == k)) [
          | inl e ↦
              let e' = ==→eq x.level_idx k e in
              ground (arith, ap (λ (l : ℕ). (level s.book l).head_idx) e', real)
          | inr e ↦ ground arith
        ])

  module _ (ref : ℕ) (fine : ref ≢ k_empty) (mine : v.owner o ≡ ref) where
    abbrev s3 : Store
    s3 = record { pool = release s1.pool o; refs = RefTable.erase s.refs ref; book = s1.book }

    dropped-IsValid : IsValid s3
    dropped-IsValid = record {
      live = live';
      owner = v.owner;
      stamp = v.stamp;
      clock = v.clock;
      free = o ∷ v.free;
      owned = drop-IsOwned s1.pool s.refs v.live v.owner v.free owned1 ref o fine on mine;
      linked =
          IsDetached-IsLinked (links_of s.pool s.book) (links_of s3.pool s3.book) v.live v.stamp
            v.clock o v.linked on released;
      keys = same_Keyed s.book s1.book same v.keys;
      ranged = λ i h. rw (level_at i h, same.width) (v.ranged i (was i h).0);
      sane = λ i h. rw (level_at i h) (
          same_IsSane s.book s1.book same (pooled s.pool.slots i).level_idx (v.sane i (was i h).0));
      based = λ i h. same.base_set ∙ v.based i (was i h).0;
      fits = λ i h. rw (qty_at i h) (v.fits i (was i h).0);
      best = best';
      marked = marked';
    }

    dropped-view : (r : ℕ) → view s3 r ≡ Spec.remove ref (view s) r
    dropped-view =
        let look = find-erase s.refs v.owned.table ref fine in
        view-write s s3 ref none fine (view-missing s3 ref (rw (look ref fine) (ground arith)))
          (λ r fine_r other. rw (look r fine_r, other) refl)
          (λ r fine_r other known.
            let (on', of) = v.owned.named r fine_r known in
            let apart : o ≢ RefTable.find s.refs r =
              λ g. ==→ne ref r other (sym mine ∙ ap v.owner g ∙ of) in
            order_at-kept (RefTable.find s.refs r) (rw (ne→== o _ apart) on'))

    -- The order is gone, and the others stay.
    pub drop_order-Refines : Refines (drop_order s ref o) (Spec.remove ref (view s))
    unfolding drop_order unlink_order
    drop_order-Refines = record { valid = dropped-IsValid; orders_view = fun_ext dropped-view }

    -- A slot is free then, and there is no less room.
    pub drop_order-room :
        ((drop_order s ref o).refs.size ≤ s.refs.size)
        × (length (drop_order s ref o).refs.slots ≡ length s.refs.slots)
        × (length (drop_order s ref o).book.levels ≡ length s.book.levels)
        × ((drop_order s ref o).pool.free_head ≡ o)
    unfolding drop_order unlink_order release
    drop_order-room =
        let t = erase-room s.refs v.owned.table ref fine in (t.0, t.1, same.width, refl)
