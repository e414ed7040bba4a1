-- ===== src/V3/OrderBook/Placed.antt =====
-- `add_order` and the second half of `replace_order` on a valid book with room.
use feed_handler.Prelude.{ℕ, ◌*◌, ◌^◌, ◌<◌, ◌≡◌, ◌≢◌, none, fun_ext, length, ◌==◌, arith, ne→==}
use feed_handler.V3.RefTable
use feed_handler.V3.RefTable.{k_empty, k_null_idx}
use feed_handler.V3.BookState.{Store, level_for}
use feed_handler.V3.BookState.LevelFor.{level_for-Gives, level_for-base_set}
use feed_handler.V3.Owned.{allocate-Takes}
use feed_handler.V3.OrderBook.{link_order, place_order}
use feed_handler.V3.OrderBook.Valid.{IsValid, view, Refines}
use feed_handler.Spec
use feed_handler.Spec.{Order}
use feed_handler.V3.OrderBook.Placing.{placed-IsValid, placed-view}

-- There is room for one more order: the table is less than half full, and the levels are fewer than
-- 2 ^ 32.
abbrev pub HasRoom : Store → Type 0
HasRoom s = (s.refs.size * 2 < length s.refs.slots) × (length s.book.levels < 2 ^ 32)

pub missing-view :
    (s : Store) (ref : ℕ)
    → ref ≢ k_empty
    → view s ref ≡ none
    → RefTable.find s.refs ref ≡ k_null_idx
unfolding view
missing-view s ref fine e = ground arith

pub place_order-Refines :
    (s : Store) (ref side price qty : ℕ)
    → IsValid s
    → HasRoom s
    → ref ≢ k_empty
    → view s ref ≡ none
    → (s.pool.free_head ≢ k_null_idx)
    → price < 2 ^ 32
    → qty < 2 ^ 32
    → Refines
        (place_order s ref side price qty)
        (Spec.place ref (record { bid = side == b'B'; price = price; shares = qty }) (view s))
unfolding place_order link_order
place_order-Refines s ref side price qty v room fine new slot fits small =
    let a = allocate-Takes s.pool v.free v.owned.pool slot in
    let (l, b) = level_for s.book price side in
    let g = level_for-Gives s.book price side v.keys fits room.1 in
    let set = level_for-base_set s.book price side in
    let absent = missing-view s ref fine new in
    rw (a.result, ne→== a.o k_null_idx a.real)
      (record {
        valid =
            placed-IsValid s v a.o a.rest a.split a.left a.alike a.still price side qty small l b g
              set ref fine absent room.0;
        orders_view = fun_ext (
            placed-view s v a.o a.rest a.split a.left a.alike a.still price side qty small l b g set
              ref fine absent room.0);
      })
