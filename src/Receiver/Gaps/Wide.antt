-- ===== src/Receiver/Gaps/Wide.antt =====
-- A gap of 65,536 numbers or more: its length does not fit the 16 bits of `pending_gaps`.
use feed_handler.Prelude.{
  ℕ, ◌+◌, ◌-◌, ◌≤◌, ◌<◌, ◌^◌, ◌≡◌, ◌≢◌, refl, true, false, [], ◌∷◌, some, arith, ne→==, lt→ltb,
}
use feed_handler.Receiver.Gaps.{Tracker, add64, cast16_sub, duplicate, late, observe}
use feed_handler.Receiver.Deliveries.{in_range}
use feed_handler.Map.{Map, insert, floor?}
use feed_handler.Receiver.Gaps.Missing.{GapsFrom, GapsFrom-le, missing-bounds, missing-insert_top}
use feed_handler.Receiver.Gaps.Observe.{IsValid, owed}

-- The gap at the top is found from every number beyond it.
floor?-insert_top :
    (lo hi k n : ℕ) (m : Map ℕ)
    → GapsFrom lo hi m
    → hi ≤ n
    → floor? n (insert hi k m) ≡ some (hi, k)
unfolding floor? insert
floor?-insert_top lo hi k n [] g h = ground arith
floor?-insert_top lo hi k n ((s, l) ∷ m) g h =
    ground (arith, GapsFrom-le (s + l) hi m, floor?-insert_top (s + l) hi k n m)

-- What a packet beyond `high_seq` leaves.
abbrev ahead : Tracker → ℕ → ℕ → Tracker
ahead t seq count = record t {
  packets = add64 t.packets 1;
  gaps = add64 t.gaps 1;
  pending_gaps = insert t.high_seq (cast16_sub seq t.high_seq) t.pending_gaps;
  high_seq = add64 seq count;
}

observe-ahead :
    (t : Tracker) (seq count : ℕ)
    → t.high_seq ≢ 0
    → t.high_seq < seq
    → observe t seq count ≡ (ahead t seq count, true)
unfolding observe
observe-ahead t seq count started above =
    rw (ne→== t.high_seq 0 started, ne→== seq t.high_seq (omega arith), lt→ltb t.high_seq seq above)
      refl

-- The late packet with the number before.
refuses_late :
    (t : Tracker) (seq count : ℕ)
    → IsValid t
    → t.high_seq + 2 ^ 16 ≤ seq
    → seq + count < 2 ^ 64
    → (observe (ahead t seq count) (seq - 1) 1).1 ≡ false
unfolding observe late duplicate
refuses_late t seq count v wide fits =
    let k = cast16_sub seq t.high_seq in
    let top = floor?-insert_top 0 t.high_seq k (seq - 1) t.pending_gaps v.shape (omega arith) in
    ground (arith, top)

-- If a packet whose numbers fit 64 bits comes to a valid tracker that has begun, 65,536 numbers or more
-- beyond `high_seq`, then the number just before the packet's first, which was owed and is not among the
-- packet's own, is owed no longer, and a packet of just this number that comes next is refused.
pub observe-forgets :
    (t : Tracker) (seq count : ℕ)
    → IsValid t
    → t.high_seq ≢ 0
    → t.high_seq + 2 ^ 16 ≤ seq
    → seq + count < 2 ^ 64
    → (owed t (seq - 1) ≡ true)
      × (in_range seq count (seq - 1) ≡ false)
      × (owed (observe t seq count).0 (seq - 1) ≡ false)
      × ((observe (observe t seq count).0 (seq - 1) 1).1 ≡ false)
observe-forgets t seq count v started wide fits =
    let high = t.high_seq in
    let gaps = t.pending_gaps in
    let k = cast16_sub seq high in
    let e = observe-ahead t seq count started (omega arith) in
    (
      ground arith,
      ground arith,
      rw e (
          ground (
            arith,
            missing-insert_top 0 high k (seq - 1) gaps v.shape,
            missing-bounds 0 high (seq - 1) gaps v.shape,
          )),
      rw e (refuses_late t seq count v wide fits),
    )
