-- ===== src/V3/RefTable/Loop.antt =====
-- The deletion loop as a whole: it leaves a hole that can be cleared.
use feed_handler.Prelude.{
  ℕ, zero, suc, ◌≤◌, ◌<◌, ◌≡◌, ◌≢◌, refl, true, List, length, set, ◌==◌, arith, ◌∙◌, ap, Bool-cases,
  inl, inr,
}
use feed_handler.V3.RefTable.{Slot, k_empty, slot_at, can_move, shift_back}
use feed_handler.V3.RefTable.Cycle.{dist, after, IsRing, dist_step, dist-zero}
use feed_handler.V3.RefTable.Holed.{
  entries, home_of, Holed, SameEntries, SameEntries-refl, SameEntries-trans,
}
use feed_handler.V3.RefTable.Probe.{occupied, IsProbed}
use feed_handler.V3.RefTable.Shift.{
  end-IsProbed, move-Holed, move-SameEntries, move-entries, keep-Holed,
}

-- The result of the loop: a hole that can be cleared, and the same entries around it.
pub record Shifted (mask cap : ℕ) (s : List Slot) (i : ℕ) (out : List Slot × ℕ) : Type 0 where
  pub width : length out.0 ≡ cap
  pub hole_in : out.1 < cap
  pub hole_full : occupied out.0 out.1 ≡ true
  pub count : entries out.0 ≡ entries s
  pub probed : (x : Slot) → x.key ≡ k_empty → IsProbed cap mask (set out.0 out.1 x)
  pub same : SameEntries mask cap s i out.0 out.1

pub shift_back-Shifted :
    (mask cap : ℕ)
    → IsRing cap mask
    → (fuel : ℕ) (s : List Slot) (i j e : ℕ) → Holed mask cap s i j e
    → dist cap j e ≤ fuel
    → Shifted mask cap s i (shift_back fuel s mask i j)
unfolding shift_back
shift_back-Shifted mask cap ring zero s i j e v enough =
    let round : j ≡ e = dist-zero cap j e v.scan_in v.end_in (omega arith) in
    absurd (omega (arith, v.ahead, ap (dist cap i) round))
shift_back-Shifted mask cap ring (suc fuel) s i j e v enough =
    let j' = after cap j in
    let far : j ≢ e = λ f. absurd (omega (arith, v.ahead, ap (dist cap i) f)) in
    let less = dist_step cap j e v.scan_in v.end_in far in
    elim (Bool-cases ((slot_at s j').key == k_empty)) [
      | inl stop ↦
          rw (ring.next_after j v.scan_in, stop)
            (record {
              width = v.width;
              hole_in = v.hole_in;
              hole_full = v.hole_full;
              count = refl;
              probed = end-IsProbed mask cap ring s i j e v (ground arith);
              same = SameEntries-refl mask cap s i;
            })
      | inr on ↦ elim (Bool-cases (can_move i j' (home_of mask s j'))) [
        | inl may ↦
            let full : occupied s j' ≡ true = ground arith in
            let w = move-Holed mask cap ring s i j e v full may in
            let rest =
              shift_back-Shifted mask cap ring fuel (set s i (slot_at s j')) j' j' e w
                (omega arith) in
            rw (ring.next_after j v.scan_in, on, may)
              (record {
                width = rest.width;
                hole_in = rest.hole_in;
                hole_full = rest.hole_full;
                count = rest.count ∙ move-entries mask cap ring s i j e v full;
                probed = rest.probed;
                same =
                    SameEntries-trans mask cap s i _ j' _ _
                      (move-SameEntries mask cap ring s i j e v full) rest.same;
              })
        | inr stay ↦
            rw (ring.next_after j v.scan_in, on, stay)
              (shift_back-Shifted mask cap ring fuel s i j' e
                (keep-Holed mask cap ring s i j e v (ground arith) stay) (omega arith))
      ]
    ]
