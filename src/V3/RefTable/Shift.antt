-- ===== src/V3/RefTable/Shift.antt =====
-- One round of the deletion loop `shift_back`: every other entry can still be found afterwards.
use feed_handler.Prelude.{
  ℕ, suc, ◌≤◌, ◌<◌, ◌≡◌, ◌≢◌, true, false, List, set, leb, ltb, ◌==◌, if◌then◌else◌, arith, ◌∙◌,
  sym, ap, Bool-cases, inl, inr, ==→eq, ==→ne, leb→le, leb→gt, ltb→lt, ltb→ge, length-set,
}
use feed_handler.V3.RefTable.{Slot, k_empty, slot_at, home, can_move}
use feed_handler.V3.RefTable.Cycle.{
  dist, after, IsRing, after-lt, dist-after, dist_step, dist_self, dist-lt, dist-injective,
  can_move-dist, dist-between, dist-zero,
}
use feed_handler.V3.RefTable.Holed.{entries, entries-set, slot_at-set, home_of, Holed, SameEntries}
use feed_handler.V3.RefTable.Probe.{occupied, IsProbed}

module _ (mask cap : ℕ) (ring : IsRing cap mask) (s : List Slot) (i j e : ℕ)
    (v : Holed mask cap s i j e) where
  abbrev j' : ℕ
  j' = after cap j

  j'-lt : j' < cap
  j'-lt = after-lt cap j v.scan_in

  nearer : dist cap i j' ≡ suc (dist cap i j)
  nearer =
      dist-after cap i j v.hole_in v.scan_in
        (omega (arith, v.ahead, dist-lt cap i e v.hole_in v.end_in))

  apart : i ≢ j'
  apart f = absurd (omega (arith, nearer, dist_self cap i, ap (dist cap i) f))

  reads : (x : Slot) (q : ℕ) → slot_at (set s i x) q ≡ (if i == q then x else slot_at s q)
  reads x q = slot_at-set s i q x (rw v.width v.hole_in)

  -- An occupied slot is not the empty one ahead.
  before_end : occupied s j' ≡ true → dist cap i j' < dist cap i e
  before_end full =
      let other : dist cap i j' ≢ dist cap i e = λ f. cc (
        ap (occupied s) (dist-injective cap i j' e v.hole_in j'-lt v.end_in f),
        full,
        v.end_empty,
      ) in
      omega (arith, nearer, v.ahead)

  clear_way :
      (p : ℕ)
      → p < cap
      → p ≢ i
      → occupied s p ≡ true
      → occupied s j' ≡ false
      → dist cap (home_of mask s p) p ≤ dist cap (home_of mask s p) i
  clear_way p hp ne full stop = elim (Bool-cases (leb (dist cap i p) (dist cap i j))) [
    | inl le ↦ v.clean p hp ne (leb→le _ _ le) full
    | inr gt ↦
        elim (Bool-cases (ltb (dist cap (home_of mask s p) i) (dist cap (home_of mask s p) p))) [
          | inr ge ↦ ltb→ge _ _ ge
          | inl on_way ↦
              let h = ring.home_lt (slot_at s p).key in
              let far : dist cap i j' ≢ dist cap i p = λ f.
                cc (ap (occupied s) (dist-injective cap i j' p v.hole_in j'-lt hp f), full, stop) in
              let past : dist cap i j' < dist cap i p = omega (arith, nearer, leb→gt _ _ gt) in
              let way =
                dist-between cap (home_of mask s p) i j' p h v.hole_in j'-lt hp (ltb→lt _ _ on_way)
                  past in
              cc (v.chain p j' hp j'-lt ne full way, stop)
        ]
  ]

  -- The scan reaches an empty slot: the hole can be cleared.
  pub end-IsProbed :
      occupied s j' ≡ false → (x : Slot) → x.key ≡ k_empty → IsProbed cap mask (set s i x)
  end-IsProbed stop x cleared = record {
    chain = λ p q hp hq full way.
        let ne : p ≢ i = λ f. ground (arith, reads x p) in
        let same : slot_at (set s i x) p ≡ slot_at s p = ground (arith, reads x p) in
        let full' : occupied s p ≡ true = rw same at full in
        let way' : dist cap (home_of mask s p) q < dist cap (home_of mask s p) p = rw same at way in
        let off : q ≢ i = λ f. absurd (omega (arith, clear_way p hp ne full' stop, rw f at way')) in
        ground (arith, reads x q, v.chain p q hp hq ne full' way');
    unique = λ p q hp hq full e.
        let ne : p ≢ i = λ f. ground (arith, reads x p) in
        let off : q ≢ i = λ f. ground (arith, reads x p, reads x q) in
        v.unique p q hp hq ne off (ground (arith, reads x p))
          (ground (arith, reads x p, reads x q));
    free = (i, v.hole_in, ground (arith, reads x i));
  }

  move_chain :
      occupied s j' ≡ true
      → dist cap (home_of mask s j') i < dist cap (home_of mask s j') j'
      → let t = set s i (slot_at s j') in
        (p q : ℕ)
        → p < cap
        → q < cap
        → p ≢ j'
        → occupied t p ≡ true
        → dist cap (home_of mask t p) q < dist cap (home_of mask t p) p
        → occupied t q ≡ true
  move_chain full on_way p q hp hq ne f way =
      let x = slot_at s j' in
      let still : occupied s q ≡ true → occupied (set s i x) q ≡ true =
        λ g. ground (arith, reads x q) in
      elim (Bool-cases (i == p)) [
        | inl same ↦
            let moved : slot_at (set s i x) p ≡ x = ground (arith, reads x p) in
            let way' : dist cap (home mask x.key) q < dist cap (home mask x.key) i =
              rw (moved, ← ==→eq i p same) at way in
            still (v.chain j' q j'-lt hq (λ g. apart (sym g)) full (omega arith))
        | inr other ↦
            let same : slot_at (set s i x) p ≡ slot_at s p = ground (arith, reads x p) in
            still (v.chain p q hp hq (λ g. ==→ne i p other (sym g)) (rw same at f) (rw same at way))
      ]

  move_unique :
      occupied s j' ≡ true
      → let t = set s i (slot_at s j') in
        (p q : ℕ)
        → p < cap
        → q < cap
        → p ≢ j'
        → q ≢ j'
        → occupied t p ≡ true
        → (slot_at t p).key ≡ (slot_at t q).key
        → p ≡ q
  move_unique full p q hp hq np nq f g =
      let x = slot_at s j' in
      let off : j' ≢ i = λ h. apart (sym h) in
      elim (Bool-cases (i == p)) [
        | inl a ↦ elim (Bool-cases (i == q)) [
          | inl b ↦ sym (==→eq i p a) ∙ ==→eq i q b
          | inr b ↦ absurd (
              nq (
                sym (
                  v.unique j' q j'-lt hq off (λ h. ==→ne i q b (sym h)) full
                    (ground (arith, reads x p, reads x q)))))
        ]
        | inr a ↦
            let np' : p ≢ i = λ h. ==→ne i p a (sym h) in
            let f' : occupied s p ≡ true = ground (arith, reads x p) in
            elim (Bool-cases (i == q)) [
              | inl b ↦
                  absurd
                    (np (v.unique p j' hp j'-lt np' off f' (ground (arith, reads x p, reads x q))))
              | inr b ↦
                  v.unique p q hp hq np' (λ h. ==→ne i q b (sym h)) f'
                    (ground (arith, reads x p, reads x q))
            ]
      ]

  -- The entry at `j'` goes back to the hole, and leaves a new one.
  pub move-Holed :
      occupied s j' ≡ true
      → can_move i j' (home_of mask s j') ≡ true
      → Holed mask cap (set s i (slot_at s j')) j' j' e
  move-Holed full may =
      let x = slot_at s j' in
      let k = home_of mask s j' in
      let hk = ring.home_lt x.key in
      let on_way = (can_move-dist cap i j' k v.hole_in j'-lt hk apart).0 may in
      let ne_end : j' ≢ e = λ f. cc (ap (occupied s) f, full, v.end_empty) in
      record {
        width = length-set s i x ∙ v.width;
        hole_in = j'-lt;
        scan_in = j'-lt;
        end_in = v.end_in;
        hole_full = ground (arith, reads x j');
        end_empty = ground (arith, reads x e, v.hole_full);
        ahead = omega (arith, dist_self cap j', dist_step cap j' e j'-lt v.end_in ne_end);
        chain = move_chain full on_way;
        clean = λ p hp ne near f.
            absurd (ne (sym (dist-zero cap j' p j'-lt hp (omega (arith, dist_self cap j')))));
        unique = move_unique full;
      }

  pub move-SameEntries : occupied s j' ≡ true → SameEntries mask cap s i (set s i (slot_at s j')) j'
  move-SameEntries full =
      let x = slot_at s j' in
      record {
        kept = λ p hp ne f. elim (Bool-cases (j' == p)) [
          | inl same ↦ (i, v.hole_in, apart, ground (arith, reads x i))
          | inr other ↦ (p, hp, (λ g. ==→ne j' p other (sym g)), ground (arith, reads x p))
        ];
        known = λ q hq ne f. elim (Bool-cases (i == q)) [
          | inl same ↦ (j', j'-lt, (λ g. apart (sym g)), ground (arith, reads x q))
          | inr other ↦ (q, hq, (λ g. ==→ne i q other (sym g)), ground (arith, reads x q))
        ];
      }

  pub move-entries : occupied s j' ≡ true → entries (set s i (slot_at s j')) ≡ entries s
  move-entries full =
      ground (arith, entries-set s i (slot_at s j') (rw v.width v.hole_in), v.hole_full)

  -- The entry at `j'` stays.
  pub keep-Holed :
      occupied s j' ≡ true → can_move i j' (home_of mask s j') ≡ false → Holed mask cap s i j' e
  keep-Holed full may =
      let k = home_of mask s j' in
      let hk = ring.home_lt (slot_at s j').key in
      let off_way = (can_move-dist cap i j' k v.hole_in j'-lt hk apart).1 in
      record {
        width = v.width;
        hole_in = v.hole_in;
        scan_in = j'-lt;
        end_in = v.end_in;
        hole_full = v.hole_full;
        end_empty = v.end_empty;
        ahead = before_end full;
        chain = v.chain;
        clean = λ p hp ne near f. elim (Bool-cases (j' == p)) [
          | inl same ↦
              rw (← ==→eq j' p same) (elim (Bool-cases (ltb (dist cap k i) (dist cap k j'))) [
                | inl on_way ↦ cc (off_way (ltb→lt _ _ on_way), may)
                | inr ge ↦ ltb→ge _ _ ge
              ])
          | inr other ↦
              let far : dist cap i j' ≢ dist cap i p =
                λ g. ==→ne j' p other (dist-injective cap i j' p v.hole_in j'-lt hp g) in
              v.clean p hp ne (omega (arith, nearer)) f
        ];
        unique = v.unique;
      }
