-- ===== src/V3/RefTable/Insert.antt =====
-- `insert` against a finite map.
use feed_handler.Prelude.{
  ℕ, ◌+◌, ◌*◌, ◌<◌, ◌≡◌, ◌≢◌, true, List, length, set, ◌==◌, if◌then◌else◌, arith, ◌∙◌, sym,
  Bool-cases, inl, inr, ==→eq, length-set,
}
use feed_handler.V3.RefTable.{Slot, RefTable, k_empty, slot_at, home, probe, find, insert}
use feed_handler.V3.RefTable.Cycle.{dist}
use feed_handler.V3.RefTable.Probe.{occupied, Stops}
use feed_handler.V3.RefTable.Holed.{entries, entries-set, slot_at-set}
use feed_handler.V3.RefTable.Valid.{IsValid, ring_of, entries-free}
use feed_handler.V3.RefTable.Lookup.{probe-Stops, probe-hit, find-Holds, find_congr}

module _ (t : RefTable) (v : IsValid t) (key value : ℕ) (real : key ≢ k_empty) where
  abbrev i : ℕ
  i = probe t key

  -- In both cases of the source the slot ends up with the key and the value.
  abbrev written : List Slot
  written = set t.slots i (record { key = key; value = value })

  stop : Stops (length t.slots) t.mask (ring_of t v) t.slots key (home t.mask key) i
  stop = probe-Stops t v key

  reads :
      (q : ℕ)
      → slot_at written q
        ≡ (if i == q then record { key = key; value = value } else slot_at t.slots q)
  reads q = slot_at-set t.slots i q (record { key = key; value = value }) stop.inside

  still : (q : ℕ) → occupied t.slots q ≡ true → occupied written q ≡ true
  still q f = ground (arith, reads q)

  chain :
      (p q : ℕ)
      → p < length t.slots
      → q < length t.slots
      → occupied written p ≡ true
      → dist (length t.slots) (home t.mask (slot_at written p).key) q
        < dist (length t.slots) (home t.mask (slot_at written p).key) p
      → occupied written q ≡ true
  chain p q hp hq full way = elim (Bool-cases (i == p)) [
    | inl same ↦
        let e : (slot_at written p).key ≡ key = ground (arith, reads p) in
        let passed = stop.first q hq (rw (e, ← ==→eq i p same) at way) in still q (ground arith)
    | inr other ↦
        let e : slot_at written p ≡ slot_at t.slots p = ground (arith, reads p) in
        still q (v.probed.chain p q hp hq (rw e at full) (rw e at way))
  ]

  unique :
      (p q : ℕ)
      → p < length t.slots
      → q < length t.slots
      → occupied written p ≡ true
      → (slot_at written p).key ≡ (slot_at written q).key
      → p ≡ q
  unique p q hp hq full e = elim (Bool-cases (i == p)) [
    | inl a ↦ elim (Bool-cases (i == q)) [
      | inl b ↦ sym (==→eq i p a) ∙ ==→eq i q b
      | inr b ↦ sym (==→eq i p a) ∙ probe-hit t v key real q hq (ground (arith, reads p, reads q))
    ]
    | inr a ↦ elim (Bool-cases (i == q)) [
      | inl b ↦ sym (probe-hit t v key real p hp (ground (arith, reads p, reads q))) ∙ ==→eq i q b
      | inr b ↦
          v.probed.unique p q hp hq (ground (arith, reads p)) (ground (arith, reads p, reads q))
    ]
  ]

  insert-written :
      t.size * 2 < length t.slots
      → insert t key value ≡ record t {
        slots = written;
        size = t.size + (if (slot_at t.slots i).key == k_empty then 1 else 0);
      }
  unfolding insert
  insert-written room = ground (arith, stop.here)

  count-written : entries written ≡ t.size + (if (slot_at t.slots i).key == k_empty then 1 else 0)
  count-written =
      ground
        (arith, entries-set t.slots i (record { key = key; value = value }) stop.inside, v.counted)

  -- Inserting a key that is not the reserved one into a valid table that is less than half full keeps
  -- the table valid.
  pub insert-IsValid : t.size * 2 < length t.slots → IsValid (insert t key value)
  insert-IsValid room =
      let same = length-set t.slots i (record { key = key; value = value }) in
      let more : entries written < length written =
        rw same (ground (arith, count-written, v.two_slots)) in
      rw (insert-written room) (record {
        log = v.log;
        width = same ∙ v.width;
        two_slots = rw same v.two_slots;
        fits = rw same v.fits;
        masked = rw same v.masked;
        counted = count-written;
        roomy = rw (← count-written) more;
        probed = rw same (record {
          chain = chain;
          unique = unique;
          free = rw same at (entries-free written more);
        });
      })

  -- After an insertion into a valid table that is less than half full, `find` returns the value under
  -- the key, new or not, and is unchanged under every other key; the reserved key is excepted.
  pub find-insert :
      t.size * 2 < length t.slots
      → (q : ℕ) → q ≢ k_empty
      → find (insert t key value) q ≡ (if key == q then value else find t q)
  find-insert room q fine = elim (Bool-cases (key == q)) [
    | inl e ↦
        rw (e, ← ==→eq key q e)
          (find-Holds (insert t key value) (insert-IsValid room) key real value (
            rw (insert-written room)
              (record { at = i; inside = rw same stop.inside; entry = ground (arith, reads i) })))
    | inr ne ↦ rw ne (
        find_congr t (insert t key value) q v (insert-IsValid room) fine
          (λ w h. rw (insert-written room) (record {
            at = h.at;
            inside = rw same h.inside;
            entry = ground (arith, reads h.at, h.entry, stop.here);
          }))
          (λ lack.
            rw (insert-written room)
              (λ p hp e. lack p (rw same at hp) (ground (arith, reads p, e)))))
  ]
    where
      same : length written ≡ length t.slots
      same = length-set t.slots i (record { key = key; value = value })
