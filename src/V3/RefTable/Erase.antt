-- ===== src/V3/RefTable/Erase.antt =====
-- `erase` against a finite map.
use feed_handler.Prelude.{
  ℕ, ◌≤◌, ◌+◌, ◌-◌, ◌%◌, ◌^◌, ◌<◌, ◌≡◌, ◌≢◌, refl, List, length, set, ◌==◌, if◌then◌else◌, arith,
  ◌∙◌, sym, ap, Bool-cases, inl, inr, ==→eq, ==→ne, length-set,
}
use feed_handler.V3.RefTable.{
  Slot, RefTable, k_empty, k_null_idx, slot_at, probe, find, erase, shift_back,
}
use feed_handler.V3.RefTable.Cycle.{dist_self, dist-zero, dist_step, dist-lt}
use feed_handler.V3.RefTable.Probe.{occupied}
use feed_handler.V3.RefTable.Holed.{entries, entries-set, slot_at-set, Holed}
use feed_handler.V3.RefTable.Loop.{Shifted, shift_back-Shifted}
use feed_handler.V3.RefTable.Valid.{IsValid, ring_of, Holds, Lacks}
use feed_handler.V3.RefTable.Lookup.{probe-Stops, probe-hit, find-Lacks, find_congr}

module _ (t : RefTable) (v : IsValid t) (key : ℕ) (real : key ≢ k_empty) where
  abbrev i : ℕ
  i = probe t key

  abbrev cap : ℕ
  cap = length t.slots

  -- The key is in the table, at `i`.
  module _ (here : (slot_at t.slots i).key ≡ key) where
    inside : i < cap
    inside = (probe-Stops t v key).inside

    abbrev e : ℕ
    e = v.probed.free.0

    off_end : i ≢ e
    off_end f = ground (arith, v.probed.free.2, ap (occupied t.slots) f)

    start-Holed : Holed t.mask cap t.slots i i e
    start-Holed = record {
      width = refl;
      hole_in = inside;
      scan_in = inside;
      end_in = v.probed.free.1;
      hole_full = ground arith;
      end_empty = v.probed.free.2;
      ahead = omega (arith, dist_self cap i, dist_step cap i e inside v.probed.free.1 off_end);
      chain = λ p q hp hq ne f way. v.probed.chain p q hp hq f way;
      clean = λ p hp ne near f.
          absurd (ne (sym (dist-zero cap i p inside hp (omega (arith, dist_self cap i)))));
      unique = λ p q hp hq np nq f g. v.probed.unique p q hp hq f g;
    }

    abbrev out : List Slot × ℕ
    out = shift_back cap t.slots t.mask i i

    shifted : Shifted t.mask cap t.slots i out
    shifted =
        shift_back-Shifted t.mask cap (ring_of t v) cap t.slots i i e start-Holed
          (omega (arith, dist-lt cap i e inside v.probed.free.1))

    abbrev cleared : Slot
    cleared = record { key = k_empty; value = (slot_at out.0 out.1).value }

    abbrev slots' : List Slot
    slots' = set out.0 out.1 cleared

    hole_lt : out.1 < length out.0
    hole_lt = rw shifted.width shifted.hole_in

    width' : length slots' ≡ cap
    width' = length-set out.0 out.1 cleared ∙ shifted.width

    reads : (q : ℕ) → slot_at slots' q ≡ (if out.1 == q then cleared else slot_at out.0 q)
    reads q = slot_at-set out.0 out.1 q cleared hole_lt

    count' : entries slots' + 1 ≡ t.size
    count' = ground (
      arith,
      entries-set out.0 out.1 cleared hole_lt,
      shifted.hole_full,
      shifted.count,
      v.counted,
    )

    size' : (t.size + 2 ^ 64 - 1) % 2 ^ 64 ≡ entries slots'
    size' = omega (arith, count', v.roomy, v.fits)

    abbrev erased : RefTable
    erased = record t { slots = slots'; size = (t.size + 2 ^ 64 - 1) % 2 ^ 64 }

    erase-erased : erase t key ≡ erased
    unfolding erase
    erase-erased = ground arith

    erased-IsValid : IsValid erased
    erased-IsValid = record {
      log = v.log;
      width = width' ∙ v.width;
      two_slots = rw width' v.two_slots;
      fits = rw width' v.fits;
      masked = rw width' v.masked;
      counted = sym size';
      roomy = omega (arith, width', size', count', v.roomy);
      probed = rw width' (shifted.probed cleared refl);
    }

    erased-Lacks : Lacks erased key
    erased-Lacks p hp f = elim (Bool-cases (out.1 == p)) [
      | inl a ↦ real (sym f ∙ ap (λ (x : Slot). x.key) (reads p) ∙ ground arith)
      | inr a ↦
          let same : slot_at slots' p ≡ slot_at out.0 p = ground (arith, reads p) in
          let (p0, lt, ne, back) =
            shifted.same.known p (rw width' at hp) (λ g. ==→ne out.1 p a (sym g))
              (ground (arith, same, f)) in
          ne (sym (probe-hit t v key real p0 lt (ground (arith, same, f, back))))
    ]

    erased-Holds : (q w : ℕ) → key ≢ q → q ≢ k_empty → Holds t q w → Holds erased q w
    erased-Holds q w ne fine h =
        let off : h.at ≢ i = λ g. ne (ground (arith, here, h.entry, ap (slot_at t.slots) g)) in
        let (r, lt, nr, moved) = shifted.same.kept h.at h.inside off (ground (arith, h.entry)) in
        record { at = r; inside = rw width' lt; entry = ground (arith, reads r, moved, h.entry) }

    erased-other : (q : ℕ) → key ≢ q → q ≢ k_empty → Lacks t q → Lacks erased q
    erased-other q ne fine lack p hp f = elim (Bool-cases (out.1 == p)) [
      | inl a ↦ fine (sym f ∙ ap (λ (x : Slot). x.key) (reads p) ∙ ground arith)
      | inr a ↦
          let same : slot_at slots' p ≡ slot_at out.0 p = ground (arith, reads p) in
          let (p0, lt, off, back) =
            shifted.same.known p (rw width' at hp) (λ g. ==→ne out.1 p a (sym g))
              (ground (arith, same, f)) in
          lack p0 lt (ground (arith, same, f, back))
    ]

    find-erased :
        (q : ℕ) → q ≢ k_empty → find erased q ≡ (if key == q then k_null_idx else find t q)
    find-erased q fine = elim (Bool-cases (key == q)) [
      | inl same ↦
          rw (same, ← ==→eq key q same) (find-Lacks erased erased-IsValid key real erased-Lacks)
      | inr other ↦
          let ne = ==→ne key q other in
          rw other (
            find_congr t erased q v erased-IsValid fine (λ w. erased-Holds q w ne fine)
              (erased-other q ne fine))
    ]

  -- The key is not in the table.
  erase-absent : (slot_at t.slots i).key ≢ key → erase t key ≡ t
  unfolding erase
  erase-absent ne = ground arith

  -- Erasing a key that is not the reserved one, in the table or not, keeps a valid table valid.
  pub erase-IsValid : IsValid (erase t key)
  erase-IsValid = elim (Bool-cases ((slot_at t.slots i).key == key)) [
    | inl e ↦ rw (erase-erased (==→eq _ key e)) (erased-IsValid (==→eq _ key e))
    | inr ne ↦ rw (erase-absent (==→ne _ key ne)) v
  ]

  -- An erasure makes room, and the slots stay as many.
  pub erase-room : ((erase t key).size ≤ t.size) × (length (erase t key).slots ≡ length t.slots)
  erase-room = elim (Bool-cases ((slot_at t.slots i).key == key)) [
    | inl e ↦
        let here = ==→eq _ key e in
        rw (erase-erased here) (omega (arith, size' here, count' here), width' here)
    | inr ne ↦ rw (erase-absent (==→ne _ key ne)) (omega arith, refl)
  ]

  -- After `erase` on a valid table the key is not found, and what `find` returns under every other key
  -- is unchanged, whatever entries the backward shift has moved; the reserved key is excepted.
  pub find-erase :
      (q : ℕ) → q ≢ k_empty → find (erase t key) q ≡ (if key == q then k_null_idx else find t q)
  find-erase q fine = elim (Bool-cases ((slot_at t.slots i).key == key)) [
    | inl e ↦ rw (erase-erased (==→eq _ key e)) (find-erased (==→eq _ key e) q fine)
    | inr ne ↦
        let absent : Lacks t key = λ p hp f.
          ==→ne _ key ne
            (ap (λ (r : ℕ). (slot_at t.slots r).key) (probe-hit t v key real p hp f) ∙ f) in
        rw (erase-absent (==→ne _ key ne)) (elim (Bool-cases (key == q)) [
          | inl same ↦ rw (same, ← ==→eq key q same) (find-Lacks t v key real absent)
          | inr other ↦ rw other
        ])
  ]
