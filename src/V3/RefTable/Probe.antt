-- ===== src/V3/RefTable/Probe.antt =====
-- Where `probe` stops, and what `find` returns.
use feed_handler.Prelude.{
  ℕ, zero, suc, ◌<◌, ◌≡◌, ◌≢◌, Bool, true, false, ◌&&◌, List, length, ltb, ◌==◌, ◌!=◌, arith, ◌∙◌,
  Bool-cases, inl, inr, ==→eq, ==→ne, ltb→lt, ltb→ge, sym,
}
use feed_handler.V3.RefTable.{Slot, k_empty, slot_at, home, probe_from}
use feed_handler.V3.RefTable.Cycle.{
  dist, after, IsRing, after-lt, dist_step, dist_self, dist-lt, dist-injective,
}

-- The slot holds an entry.
abbrev pub occupied : List Slot → ℕ → Bool
occupied s i = (slot_at s i).key != k_empty

-- The probe passes the slot: it holds another entry.
abbrev pub passes : List Slot → ℕ → ℕ → Bool
passes s key i = (slot_at s i).key != k_empty && (slot_at s i).key != key

module _ (cap mask : ℕ) (ring : IsRing cap mask) (s : List Slot) (key : ℕ) where
  -- Where the probe from `i` stops: at the first slot that it does not pass.
  pub record Stops (i p : ℕ) : Type 0 where
    pub inside : p < cap
    pub here : passes s key p ≡ false
    pub first : (q : ℕ) → q < cap → dist cap i q < dist cap i p → passes s key q ≡ true

  first_from :
      (i p : ℕ)
      → i < cap
      → passes s key i ≡ true
      → Stops (after cap i) p
      → (q : ℕ) → q < cap
      → dist cap i q < dist cap i p
      → passes s key q ≡ true
  first_from i p hi on rest q hq less = elim (Bool-cases (i == q)) [
    | inl e ↦ rw (← ==→eq i q e) on
    | inr ne ↦
        let away : i ≢ p = λ f. absurd (omega (arith, dist_self cap i, rw (← f) at less)) in
        let far = dist_step cap i p hi rest.inside away in
        let near = dist_step cap i q hi hq (==→ne i q ne) in rest.first q hq (omega arith)
  ]

  pub probe_from-Stops :
      (fuel i e : ℕ)
      → i < cap
      → e < cap
      → passes s key e ≡ false
      → dist cap i e < fuel
      → Stops i (probe_from fuel s mask key i)
  unfolding probe_from
  probe_from-Stops zero i e hi he stop near = absurd (omega arith)
  probe_from-Stops (suc fuel) i e hi he stop near = elim (Bool-cases (passes s key i)) [
    | inl on ↦
        let ne : i ≢ e = λ f. ground arith in
        let step = dist_step cap i e hi he ne in
        let rest =
          probe_from-Stops fuel (after cap i) e (after-lt cap i hi) he stop (omega arith) in
        rw (on, ring.next_after i hi)
          (record { inside = rest.inside; here = rest.here; first = first_from i _ hi on rest })
    | inr stay ↦ rw stay (record {
      inside = hi;
      here = stay;
      first = λ q hq less. absurd (omega (arith, dist_self cap i));
    })
  ]

  -- The stop is the only slot with both properties.
  pub Stops-unique : (i p q : ℕ) → i < cap → Stops i p → Stops i q → p ≡ q
  Stops-unique i p q hi a b = elim (Bool-cases (ltb (dist cap i p) (dist cap i q))) [
    | inl less ↦ cc (b.first p a.inside (ltb→lt _ _ less), a.here)
    | inr ge ↦ elim (Bool-cases (ltb (dist cap i q) (dist cap i p))) [
      | inl less ↦ cc (a.first q b.inside (ltb→lt _ _ less), b.here)
      | inr le ↦
          dist-injective cap i p q hi a.inside b.inside
            (omega (arith, ltb→ge _ _ ge, ltb→ge _ _ le))
    ]
  ]

-- The entry under a key stands where the probe from the key's home finds it: no slot between is
-- empty, no key stands twice, and some slot is empty.
pub record IsProbed (cap mask : ℕ) (s : List Slot) : Type 0 where
  pub chain :
      (p q : ℕ)
      → p < cap
      → q < cap
      → occupied s p ≡ true
      → dist cap (home mask (slot_at s p).key) q < dist cap (home mask (slot_at s p).key) p
      → occupied s q ≡ true
  pub unique :
      (p q : ℕ)
      → p < cap
      → q < cap
      → occupied s p ≡ true
      → (slot_at s p).key ≡ (slot_at s q).key
      → p ≡ q
  pub free : (e : ℕ) × (e < cap) × (occupied s e ≡ false)

module _ (mask : ℕ) (s : List Slot) (ring : IsRing (length s) mask) (v : IsProbed (length s) mask s)
    (key : ℕ) where
  abbrev stop : ℕ
  stop = probe_from (length s) s mask key (home mask key)

  pub stop-Stops : Stops (length s) mask ring s key (home mask key) stop
  stop-Stops =
      let (e, inside, empty) = v.free in
      probe_from-Stops (length s) mask ring s key (length s) (home mask key) e (ring.home_lt key)
        inside (ground arith) (dist-lt (length s) (home mask key) e (ring.home_lt key) inside)

  -- A key that is there is found where it stands.
  pub stop-hit : (p : ℕ) → p < length s → key ≢ k_empty → (slot_at s p).key ≡ key → stop ≡ p
  stop-hit p hp real here =
      Stops-unique (length s) mask ring s key (home mask key) stop p (ring.home_lt key) stop-Stops
        (record {
          inside = hp;
          here = ground arith;
          first = λ q hq less.
              let full : occupied s q ≡ true = v.chain p q hp hq (ground arith) (rw here less) in
              let other : (slot_at s q).key ≢ key = λ e.
                let same = v.unique p q hp hq (ground arith) (here ∙ sym e) in
                absurd (omega (arith, rw same at less)) in
              ground arith;
        })

  -- For a key that is not there the probe stops at an empty slot.
  pub stop-miss :
      ((p : ℕ) → p < length s → (slot_at s p).key ≢ key) → (slot_at s stop).key ≡ k_empty
  stop-miss none_has = ground (arith, stop-Stops.here, none_has stop stop-Stops.inside)
