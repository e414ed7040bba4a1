-- ===== src/V3/RefTable/Lookup.antt =====
-- What `find` returns, by the entries of the table.
use feed_handler.Prelude.{
  ℕ, ◌<◌, ◌≡◌, ◌≢◌, length, ◌==◌, arith, ◌∙◌, sym, ap, Bool-cases, inl, inr, ◌⊎◌, ==→ne, ne→==,
}
use feed_handler.V3.RefTable.{Slot, RefTable, k_empty, k_null_idx, slot_at, home, probe, find}
use feed_handler.V3.RefTable.Probe.{Stops, stop-Stops, stop-hit}
use feed_handler.V3.RefTable.Valid.{IsValid, ring_of, Holds, Lacks}

module _ (t : RefTable) (v : IsValid t) (key : ℕ) where
  pub probe-Stops :
      Stops (length t.slots) t.mask (ring_of t v) t.slots key (home t.mask key) (probe t key)
  unfolding probe
  probe-Stops = stop-Stops t.mask t.slots (ring_of t v) v.probed key

  module _ (real : key ≢ k_empty) where
    pub probe-hit : (p : ℕ) → p < length t.slots → (slot_at t.slots p).key ≡ key → probe t key ≡ p
    unfolding probe
    probe-hit p hp e = stop-hit t.mask t.slots (ring_of t v) v.probed key p hp real e

    pub find-Holds : (value : ℕ) → Holds t key value → find t key ≡ value
    unfolding find
    find-Holds value h =
        let at = probe-hit h.at h.inside (ap (λ (x : Slot). x.key) h.entry) in
        rw (at, h.entry) (ground arith)

    pub find-Lacks : Lacks t key → find t key ≡ k_null_idx
    unfolding find
    find-Lacks none_has =
        rw (
          ne→== (slot_at t.slots (probe t key)).key key (none_has (probe t key) probe-Stops.inside))

    pub Holds-or-Lacks : ((value : ℕ) × Holds t key value) ⊎ Lacks t key
    Holds-or-Lacks = elim (Bool-cases ((slot_at t.slots (probe t key)).key == key)) [
      | inl e ↦ inl (
        (slot_at t.slots (probe t key)).value,
        record { at = probe t key; inside = probe-Stops.inside; entry = ground arith },
      )
      | inr ne ↦ inr (λ p hp e.
          ==→ne _ key ne (ap (λ (q : ℕ). (slot_at t.slots q).key) (probe-hit p hp e) ∙ e))
    ]

-- Two tables with the same entries under a key find the same.
pub find_congr :
    (t u : RefTable) (key : ℕ)
    → IsValid t
    → IsValid u
    → key ≢ k_empty
    → ((value : ℕ) → Holds t key value → Holds u key value)
    → (Lacks t key → Lacks u key)
    → find u key ≡ find t key
find_congr t u key v w real some_to none_to = elim (Holds-or-Lacks t v key real) [
  | inl (value, h) ↦
      find-Holds u w key real value (some_to value h) ∙ sym (find-Holds t v key real value h)
  | inr l ↦ find-Lacks u w key real (none_to l) ∙ sym (find-Lacks t v key real l)
]
