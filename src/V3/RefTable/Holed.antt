-- ===== src/V3/RefTable/Holed.antt =====
-- A table while an entry is being deleted.
use feed_handler.Prelude.{
  ℕ, zero, suc, ◌+◌, ◌≤◌, ◌<◌, ◌≡◌, ◌≢◌, refl, true, false, List, [], ◌∷◌, length, set, ◌==◌, ◌!=◌,
  if◌then◌else◌, arith, ◌∙◌, Bool-cases, inl, inr, ==→eq, ==→ne, get_or-set_self, get_or-set_ne,
}
use feed_handler.V3.RefTable.{Slot, k_empty, empty_slot, slot_at, home}
use feed_handler.V3.RefTable.Cycle.{dist}
use feed_handler.V3.RefTable.Probe.{occupied}

-- How many slots hold an entry.
unfoldable pub entries : List Slot → ℕ
entries [] = 0
entries (x ∷ s) = (if x.key != k_empty then 1 else 0) + entries s

pub entries-set :
    (s : List Slot) (i : ℕ) (x : Slot)
    → i < length s
    → entries (set s i x) + (if occupied s i then 1 else 0)
      ≡ entries s + (if x.key != k_empty then 1 else 0)
unfolding entries
entries-set [] i x h = absurd (omega arith)
entries-set (y ∷ s) zero x h = ground arith
entries-set (y ∷ s) (suc i) x h = omega (arith, entries-set s i x (omega arith))

pub slot_at-set :
    (s : List Slot) (i q : ℕ) (x : Slot)
    → i < length s
    → slot_at (set s i x) q ≡ (if i == q then x else slot_at s q)
slot_at-set s i q x h = elim (Bool-cases (i == q)) [
  | inl e ↦ rw (e, ← ==→eq i q e) (get_or-set_self s i x empty_slot h)
  | inr ne ↦ rw ne (get_or-set_ne s i q x empty_slot (==→ne i q ne))
]

module _ (mask : ℕ) where
  abbrev pub home_of : List Slot → ℕ → ℕ
  home_of s p = home mask (slot_at s p).key

  -- The slots while the loop runs: `i` is the hole, whose old entry is still there, `j` the slot
  -- reached, `e` an empty slot ahead.
  pub record Holed (cap : ℕ) (s : List Slot) (i j e : ℕ) : Type 0 where
    pub width : length s ≡ cap
    pub hole_in : i < cap
    pub scan_in : j < cap
    pub end_in : e < cap
    pub hole_full : occupied s i ≡ true
    pub end_empty : occupied s e ≡ false
    pub ahead : dist cap i j < dist cap i e
    pub chain :
        (p q : ℕ)
        → p < cap
        → q < cap
        → p ≢ i
        → occupied s p ≡ true
        → dist cap (home_of s p) q < dist cap (home_of s p) p
        → occupied s q ≡ true
    pub clean :
        (p : ℕ)
        → p < cap
        → p ≢ i
        → dist cap i p ≤ dist cap i j
        → occupied s p ≡ true
        → dist cap (home_of s p) p ≤ dist cap (home_of s p) i
    pub unique :
        (p q : ℕ)
        → p < cap
        → q < cap
        → p ≢ i
        → q ≢ i
        → occupied s p ≡ true
        → (slot_at s p).key ≡ (slot_at s q).key
        → p ≡ q

  -- The same entries outside of the holes.
  pub record SameEntries (cap : ℕ) (s : List Slot) (i : ℕ) (s' : List Slot) (h : ℕ) : Type 0 where
    pub kept :
        (p : ℕ)
        → p < cap
        → p ≢ i
        → occupied s p ≡ true
        → (q : ℕ) × (q < cap) × (q ≢ h) × (slot_at s' q ≡ slot_at s p)
    pub known :
        (q : ℕ)
        → q < cap
        → q ≢ h
        → occupied s' q ≡ true
        → (p : ℕ) × (p < cap) × (p ≢ i) × (slot_at s p ≡ slot_at s' q)

  pub SameEntries-refl : (cap : ℕ) (s : List Slot) (i : ℕ) → SameEntries cap s i s i
  SameEntries-refl cap s i = record {
    kept = λ p hp ne f. (p, hp, ne, refl);
    known = λ p hp ne f. (p, hp, ne, refl);
  }

  pub SameEntries-trans :
      (cap : ℕ) (s : List Slot) (i : ℕ) (t : List Slot) (j : ℕ) (u : List Slot) (k : ℕ)
      → SameEntries cap s i t j
      → SameEntries cap t j u k
      → SameEntries cap s i u k
  SameEntries-trans cap s i t j u k a b = record {
    kept = λ p hp ne f.
        let (q, hq, nq, e) = a.kept p hp ne f in
        let (r, hr, nr, g) = b.kept q hq nq (rw e f) in (r, hr, nr, g ∙ e);
    known = λ r hr nr f.
        let (q, hq, nq, e) = b.known r hr nr f in
        let (p, hp, ne, g) = a.known q hq nq (rw e f) in (p, hp, ne, g ∙ e);
  }
