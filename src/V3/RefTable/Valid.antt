-- ===== src/V3/RefTable/Valid.antt =====
-- The invariant of a table, and its operations against a finite map.
use feed_handler.Prelude.{
  ℕ, suc, ◌-◌, ◌^◌, ◌≤◌, ◌<◌, ◌≡◌, ◌≢◌, false, List, [], ◌∷◌, length, ◌!=◌, arith, Bool-cases, inl,
  inr,
}
use feed_handler.V3.RefTable.{Slot, RefTable, k_empty, slot_at}
use feed_handler.V3.RefTable.Cycle.{IsRing, pow-IsRing}
use feed_handler.V3.RefTable.Probe.{occupied, IsProbed}
use feed_handler.V3.RefTable.Holed.{entries}

-- A table that is not full has an empty slot.
pub entries-free :
    (s : List Slot) → entries s < length s → (e : ℕ) × (e < length s) × (occupied s e ≡ false)
unfolding entries
entries-free [] h = absurd (omega arith)
entries-free (y ∷ s) h = elim (Bool-cases (y.key != k_empty)) [
  | inr empty ↦ (0, omega arith, empty)
  | inl full ↦ let (e, lt, free) = entries-free s (ground arith) in (suc e, omega arith, free)
]

-- `slots_` has a power of two of slots, at least two, `mask_` is their number less one, `size_` is the
-- number of entries, which is less, and each entry is where a probe finds it.
pub record IsValid (t : RefTable) : Type 0 where
  pub log : ℕ
  pub width : length t.slots ≡ 2 ^ log
  pub two_slots : 2 ≤ length t.slots
  pub fits : length t.slots < 2 ^ 64
  pub masked : t.mask ≡ length t.slots - 1
  pub counted : entries t.slots ≡ t.size
  pub roomy : t.size < length t.slots
  pub probed : IsProbed (length t.slots) t.mask t.slots

pub ring_of : (t : RefTable) → IsValid t → IsRing (length t.slots) t.mask
ring_of t v =
    let small : 2 ^ v.log < 2 ^ 64 = rw v.width at v.fits in
    let m : t.mask ≡ 2 ^ v.log - 1 = rw v.width at v.masked in
    rw (m, v.width) (pow-IsRing v.log small)

-- What the table maps a key to, read off the slots.
pub record Holds (t : RefTable) (key value : ℕ) : Type 0 where
  pub at : ℕ
  pub inside : at < length t.slots
  pub entry : slot_at t.slots at ≡ record { key = key; value = value }

abbrev pub Lacks : RefTable → ℕ → Type 0
Lacks t key = (p : ℕ) → p < length t.slots → (slot_at t.slots p).key ≢ key
