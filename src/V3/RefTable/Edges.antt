-- ===== src/V3/RefTable/Edges.antt =====
-- A new table, and the two edges of the table: the reserved key, and the table that is half full.
use feed_handler.Prelude.{
  ℕ, zero, suc, ◌+◌, ◌-◌, ◌*◌, ◌%◌, ◌^◌, ◌≤◌, ◌<◌, ◌≡◌, ◌≢◌, refl, true, false, length, replicate,
  get_or-replicate, length-replicate, arith, ◌∙◌, sym,
}
use native.Mathlib.Nat.{pow-suc, one-le-pow}
use feed_handler.V3.RefTable.{RefTable, k_empty, k_null_idx, empty_slot, slot_at, probe, find, new}
use feed_handler.V3.RefTable.Probe.{occupied, IsProbed}
use feed_handler.V3.RefTable.Holed.{entries}
use feed_handler.V3.RefTable.Valid.{IsValid}
use feed_handler.V3.RefTable.Lookup.{probe-Stops, find-Lacks}

entries-replicate : (n : ℕ) → entries (replicate n empty_slot) ≡ 0
unfolding entries
entries-replicate zero = refl
entries-replicate (suc n) = omega (arith, entries-replicate n)

-- `capacity - 1` on 64 bits, for a capacity that is not 0.
masks : (c : ℕ) → 1 ≤ c → c < 2 ^ 64 → (c + 2 ^ 64 - 1) % 2 ^ 64 ≡ c - 1
masks c some small = omega arith

vacant : (n p : ℕ) → occupied (replicate n empty_slot) p ≡ false
vacant n p = rw get_or-replicate refl

-- The constructor, at a power of two from 2 to 2 ^ 63, makes a valid table.
pub new-IsValid : (n : ℕ) → 2 ^ suc n < 2 ^ 64 → IsValid (new (2 ^ suc n))
unfolding new
new-IsValid n small = valid
  where
    big : 1 ≤ 2 ^ n
    big = one-le-pow n 2 (omega arith)

    double : 2 ^ suc n ≡ 2 ^ n * 2
    double = pow-suc 2 n

    len : length (replicate (2 ^ suc n) empty_slot) ≡ 2 ^ suc n
    len = length-replicate (2 ^ suc n) empty_slot

    clash : (p : ℕ) → occupied (replicate (2 ^ suc n) empty_slot) p ≢ true
    clash p full = let no = vacant (2 ^ suc n) p in ground arith

    probed :
        (mask : ℕ)
        → IsProbed
            (length (replicate (2 ^ suc n) empty_slot))
            mask
            (replicate (2 ^ suc n) empty_slot)
    probed mask = record {
      chain = λ p q hp hq full closer. absurd (clash p full);
      unique = λ p q hp hq full same. absurd (clash p full);
      free = (0, rw len (omega (arith, big, double)), vacant (2 ^ suc n) 0);
    }

    valid : IsValid (new (2 ^ suc n))
    valid = record {
      log = suc n;
      width = len;
      two_slots = rw len (omega (arith, big, double));
      fits = rw len small;
      masked = rw len (masks (2 ^ suc n) (omega (arith, big, double)) small);
      counted = entries-replicate (2 ^ suc n);
      roomy = rw len (omega (arith, big, double));
      probed = probed ((2 ^ suc n + 2 ^ 64 - 1) % 2 ^ 64);
    }

-- In a new table of such a size no key but the reserved one is found.
pub find-new :
    (n key : ℕ) → 2 ^ suc n < 2 ^ 64 → key ≢ k_empty → find (new (2 ^ suc n)) key ≡ k_null_idx
unfolding new
find-new n key small real =
    find-Lacks (new (2 ^ suc n)) (new-IsValid n small) key real
      (λ p h e. real (sym e ∙ rw get_or-replicate refl))

-- On a valid table the reserved key 2 ^ 64 - 1 is never reported missing as such: `find` returns the
-- value that is left in some empty slot.
pub find-k_empty :
    (t : RefTable)
    → IsValid t
    → (p : ℕ) × (p < length t.slots)
      × ((slot_at t.slots p).key ≡ k_empty)
      × (find t k_empty ≡ (slot_at t.slots p).value)
unfolding find
find-k_empty t v =
    let stop = probe-Stops t v k_empty in
    let here : (slot_at t.slots (probe t k_empty)).key ≡ k_empty = ground (arith, stop.here) in
    (probe t k_empty, stop.inside, here, ground arith)
