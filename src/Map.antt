-- ===== src/Map.antt =====
-- `std::map` and `std::unordered_map` with integer keys, as association lists in ascending order of
-- the keys. An unordered map is used in the source by key only, so its order plays no part.
pub mod Sorted
pub mod Ends
use feed_handler.Prelude.{
  ℕ, suc, ◌≤◌, Bool, true, false, List, [], ◌∷◌, Option, none, some, ltb, ◌==◌, if◌then◌else◌,
}

abbrev pub Map {ℓ} : Type ℓ → Type ℓ
Map V = List (ℕ × V)

module _ {ℓ} {V : Type ℓ} where
  -- `m.find(k)`: the value, or `none` for `m.end()`.
  unfoldable pub find : ℕ → Map V → Option V
  find k [] = none
  find k ((j, w) ∷ m) = if j == k then some w else find k m

  -- `m[k] = v`
  unfoldable pub insert : ℕ → V → Map V → Map V
  insert k v [] = (k, v) ∷ []
  insert k v ((j, w) ∷ m) =
      if ltb k j then (k, v) ∷ (j, w) ∷ m else if j == k then (k, v) ∷ m else (j, w) ∷ insert k v m

  -- `m.erase(k)`
  unfoldable pub erase : ℕ → Map V → Map V
  erase k [] = []
  erase k ((j, w) ∷ m) = if j == k then m else (j, w) ∷ erase k m

  -- `m.begin()`
  unfoldable pub first? : Map V → Option (ℕ × V)
  first? [] = none
  first? (e ∷ m) = some e

  -- `m.rbegin()`
  unfoldable pub last? : Map V → Option (ℕ × V)
  last? [] = none
  last? (e ∷ []) = some e
  last? (e ∷ d ∷ m) = last? (d ∷ m)

  -- `std::prev(m.upper_bound(k))`: the last entry with a key of at most `k`.
  unfoldable pub floor? : ℕ → Map V → Option (ℕ × V)
  floor? k [] = none
  floor? k ((j, w) ∷ m) =
      if ltb k j then none else elim (floor? k m) [ none ↦ some (j, w) | some e ↦ some e ]

  -- The keys ascend strictly, from `lo` on.
  abbrev pub SortedFrom : ℕ → Map V → Type 0
  SortedFrom lo [] = Unit
  SortedFrom lo ((j, w) ∷ m) = (lo ≤ j) × SortedFrom (suc j) m

  abbrev pub IsSorted : Map V → Type 0
  IsSorted m = SortedFrom 0 m
