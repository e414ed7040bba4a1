-- ===== src/Map/Sorted.antt =====
-- Look-ups after updates, and the order of the keys.
use feed_handler.Map.{Map, find, insert, erase, SortedFrom}
use feed_handler.Prelude.{
  ℕ, suc, ◌≤◌, ◌<◌, ◌≡◌, refl, [], ◌∷◌, none, some, ◌==◌, if◌then◌else◌, arith,
}

module _ {ℓ} {V : Type ℓ} where
  pub find-insert :
      (k q : ℕ) (v : V) (m : Map V) → find q (insert k v m) ≡ (if k == q then some v else find q m)
  unfolding find insert
  find-insert k q v [] = refl
  find-insert k q v ((j, w) ∷ m) = ground (arith, find-insert k q v m)

  pub find-none_below : (k lo : ℕ) (m : Map V) → k < lo → SortedFrom lo m → find k m ≡ none
  unfolding find
  find-none_below k lo [] h s = refl
  find-none_below k lo ((j, w) ∷ m) h s = ground (arith, find-none_below k (suc j) m)

  pub find-erase :
      (k q lo : ℕ) (m : Map V)
      → SortedFrom lo m
      → find q (erase k m) ≡ (if k == q then none else find q m)
  unfolding find erase
  find-erase k q lo [] s = ground arith
  find-erase k q lo ((j, w) ∷ m) s =
      ground (arith, find-erase k q (suc j) m, find-none_below j (suc j) m)

  pub SortedFrom-weaken : (lo lo' : ℕ) (m : Map V) → lo' ≤ lo → SortedFrom lo m → SortedFrom lo' m
  SortedFrom-weaken lo lo' [] h s = tt
  SortedFrom-weaken lo lo' ((j, w) ∷ m) h s = (omega arith, s.1)

  pub insert-SortedFrom :
      (k lo : ℕ) (v : V) (m : Map V) → lo ≤ k → SortedFrom lo m → SortedFrom lo (insert k v m)
  unfolding insert
  insert-SortedFrom k lo v [] h s = (h, tt)
  insert-SortedFrom k lo v ((j, w) ∷ m) h s =
      ground (arith, insert-SortedFrom k (suc j) v m, SortedFrom-weaken (suc j) (suc k) m)

  pub erase-SortedFrom : (k lo : ℕ) (m : Map V) → SortedFrom lo m → SortedFrom lo (erase k m)
  unfolding erase
  erase-SortedFrom k lo [] s = tt
  erase-SortedFrom k lo ((j, w) ∷ m) s =
      ground (arith, erase-SortedFrom k (suc j) m, SortedFrom-weaken (suc j) lo m)

  pub find-lower : (k lo : ℕ) (v : V) (m : Map V) → SortedFrom lo m → find k m ≡ some v → lo ≤ k
  unfolding find
  find-lower k lo v [] s h = cc
  find-lower k lo v ((j, w) ∷ m) s h = ground (arith, find-lower k (suc j) v m)
