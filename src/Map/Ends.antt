-- ===== src/Map/Ends.antt =====
-- The first and the last entry of a map, and the last one up to a key.
use feed_handler.Map.{Map, find, first?, last?, floor?, SortedFrom}
use feed_handler.Map.Sorted.{find-lower}
use feed_handler.Prelude.{
  ℕ, suc, ◌≤◌, ◌<◌, ◌≡◌, refl, [], ◌∷◌, none, some, arith, Option-cases, inl, inr,
}

module _ {ℓ} {V : Type ℓ} where
  -- `begin()` is an entry of the map, and no key is smaller.
  pub first?-some :
      (lo : ℕ) (m : Map V) {k : ℕ} {v : V}
      → SortedFrom lo m
      → first? m ≡ some (k, v)
      → (find k m ≡ some v) × ((q : ℕ) (w : V) → find q m ≡ some w → k ≤ q)
  unfolding find first?
  first?-some lo [] s h = cc
  first?-some lo ((j, w) ∷ m) s h =
      (ground arith, λ q x e. ground (arith, find-lower q (suc j) x m))

  -- `rbegin()` is an entry of the map, and no key is greater.
  pub last?-some :
      (lo : ℕ) (m : Map V) {k : ℕ} {v : V}
      → SortedFrom lo m
      → last? m ≡ some (k, v)
      → (find k m ≡ some v) × ((q : ℕ) (w : V) → find q m ≡ some w → q ≤ k)
  unfolding find last?
  last?-some lo [] s h = cc
  last?-some lo ((j, w) ∷ []) s h = (ground arith, λ q x e. ground arith)
  last?-some lo ((j, w) ∷ (i, x) ∷ m) {k} {v} s h =
      let rest = last?-some (suc j) ((i, x) ∷ m) s.1 h in
      let above = find-lower k (suc j) v ((i, x) ∷ m) s.1 rest.0 in
      (ground (arith, rest.0), λ q y e. ground (arith, rest.1 q y))

  pub first?-none : (m : Map V) → first? m ≡ none → m ≡ []
  unfolding first?
  first?-none [] h = refl
  first?-none (e ∷ m) h = cc

  pub last?-none : (m : Map V) → last? m ≡ none → m ≡ []
  unfolding last?
  last?-none [] h = refl
  last?-none (e ∷ []) h = cc
  last?-none (e ∷ d ∷ m) h = cc (last?-none (d ∷ m) h)

  pub floor?-none :
      (n lo : ℕ) (m : Map V)
      → SortedFrom lo m
      → floor? n m ≡ none
      → (q : ℕ) (w : V) → find q m ≡ some w
      → n < q
  unfolding find floor?
  floor?-none n lo [] s h q w e = cc
  floor?-none n lo ((j, x) ∷ m) s h q w e =
      ground (arith, find-lower q (suc j) w m, Option-cases (floor? n m))

  -- `floor? n` is an entry with a key of at most `n`, and no entry lies between.
  pub floor?-some :
      (n lo : ℕ) (m : Map V) {k : ℕ} {v : V}
      → SortedFrom lo m
      → floor? n m ≡ some (k, v)
      → (find k m ≡ some v) × (k ≤ n) × ((q : ℕ) (w : V) → find q m ≡ some w → q ≤ n → q ≤ k)
  unfolding find floor?
  floor?-some n lo [] s h = cc
  floor?-some n lo ((j, w) ∷ m) {k} {v} s h = elim (Option-cases (floor? n m)) [
    | inl e ↦
        (ground arith, ground arith, λ q x f g. ground (arith, floor?-none n (suc j) m s.1 e q x))
    | inr (d, e) ↦
        let rest = floor?-some n (suc j) m s.1 e in
        let above = find-lower d.0 (suc j) d.1 m s.1 rest.0 in
        (
          ground (arith, rest.0, above),
          ground (arith, rest.1),
          λ q x f g. ground (arith, rest.2 q x, above),
        )
  ]
