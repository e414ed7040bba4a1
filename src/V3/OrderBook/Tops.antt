-- ===== src/V3/OrderBook/Tops.antt =====
-- The best of a set of prices, and the best prices of the overflow maps.
use feed_handler.Spec.{Beats}
use feed_handler.Map.{Map, find, SortedFrom}
use feed_handler.Map.Sorted.{find-lower}
use feed_handler.Prelude.{
  ℕ, suc, ◌≤◌, ◌<◌, ◌≡◌, ◌≢◌, sym, ◌⊎◌, inl, inr, Bool, true, false, Option, none, some, [], ◌∷◌,
  ◌==◌, ◌!=◌, ltb, if◌then◌else◌, arith, Bool-cases, ==→eq, ==→ne,
}
use feed_handler.V3.RefTable.{k_null_idx}
use feed_handler.V3.BookState.{OrderBook, level}
use feed_handler.V3.OrderBook.{last_live, first_live, pick}

-- The best price of a side among those of `P`, or none if there are none.
abbrev pub Top : Bool → (ℕ → Type 0) → Option ℕ → Type 0
Top side P none = (q : ℕ) → ¬ P q
Top side P (some p) = P p × ((q : ℕ) → P q → Beats side p q)

pub pick-Top_bid :
    (P Q : ℕ → Type 0) (o r : Option ℕ)
    → Top true P o
    → Top true Q r
    → Top true (λ q. P q ⊎ Q q) (pick (λ p q. ltb q p) o r)
unfolding pick
pick-Top_bid P Q none none f g = λ q h. elim h [ inl x ↦ f q x | inr y ↦ g q y ]
pick-Top_bid P Q none (some r) f g =
    (inr g.0, λ q h. elim h [ inl x ↦ absurd (f q x) | inr y ↦ g.1 q y ])
pick-Top_bid P Q (some p) none f g =
    (inl f.0, λ q h. elim h [ inl x ↦ f.1 q x | inr y ↦ absurd (g q y) ])
pick-Top_bid P Q (some p) (some r) f g = elim (Bool-cases (ltb p r)) [
  | inl e ↦ rw e (inr g.0, λ q h. elim h [ inl x ↦ ground (arith, f.1 q x) | inr y ↦ g.1 q y ])
  | inr e ↦ rw e (inl f.0, λ q h. elim h [ inl x ↦ f.1 q x | inr y ↦ ground (arith, g.1 q y) ])
]

pub pick-Top_ask :
    (P Q : ℕ → Type 0) (o r : Option ℕ)
    → Top false P o
    → Top false Q r
    → Top false (λ q. P q ⊎ Q q) (pick ltb o r)
unfolding pick
pick-Top_ask P Q none none f g = λ q h. elim h [ inl x ↦ f q x | inr y ↦ g q y ]
pick-Top_ask P Q none (some r) f g =
    (inr g.0, λ q h. elim h [ inl x ↦ absurd (f q x) | inr y ↦ g.1 q y ])
pick-Top_ask P Q (some p) none f g =
    (inl f.0, λ q h. elim h [ inl x ↦ f.1 q x | inr y ↦ absurd (g q y) ])
pick-Top_ask P Q (some p) (some r) f g = elim (Bool-cases (ltb r p)) [
  | inl e ↦ rw e (inr g.0, λ q h. elim h [ inl x ↦ ground (arith, f.1 q x) | inr y ↦ g.1 q y ])
  | inr e ↦ rw e (inl f.0, λ q h. elim h [ inl x ↦ f.1 q x | inr y ↦ ground (arith, g.1 q y) ])
]

-- A price with a level that is not empty.
abbrev pub Lives : OrderBook → Map ℕ → ℕ → Type 0
Lives b m p = (l : ℕ) × (find p m ≡ some l) × ((level b l).head_idx ≢ k_null_idx)

-- An entry at the front, and the entries behind it.
Lives-split :
    (b : OrderBook) (m : Map ℕ) (j l lo q : ℕ)
    → SortedFrom (suc j) m
    → Lives b ((j, l) ∷ m) q
    → ((q ≡ j) × ((level b l).head_idx ≢ k_null_idx)) ⊎ (Lives b m q × (j < q))
unfolding find
Lives-split b m j l lo q s (k, e, on) = elim (Bool-cases (j == q)) [
  | inl f ↦ let same : l ≡ k = ground arith in inl (sym (==→eq j q f), rw same on)
  | inr f ↦
      let there : find q m ≡ some k = ground arith in
      inr ((k, there, on), find-lower q (suc j) k m s there)
]

Lives-behind :
    (b : OrderBook) (m : Map ℕ) (j l q : ℕ)
    → SortedFrom (suc j) m
    → Lives b m q
    → Lives b ((j, l) ∷ m) q
unfolding find
Lives-behind b m j l q s (k, e, on) = (k, ground (arith, find-lower q (suc j) k m s e), on)

Lives-here :
    (b : OrderBook) (m : Map ℕ) (j l : ℕ)
    → (level b l).head_idx ≢ k_null_idx
    → Lives b ((j, l) ∷ m) j
unfolding find
Lives-here b m j l on = (l, ground arith, on)

Lives-above : (b : OrderBook) (m : Map ℕ) (lo p : ℕ) → SortedFrom lo m → Lives b m p → lo ≤ p
Lives-above b m lo p s (k, e, on) = find-lower p lo k m s e

-- One entry more at the front, of a map of bids and of a map of asks.
cons-Top_bid :
    (b : OrderBook) (m : Map ℕ) (j l : ℕ) (r : Option ℕ)
    → SortedFrom (suc j) m
    → Top true (Lives b m) r
    → Top true (Lives b ((j, l) ∷ m)) (elim r [
      | some p ↦ some p
      | none ↦ if (level b l).head_idx != k_null_idx then some j else none
    ])
cons-Top_bid b m j l (some p) s f = (
  Lives-behind b m j l p s f.0,
  λ q h. elim (Lives-split b m j l (suc j) q s h) [
    | inl (e, _) ↦ omega (arith, Lives-above b m (suc j) p s f.0)
    | inr (h', _) ↦ f.1 q h'
  ],
)
cons-Top_bid b m j l none s f = elim (Bool-cases ((level b l).head_idx == k_null_idx)) [
  | inl z ↦
      let t : (level b l).head_idx != k_null_idx ≡ false = ground arith in
      rw t (λ q h. elim (Lives-split b m j l (suc j) q s h) [
        | inl (_, on) ↦ on (==→eq _ _ z)
        | inr (h', _) ↦ f q h'
      ])
  | inr z ↦
      let t : (level b l).head_idx != k_null_idx ≡ true = ground arith in
      rw t (
        Lives-here b m j l (==→ne _ _ z),
        λ q h. elim (Lives-split b m j l (suc j) q s h) [
          | inl (e, _) ↦ omega (arith, e)
          | inr (h', _) ↦ absurd (f q h')
        ],
      )
]

cons-Top_ask :
    (b : OrderBook) (m : Map ℕ) (j l : ℕ) (r : Option ℕ)
    → SortedFrom (suc j) m
    → Top false (Lives b m) r
    → Top false (Lives b ((j, l) ∷ m)) (if (level b l).head_idx != k_null_idx then some j else r)
cons-Top_ask b m j l r s f = elim (Bool-cases ((level b l).head_idx == k_null_idx)) [
  | inl z ↦
      let t : (level b l).head_idx != k_null_idx ≡ false = ground arith in
      rw t (empty r f (==→eq _ _ z))
  | inr z ↦
      let t : (level b l).head_idx != k_null_idx ≡ true = ground arith in
      rw t (
        Lives-here b m j l (==→ne _ _ z),
        λ q h. elim (Lives-split b m j l (suc j) q s h) [
          | inl (e, _) ↦ omega (arith, e)
          | inr (_, later) ↦ omega (arith, later)
        ],
      )
]
  where
    empty :
        (r : Option ℕ)
        → Top false (Lives b m) r
        → (level b l).head_idx ≡ k_null_idx
        → Top false (Lives b ((j, l) ∷ m)) r
    empty none g z = λ q h. elim (Lives-split b m j l (suc j) q s h) [
      | inl (_, on) ↦ on z
      | inr (h', _) ↦ g q h'
    ]
    empty (some p) g z = (
      Lives-behind b m j l p s g.0,
      λ q h. elim (Lives-split b m j l (suc j) q s h) [
        | inl (_, on) ↦ absurd (on z)
        | inr (h', _) ↦ g.1 q h'
      ],
    )

pub last_live-Top :
    (b : OrderBook) (lo : ℕ) (m : Map ℕ) → SortedFrom lo m → Top true (Lives b m) (last_live b m)
unfolding last_live find
last_live-Top b lo [] s = λ q h. cc h.1
last_live-Top b lo ((j, l) ∷ m) s =
    cons-Top_bid b m j l (last_live b m) s.1 (last_live-Top b (suc j) m s.1)

pub first_live-Top :
    (b : OrderBook) (lo : ℕ) (m : Map ℕ) → SortedFrom lo m → Top false (Lives b m) (first_live b m)
unfolding first_live find
first_live-Top b lo [] s = λ q h. cc h.1
first_live-Top b lo ((j, l) ∷ m) s =
    cons-Top_ask b m j l (first_live b m) s.1 (first_live-Top b (suc j) m s.1)
