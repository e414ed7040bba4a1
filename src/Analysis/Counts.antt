-- ===== src/Analysis/Counts.antt =====
-- What the second pass counts, order by order.
use feed_handler.Prelude.{
  ℕ, ◌+◌, ◌/◌, ◌%◌, ◌^◌, ◌≤◌, ◌<◌, ◌≡◌, Bool, true, false, not, ◌&&◌, Option, none, some, List, [],
  ◌∷◌, length, ltb, leb, ◌==◌, if◌then◌else◌, arith, Bool-cases, Option-cases, inl, inr,
}
use feed_handler.Map.{Map, find}
use feed_handler.Map.Sorted.{find-insert}
use feed_handler.Wire.AddOrder.{AddOrder}
use feed_handler.Analysis.{side_key, hits, Windowed, window_add}

-- The price is in whole cents.
abbrev pub in_cents : AddOrder → Bool
in_cents m = m.price % 100 == 0

abbrev is_bid : AddOrder → Bool
is_bid m = m.side == b'B'

-- Orders of one stock and one side.
abbrev pub alike : AddOrder → AddOrder → Bool
alike m n = (m.stock_locate == n.stock_locate) && (if is_bid m then is_bid n else not (is_bid n))

-- The price in cents of the first order of the same stock and side that has one, among earlier orders,
-- the latest of which is in front.
abbrev pub earliest : AddOrder → List AddOrder → Option ℕ
earliest m [] = none
earliest m (n ∷ older) = elim (earliest m older) [
  | some first ↦ some first
  | none ↦ if in_cents n && alike n m then some (n.price / 100) else none
]

-- The window of `w` cents begins half of `w` below the price `first`.
abbrev pub is_near : ℕ → ℕ → ℕ → Bool
is_near w first cents = leb first (cents + w / 2) && ltb (cents + w / 2) (first + w)

-- The order is in the window of its stock and side, which it opens if no earlier order has.
abbrev pub is_within : ℕ → List AddOrder → AddOrder → Bool
is_within w older m =
    in_cents m
    && elim (earliest m older) [ none ↦ true | some first ↦ is_near w first (m.price / 100) ]

abbrev pub bit : Bool → ℕ
bit true = 1
bit false = 0

-- How many orders of a list are in their windows, after earlier ones.
abbrev pub within : ℕ → List AddOrder → List AddOrder → ℕ
within w older [] = 0
within w older (m ∷ ms) = bit (is_within w older m) + within w (m ∷ older) ms

-- How many prices are in fractions of a cent.
abbrev pub fractions : List AddOrder → ℕ
fractions [] = 0
fractions (m ∷ ms) = bit (not (in_cents m)) + fractions ms

abbrev pub window_all : ℕ → Windowed → List AddOrder → Windowed
window_all w v [] = v
window_all w v (m ∷ ms) = window_all w (window_add w v m) ms

-- The windows are those that the earlier orders have opened.
abbrev pub Opened : Map ℕ → List AddOrder → Type 0
Opened base older = (m : AddOrder) → find (side_key m) base ≡ earliest m older

side_key-alike : (m n : AddOrder) → (side_key m == side_key n) ≡ alike m n
side_key-alike m n = ground arith

hits-is_near : (w first cents : ℕ) → hits w first cents ≡ is_near w first cents
hits-is_near w first cents = ground arith

Opened-window_add :
    (w : ℕ) (v : Windowed) (m : AddOrder) (older : List AddOrder)
    → Opened v.base older
    → Opened (window_add w v m).base (m ∷ older)
unfolding window_add
Opened-window_add w v m older opened n =
    let key = side_key-alike m n in
    elim (Bool-cases (m.price % 100 == 0)) [
      | inr e ↦ ground (arith, opened n)
      | inl e ↦ elim (Option-cases (find (side_key m) v.base)) [
        | inl f ↦ ground (
          arith,
          f,
          opened n,
          opened m,
          key,
          find-insert (side_key m) (side_key n) (m.price / 100) v.base,
        )
        | inr (first, f) ↦ ground (arith, f, opened n, opened m, key)
      ]
    ]

bit-le-one : (b : Bool) → bit b ≤ 1
bit-le-one true = omega arith
bit-le-one false = omega arith

-- What one order changes.
record Grows (v v' : Windowed) (hit part : Bool) : Type 0 where
  pub inner : v'.in_window ≡ v.in_window + bit hit
  pub whole : v'.in_window + v'.overflow ≡ v.in_window + v.overflow + 1
  pub parts : v'.subpenny ≡ v.subpenny + bit part

window_add-Grows :
    (w : ℕ) (v : Windowed) (m : AddOrder) (older : List AddOrder)
    → Opened v.base older
    → v.in_window + v.overflow + 1 < 2 ^ 64
    → v.subpenny + 1 < 2 ^ 64
    → Grows v (window_add w v m) (is_within w older m) (not (in_cents m))
unfolding window_add
window_add-Grows w v m older opened few fewer = elim (Bool-cases (m.price % 100 == 0)) [
  | inr e ↦ record { inner = ground arith; whole = ground arith; parts = ground arith }
  | inl e ↦ elim (Option-cases (find (side_key m) v.base)) [
    | inl f ↦ record {
      inner = ground (arith, f, opened m);
      whole = ground (arith, f);
      parts = ground (arith, f);
    }
    | inr (first, f) ↦
        let same = hits-is_near w first (m.price / 100) in
        record {
          inner = ground (arith, f, opened m, same);
          whole = ground (arith, f);
          parts = ground (arith, f);
        }
  ]
]

-- The three counts after the orders `ms`, which come after the orders `older`.
pub record Counts (v v' : Windowed) (hits parts all : ℕ) : Type 0 where
  pub inner : v'.in_window ≡ v.in_window + hits
  pub whole : v'.in_window + v'.overflow ≡ v.in_window + v.overflow + all
  pub part : v'.subpenny ≡ v.subpenny + parts

pub window_all-Counts :
    (w : ℕ) (ms : List AddOrder) (v : Windowed) (older : List AddOrder)
    → Opened v.base older
    → v.in_window + v.overflow + length ms < 2 ^ 64
    → v.subpenny + length ms < 2 ^ 64
    → Counts v (window_all w v ms) (within w older ms) (fractions ms) (length ms)
window_all-Counts w [] v older opened few fewer = record {
  inner = omega arith;
  whole = omega arith;
  part = omega arith;
}
window_all-Counts w (m ∷ ms) v older opened few fewer =
    let one = window_add-Grows w v m older opened (omega arith) (omega arith) in
    let rest =
      window_all-Counts w ms (window_add w v m) (m ∷ older) (Opened-window_add w v m older opened)
        (ground (arith, one.whole)) (omega (arith, one.parts, bit-le-one (not (in_cents m)))) in
    record {
      inner = omega (arith, one.inner, rest.inner);
      whole = omega (arith, one.whole, rest.whole);
      part = omega (arith, one.parts, rest.part);
    }
