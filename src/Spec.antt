-- ===== src/Spec.antt =====
-- What both order books promise, without any of their data structures: the live orders by reference
-- number, and the best prices. It is an independent description, to which the books are compared.
pub mod Messages
use feed_handler.Prelude.{
  ℕ, ◌-◌, ◌≤◌, ◌≡◌, refl, ◌⊎◌, inl, inr, Bool, true, false, Option, none, some, leb, ◌==◌,
  if◌then◌else◌, arith,
}

pub record Order : Type 0 where
  pub bid : Bool
  pub price : ℕ
  pub shares : ℕ

abbrev pub Orders : Type 0
Orders = ℕ → Option Order

abbrev pub write : ℕ → Option Order → Orders → Orders
write ref o v r = if ref == r then o else v r

-- A new order rests under its reference number.
abbrev pub place : ℕ → Order → Orders → Orders
place ref o v = write ref (some o) v

-- An execution or a cancellation of `n` shares: an order with no more shares than that is gone.
abbrev pub reduced : ℕ → Order → Option Order
reduced n o = if leb o.shares n then none else some (record o { shares = o.shares - n })

abbrev pub reduce : ℕ → ℕ → Orders → Orders
reduce ref n v = elim (v ref) [ none ↦ v | some o ↦ write ref (reduced n o) v ]

abbrev pub remove : ℕ → Orders → Orders
remove ref v = write ref none v

-- A replacement keeps the side, and does nothing if the original is unknown.
abbrev pub replace : ℕ → ℕ → ℕ → ℕ → Orders → Orders
replace original ref price shares v = elim (v original) [
  | none ↦ v
  | some o ↦ place ref (record { bid = o.bid; price = price; shares = shares }) (remove original v)
]

-- An order rests on the side, at the price.
abbrev pub Rests : Orders → Bool → ℕ → Type 0
Rests v side price = (ref : ℕ) × (o : Order) × (v ref ≡ some o) × (o.bid ≡ side) × (o.price ≡ price)

-- `p` is at least as good as `q`: higher for a bid, lower for an ask.
abbrev pub Beats : Bool → ℕ → ℕ → Type 0
Beats true p q = q ≤ p
Beats false p q = p ≤ q

-- The best price of a side.
pub record IsBest (v : Orders) (side : Bool) (price : ℕ) : Type 0 where
  pub rests : Rests v side price
  pub best : (q : ℕ) → Rests v side q → Beats side price q

-- The top of the book: the best prices, or nothing if a side is empty.
abbrev pub IsTop : Orders → Option (ℕ × ℕ) → Type 0
IsTop v none = ((q : ℕ) → ¬ Rests v true q) ⊎ ((q : ℕ) → ¬ Rests v false q)
IsTop v (some (bid, ask)) = IsBest v true bid × IsBest v false ask

-- At most one top of the book fits the live orders, so two books that are right agree.
pub IsTop-unique : (v : Orders) (a b : Option (ℕ × ℕ)) → IsTop v a → IsTop v b → a ≡ b
IsTop-unique v none none s t = refl
IsTop-unique v none (some (p, q)) (inl empty) t = absurd (empty p t.0.rests)
IsTop-unique v none (some (p, q)) (inr empty) t = absurd (empty q t.1.rests)
IsTop-unique v (some (p, q)) none s (inl empty) = absurd (empty p s.0.rests)
IsTop-unique v (some (p, q)) none s (inr empty) = absurd (empty q s.1.rests)
IsTop-unique v (some (p, q)) (some (p', q')) s t =
    let up = s.0.best p' t.0.rests in
    let up' = t.0.best p s.0.rests in
    let down = s.1.best q' t.1.rests in let down' = t.1.best q s.1.rests in ground arith
