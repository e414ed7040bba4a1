-- ===== src/Receiver/Gaps/Missing.antt =====
-- The sequence numbers in the recorded gaps, and the shape of the gap map.
use feed_handler.Map.{Map, find, insert, SortedFrom}
use feed_handler.Receiver.Deliveries.{in_range}
use feed_handler.Prelude.{
  ℕ, suc, ◌+◌, ◌≤◌, ◌<◌, ◌^◌, ◌≡◌, Bool, true, false, ◌||◌, [], ◌∷◌, some, arith,
}

-- `n` lies in a recorded gap.
unfoldable pub missing : Map ℕ → ℕ → Bool
missing [] n = false
missing ((s, l) ∷ m) n = in_range s l n || missing m n

-- How many numbers are missing.
unfoldable pub total : Map ℕ → ℕ
total [] = 0
total ((s, l) ∷ m) = l + total m

-- The gaps are not empty, fit 16 bits, follow one another from `lo` on without overlapping, and end
-- by `hi`.
abbrev pub GapsFrom : ℕ → ℕ → Map ℕ → Type 0
GapsFrom lo hi [] = lo ≤ hi
GapsFrom lo hi ((s, l) ∷ m) = (lo ≤ s) × (1 ≤ l) × (l < 2 ^ 16) × GapsFrom (s + l) hi m

pub GapsFrom-le : (lo hi : ℕ) (m : Map ℕ) → GapsFrom lo hi m → lo ≤ hi
GapsFrom-le lo hi [] g = g
GapsFrom-le lo hi ((s, l) ∷ m) g = omega (arith, GapsFrom-le (s + l) hi m g.3)

pub GapsFrom-lower : (lo' lo hi : ℕ) (m : Map ℕ) → lo' ≤ lo → GapsFrom lo hi m → GapsFrom lo' hi m
GapsFrom-lower lo' lo hi [] h g = omega arith
GapsFrom-lower lo' lo hi ((s, l) ∷ m) h g = (omega arith, g.1, g.2, g.3)

pub GapsFrom-raise : (lo hi hi' : ℕ) (m : Map ℕ) → hi ≤ hi' → GapsFrom lo hi m → GapsFrom lo hi' m
GapsFrom-raise lo hi hi' [] h g = omega arith
GapsFrom-raise lo hi hi' ((s, l) ∷ m) h g = (g.0, g.1, g.2, GapsFrom-raise (s + l) hi hi' m h g.3)

pub GapsFrom-SortedFrom : (lo hi : ℕ) (m : Map ℕ) → GapsFrom lo hi m → SortedFrom lo m
GapsFrom-SortedFrom lo hi [] g = tt
GapsFrom-SortedFrom lo hi ((s, l) ∷ m) g =
    (g.0, GapsFrom-SortedFrom (suc s) hi m (GapsFrom-lower (suc s) (s + l) hi m (omega arith) g.3))

-- Nothing is missing outside of `lo` to `hi`.
pub missing-bounds :
    (lo hi n : ℕ) (m : Map ℕ) → GapsFrom lo hi m → missing m n ≡ true → (lo ≤ n) × (n < hi)
unfolding missing
missing-bounds lo hi n [] g h = ground arith
missing-bounds lo hi n ((s, l) ∷ m) g h =
    ground (arith, missing-bounds (s + l) hi n m, GapsFrom-le (s + l) hi m)

-- A gap at the top, as a packet ahead of its time leaves it.
pub insert-top :
    (lo hi top k : ℕ) (m : Map ℕ)
    → GapsFrom lo hi m
    → 1 ≤ k
    → k < 2 ^ 16
    → hi + k ≤ top
    → GapsFrom lo top (insert hi k m)
unfolding insert
insert-top lo hi top k [] g pos small h = (g, pos, small, h)
insert-top lo hi top k ((s, l) ∷ m) g pos small h =
    ground (arith, GapsFrom-le (s + l) hi m, insert-top (s + l) hi top k m)

pub missing-insert_top :
    (lo hi k n : ℕ) (m : Map ℕ)
    → GapsFrom lo hi m
    → missing (insert hi k m) n ≡ missing m n || in_range hi k n
unfolding missing insert
missing-insert_top lo hi k n [] g = ground arith
missing-insert_top lo hi k n ((s, l) ∷ m) g =
    ground (arith, GapsFrom-le (s + l) hi m, missing-insert_top (s + l) hi k n m)

pub total-insert_top :
    (lo hi k : ℕ) (m : Map ℕ) → GapsFrom lo hi m → total (insert hi k m) ≡ total m + k
unfolding total insert
total-insert_top lo hi k [] g = omega arith
total-insert_top lo hi k ((s, l) ∷ m) g =
    ground (arith, GapsFrom-le (s + l) hi m, total-insert_top (s + l) hi k m)

pub find-gap :
    (lo hi s l : ℕ) (m : Map ℕ)
    → GapsFrom lo hi m
    → find s m ≡ some l
    → (lo ≤ s) × (1 ≤ l) × (l < 2 ^ 16) × (s + l ≤ hi)
unfolding find
find-gap lo hi s l [] g h = cc
find-gap lo hi s l ((j, w) ∷ m) g h =
    ground (arith, GapsFrom-le (j + w) hi m, find-gap (j + w) hi s l m)

-- A number inside a gap of the map is missing.
pub missing_of_find :
    (s l n : ℕ) (m : Map ℕ) → find s m ≡ some l → in_range s l n ≡ true → missing m n ≡ true
unfolding find missing
missing_of_find s l n [] h r = cc
missing_of_find s l n ((j, w) ∷ m) h r = ground (arith, missing_of_find s l n m)

-- Two gaps of the map do not overlap.
pub find-apart :
    (lo hi s l j w : ℕ) (m : Map ℕ)
    → GapsFrom lo hi m
    → find s m ≡ some l
    → find j m ≡ some w
    → s < j
    → s + l ≤ j
unfolding find
find-apart lo hi s l j w [] g h k lt = cc
find-apart lo hi s l j w ((i, x) ∷ m) g h k lt = ground (
  arith,
  find-gap (i + x) hi s l m g.3,
  find-gap (i + x) hi j w m g.3,
  find-apart (i + x) hi s l j w m g.3,
)
