-- ===== src/V3/ObjectPool/FreeList.antt =====
-- The free list of the pool: which slots it holds, and what `allocate` and `release` do to it.
use feed_handler.Prelude.{
  ℕ, zero, suc, ◌+◌, ◌^◌, ◌≤◌, ◌<◌, ◌≡◌, ◌≢◌, refl, false, List, [], ◌∷◌, length, set, ◌==◌,
  if◌then◌else◌, arith, ap, length-set, get_or-set_self, get_or-set_ne,
}
use feed_handler.V3.RefTable.{k_null_idx}
use feed_handler.V3.ObjectPool.{
  PooledOrder, OrderPool, no_pooled, pooled, linked, new, allocate, release,
}

-- `idx` is none of the numbers.
abbrev pub Avoids : ℕ → List ℕ → Type 0
Avoids idx [] = Unit
Avoids idx (i ∷ is) = (idx ≢ i) × Avoids idx is

-- The links lead from `head` through the slots `free`, each once, to the null index.
abbrev pub Links : List PooledOrder → ℕ → List ℕ → Type 0
Links s head [] = head ≡ k_null_idx
Links s head (i ∷ is) = (head ≡ i) × (i < length s) × Avoids i is × Links s (pooled s i).next_idx is

-- The pool's free slots are `free`, in this order, and its indices fit 32 bits below the null index.
pub record IsFree (p : OrderPool) (free : List ℕ) : Type 0 where
  pub links : Links p.slots p.free_head free
  pub fits : length p.slots ≤ k_null_idx

-- A write to a slot that is in use leaves the free list alone.
pub Links-set :
    (s : List PooledOrder) (head idx : ℕ) (x : PooledOrder) (free : List ℕ)
    → Avoids idx free
    → Links s head free
    → Links (set s idx x) head free
Links-set s head idx x [] a l = l
Links-set s head idx x (i ∷ is) a l =
    let same : pooled (set s idx x) i ≡ pooled s i = get_or-set_ne s idx i x no_pooled a.0 in
    (
      l.0,
      rw (length-set s idx x) l.1,
      l.2,
      rw same (Links-set s (pooled s i).next_idx idx x is a.1 l.3),
    )

-- What a caller of `allocate` may rely on: an index that was free and is free no longer, or the null
-- index if there is none.
abbrev pub Allocates : OrderPool → List ℕ → ℕ × OrderPool → Type 0
Allocates p [] (idx, p') = (idx ≡ k_null_idx) × (p' ≡ p)
Allocates p (i ∷ is) (idx, p') =
    (idx ≡ i)
    × (idx < length p.slots)
    × (idx ≢ k_null_idx)
    × Avoids idx is
    × IsFree p' is
    × (p'.slots ≡ p.slots)

-- On a pool whose free list is well formed, `allocate` takes the first free slot, which is in range, is
-- not the null index and is free no longer, and leaves the slots alone; it returns the null index and
-- changes nothing if no slot is free.
pub allocate-Allocates :
    (p : OrderPool) (free : List ℕ) → IsFree p free → Allocates p free (allocate p)
unfolding allocate
allocate-Allocates p [] v = ground arith
allocate-Allocates p (i ∷ is) v =
    let l = v.links in
    let ne : i ≢ k_null_idx = omega arith in
    let test : p.free_head == k_null_idx ≡ false = ground arith in
    rw test
      (l.0, rw l.0 l.1, rw l.0 ne, rw l.0 l.2, record { links = rw l.0 l.3; fits = v.fits }, refl)

-- Releasing a slot in range that is not free puts it back at the front of the free list, which stays
-- well formed.
pub release-IsFree :
    (p : OrderPool) (free : List ℕ) (idx : ℕ)
    → idx < length p.slots
    → Avoids idx free
    → IsFree p free
    → IsFree (release p idx) (idx ∷ free)
unfolding release
release-IsFree p free idx inside used v =
    let x = record (pooled p.slots idx) { next_idx = p.free_head } in
    let same : pooled (set p.slots idx x) idx ≡ x =
      get_or-set_self p.slots idx x no_pooled inside in
    record {
      links = (
        refl,
        rw length-set inside,
        used,
        rw same (Links-set p.slots p.free_head idx x free used v.links),
      );
      fits = rw length-set v.fits;
    }

-- The numbers from `k` on, `n` of them.
abbrev pub iota : ℕ → ℕ → List ℕ
iota zero k = []
iota (suc n) k = k ∷ iota n (suc k)

Avoids-iota : (n k idx : ℕ) → idx < k → Avoids idx (iota n k)
Avoids-iota zero k idx h = tt
Avoids-iota (suc n) k idx h = (omega arith, Avoids-iota n (suc k) idx (omega arith))

length-linked : (n i : ℕ) → length (linked n i) ≡ n
unfolding linked
length-linked zero i = refl
length-linked (suc zero) i = refl
length-linked (suc (suc n)) i = ap suc (length-linked (suc n) (suc i))

next-linked :
    (n i j : ℕ)
    → j < n
    → i + n < 2 ^ 32
    → (pooled (linked n i) j).next_idx ≡ (if suc j == n then k_null_idx else i + suc j)
unfolding linked
next-linked zero i j h fits = absurd (omega arith)
next-linked (suc zero) i zero h fits = refl
next-linked (suc zero) i (suc j) h fits = absurd (omega arith)
next-linked (suc (suc n)) i zero h fits = ground arith
next-linked (suc (suc n)) i (suc j) h fits =
    ground (arith, next-linked (suc n) (suc i) j (omega arith) (omega arith))

Links-count :
    (s : List PooledOrder) (n k : ℕ)
    → suc k + n ≡ length s
    → ((j : ℕ)
        → j < length s
        → (pooled s j).next_idx ≡ (if suc j == length s then k_null_idx else suc j))
    → Links s k (iota (suc n) k)
Links-count s zero k e all = (refl, omega arith, tt, ground (arith, all k))
Links-count s (suc n) k e all =
    let here : (pooled s k).next_idx ≡ suc k = ground (arith, all k) in
    (
      refl,
      omega arith,
      Avoids-iota (suc n) (suc k) k (omega arith),
      rw here (Links-count s n (suc k) (omega arith) all),
    )

-- A new pool of any capacity from 1 up to the largest 32-bit index has every slot free, once.
pub new-IsFree : (n : ℕ) → suc n < 2 ^ 32 → IsFree (new (suc n)) (iota (suc n) 0)
unfolding new
new-IsFree n fits =
    let s = linked (suc n) 0 in
    let len = length-linked (suc n) 0 in
    record {
      links =
          Links-count s n 0 (omega arith)
            (λ j h. ground (arith, next-linked (suc n) 0 j (omega arith) (omega arith)));
      fits = omega arith;
    }
