-- ===== src/V3/Owned.antt =====
-- The pool and the table together: each order in use has a reference number, under which the table finds
-- its slot, and the slots not in use are free. Every book of a process shares the two.
use feed_handler.Prelude.{
  ℕ, ◌*◌, ◌<◌, ◌≡◌, ◌≢◌, refl, sym, ap, ◌∙◌, Bool, true, false, not, ◌&&◌, ◌||◌, List, [], ◌∷◌,
  length, if◌then◌else◌, ◌==◌, arith, Bool-cases, inl, inr, ==→eq, ==→ne, ne→==, length-set,
}
use feed_handler.V3.RefTable
use feed_handler.V3.RefTable.{RefTable, k_empty, k_null_idx}
use feed_handler.V3.RefTable.Valid
use feed_handler.V3.RefTable.Insert.{insert-IsValid, find-insert}
use feed_handler.V3.RefTable.Erase.{erase-IsValid, find-erase}
use feed_handler.V3.ObjectPool.{PooledOrder, OrderPool, allocate, release}
use feed_handler.V3.ObjectPool.FreeList.{
  Avoids, IsFree, Links-set, release-IsFree, allocate-Allocates,
}
use feed_handler.V3.BookState.{set_pooled}

pub record IsOwned (p : OrderPool) (refs : RefTable) (live : ℕ → Bool) (owner : ℕ → ℕ)
    (free : List ℕ) : Type 0 where
  pub pool : IsFree p free
  pub table : Valid.IsValid refs
  pub inside : (i : ℕ) → live i ≡ true → i < length p.slots
  pub used : (i : ℕ) → live i ≡ true → Avoids i free
  pub real : (i : ℕ) → live i ≡ true → owner i ≢ k_empty
  pub held : (i : ℕ) → live i ≡ true → RefTable.find refs (owner i) ≡ i
  pub named :
      (ref : ℕ)
      → ref ≢ k_empty
      → RefTable.find refs ref ≢ k_null_idx
      → (live (RefTable.find refs ref) ≡ true) × (owner (RefTable.find refs ref) ≡ ref)

-- A write to a slot in use leaves the free list alone.
pub IsFree-set :
    (p : OrderPool) (free : List ℕ) (i : ℕ) (x : PooledOrder)
    → Avoids i free
    → IsFree p free
    → IsFree (set_pooled p i x) free
IsFree-set p free i x off v = record {
  links = Links-set p.slots p.free_head i x free off v.links;
  fits = rw length-set v.fits;
}

module _ (p : OrderPool) (refs : RefTable) (live : ℕ → Bool) (owner : ℕ → ℕ) (free : List ℕ)
    (v : IsOwned p refs live owner free) where
  pub not_null : (i : ℕ) → live i ≡ true → i ≢ k_null_idx
  not_null i on = omega (arith, v.inside i on, v.pool.fits)

  -- The slots in use may be written, the pool's shape kept.
  pub IsOwned-pool :
      (p' : OrderPool)
      → IsFree p' free
      → length p'.slots ≡ length p.slots
      → IsOwned p' refs live owner free
  IsOwned-pool p' f e = record {
    pool = f;
    table = v.table;
    inside = λ i on. rw e (v.inside i on);
    used = v.used;
    real = v.real;
    held = v.held;
    named = v.named;
  }

  -- The order leaves, and its slot is free again.
  pub drop-IsOwned :
      (ref idx : ℕ)
      → ref ≢ k_empty
      → live idx ≡ true
      → owner idx ≡ ref
      → IsOwned
          (release p idx)
          (RefTable.erase refs ref)
          (λ i. not (idx == i) && live i)
          owner
          (idx ∷ free)
  unfolding release
  drop-IsOwned ref idx real on mine = record {
    pool = release-IsFree p free idx (v.inside idx on) (v.used idx on) v.pool;
    table = erase-IsValid refs v.table ref real;
    inside = λ i h. rw length-set (v.inside i (ground arith));
    used = λ i h. (λ e. ground arith, v.used i (ground arith));
    real = λ i h. v.real i (ground arith);
    held = λ i h. ground (
      arith,
      find-erase refs v.table ref real (owner i) (v.real i (ground arith)),
      v.held i,
      v.held idx,
    );
    named = λ r fine some_idx. erased_named r fine some_idx;
  }
    where
      erased_named :
          (r : ℕ)
          → r ≢ k_empty
          → RefTable.find (RefTable.erase refs ref) r ≢ k_null_idx
          → (not (idx == RefTable.find (RefTable.erase refs ref) r)
                && live (RefTable.find (RefTable.erase refs ref) r)
              ≡ true)
            × (owner (RefTable.find (RefTable.erase refs ref) r) ≡ r)
      erased_named r fine some_idx = elim (Bool-cases (ref == r)) [
        | inl e ↦ absurd (some_idx (rw (find-erase refs v.table ref real r fine, e) refl))
        | inr e ↦
            let same : RefTable.find (RefTable.erase refs ref) r ≡ RefTable.find refs r =
              rw (find-erase refs v.table ref real r fine, e) refl in
            let (on', of) = v.named r fine (λ z. some_idx (same ∙ z)) in
            let apart : idx ≢ RefTable.find refs r =
              λ f. ==→ne ref r e (sym mine ∙ ap owner f ∙ of) in
            rw same (rw (ne→== _ _ apart) on', of)
      ]

-- A slot that is free is not in use.
pub free_apart :
    (p : OrderPool) (refs : RefTable) (live : ℕ → Bool) (owner : ℕ → ℕ) (o : ℕ) (free : List ℕ)
    → IsOwned p refs live owner (o ∷ free)
    → live o ≡ false
free_apart p refs live owner o free v = elim (Bool-cases (live o)) [
  | inl on ↦ absurd ((v.used o on).0 refl)
  | inr off ↦ off
]

-- A new order takes the first free slot.
pub place-IsOwned :
    (p : OrderPool) (refs : RefTable) (live : ℕ → Bool) (owner : ℕ → ℕ) (o : ℕ) (free : List ℕ)
    (p' : OrderPool) (ref : ℕ)
    → IsOwned p refs live owner (o ∷ free)
    → IsFree p' free
    → length p'.slots ≡ length p.slots
    → ref ≢ k_empty
    → RefTable.find refs ref ≡ k_null_idx
    → refs.size * 2 < length refs.slots
    → IsOwned p'
        (RefTable.insert refs ref o)
        (λ i. o == i || live i)
        (λ i. if o == i then ref else owner i)
        free
place-IsOwned p refs live owner o free p' ref v pool' wide real fresh room =
    let off = free_apart p refs live owner o free v in
    let place = v.pool.links in
    let in_range : o < length p.slots = place.1 in
    let some_owner : (i : ℕ) → live i ≡ true → owner i ≢ ref = λ i on e.
      not_null p refs live owner (o ∷ free) v i on
        (sym (v.held i on) ∙ ap (RefTable.find refs) e ∙ fresh) in
    let look = find-insert refs v.table ref o real room in
    record {
      pool = pool';
      table = insert-IsValid refs v.table ref o real room;
      inside = λ i h. rw wide (ground (arith, v.inside i));
      used = λ i h. elim (Bool-cases (o == i)) [
        | inl e ↦ rw (← ==→eq o i e) place.2
        | inr ne ↦ (v.used i (ground arith)).1
      ];
      real = λ i h. ground (arith, v.real i);
      held = λ i h. elim (Bool-cases (o == i)) [
        | inl e ↦ rw (e, look ref real) (ground arith)
        | inr ne ↦
            let on : live i ≡ true = ground arith in
            rw (ne, look (owner i) (v.real i on), ne→== _ _ (λ e. some_owner i on (sym e)))
              (v.held i on)
      ];
      named = λ r fine some_idx. elim (Bool-cases (ref == r)) [
        | inl e ↦
            let at : RefTable.find (RefTable.insert refs ref o) r ≡ o = rw (look r fine, e) refl in
            rw at (ground arith, ground arith)
        | inr e ↦
            let at : RefTable.find (RefTable.insert refs ref o) r ≡ RefTable.find refs r =
              rw (look r fine, e) refl in
            let (on, of) = v.named r fine (λ z. some_idx (at ∙ z)) in
            let apart : o ≢ RefTable.find refs r = λ f. cc (ap live f) in
            rw (at, ne→== _ _ apart) (on, of)
      ];
    }

-- What `allocate` returns while a slot is free.
pub record Takes (p : OrderPool) (free : List ℕ) : Type 0 where
  pub o : ℕ
  pub rest : List ℕ
  pub left : OrderPool
  pub result : allocate p ≡ (o, left)
  pub first : p.free_head ≡ o
  pub split : free ≡ o ∷ rest
  pub alike : left.slots ≡ p.slots
  pub still : IsFree left rest
  pub real : o ≢ k_null_idx

pub allocate-Takes :
    (p : OrderPool) (free : List ℕ) → IsFree p free → p.free_head ≢ k_null_idx → Takes p free
unfolding allocate
allocate-Takes p [] v some_free = absurd (some_free v.links)
allocate-Takes p (i ∷ is) v some_free =
    let out = allocate-Allocates p (i ∷ is) v in
    record {
      o = i;
      rest = is;
      left = (allocate p).1;
      result = ground arith;
      first = v.links.0;
      split = refl;
      alike = out.5;
      still = out.4;
      real = ground arith;
    }
