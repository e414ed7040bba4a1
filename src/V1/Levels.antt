-- ===== src/V1/Levels.antt =====
-- The price levels of the v1 book: which nodes they list, after each change.
use feed_handler.Map.{Map, find, insert, erase, SortedFrom}
use feed_handler.Map.Sorted.{find-insert, find-erase, insert-SortedFrom, erase-SortedFrom}
use feed_handler.Prelude.{
  ℕ, ◌+◌, ◌-◌, ◌≡◌, ◌≢◌, ◌∙◌, refl, Bool, true, false, not, List, [], ◌∷◌, ◌++◌, none, some, ◌==◌,
  if◌then◌else◌, arith, Option-cases, inl, inr,
}
use feed_handler.V1.{OrderBook, levels, with_levels, level_at, unlink, trim}

unfoldable pub count : ℕ → List ℕ → ℕ
count q [] = 0
count q (a ∷ as') = (if a == q then 1 else 0) + count q as'

pub count-append : (q : ℕ) (xs ys : List ℕ) → count q (xs ++ ys) ≡ count q xs + count q ys
unfolding count
count-append q [] ys = omega arith
count-append q (x ∷ xs) ys = omega (arith, count-append q xs ys)

pub count-snoc :
    (q x : ℕ) (xs : List ℕ) → count q (xs ++ x ∷ []) ≡ count q xs + (if x == q then 1 else 0)
unfolding count
count-snoc q x xs = count-append q xs (x ∷ []) ∙ omega arith

pub count-unlink :
    (q it : ℕ) (as' : List ℕ) → count q (unlink it as') ≡ count q as' - (if it == q then 1 else 0)
unfolding count unlink
count-unlink q it [] = omega arith
count-unlink q it (a ∷ as') = ground (arith, count-unlink q it as')

-- Whether two sides are the same.
abbrev pub same_side : Bool → Bool → Bool
same_side true s = s
same_side false s = not s

pub same_side→eq : (s t : Bool) → same_side s t ≡ true → s ≡ t
same_side→eq s t h = ground arith

pub same_side_refl : (s : Bool) → same_side s s ≡ true
same_side_refl true = refl
same_side_refl false = refl

pub levels-with_levels :
    (b : OrderBook) (s s' : Bool) (m : Map (List ℕ))
    → levels (with_levels b s m) s' ≡ (if same_side s s' then m else levels b s')
levels-with_levels b true true m = refl
levels-with_levels b true false m = refl
levels-with_levels b false true m = refl
levels-with_levels b false false m = refl

pub level_at-insert :
    (k q : ℕ) (l : List ℕ) (m : Map (List ℕ))
    → level_at (insert k l m) q ≡ (if k == q then l else level_at m q)
level_at-insert k q l m = ground (arith, find-insert k q l m)

pub level_at-erase :
    (k q : ℕ) (m : Map (List ℕ))
    → SortedFrom 0 m
    → level_at (erase k m) q ≡ (if k == q then [] else level_at m q)
level_at-erase k q m s = ground (arith, find-erase k q 0 m s)

-- The prices are in order, and no level is empty.
pub record IsFilled (m : Map (List ℕ)) : Type 0 where
  pub sorted : SortedFrom 0 m
  pub filled : (p : ℕ) (l : List ℕ) → find p m ≡ some l → l ≢ []

pub insert-IsFilled :
    (k : ℕ) (l : List ℕ) (m : Map (List ℕ)) → l ≢ [] → IsFilled m → IsFilled (insert k l m)
insert-IsFilled k l m some_node v = record {
  sorted = insert-SortedFrom k 0 l m (omega arith) v.sorted;
  filled = λ p l' f e. ground (arith, find-insert k p l m, v.filled p l');
}

pub erase-IsFilled : (k : ℕ) (m : Map (List ℕ)) → IsFilled m → IsFilled (erase k m)
erase-IsFilled k m v = record {
  sorted = erase-SortedFrom k 0 m v.sorted;
  filled = λ p l' f e. ground (arith, find-erase k p 0 m v.sorted, v.filled p l');
}

pub with_levels-IsFilled :
    (b : OrderBook) (s s' : Bool) (m : Map (List ℕ))
    → IsFilled m
    → ((t : Bool) → IsFilled (levels b t))
    → IsFilled (levels (with_levels b s m) s')
with_levels-IsFilled b true true m v all = v
with_levels-IsFilled b true false m v all = all false
with_levels-IsFilled b false true m v all = all true
with_levels-IsFilled b false false m v all = v

pub level_at-trim :
    (price it q : ℕ) (m : Map (List ℕ))
    → SortedFrom 0 m
    → level_at (trim m price it) q ≡ (if price == q then unlink it (level_at m q) else level_at m q)
unfolding trim unlink
level_at-trim price it q m s = elim (Option-cases (find price m)) [
  | inl e ↦ rw (e, trim) (ground arith)
  | inr (level, e) ↦ rw (e, trim) (emptied level (unlink it level) e refl)
]
  where
    emptied :
        (level l : List ℕ)
        → find price m ≡ some level
        → unlink it level ≡ l
        → level_at (elim l [ [] ↦ erase price m | a ∷ rest ↦ insert price (a ∷ rest) m ]) q
          ≡ (if price == q then unlink it (level_at m q) else level_at m q)
    emptied level [] e f = ground (arith, level_at-erase price q m s)
    emptied level (a ∷ rest) e f = ground (arith, level_at-insert price q (a ∷ rest) m)

pub trim-IsFilled : (price it : ℕ) (m : Map (List ℕ)) → IsFilled m → IsFilled (trim m price it)
unfolding trim
trim-IsFilled price it m v =
    elim (find price m)
      as (λ o. IsFilled (elim o [
        | none ↦ m
        | some level ↦ elim (unlink it level) [
          | [] ↦ erase price m
          | a ∷ rest ↦ insert price (a ∷ rest) m
        ]
      ])) [ none ↦ v | some level ↦ rest (unlink it level) ]
  where
    rest :
        (l : List ℕ)
        → IsFilled (elim l [ [] ↦ erase price m | a ∷ rest ↦ insert price (a ∷ rest) m ])
    rest [] = erase-IsFilled price m v
    rest (a ∷ l) = insert-IsFilled price (a ∷ l) m (λ e. cc) v
