-- ===== src/V1/Valid.antt =====
-- The representation invariant of the v1 book, and the operations on a single order.
use feed_handler.Map.{find, SortedFrom}
use feed_handler.Map.Sorted.{find-erase, erase-SortedFrom}
use feed_handler.Prelude.{
  ℕ, ◌-◌, ◌^◌, ◌≤◌, ◌<◌, ◌≡◌, ◌≢◌, refl, Bool, true, false, ◌&&◌, List, [], none, some, ◌==◌, ◌∙◌,
  ap, sym, Bool-cases, if◌then◌else◌, arith, inl, inr, length,
}
use feed_handler.V1.{
  OrderBook, OrderLocator, empty_book, node, levels, level_at, is_bid, unlink, trim, remove_locator,
  drop_order,
}
use feed_handler.V1.Levels.{
  count, count-unlink, same_side, same_side→eq, same_side_refl, levels-with_levels, level_at-trim,
  IsFilled, with_levels-IsFilled, trim-IsFilled,
}

-- The nodes of a level.
abbrev pub level : OrderBook → Bool → ℕ → List ℕ
level b s p = level_at (levels b s) p

-- The locator is that of the order `ref`: its node stands once in the level that it names.
pub record IsIndexed (b : OrderBook) (ref : ℕ) (loc : OrderLocator) : Type 0 where
  pub made : loc.it < length b.nodes
  pub same_ref : (node b loc.it).ref ≡ ref
  pub same_side : (node b loc.it).side ≡ loc.side
  pub same_price : (node b loc.it).price ≡ loc.price
  pub once : count loc.it (level b (is_bid loc.side) loc.price) ≡ 1

-- A node of a level is an order of that side and price, and the index leads to it.
pub record IsListed (b : OrderBook) (s : Bool) (p a : ℕ) : Type 0 where
  pub made : a < length b.nodes
  pub on_side : is_bid (node b a).side ≡ s
  pub at_price : (node b a).price ≡ p
  pub found :
      find (node b a).ref b.ref_index
      ≡ some (record { side = (node b a).side; price = (node b a).price; it = a })

pub record IsValid (b : OrderBook) : Type 0 where
  pub filled : (s : Bool) → IsFilled (levels b s)
  pub index_sorted : SortedFrom 0 b.ref_index
  pub indexed :
      (ref : ℕ) (loc : OrderLocator) → find ref b.ref_index ≡ some loc → IsIndexed b ref loc
  pub listed : (s : Bool) (p a : ℕ) → 1 ≤ count a (level b s p) → IsListed b s p a
  pub shares_fit : (a : ℕ) → a < length b.nodes → (node b a).shares < 2 ^ 32

pub empty_book-IsValid : IsValid empty_book
unfolding find count
empty_book-IsValid = record {
  filled = λ s. elim s as (λ t. IsFilled (levels empty_book t)) [
    | true ↦ none_filled
    | false ↦ none_filled
  ];
  index_sorted = tt;
  indexed = λ ref loc h. cc;
  listed = nothing;
  shares_fit = λ a h. absurd (omega arith);
}
  where
    nothing : (s : Bool) (p a : ℕ) → 1 ≤ count a (level empty_book s p) → IsListed empty_book s p a
    nothing true p a h = absurd (omega arith)
    nothing false p a h = absurd (omega arith)

    none_filled : IsFilled []
    none_filled = record { sorted = tt; filled = λ p l h. cc }

module _ (b : OrderBook) (v : IsValid b) where
  -- `drop_order` keeps the book valid.
  module _ (ref : ℕ) (loc : OrderLocator) (known : find ref b.ref_index ≡ some loc) where
    level-drop :
        (s : Bool) (q : ℕ)
        → level (drop_order b ref loc) s q ≡ (
            if same_side (is_bid loc.side) s && loc.price == q
            then unlink loc.it (level b s q)
            else level b s q)
    unfolding drop_order remove_locator
    level-drop s q =
        let side = is_bid loc.side in
        let m = levels b side in
        let sorted = (v.filled side).sorted in
        elim (Bool-cases (same_side side s)) [
          | inl e ↦
              let same : side ≡ s = same_side→eq side s e in
              rw (levels-with_levels b side s (trim m loc.price loc.it), e)
                (level_at-trim loc.price loc.it q m sorted
                  ∙ ap
                      (λ (t : Bool).
                        if loc.price == q then unlink loc.it (level b t q) else level b t q)
                      same)
          | inr ne ↦ rw (levels-with_levels b side s (trim m loc.price loc.it), ne)
        ]

    count-drop :
        (a : ℕ) (s : Bool) (q : ℕ)
        → count a (level (drop_order b ref loc) s q)
          ≡ count a (level b s q)
            - (if same_side (is_bid loc.side) s && loc.price == q && loc.it == a then 1 else 0)
    count-drop a s q = rw (level-drop s q) (ground (arith, count-unlink a loc.it (level b s q)))

    at : IsIndexed b ref loc
    at = v.indexed ref loc known

    pub ref_index-drop :
        (r : ℕ)
        → find r (drop_order b ref loc).ref_index ≡ (if ref == r then none else find r b.ref_index)
    unfolding drop_order remove_locator
    ref_index-drop r = find-erase ref r 0 b.ref_index v.index_sorted

    pub nodes-drop : (drop_order b ref loc).nodes ≡ b.nodes
    unfolding drop_order remove_locator
    nodes-drop = refl

    indexed-drop :
        (r : ℕ) (l : OrderLocator)
        → find r (drop_order b ref loc).ref_index ≡ some l
        → IsIndexed (drop_order b ref loc) r l
    indexed-drop r l h =
        let other : ref ≢ r = λ e. ground (arith, ref_index-drop r) in
        let old = v.indexed r l (ground (arith, ref_index-drop r)) in
        let apart : loc.it ≢ l.it =
          λ e. other (sym at.same_ref ∙ ap (λ (t : ℕ). (node b t).ref) e ∙ old.same_ref) in
        record {
          made = rw nodes-drop old.made;
          same_ref = rw nodes-drop old.same_ref;
          same_side = rw nodes-drop old.same_side;
          same_price = rw nodes-drop old.same_price;
          once = ground (arith, old.once, count-drop l.it (is_bid l.side) l.price);
        }

    IsListed-drop :
        (s : Bool) (p a : ℕ)
        → 1 ≤ count a (level (drop_order b ref loc) s p)
        → IsListed (drop_order b ref loc) s p a
    IsListed-drop s p a h =
        let still : 1 ≤ count a (level b s p) = omega (arith, count-drop a s p) in
        let old = v.listed s p a still in
        let apart : loc.it ≢ a = λ e. gone e old still in
        let other : ref ≢ (node b a).ref = λ e. apart (ground (arith, old.found)) in
        record {
          made = rw nodes-drop old.made;
          on_side = rw nodes-drop old.on_side;
          at_price = rw nodes-drop old.at_price;
          found = rw nodes-drop (ref_index-drop (node b a).ref ∙ ground (arith, old.found));
        }
      where
        gone : loc.it ≡ a → IsListed b s p a → 1 ≤ count a (level b s p) → ⊥
        gone e old still =
            let side : is_bid loc.side ≡ s =
              ap is_bid (sym at.same_side)
              ∙ ap (λ (t : ℕ). is_bid (node b t).side) e
              ∙ old.on_side in
            let price : loc.price ≡ p =
              sym at.same_price ∙ ap (λ (t : ℕ). (node b t).price) e ∙ old.at_price in
            let one : count a (level b s p) ≡ 1 = rw (← e, ← side, ← price) at.once in
            ground (arith, count-drop a s p, same_side_refl s)

    pub drop_order-IsValid : IsValid (drop_order b ref loc)
    drop_order-IsValid = record {
      filled =
          unfold drop_order remove_locator in
          λ s.
            with_levels-IsFilled b (is_bid loc.side) s _
              (trim-IsFilled loc.price loc.it _ (v.filled (is_bid loc.side))) v.filled;
      index_sorted =
          unfold drop_order remove_locator in erase-SortedFrom ref 0 b.ref_index v.index_sorted;
      indexed = indexed-drop;
      listed = IsListed-drop;
      shares_fit = rw nodes-drop v.shares_fit;
    }
