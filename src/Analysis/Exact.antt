-- ===== src/Analysis/Exact.antt =====
-- What an add order does to the statistics of its stock and to those of the others.
use feed_handler.Prelude.{
  ℕ, ◌-◌, ◌^◌, ◌≤◌, ◌<◌, ◌≡◌, ◌⊎◌, some, Bool-cases, inl, inr, ==→eq, ==→ne, arith, ◌==◌,
  if◌then◌else◌, ltb, ltb→lt, ltb→ge, min, max,
}
use feed_handler.Map
use feed_handler.Map.Sorted.{find-insert}
use feed_handler.Wire.AddOrder.{AddOrder}
use feed_handler.Analysis.{Survey, SymStats, survey_add, stats_of}

-- The statistics of exactly the prices of `P`; with no price at all, the least one is 2 ^ 32 - 1 and the
-- greatest 0.
pub record IsExact (s : SymStats) (P : ℕ → Type 0) : Type 0 where
  pub least : (p : ℕ) → P p → s.min_price ≤ p
  pub greatest : (p : ℕ) → P p → p ≤ s.max_price
  pub least_seen : P s.min_price ⊎ ((s.min_price ≡ 2 ^ 32 - 1) × ((p : ℕ) → ¬ P p))
  pub greatest_seen : P s.max_price ⊎ ((s.max_price ≡ 0) × ((p : ℕ) → ¬ P p))
  pub listed : (p : ℕ) → P p → Map.find p s.distinct_prices ≡ some tt
  pub seen : (p : ℕ) → Map.find p s.distinct_prices ≡ some tt → P p

stats_of-insert :
    (stats : Map.Map SymStats) (locate : ℕ) (s : SymStats) (q : ℕ)
    → stats_of (Map.insert locate s stats) q ≡ (if locate == q then s else stats_of stats q)
unfolding stats_of
stats_of-insert stats locate s q = ground (arith, find-insert locate q s stats)

-- The statistics of a stock after an add-order message.
abbrev grown : SymStats → AddOrder → SymStats
grown s m = record {
  min_price = min s.min_price m.price;
  max_price = max s.max_price m.price;
  distinct_prices = Map.insert m.price tt s.distinct_prices;
}

stats_of-survey_add :
    (v : Survey) (m : AddOrder) (q : ℕ)
    → stats_of (survey_add v m).stats q ≡ (
        if m.stock_locate == q
        then grown (stats_of v.stats m.stock_locate) m
        else stats_of v.stats q)
unfolding survey_add
stats_of-survey_add v m q =
    stats_of-insert v.stats m.stock_locate (grown (stats_of v.stats m.stock_locate) m) q

grown-IsExact :
    (s : SymStats) (m : AddOrder) (P : ℕ → Type 0)
    → m.price < 2 ^ 32
    → IsExact s P
    → IsExact (grown s m) (λ p. (m.price ≡ p) ⊎ P p)
grown-IsExact s m P fits x = record {
  least = λ p h. elim h [ inl e ↦ omega arith | inr y ↦ omega (arith, x.least p y) ];
  greatest = λ p h. elim h [ inl e ↦ omega arith | inr y ↦ omega (arith, x.greatest p y) ];
  least_seen = elim x.least_seen [
    | inl y ↦ elim (Bool-cases (ltb m.price s.min_price)) [
      | inl e ↦ inl (inl (omega (arith, ltb→lt m.price s.min_price e)))
      | inr e ↦
          let same : min s.min_price m.price ≡ s.min_price =
            omega (arith, ltb→ge m.price s.min_price e) in
          inl (inr (rw same y))
    ]
    | inr (e, bare) ↦ inl (inl (omega arith))
  ];
  greatest_seen = elim x.greatest_seen [
    | inl y ↦ elim (Bool-cases (ltb s.max_price m.price)) [
      | inl e ↦ inl (inl (omega (arith, ltb→lt s.max_price m.price e)))
      | inr e ↦
          let same : max s.max_price m.price ≡ s.max_price =
            omega (arith, ltb→ge s.max_price m.price e) in
          inl (inr (rw same y))
    ]
    | inr (e, bare) ↦ inl (inl (omega arith))
  ];
  listed = λ p h.
      rw (find-insert m.price p tt s.distinct_prices)
        (elim h [ inl e ↦ ground arith | inr y ↦ ground (arith, x.listed p y) ]);
  seen = λ p h. elim (Bool-cases (m.price == p)) [
    | inl e ↦ inl (==→eq m.price p e)
    | inr e ↦ inr (x.seen p (rw (find-insert m.price p tt s.distinct_prices, e) at h))
  ];
}

-- The same prices under another description.
pub IsExact-iff :
    (s : SymStats) (P Q : ℕ → Type 0)
    → ((p : ℕ) → P p → Q p)
    → ((p : ℕ) → Q p → P p)
    → IsExact s P
    → IsExact s Q
IsExact-iff s P Q to from x = record {
  least = λ p h. x.least p (from p h);
  greatest = λ p h. x.greatest p (from p h);
  least_seen = elim x.least_seen [
    | inl y ↦ inl (to s.min_price y)
    | inr (e, bare) ↦ inr (e, λ p h. bare p (from p h))
  ];
  greatest_seen = elim x.greatest_seen [
    | inl y ↦ inl (to s.max_price y)
    | inr (e, bare) ↦ inr (e, λ p h. bare p (from p h))
  ];
  listed = λ p h. x.listed p (from p h);
  seen = λ p h. to p (x.seen p h);
}

pub survey_add-IsExact :
    (v : Survey) (m : AddOrder) (q : ℕ) (P : ℕ → Type 0)
    → m.price < 2 ^ 32
    → IsExact (stats_of v.stats q) P
    → IsExact
        (stats_of (survey_add v m).stats q)
        (λ p. ((m.stock_locate ≡ q) × (m.price ≡ p)) ⊎ P p)
survey_add-IsExact v m q P fits x = elim (Bool-cases (m.stock_locate == q)) [
  | inl e ↦
      let same = ==→eq m.stock_locate q e in
      let x' : IsExact (stats_of v.stats m.stock_locate) P = rw same x in
      rw (stats_of-survey_add v m q, e)
        (IsExact-iff (grown (stats_of v.stats m.stock_locate) m) (λ p. (m.price ≡ p) ⊎ P p) _
          (λ p h. elim h [ inl e' ↦ inl (same, e') | inr y ↦ inr y ])
          (λ p h. elim h [ inl (_, e') ↦ inl e' | inr y ↦ inr y ])
          (grown-IsExact (stats_of v.stats m.stock_locate) m P fits x'))
  | inr e ↦
      rw (stats_of-survey_add v m q, e)
        (IsExact-iff (stats_of v.stats q) P _ (λ p y. inr y)
          (λ p h. elim h [ inl (same, _) ↦ absurd (==→ne m.stock_locate q e same) | inr y ↦ y ]) x)
]
