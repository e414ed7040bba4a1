-- ===== src/Receiver/Gaps/Carve.antt =====
-- What `carve` does to the gap map: exactly the packet's numbers leave it.
use feed_handler.Map.{Map, find, insert, erase}
use feed_handler.Prelude.{
  ℕ, ◌+◌, ◌-◌, ◌≤◌, ◌<◌, ◌^◌, ◌≡◌, refl, ◌&&◌, not, [], ◌∷◌, some, ltb, ◌==◌, if◌then◌else◌, arith,
  Bool-cases, inl, inr, ==→eq,
}
use feed_handler.Receiver.Gaps.{carve, add64, cast16_sub}
use feed_handler.Receiver.Deliveries.{in_range}
use feed_handler.Receiver.Gaps.Missing.{
  missing, total, GapsFrom, GapsFrom-le, GapsFrom-lower, find-gap, missing-bounds,
}

-- What is left of one gap: the part before the packet, and the part after it.
before : ℕ → ℕ → Map ℕ → Map ℕ
before s seq rest = if ltb s seq then (s, seq - s) ∷ rest else rest

after : ℕ → ℕ → Map ℕ → Map ℕ
after from end rest = if ltb from end then (from, end - from) ∷ rest else rest

insert-front : (lo hi k v : ℕ) (m : Map ℕ) → GapsFrom lo hi m → k < lo → insert k v m ≡ (k, v) ∷ m
unfolding insert
insert-front lo hi k v [] g h = refl
insert-front lo hi k v ((s, l) ∷ m) g h = ground arith

module _ (seq count : ℕ) where
  carve-here :
      (s l hi : ℕ) (m : Map ℕ)
      → l < 2 ^ 16
      → s + l < 2 ^ 64
      → GapsFrom (s + l) hi m
      → s ≤ seq
      → seq + count ≤ s + l
      → carve ((s, l) ∷ m) s l seq count ≡ before s seq (after (seq + count) (s + l) m)
  unfolding carve erase insert before after
  carve-here s l hi m small fits g below inside = ground (
    arith,
    insert-front (s + l) hi (add64 seq count) (cast16_sub l count) m g,
    insert-front (s + l) hi (add64 seq count) (cast16_sub (add64 s l) (add64 seq count)) m g,
    insert-front (s + l) hi s (cast16_sub seq s) m g,
  )

  carve-there :
      (s l gap_start gap_len : ℕ) (m : Map ℕ)
      → s < gap_start
      → gap_start ≤ seq
      → seq + count < 2 ^ 64
      → carve ((s, l) ∷ m) gap_start gap_len seq count
        ≡ (s, l) ∷ carve m gap_start gap_len seq count
  unfolding carve erase insert
  carve-there s l gap_start gap_len m above below fits = ground arith

  -- The map `m'` is `m` without the packet's numbers.
  pub record Carved (lo hi : ℕ) (m m' : Map ℕ) : Type 0 where
    pub shape : GapsFrom lo hi m'
    pub reads : (n : ℕ) → missing m' n ≡ missing m n && not (in_range seq count n)
    pub sum : total m' + count ≡ total m

  here-Carved :
      (lo hi s l : ℕ) (m : Map ℕ)
      → hi < 2 ^ 64
      → GapsFrom lo hi ((s, l) ∷ m)
      → s ≤ seq
      → seq + count ≤ s + l
      → Carved lo hi ((s, l) ∷ m) (before s seq (after (seq + count) (s + l) m))
  unfolding before after missing total
  here-Carved lo hi s l m fits g below inside = record {
    shape = ground (
      arith,
      GapsFrom-lower (seq + count) (s + l) hi m,
      GapsFrom-lower lo (s + l) hi m,
      GapsFrom-lower seq (s + l) hi m,
    );
    reads = λ n. ground (arith, missing-bounds (s + l) hi n m);
    sum = ground arith;
  }

  pub carve-Carved :
      (lo hi gap_start gap_len : ℕ) (m : Map ℕ)
      → hi < 2 ^ 64
      → GapsFrom lo hi m
      → find gap_start m ≡ some gap_len
      → gap_start ≤ seq
      → seq + count ≤ gap_start + gap_len
      → Carved lo hi m (carve m gap_start gap_len seq count)
  unfolding find missing total
  carve-Carved lo hi gap_start gap_len [] fits g found below inside = cc
  carve-Carved lo hi gap_start gap_len ((s, l) ∷ m) fits g found below inside =
      elim (Bool-cases (s == gap_start)) [
        | inl e ↦
            let same : s ≡ gap_start = ==→eq s gap_start e in
            let full : l ≡ gap_len = ground arith in
            let top = GapsFrom-le (s + l) hi m g.3 in
            rw
              (
                ← same,
                ← full,
                carve-here s l hi m g.2 (omega arith) g.3 (omega arith) (omega arith),
              )
              (here-Carved lo hi s l m fits g (omega arith) (omega arith))
        | inr ne ↦
            let later : find gap_start m ≡ some gap_len = ground arith in
            let bounds = find-gap (s + l) hi gap_start gap_len m g.3 later in
            let rest = carve-Carved (s + l) hi gap_start gap_len m fits g.3 later below inside in
            rw (carve-there s l gap_start gap_len m (omega arith) below (omega arith)) (record {
              shape = (g.0, g.1, g.2, rest.shape);
              reads = λ n. ground (arith, rest.reads n);
              sum = omega (arith, rest.sum);
            })
      ]
