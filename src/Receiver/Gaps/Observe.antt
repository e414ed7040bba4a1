-- ===== src/Receiver/Gaps/Observe.antt =====
-- One packet's header: what it leaves to be delivered, and what is counted.
use feed_handler.Map.{Map, SortedFrom, find, insert, floor?}
use feed_handler.Map.Ends.{floor?-some, floor?-none}
use feed_handler.Prelude.{
  ℕ, ◌+◌, ◌-◌, ◌≤◌, ◌<◌, ◌^◌, ◌≡◌, ◌≢◌, refl, Bool, true, false, ◌&&◌, ◌||◌, not, [], ◌∷◌, some,
  ltb, leb, ◌==◌, if◌then◌else◌, arith, Bool-cases, Option-cases, inl, inr, ==→eq, ltb→lt,
}
use feed_handler.Receiver.Gaps.{Tracker, start, add64, cast16_sub, carve, late, observe}
use feed_handler.Receiver.Deliveries.{in_range}
use feed_handler.Receiver.Gaps.Missing.{
  missing, total, GapsFrom, GapsFrom-raise, missing_of_find, find-apart, GapsFrom-le,
  GapsFrom-SortedFrom, missing-bounds, insert-top, missing-insert_top, total-insert_top, find-gap,
}
use feed_handler.Receiver.Gaps.Carve.{carve-Carved}

-- The gaps lie one after the other below `high_seq`.
pub record IsValid (t : Tracker) : Type 0 where
  pub high_fits : t.high_seq < 2 ^ 64
  pub shape : GapsFrom 0 t.high_seq t.pending_gaps

-- `n` has not been delivered: it lies in a gap, or no packet has come so far.
abbrev pub owed : Tracker → ℕ → Bool
owed t n = leb t.high_seq n || missing t.pending_gaps n

-- A packet whose numbers fit 64 bits, and whose distance from `high_seq` fits the 16 bits that a gap's
-- length is stored in.
pub record IsNear (t : Tracker) (seq count : ℕ) : Type 0 where
  pub end_fits : seq + count < 2 ^ 64
  pub gap_fits : t.high_seq ≢ 0 → seq < t.high_seq + 2 ^ 16

-- The effect of an accepted packet on a tracker that has seen one before.
pub record Accepts (t t' : Tracker) (seq count : ℕ) : Type 0 where
  pub valid : IsValid t'
  pub new : (n : ℕ) → in_range seq count n ≡ true → owed t n ≡ true
  pub rest : (n : ℕ) → owed t' n ≡ owed t n && not (in_range seq count n)
  pub up : t.high_seq ≤ t'.high_seq
  pub sum : t'.high_seq + total t.pending_gaps ≡ t.high_seq + total t'.pending_gaps + count

pub start-IsValid : IsValid start
start-IsValid = omega arith

-- A packet is counted, and the first one sets the number from which the tracker counts.
abbrev pub primed : Tracker → ℕ → Tracker
primed t seq = record t {
  packets = add64 t.packets 1;
  high_seq = if t.high_seq == 0 then seq else t.high_seq;
}

pub primed-IsValid :
    (t : Tracker) (seq count : ℕ) → IsValid t → IsNear t seq count → IsValid (primed t seq)
primed-IsValid t seq count v near = record {
  high_fits = ground arith;
  shape = elim (Bool-cases (t.high_seq == 0)) [
    | inl e ↦ rw e (nothing (==→eq t.high_seq 0 e))
    | inr ne ↦ rw ne v.shape
  ];
}
  where
    empty_map : (m : Map ℕ) → GapsFrom 0 0 m → GapsFrom 0 seq m
    empty_map [] g = omega arith
    empty_map ((s, l) ∷ m) g = absurd (omega (arith, GapsFrom-le (s + l) 0 m g.3))

    nothing : t.high_seq ≡ 0 → GapsFrom 0 seq t.pending_gaps
    nothing e = empty_map t.pending_gaps (rw e at v.shape)

module _ (t : Tracker) (seq count : ℕ) (v : IsValid t) (fits : seq + count < 2 ^ 64) where
  -- The packet that was expected next.
  in_order : seq ≡ t.high_seq → Accepts t (record t { high_seq = add64 t.high_seq count }) seq count
  in_order e =
      let gaps = t.pending_gaps in
      let high = t.high_seq in
      let kept : (n : ℕ) → missing gaps n ≡ true → n < high =
        λ n h. (missing-bounds 0 high n gaps v.shape h).1 in
      record {
        valid = record {
          high_fits = omega arith;
          shape = GapsFrom-raise 0 high (add64 high count) gaps (omega arith) v.shape;
        };
        new = λ n h. ground arith;
        rest = λ n. ground (arith, kept n);
        up = omega arith;
        sum = omega arith;
      }

  -- A packet from beyond `high_seq`.
  ahead :
      t.high_seq < seq
      → seq < t.high_seq + 2 ^ 16
      → Accepts t
          (record t {
            gaps = add64 t.gaps 1;
            pending_gaps = insert t.high_seq (cast16_sub seq t.high_seq) t.pending_gaps;
            high_seq = add64 seq count;
          })
          seq
          count
  ahead above near =
      let gaps = t.pending_gaps in
      let high = t.high_seq in
      let k : cast16_sub seq high ≡ seq - high = omega arith in
      rw k (record {
        valid = record {
          high_fits = omega arith;
          shape =
              insert-top 0 high _ (seq - high) gaps v.shape (omega arith) (omega arith)
                (omega arith);
        };
        new = λ n h. ground arith;
        rest = λ n. ground (
          arith,
          missing-insert_top 0 high (seq - high) n gaps v.shape,
          missing-bounds 0 high n gaps v.shape,
        );
        up = omega arith;
        sum = omega (arith, total-insert_top 0 high (seq - high) gaps v.shape);
      })

  -- A late packet inside one gap.
  inside_gap :
      (s l : ℕ)
      → find s t.pending_gaps ≡ some l
      → s ≤ seq
      → seq + count ≤ s + l
      → Accepts t
          (record t {
            pending_gaps = carve t.pending_gaps s l seq count;
            recovered = add64 t.recovered count;
          })
          seq
          count
  inside_gap s l found below inside =
      let gaps = t.pending_gaps in
      let c = carve-Carved seq count 0 t.high_seq s l gaps v.high_fits v.shape found below inside in
      let bounds = find-gap 0 t.high_seq s l gaps v.shape found in
      record {
        valid = record { high_fits = v.high_fits; shape = c.shape };
        new = λ n h. ground (arith, missing_of_find s l n gaps found);
        rest = λ n. ground (arith, c.reads n);
        up = omega arith;
        sum = omega (arith, c.sum);
      }

-- A packet that is refused: its state, and the reason.
pub record Refuses (t t' : Tracker) (seq count : ℕ) : Type 0 where
  pub old : seq < t.high_seq
  pub same : (t'.high_seq ≡ t.high_seq) × (t'.pending_gaps ≡ t.pending_gaps)
  pub counted : t'.dups ≡ add64 t.dups 1
  pub no_gap :
      1 ≤ count → (s l : ℕ) → find s t.pending_gaps ≡ some l → s ≤ seq → s + l < seq + count

abbrev pub Outcome : Tracker → ℕ → ℕ → Tracker × Bool → Type 0
Outcome t seq count (t', true) = Accepts t t' seq count
Outcome t seq count (t', false) = Refuses t t' seq count

late-Outcome :
    (t : Tracker) (seq count : ℕ)
    → IsValid t
    → seq < t.high_seq
    → seq + count < 2 ^ 64
    → Outcome t seq count (late t seq count)
unfolding late
late-Outcome t seq count v old fits = elim (Option-cases (floor? seq t.pending_gaps)) [
  | inl e ↦
      rw (e, late)
        (record {
          old = old;
          same = (refl, refl);
          counted = refl;
          no_gap = λ positive s l found below.
              absurd (omega (arith, floor?-none seq 0 gaps sorted e s l found));
        })
  | inr ((s, l), e) ↦
      let (found, below, last) = floor?-some seq 0 gaps sorted e in
      let bounds = find-gap 0 t.high_seq s l gaps v.shape found in
      elim (Bool-cases (leb s seq && leb (add64 seq count) (add64 s l))) [
        | inl y ↦ rw (e, late, y) (inside_gap t seq count v fits s l found below (ground arith))
        | inr n ↦
            let outside : s + l < seq + count = ground arith in
            rw (e, late, n)
              (record {
                old = old;
                same = (refl, refl);
                counted = refl;
                no_gap = λ positive j w other under. ground (
                  arith,
                  last j w other,
                  find-apart 0 t.high_seq j w s l gaps v.shape other found,
                );
              })
      ]
]
  where
    gaps : Map ℕ
    gaps = t.pending_gaps

    sorted : SortedFrom 0 gaps
    sorted = GapsFrom-SortedFrom 0 t.high_seq gaps v.shape

-- What `observe` does with a packet that is near, to a valid tracker, on every branch. A packet is accepted if it is the expected one,
-- comes from beyond it, or lies inside one gap; then exactly its numbers are owed no longer, each
-- was owed before, the map of gaps stays well formed, and the numbers delivered and missing make up
-- the distance that `high_seq` has moved. A packet that is refused begins below `high_seq`, leaves
-- `high_seq` and the gaps alone, adds one duplicate, and lies in no gap if it has a message at all.
pub observe-Outcome :
    (t : Tracker) (seq count : ℕ)
    → IsValid t
    → IsNear t seq count
    → Outcome (primed t seq) seq count (observe t seq count)
unfolding observe
observe-Outcome t seq count v near =
    let t' = primed t seq in
    let high = t'.high_seq in
    let valid = primed-IsValid t seq count v near in
    elim (Bool-cases (seq == high)) [
      | inl e ↦ rw e (in_order t' seq count valid near.end_fits (==→eq seq high e))
      | inr ne ↦ elim (Bool-cases (ltb high seq)) [
        | inl above ↦
            rw (ne, above)
              (ahead t' seq count valid near.end_fits (ltb→lt high seq above)
                (ground (arith, near.gap_fits)))
        | inr below ↦ rw (ne, below) (late-Outcome t' seq count valid (ground arith) near.end_fits)
      ]
    ]
