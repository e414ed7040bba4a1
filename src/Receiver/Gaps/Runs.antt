-- ===== src/Receiver/Gaps/Runs.antt =====
-- Whole sessions: the headers of all packets in the order of their arrival.
use feed_handler.Map.{Map}
use feed_handler.Prelude.{
  ℕ, ◌+◌, ◌≤◌, ◌<◌, ◌^◌, ◌≡◌, ◌≢◌, refl, Bool, true, false, ◌&&◌, List, [], ◌∷◌, if◌then◌else◌,
  arith,
}
use feed_handler.Receiver.Gaps.{Tracker, start, observe, truly_lost}
use feed_handler.Receiver.Gaps.Missing.{total, GapsFrom}
use feed_handler.Receiver.Deliveries.{in_range, deliveries, messages, deliveries-if, messages-if}
use feed_handler.Receiver.Gaps.Observe.{
  IsValid, IsNear, owed, primed, Outcome, observe-Outcome, start-IsValid, primed-IsValid,
}

-- The tracker after the packets, each a sequence number and a count, and the accepted ones.
unfoldable pub session : Tracker → List (ℕ × ℕ) → Tracker × List (ℕ × ℕ)
session t [] = (t, [])
session t ((seq, count) ∷ ps) =
    let (t', accept) = observe t seq count in
    let (u, accepted) = session t' ps in (u, if accept then (seq, count) ∷ accepted else accepted)

-- No packet of the session is out of the tracker's reach.
unfoldable pub AllNear : Tracker → List (ℕ × ℕ) → Type 0
AllNear t [] = Unit
AllNear t ((seq, count) ∷ ps) = IsNear t seq count × AllNear (observe t seq count).0 ps

module _ (t : Tracker) (seq count : ℕ) where
  Outcome-IsValid :
      (out : Tracker × Bool)
      → IsValid (primed t seq)
      → Outcome (primed t seq) seq count out
      → IsValid out.0
  Outcome-IsValid (t', true) v o = o.valid
  Outcome-IsValid (t', false) v o = record {
    high_fits = rw (o.same.0) v.high_fits;
    shape = rw (o.same.0, o.same.1) v.shape;
  }

  -- One packet uses up the number that it delivers.
  Outcome-bound :
      (n rest : ℕ) (out : Tracker × Bool)
      → Outcome (primed t seq) seq count out
      → rest ≤ (if owed out.0 n then 1 else 0)
      → (if out.1 && in_range seq count n then 1 else 0) + rest ≤ (if owed t n then 1 else 0)
  Outcome-bound n rest (t', true) o h = ground (arith, o.new n, o.rest n)
  Outcome-bound n rest (t', false) o h = ground (arith, o.same)

  Outcome-sum :
      (out : Tracker × Bool)
      → Outcome (primed t seq) seq count out
      → ((primed t seq).high_seq ≤ out.0.high_seq)
        × (out.0.high_seq + total t.pending_gaps
            ≡ (primed t seq).high_seq + total out.0.pending_gaps + (if out.1 then count else 0))
  Outcome-sum (t', true) o = (o.up, o.sum)
  Outcome-sum (t', false) o = ground (arith, o.same)

deliveries_bound :
    (n : ℕ) (t : Tracker) (ps : List (ℕ × ℕ))
    → IsValid t
    → AllNear t ps
    → deliveries n (session t ps).1 ≤ (if owed t n then 1 else 0)
unfolding deliveries session AllNear
deliveries_bound n t [] v near = ground arith
deliveries_bound n t ((seq, count) ∷ ps) v near =
    let o = observe-Outcome t seq count v near.0 in
    let v' = Outcome-IsValid t seq count _ (primed-IsValid t seq count v near.0) o in
    let rest = deliveries_bound n (observe t seq count).0 ps v' near.1 in
    rw deliveries-if (Outcome-bound t seq count n _ (observe t seq count) o rest)

-- In a session whose packets are all near, no sequence number is delivered to the books twice,
-- whatever is lost, repeated or reordered on the way.
pub deliveries-le-one :
    (n : ℕ) (ps : List (ℕ × ℕ)) → AllNear start ps → deliveries n (session start ps).1 ≤ 1
deliveries-le-one n ps near = ground (arith, deliveries_bound n start ps start-IsValid near)

total-nil : total [] ≡ 0
unfolding total
total-nil = refl

session_sum :
    (t : Tracker) (ps : List (ℕ × ℕ))
    → t.high_seq ≢ 0
    → IsValid t
    → AllNear t ps
    → let (u, accepted) = session t ps in
      IsValid u
      × (u.high_seq + total t.pending_gaps ≡ t.high_seq + total u.pending_gaps + messages accepted)
unfolding session AllNear messages
session_sum t [] started v near = (v, omega arith)
session_sum t ((seq, count) ∷ ps) started v near =
    let out = observe t seq count in
    let o = observe-Outcome t seq count v near.0 in
    let v' = Outcome-IsValid t seq count out (primed-IsValid t seq count v near.0) o in
    let same : (primed t seq).high_seq ≡ t.high_seq = ground arith in
    let (up, sum) = Outcome-sum t seq count out o in
    let (w, rest) = session_sum out.0 ps (omega arith) v' near.1 in
    (w, omega (arith, messages-if seq count out.1 (session out.0 ps).1))

-- The counter printed at the end, `truly_lost`, does not wrap.
truly_lost-eq-total :
    (lo hi : ℕ) (m : Map ℕ)
    → hi < 2 ^ 64
    → GapsFrom lo hi m
    → (truly_lost m ≡ total m) × (total m + lo ≤ hi)
unfolding truly_lost total
truly_lost-eq-total lo hi [] fits g = (refl, omega arith)
truly_lost-eq-total lo hi ((s, l) ∷ m) fits g =
    let (e, b) = truly_lost-eq-total (s + l) hi m fits g.3 in (rw e (omega arith), omega arith)

-- In a session whose packets are all near and whose first packet has number `first`, not 0, the
-- numbers up to the final `high_seq` are accounted for: they are the messages of the accepted packets
-- and those that `truly_lost` counts, no more and no fewer.
pub truly_lost-session :
    (first count : ℕ) (ps : List (ℕ × ℕ))
    → first ≢ 0
    → AllNear start ((first, count) ∷ ps)
    → let (t, accepted) = session start ((first, count) ∷ ps) in
      t.high_seq ≡ first + messages accepted + truly_lost t.pending_gaps
unfolding session AllNear messages
truly_lost-session first count ps started near =
    let out = observe start first count in
    let o = observe-Outcome start first count start-IsValid near.0 in
    let v =
      Outcome-IsValid start first count out (primed-IsValid start first count start-IsValid near.0)
        o in
    let base : (primed start first).high_seq ≡ first = refl in
    let (up, sum) = Outcome-sum start first count out o in
    let (w, rest) = session_sum out.0 ps (omega arith) v near.1 in
    let t = (session out.0 ps).0 in
    let lost = truly_lost-eq-total 0 t.high_seq t.pending_gaps w.high_fits w.shape in
    omega (arith, messages-if first count out.1 (session out.0 ps).1, total-nil)
