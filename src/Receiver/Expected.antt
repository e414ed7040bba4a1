-- ===== src/Receiver/Expected.antt =====
-- The sequence tracking of src/v1/receiver.cpp: one expected number, and no memory of gaps.
use feed_handler.Prelude.{
  ℕ, ◌+◌, ◌-◌, ◌≤◌, ◌<◌, ◌^◌, ◌≡◌, ◌≢◌, Bool, true, false, ◌&&◌, List, [], ◌∷◌, ltb, leb, ◌==◌,
  if◌then◌else◌, arith,
}
use feed_handler.Receiver.Gaps.{add64}
use feed_handler.Receiver.Deliveries.{in_range, deliveries, messages, deliveries-if, messages-if}

pub record Expected : Type 0 where
  pub expected_seq : ℕ
  pub packets : ℕ
  pub gaps : ℕ
  pub lost : ℕ
  pub dups : ℕ

abbrev pub start : Expected
start = record { expected_seq = 0; packets = 0; gaps = 0; lost = 0; dups = 0 }

-- The state after a packet's header, and whether its messages are processed. After the messages the
-- source sets `expected_seq`, which nothing reads in between.
unfoldable pub observe : Expected → ℕ → ℕ → Expected × Bool
observe t seq count =
    let expected = if t.expected_seq == 0 then seq else t.expected_seq in
    let t' = record t { packets = add64 t.packets 1; expected_seq = expected } in
    let next = add64 seq count in
    if ltb expected seq
    then (
      record t' {
        gaps = add64 t.gaps 1;
        lost = add64 t.lost (seq - expected);
        expected_seq = next;
      },
      true,
    )
    else if ltb seq expected
    then (record t' { dups = add64 t.dups 1 }, false)
    else (record t' { expected_seq = next }, true)

unfoldable pub session : Expected → List (ℕ × ℕ) → Expected × List (ℕ × ℕ)
session t [] = (t, [])
session t ((seq, count) ∷ ps) =
    let (t', accept) = observe t seq count in
    let (u, accepted) = session t' ps in (u, if accept then (seq, count) ∷ accepted else accepted)

-- The packets' numbers fit 64 bits.
unfoldable pub AllFit : List (ℕ × ℕ) → Type 0
AllFit [] = Unit
AllFit ((seq, count) ∷ ps) = (seq + count < 2 ^ 64) × AllFit ps

observe_step :
    (t : Expected) (seq count n : ℕ)
    → seq + count < 2 ^ 64
    → let (t', accept) = observe t seq count in
      (t.expected_seq ≤ t'.expected_seq)
      × (accept && in_range seq count n ≡ true → (t.expected_seq ≤ n) × (n < t'.expected_seq))
unfolding observe
observe_step t seq count n fits = ground arith

deliveries_bound :
    (n : ℕ) (t : Expected) (ps : List (ℕ × ℕ))
    → AllFit ps
    → deliveries n (session t ps).1 ≤ (if leb t.expected_seq n then 1 else 0)
unfolding session AllFit deliveries
deliveries_bound n t [] fits = ground arith
deliveries_bound n t ((seq, count) ∷ ps) fits =
    let out = observe t seq count in
    rw deliveries-if
      (ground (arith, observe_step t seq count n fits.0, deliveries_bound n out.0 ps fits.1))

-- In any session whose packets' numbers fit 64 bits, no sequence number is delivered to the books twice.
pub deliveries-session-le-one :
    (n : ℕ) (ps : List (ℕ × ℕ)) → AllFit ps → deliveries n (session start ps).1 ≤ 1
deliveries-session-le-one n ps fits = ground (arith, deliveries_bound n start ps fits)

observe_sum :
    (t : Expected) (seq count : ℕ)
    → t.expected_seq ≢ 0
    → t.lost ≤ t.expected_seq
    → seq + count < 2 ^ 64
    → let (t', accept) = observe t seq count in
      (t'.expected_seq ≢ 0)
      × (t'.lost ≤ t'.expected_seq)
      × (t'.expected_seq + t.lost ≡ t.expected_seq + t'.lost + (if accept then count else 0))
unfolding observe
observe_sum t seq count started low fits = ground arith

session_sum :
    (t : Expected) (ps : List (ℕ × ℕ))
    → t.expected_seq ≢ 0
    → t.lost ≤ t.expected_seq
    → AllFit ps
    → let (u, accepted) = session t ps in
      u.expected_seq + t.lost ≡ t.expected_seq + u.lost + messages accepted
unfolding session AllFit messages
session_sum t [] started low fits = omega arith
session_sum t ((seq, count) ∷ ps) started low fits =
    let out = observe t seq count in
    let (s, l, e) = observe_sum t seq count started low fits.0 in
    omega (arith, session_sum out.0 ps s l fits.1, messages-if seq count out.1 (session out.0 ps).1)

-- In a session whose packets' numbers fit 64 bits and whose first packet has number `first`, not 0, the
-- numbers up to the final `expected_seq` are the messages of the accepted packets and those counted in
-- `lost`.
pub lost-session :
    (first count : ℕ) (ps : List (ℕ × ℕ))
    → first ≢ 0
    → AllFit ((first, count) ∷ ps)
    → let (t, accepted) = session start ((first, count) ∷ ps) in
      t.expected_seq ≡ first + messages accepted + t.lost
unfolding session AllFit messages observe
lost-session first count ps started fits =
    let out = observe start first count in
    let head : (out.0.expected_seq ≡ first + count) × (out.0.lost ≡ 0) = ground arith in
    let accepted : (if out.1 then count else 0) ≡ count = ground arith in
    omega (
      arith,
      session_sum out.0 ps (omega arith) (omega arith) fits.1,
      messages-if first count out.1 (session out.0 ps).1,
      accepted,
    )
