-- ===== src/Tests/Tracking.antt =====
-- Sessions of packets: 1 and 2, then 5 to 7, then the late 3, then 3 again.
use feed_handler.Prelude.{ℕ, ◌≤◌, ◌≡◌, refl, true, false, List, [], ◌∷◌, ◌+◌, arith}
use feed_handler.Map.{insert, floor?, erase}
use feed_handler.Receiver.Deliveries.{in_range, deliveries, messages}
use feed_handler.Receiver.Gaps.{Tracker, start, observe, late, carve, truly_lost}
use feed_handler.Receiver.Gaps.Observe.{owed, primed, Outcome, start-IsValid, observe-Outcome}
use feed_handler.Receiver.Gaps.Runs.{session, AllNear, deliveries-le-one, truly_lost-session}
use feed_handler.Receiver.Gaps.Wide.{observe-forgets}
use feed_handler.Receiver.Expected
use feed_handler.Receiver.Expected.{AllFit, deliveries-session-le-one, lost-session}

abbrev packets : List (ℕ × ℕ)
packets = (1, 2) ∷ (5, 3) ∷ (3, 1) ∷ (3, 1) ∷ []

packets_near : AllNear start packets
unfolding AllNear observe late carve insert floor? erase
packets_near = (omega arith, (omega arith, (omega arith, (omega arith, tt))))

-- Number 4 stays lost, and the second 3 is a duplicate.
run : (session start packets).1 ≡ (1, 2) ∷ (5, 3) ∷ (3, 1) ∷ []
unfolding session observe late carve insert floor? erase
run = refl

deliveries-le-one_example : deliveries 3 (session start packets).1 ≤ 1
deliveries-le-one_example = deliveries-le-one 3 packets packets_near

truly_lost-session_example :
    (session start packets).0.high_seq
    ≡ 1 + messages (session start packets).1 + truly_lost (session start packets).0.pending_gaps
truly_lost-session_example =
    truly_lost-session 1 2 ((5, 3) ∷ (3, 1) ∷ (3, 1) ∷ []) (omega arith) packets_near

observe-Outcome_example : Outcome (primed start 1) 1 2 (observe start 1 2)
observe-Outcome_example = observe-Outcome start 1 2 start-IsValid (omega arith)

abbrev begun : Tracker
begun = record start { high_seq = 3 }

observe-forgets_example :
    (owed begun 69999 ≡ true)
    × (in_range 70000 1 69999 ≡ false)
    × (owed (observe begun 70000 1).0 69999 ≡ false)
    × ((observe (observe begun 70000 1).0 69999 1).1 ≡ false)
observe-forgets_example =
    observe-forgets begun 70000 1 (omega arith) (omega arith) (omega arith) (omega arith)

packets_fit : AllFit packets
unfolding AllFit
packets_fit = (omega arith, (omega arith, (omega arith, (omega arith, tt))))

deliveries-session-le-one_example : deliveries 3 (Expected.session Expected.start packets).1 ≤ 1
deliveries-session-le-one_example = deliveries-session-le-one 3 packets packets_fit

lost-session_example :
    (Expected.session Expected.start packets).0.expected_seq
    ≡ 1
      + messages (Expected.session Expected.start packets).1
      + (Expected.session Expected.start packets).0.lost
lost-session_example = lost-session 1 2 ((5, 3) ∷ (3, 1) ∷ (3, 1) ∷ []) (omega arith) packets_fit
