-- ===== src/Receiver/Deliveries.antt =====
-- The packets that a tracker accepts, as sequence numbers and counts.
use feed_handler.Prelude.{
  ℕ, ◌+◌, ◌≡◌, refl, Bool, true, false, ◌&&◌, List, [], ◌∷◌, ltb, leb, if◌then◌else◌, arith,
}

-- `n` is one of the `count` numbers from `seq` on.
abbrev pub in_range : ℕ → ℕ → ℕ → Bool
in_range seq count n = leb seq n && ltb n (seq + count)

-- How often the number `n` is in one of the packets.
unfoldable pub deliveries : ℕ → List (ℕ × ℕ) → ℕ
deliveries n [] = 0
deliveries n ((seq, count) ∷ ps) = (if in_range seq count n then 1 else 0) + deliveries n ps

-- How many numbers the packets have.
unfoldable pub messages : List (ℕ × ℕ) → ℕ
messages [] = 0
messages ((seq, count) ∷ ps) = count + messages ps

pub deliveries-if :
    (n seq count : ℕ) (b : Bool) (ps : List (ℕ × ℕ))
    → deliveries n (if b then (seq, count) ∷ ps else ps)
      ≡ (if b && in_range seq count n then 1 else 0) + deliveries n ps
unfolding deliveries
deliveries-if n seq count true ps = refl
deliveries-if n seq count false ps = omega arith

pub messages-if :
    (seq count : ℕ) (b : Bool) (ps : List (ℕ × ℕ))
    → messages (if b then (seq, count) ∷ ps else ps) ≡ (if b then count else 0) + messages ps
unfolding messages
messages-if seq count true ps = refl
messages-if seq count false ps = omega arith
