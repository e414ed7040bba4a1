-- ===== src/Receiver/Gaps.antt =====
-- The sequence gap tracking of src/v2/receiver.cpp, which src/v3/receiver.cpp repeats word for word.
pub mod Carve
pub mod Missing
pub mod Observe
pub mod Wide
pub mod Runs
use feed_handler.Map.{Map, insert, erase, floor?}
use feed_handler.Prelude.{
  ℕ, ◌+◌, ◌-◌, ◌%◌, ◌^◌, Bool, true, false, ◌&&◌, [], ◌∷◌, none, some, ltb, leb, ◌==◌,
  if◌then◌else◌,
}

-- The local variables of `main` that the packets change.
pub record Tracker : Type 0 where
  pub high_seq : ℕ
  pub pending_gaps : Map ℕ
  pub packets : ℕ
  pub gaps : ℕ
  pub dups : ℕ
  pub recovered : ℕ

abbrev pub start : Tracker
start = record { high_seq = 0; pending_gaps = []; packets = 0; gaps = 0; dups = 0; recovered = 0 }

-- `uint64_t` addition.
abbrev pub add64 : ℕ → ℕ → ℕ
add64 a b = (a + b) % 2 ^ 64

-- `static_cast<uint16_t>(a - b)` of `uint64_t` values.
abbrev pub cast16_sub : ℕ → ℕ → ℕ
cast16_sub a b = (a + 2 ^ 64 - b) % 2 ^ 64 % 2 ^ 16

-- A late packet that lies inside the gap takes its numbers out of it: the whole gap, its beginning,
-- its end, or a part in the middle.
unfoldable pub carve : Map ℕ → ℕ → ℕ → ℕ → ℕ → Map ℕ
carve pending gap_start gap_len seq count =
    if seq == gap_start && count == gap_len
    then erase gap_start pending
    else if seq == gap_start
    then insert (add64 seq count) (cast16_sub gap_len count) (erase gap_start pending)
    else if add64 seq count == add64 gap_start gap_len
    then insert gap_start (cast16_sub seq gap_start) pending
    else insert (add64 seq count) (cast16_sub (add64 gap_start gap_len) (add64 seq count))
        (insert gap_start (cast16_sub seq gap_start) (erase gap_start pending))

unfoldable pub duplicate : Tracker → Tracker × Bool
duplicate t = (record t { dups = add64 t.dups 1 }, false)

-- The branch of a packet that begins below `high_seq`.
unfoldable pub late : Tracker → ℕ → ℕ → Tracker × Bool
unfolding duplicate
late t seq count = elim (floor? seq t.pending_gaps) [
  | none ↦ duplicate t
  | some (gap_start, gap_len) ↦
      if leb gap_start seq && leb (add64 seq count) (add64 gap_start gap_len)
      then (
        record t {
          pending_gaps = carve t.pending_gaps gap_start gap_len seq count;
          recovered = add64 t.recovered count;
        },
        true,
      )
      else duplicate t
]

-- The state after a packet's header, and whether its messages are processed (`accept`).
unfoldable pub observe : Tracker → ℕ → ℕ → Tracker × Bool
observe t seq count =
    let high = if t.high_seq == 0 then seq else t.high_seq in
    let t' = record t { packets = add64 t.packets 1; high_seq = high } in
    if seq == high
    then (record t' { high_seq = add64 high count }, true)
    else if ltb high seq
    then (
      record t' {
        gaps = add64 t.gaps 1;
        pending_gaps = insert high (cast16_sub seq high) t.pending_gaps;
        high_seq = add64 seq count;
      },
      true,
    )
    else late t' seq count

-- `truly_lost`, the sum of the lengths of the gaps that are left.
unfoldable pub truly_lost : Map ℕ → ℕ
truly_lost [] = 0
truly_lost ((s, l) ∷ m) = add64 l (truly_lost m)
