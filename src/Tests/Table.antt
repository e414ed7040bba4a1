-- ===== src/Tests/Table.antt =====
-- A table of eight slots: 5 leads to 100, and then 13 to 200.
use feed_handler.Prelude.{ℕ, ◌*◌, ◌^◌, ◌<◌, ◌≡◌, length, arith, ◌==◌, if◌then◌else◌}
use feed_handler.V3.RefTable.{RefTable, k_empty, k_null_idx, slot_at, new, find, insert, erase}
use feed_handler.V3.RefTable.Valid.{IsValid}
use feed_handler.V3.RefTable.Insert.{insert-IsValid, find-insert}
use feed_handler.V3.RefTable.Erase.{find-erase}
use feed_handler.V3.RefTable.Edges.{new-IsValid, find-k_empty}

abbrev eight : RefTable
eight = new (2 ^ 3)

eight-IsValid : IsValid eight
eight-IsValid = new-IsValid 2 (omega arith)

room_in_eight : eight.size * 2 < length eight.slots
unfolding new
room_in_eight = omega arith

one_entry-IsValid : IsValid (insert eight 5 100)
one_entry-IsValid = insert-IsValid eight eight-IsValid 5 100 (omega arith) room_in_eight

find-insert_example : find (insert eight 5 100) 5 ≡ (if 5 == 5 then 100 else find eight 5)
find-insert_example =
    find-insert eight eight-IsValid 5 100 (omega arith) room_in_eight 5 (omega arith)

abbrev one_entry : RefTable
one_entry = insert eight 5 100

find-erase_example : find (erase one_entry 5) 5 ≡ (if 5 == 5 then k_null_idx else find one_entry 5)
find-erase_example = find-erase one_entry one_entry-IsValid 5 (omega arith) 5 (omega arith)

find-k_empty_example :
    (p : ℕ) × (p < length eight.slots)
    × ((slot_at eight.slots p).key ≡ k_empty)
    × (find eight k_empty ≡ (slot_at eight.slots p).value)
find-k_empty_example = find-k_empty eight eight-IsValid
