-- ===== src/V3/RefTable.antt =====
-- include/v3/ref_table.hpp: an open-addressing hash table from order references to pool indices, with
-- linear probing and deletion by backward shift. The loops take fuel, the number of slots, which
-- suffices while a slot is empty. A slot's padding is left out.
pub mod Cycle
pub mod Probe
pub mod Holed
pub mod Shift
pub mod Loop
pub mod Valid
pub mod Lookup
pub mod Insert
pub mod Erase
pub mod Edges
use feed_handler.Prelude.{
  ℕ, zero, suc, ◌+◌, ◌-◌, ◌*◌, ◌/◌, ◌%◌, ◌^◌, bit_and, bit_xor, Bool, true, false, ◌&&◌, ◌||◌, List,
  length, get_or, set, replicate, ltb, leb, ◌==◌, ◌!=◌, if◌then◌else◌,
}

-- `kNullIdx` of object_pool.hpp.
abbrev pub k_null_idx : ℕ
k_null_idx = 0xFFFFFFFF

abbrev pub k_empty : ℕ
k_empty = 2 ^ 64 - 1

pub record Slot : Type 0 where
  pub key : ℕ
  pub value : ℕ

pub record RefTable : Type 0 where
  pub slots : List Slot
  pub mask : ℕ
  pub size : ℕ

abbrev pub empty_slot : Slot
empty_slot = record { key = k_empty; value = 0 }

-- `slots_[i]`; the mask keeps every index in range.
abbrev pub slot_at : List Slot → ℕ → Slot
slot_at s i = get_or s i empty_slot

-- The constructor.
unfoldable pub new : ℕ → RefTable
new capacity = record {
  slots = replicate capacity empty_slot;
  mask = (capacity + 2 ^ 64 - 1) % 2 ^ 64;
  size = 0;
}

-- The 64-bit mixer.
unfoldable pub hash : ℕ → ℕ
hash x =
    let a = bit_xor x (x / 2 ^ 30) * 0xbf58476d1ce4e5b9 % 2 ^ 64 in
    let b = bit_xor a (a / 2 ^ 27) * 0x94d049bb133111eb % 2 ^ 64 in bit_xor b (b / 2 ^ 31)

-- `hash(key) & mask_`
unfoldable pub home : ℕ → ℕ → ℕ
home mask key = bit_and (hash key) mask

-- `(i + 1) & mask_`
unfoldable pub next : ℕ → ℕ → ℕ
next mask i = bit_and ((i + 1) % 2 ^ 64) mask

-- The loop of `probe`: on to the first slot that is empty or has the key.
unfoldable pub probe_from : ℕ → List Slot → ℕ → ℕ → ℕ → ℕ
probe_from zero s mask key i = i
probe_from (suc fuel) s mask key i =
    let rest = probe_from fuel s mask key (next mask i) in
    if (slot_at s i).key != k_empty && (slot_at s i).key != key then rest else i

unfoldable pub probe : RefTable → ℕ → ℕ
probe t key = probe_from (length t.slots) t.slots t.mask key (home t.mask key)

unfoldable pub find : RefTable → ℕ → ℕ
find t key =
    let slot = slot_at t.slots (probe t key) in if slot.key == key then slot.value else k_null_idx

unfoldable pub insert : RefTable → ℕ → ℕ → RefTable
insert t key value =
    if leb (length t.slots) (t.size * 2)
    then t
    else let i = probe t key in
      let slot = slot_at t.slots i in
      if slot.key == k_empty
      then record t {
        slots = set t.slots i (record { key = key; value = value });
        size = t.size + 1;
      }
      else record t { slots = set t.slots i (record { key = slot.key; value = value }) }

-- `can_move`: the entry at `j`, whose home is `k`, may go back to `i`.
unfoldable pub can_move : ℕ → ℕ → ℕ → Bool
can_move i j k = if ltb i j then leb k i || ltb j k else leb k i && ltb j k

-- The loop of `erase`: entries behind the hole `i` that may go back do so, up to an empty slot. The
-- result is the slots and the last hole.
unfoldable pub shift_back : ℕ → List Slot → ℕ → ℕ → ℕ → List Slot × ℕ
shift_back zero s mask i j = (s, i)
shift_back (suc fuel) s mask i j =
    let j' = next mask j in
    let slot = slot_at s j' in
    let moved = shift_back fuel (set s i slot) mask j' j' in
    let kept = shift_back fuel s mask i j' in
    if slot.key == k_empty
    then (s, i)
    else if can_move i j' (home mask slot.key)
    then moved
    else kept

unfoldable pub erase : RefTable → ℕ → RefTable
erase t key =
    let i = probe t key in
    if (slot_at t.slots i).key != key
    then t
    else let (s, hole) = shift_back (length t.slots) t.slots t.mask i i in
      record t {
        slots = set s hole (record (slot_at s hole) { key = k_empty });
        size = (t.size + 2 ^ 64 - 1) % 2 ^ 64;
      }
