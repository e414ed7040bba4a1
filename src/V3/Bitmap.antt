-- ===== src/V3/Bitmap.antt =====
-- `occupied_` of include/v3/order_book.hpp: a bit for each level of the two price windows, and the
-- searches for the next occupied level in src/v3/order_book.cpp. An index that the source has as -1 is
-- `none`.
pub mod Words
pub mod Search
pub mod Forward
pub mod Marks
use feed_handler.Prelude.{
  ℕ, zero, suc, ◌+◌, ◌-◌, ◌*◌, ◌/◌, ◌%◌, ◌^◌, bit_and, bit_or, Bool, List, [], ◌∷◌, Option, none,
  some, get_or, set, ltb, leb, ◌==◌, ◌!=◌, if◌then◌else◌,
}
use feed_handler.Prelude.Bits.{test_bit}

abbrev pub k_window : ℕ
k_window = 1024

abbrev pub k_ask_base : ℕ
k_ask_base = k_window

-- `occupied_[w]`
abbrev pub word_at : List ℕ → ℕ → ℕ
word_at occupied w = get_or occupied w 0

-- `occupied_[level_idx>>6] |= (1ull<<(level_idx&63));`
unfoldable pub mark : List ℕ → ℕ → List ℕ
mark occupied level_idx =
    let w = level_idx / 64 in
    set occupied w (bit_or (word_at occupied w) (2 ^ bit_and level_idx 63))

-- `occupied_[level_idx>>6] &= ~(1ull<<(level_idx&63));`
unfoldable pub unmark : List ℕ → ℕ → List ℕ
unmark occupied level_idx =
    let w = level_idx / 64 in
    set occupied w (bit_and (word_at occupied w) (2 ^ 64 - 1 - 2 ^ bit_and level_idx 63))

-- `63-__builtin_clzll(word)` at `n` of 64: the highest bit.
unfoldable pub high_bit : ℕ → ℕ → ℕ
high_bit zero word = 0
high_bit (suc n) word = if test_bit word n then n else high_bit n word

-- `__builtin_ctzll(word)`, at `n` of 64 and `i` of 0: the lowest bit.
unfoldable pub low_bit : ℕ → ℕ → ℕ → ℕ
low_bit zero word i = i
low_bit (suc n) word i = if test_bit word i then i else low_bit n word (suc i)

-- The loop of `find_prev_set`.
unfoldable pub prev_word : List ℕ → ℕ → ℕ → Option ℕ
prev_word occupied word zero = if word != 0 then some (high_bit 64 word) else none
prev_word occupied word (suc w) =
    let rest = prev_word occupied (word_at occupied w) w in
    if word != 0 then some (suc w * 64 + high_bit 64 word) else rest

unfoldable pub find_prev_set : List ℕ → Option ℕ → Option ℕ
find_prev_set occupied none = none
find_prev_set occupied (some from) =
    let w = from / 64 in
    let b = bit_and from 63 in
    let mask = if b == 63 then 2 ^ 64 - 1 else 2 ^ (b + 1) - 1 in
    prev_word occupied (bit_and (word_at occupied w) mask) w

-- The loop of `find_next_set`, with `n` words after the word `w`.
unfoldable pub next_word : ℕ → List ℕ → ℕ → ℕ → Option ℕ
next_word zero occupied word w = if word != 0 then some (w * 64 + low_bit 64 word 0) else none
next_word (suc n) occupied word w =
    let rest = next_word n occupied (word_at occupied (suc w)) (suc w) in
    if word != 0 then some (w * 64 + low_bit 64 word 0) else rest

-- From an index that is not -1.
unfoldable pub next_from : List ℕ → ℕ → Option ℕ
next_from occupied from =
    let w = from / 64 in
    let word = bit_and (word_at occupied w) (2 ^ 64 - 2 ^ bit_and from 63) in
    if leb (2 * k_window) from then none else next_word (31 - w) occupied word w

unfoldable pub find_next_set : List ℕ → Option ℕ → Option ℕ
find_next_set occupied none = next_from occupied 0
find_next_set occupied (some from) = next_from occupied from
