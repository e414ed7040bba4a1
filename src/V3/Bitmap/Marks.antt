-- ===== src/V3/Bitmap/Marks.antt =====
-- What marking and unmarking a level does to the bitmap.
use feed_handler.Prelude.{
  ℕ, ◌-◌, ◌/◌, ◌%◌, ◌^◌, ◌<◌, ◌≡◌, bit_and, bit_or, ◌&&◌, ◌||◌, List, length, set, if◌then◌else◌,
  ◌==◌, ◌!=◌, arith, Bool-cases, inl, inr, ==→eq, ==→ne, get_or-set_self, get_or-set_ne,
}
use feed_handler.Prelude.Bits.{
  pow-lt-pow_right, test_bit-bit_and, test_bit-bit_or, test_bit-pow, test_bit-clear, bit_and_mask,
}
use feed_handler.V3.Bitmap.{word_at, mark, unmark}
use feed_handler.V3.Bitmap.Words.{bit_and-lt-pow, bit_or-lt-pow}
use feed_handler.V3.Bitmap.Search.{is_set, WordsFit}

word_at-set :
    (occupied : List ℕ) (w v q : ℕ)
    → w < length occupied
    → word_at (set occupied w v) q ≡ (if w == q then v else word_at occupied q)
word_at-set occupied w v q h = elim (Bool-cases (w == q)) [
  | inl e ↦ rw (e, ← ==→eq w q e) (get_or-set_self occupied w v 0 h)
  | inr ne ↦ rw ne (get_or-set_ne occupied w q v 0 (==→ne w q ne))
]

module _ (occupied : List ℕ) (fits : WordsFit occupied) (l : ℕ)
    (inside : l / 64 < length occupied) where
  pub is_set-mark : (i : ℕ) → is_set (mark occupied l) i ≡ is_set occupied i || l == i
  unfolding mark
  is_set-mark i =
      let word = word_at occupied (l / 64) in
      rw (bit_and_mask 6 l) (
        ground (
          arith,
          word_at-set occupied (l / 64) (bit_or word (2 ^ (l % 64))) (i / 64) inside,
          test_bit-bit_or (i % 64) word (2 ^ (l % 64)),
          test_bit-pow (l % 64) (i % 64),
        ))

  pub mark-WordsFit : WordsFit (mark occupied l)
  unfolding mark
  mark-WordsFit q =
      let word = word_at occupied (l / 64) in
      let bit = 2 ^ (l % 64) in
      let small : bit < 2 ^ 64 = omega (arith, pow-lt-pow_right (l % 64) 64 (omega arith)) in
      rw (bit_and_mask 6 l) (
        ground (
          arith,
          word_at-set occupied (l / 64) (bit_or word bit) q inside,
          bit_or-lt-pow 64 word bit (fits (l / 64)) small,
          fits q,
        ))

  pub is_set-unmark : (i : ℕ) → is_set (unmark occupied l) i ≡ is_set occupied i && l != i
  unfolding unmark
  is_set-unmark i =
      let word = word_at occupied (l / 64) in
      rw (bit_and_mask 6 l) (
        ground (
          arith,
          word_at-set occupied (l / 64) (bit_and word (2 ^ 64 - 1 - 2 ^ (l % 64))) (i / 64) inside,
          test_bit-bit_and (i % 64) word (2 ^ 64 - 1 - 2 ^ (l % 64)),
          test_bit-clear 64 (l % 64) (i % 64),
        ))

  pub unmark-WordsFit : WordsFit (unmark occupied l)
  unfolding unmark
  unmark-WordsFit q =
      let word = word_at occupied (l / 64) in
      let mask = 2 ^ 64 - 1 - 2 ^ bit_and l 63 in
      rw (word_at-set occupied (l / 64) (bit_and word mask) q inside)
        (ground (arith, bit_and-lt-pow 64 word mask (fits (l / 64)), fits q))
