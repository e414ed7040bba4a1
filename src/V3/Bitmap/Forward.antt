-- ===== src/V3/Bitmap/Forward.antt =====
-- The search upwards, `find_next_set`.
use feed_handler.Prelude.{
  ℕ, zero, suc, ◌+◌, ◌-◌, ◌*◌, ◌/◌, ◌%◌, ◌^◌, ◌≤◌, ◌<◌, ◌≡◌, ◌≢◌, ◌∙◌, bit_and, Bool, false, ◌&&◌,
  List, Option, none, some, ◌!=◌, leb, ltb, arith, Bool-cases, inl, inr,
}
use feed_handler.Prelude.Bits.{test_bit, test_bit-bit_and, test_bit-high, bit_and_mask}
use feed_handler.V3.Bitmap.{k_window, word_at, low_bit, next_word, next_from, find_next_set}
use feed_handler.V3.Bitmap.Words.{bit_and-lt-pow, nonzero-bit, low_bit-IsLow}
use feed_handler.V3.Bitmap.Search.{
  is_set, WordsFit, IsNext, is_set-at, Masked, Masked-at, Masked-none,
}

module _ (occupied : List ℕ) (fits : WordsFit occupied) (from : ℕ) where
  abbrev beyond : ℕ → Bool
  beyond i = leb from i

  IsNext-here :
      (word w bound : ℕ)
      → word < 2 ^ 64
      → suc w * 64 ≤ bound
      → Masked occupied fits from beyond word w
      → word ≢ 0
      → IsNext occupied from (w * 64) bound (some (w * 64 + low_bit 64 word 0))
  IsNext-here word w bound small inside reads ne =
      let (j, below, on) = nonzero-bit 64 word small ne in
      let l = low_bit-IsLow 64 word 0 j (omega arith) below on in
      let at : test_bit word (low_bit 64 word 0)
          ≡ is_set occupied (w * 64 + low_bit 64 word 0) && beyond (w * 64 + low_bit 64 word 0) =
        reads (low_bit 64 word 0) l.below in
      (
        ground (arith, at, l.on),
        omega (arith, l.below),
        ground (arith, at, l.on),
        λ i upto low under.
            Masked-at occupied fits from beyond word w i reads (omega (arith, l.below))
              (ground arith)
            ∙ l.under (i % 64) (omega arith) (omega (arith, l.below)),
      )

  full_word : (w : ℕ) → from ≤ w * 64 → Masked occupied fits from beyond (word_at occupied w) w
  full_word w h j lt = ground (arith, is_set-at occupied w j lt)

  -- The words `w` to `w + n`.
  next_word-IsNext :
      (n word w bound : ℕ)
      → suc (w + n) * 64 ≡ bound
      → word < 2 ^ 64
      → from ≤ suc w * 64
      → Masked occupied fits from beyond word w
      → IsNext occupied from (w * 64) bound (next_word n occupied word w)
  unfolding next_word
  next_word-IsNext zero word w bound e small le reads = elim (Bool-cases (word != 0)) [
    | inl ne ↦ rw ne (IsNext-here word w bound small (omega arith) reads (ground arith))
    | inr z ↦ rw z (λ i upto low inside.
        Masked-none occupied fits from beyond word w i reads (ground arith) (omega arith)
          (ground arith))
  ]
  next_word-IsNext (suc n) word w bound e small le reads = elim (Bool-cases (word != 0)) [
    | inl ne ↦ rw ne (IsNext-here word w bound small (omega arith) reads (ground arith))
    | inr z ↦
        let rest =
          next_word-IsNext n (word_at occupied (suc w)) (suc w) bound (omega arith) (fits (suc w))
            (omega arith) (full_word (suc w) le) in
        let gone : (i : ℕ) → from ≤ i → w * 64 ≤ i → i < suc w * 64 → is_set occupied i ≡ false =
          λ i upto low inside.
            Masked-none occupied fits from beyond word w i reads (ground arith) (omega arith)
              (ground arith) in
        rw z (more (next_word n occupied (word_at occupied (suc w)) (suc w)) gone rest)
  ]
    where
      more :
          (out : Option ℕ)
          → ((i : ℕ) → from ≤ i → w * 64 ≤ i → i < suc w * 64 → is_set occupied i ≡ false)
          → IsNext occupied from (suc w * 64) bound out
          → IsNext occupied from (w * 64) bound out
      more none gone rest = λ i upto low inside. elim (Bool-cases (ltb i (suc w * 64))) [
        | inl below ↦ gone i upto low (ground arith)
        | inr above ↦ rest i upto (ground arith) inside
      ]
      more (some r) gone rest = (
        rest.0,
        rest.1,
        rest.2,
        λ i upto low under. elim (Bool-cases (ltb i (suc w * 64))) [
          | inl below ↦ gone i upto low (ground arith)
          | inr above ↦ rest.3 i upto (ground arith) under
        ],
      )

  -- On words of 64 bits `find_next_set` returns the lowest occupied level that is at least `from`, among
  -- the 2,048 levels of the two windows, and -1 exactly if there is none.
  pub find_next_set-IsNext :
      IsNext occupied from from (2 * k_window) (find_next_set occupied (some from))
  unfolding find_next_set next_from
  find_next_set-IsNext = elim (Bool-cases (leb (2 * k_window) from)) [
    | inl far ↦ rw far (λ i upto low inside. absurd (ground arith))
    | inr near ↦
        let w = from / 64 in
        let b : bit_and from 63 ≡ from % 64 = bit_and_mask 6 from in
        let word = word_at occupied w in
        let mask = 2 ^ 64 - 2 ^ (from % 64) in
        let masked = bit_and word mask in
        let under : from < 2 * k_window = ground arith in
        rw (near, b)
          (widen (next_word (31 - w) occupied masked w) (
            next_word-IsNext (31 - w) masked w (2 * k_window) (omega arith)
              (bit_and-lt-pow 64 word mask (fits w)) (omega arith)
              (λ j lt. ground (
                arith,
                test_bit-bit_and j word mask,
                test_bit-high 64 (from % 64) j (omega arith) lt,
                is_set-at occupied w j lt,
              ))))
  ]
    where
      widen :
          (out : Option ℕ)
          → IsNext occupied from (from / 64 * 64) (2 * k_window) out
          → IsNext occupied from from (2 * k_window) out
      widen none p = λ i upto low inside. p i upto (omega arith) inside
      widen (some r) p = (p.0, p.1, p.2, λ i upto low under. p.3 i upto (omega arith) under)
