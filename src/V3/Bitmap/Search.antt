-- ===== src/V3/Bitmap/Search.antt =====
-- The searches find the nearest occupied level.
use feed_handler.Prelude.{
  ℕ, zero, suc, ◌+◌, ◌-◌, ◌*◌, ◌/◌, ◌%◌, ◌^◌, ◌≤◌, ◌<◌, ◌≡◌, ◌≢◌, refl, ap, ◌∙◌, bit_and, Bool,
  true, false, ◌&&◌, List, Option, none, some, if◌then◌else◌, ◌==◌, ◌!=◌, leb, ltb, arith,
  Bool-cases, inl, inr, ==→eq,
}
use feed_handler.Prelude.Bits.{
  test_bit, test_bit-zero, test_bit-bit_and, test_bit-low, bit_and_mask,
}
use feed_handler.V3.Bitmap.{word_at, high_bit, prev_word, find_prev_set}
use feed_handler.V3.Bitmap.Words.{bit_and-lt-pow, nonzero-bit, high_bit-IsHigh}

-- The level is marked as occupied.
abbrev pub is_set : List ℕ → ℕ → Bool
is_set occupied i = test_bit (word_at occupied (i / 64)) (i % 64)

-- Every word fits 64 bits.
abbrev pub WordsFit : List ℕ → Type 0
WordsFit occupied = (w : ℕ) → word_at occupied w < 2 ^ 64

-- The highest occupied level up to `from` and below `bound`.
abbrev pub IsPrev : List ℕ → ℕ → ℕ → Option ℕ → Type 0
IsPrev occupied from bound none = (i : ℕ) → i ≤ from → i < bound → is_set occupied i ≡ false
IsPrev occupied from bound (some r) =
    (r ≤ from)
    × (is_set occupied r ≡ true)
    × ((i : ℕ) → r < i → i ≤ from → i < bound → is_set occupied i ≡ false)

-- The lowest occupied level from `from` and `lo` on, below `bound`.
abbrev pub IsNext : List ℕ → ℕ → ℕ → ℕ → Option ℕ → Type 0
IsNext occupied from lo bound none =
    (i : ℕ) → from ≤ i → lo ≤ i → i < bound → is_set occupied i ≡ false
IsNext occupied from lo bound (some r) =
    (from ≤ r)
    × (r < bound)
    × (is_set occupied r ≡ true)
    × ((i : ℕ) → from ≤ i → lo ≤ i → i < r → is_set occupied i ≡ false)

pub is_set-at :
    (occupied : List ℕ) (w j : ℕ)
    → j < 64
    → is_set occupied (w * 64 + j) ≡ test_bit (word_at occupied w) j
is_set-at occupied w j h =
    let e : (w * 64 + j) / 64 ≡ w = omega arith in
    let f : (w * 64 + j) % 64 ≡ j = omega arith in rw (e, f) refl

module _ (occupied : List ℕ) (fits : WordsFit occupied) (from : ℕ) where
  -- `word` has the bits of the word `w` that a test on the index lets through.
  abbrev pub Masked : (ℕ → Bool) → ℕ → ℕ → Type 0
  Masked through word w =
      (j : ℕ) → j < 64 → test_bit word j ≡ is_set occupied (w * 64 + j) && through (w * 64 + j)

  -- An index that is let through, in the word `w`.
  pub Masked-at :
      (through : ℕ → Bool) (word w i : ℕ)
      → Masked through word w
      → i / 64 ≡ w
      → through i ≡ true
      → is_set occupied i ≡ test_bit word (i % 64)
  Masked-at through word w i reads e t =
      let same : w * 64 + i % 64 ≡ i = omega arith in
      let r = rw same at (reads (i % 64) (omega arith)) in ground (arith, r)

  pub Masked-none :
      (through : ℕ → Bool) (word w i : ℕ)
      → Masked through word w
      → word ≡ 0
      → i / 64 ≡ w
      → through i ≡ true
      → is_set occupied i ≡ false
  Masked-none through word w i reads z e t =
      Masked-at through word w i reads e t
      ∙ ap (λ (x : ℕ). test_bit x (i % 64)) z
      ∙ test_bit-zero (i % 64)

  IsPrev-here :
      (word w r : ℕ)
      → word < 2 ^ 64
      → Masked (λ i. leb i from) word w
      → word ≢ 0
      → r ≡ w * 64 + high_bit 64 word
      → IsPrev occupied from (suc w * 64) (some r)
  IsPrev-here word w r small reads ne e =
      let (j, below, on) = nonzero-bit 64 word small ne in
      let h = high_bit-IsHigh 64 word j below on in
      let at : test_bit word (high_bit 64 word) ≡ is_set occupied r && leb r from =
        rw e (reads (high_bit 64 word) h.below) in
      (
        ground (arith, at, h.on),
        ground (arith, at, h.on),
        λ i up upto inside.
            Masked-at (λ k. leb k from) word w i reads (omega (arith, h.below)) (ground arith)
            ∙ h.above (i % 64) (omega (arith, h.below)) (omega arith),
      )

  full_word : (w : ℕ) → suc w * 64 ≤ suc from → Masked (λ i. leb i from) (word_at occupied w) w
  full_word w h j lt = ground (arith, is_set-at occupied w j lt)

  prev_word-IsPrev :
      (word w : ℕ)
      → word < 2 ^ 64
      → w * 64 ≤ from
      → Masked (λ i. leb i from) word w
      → IsPrev occupied from (suc w * 64) (prev_word occupied word w)
  unfolding prev_word
  prev_word-IsPrev word zero small le reads = elim (Bool-cases (word != 0)) [
    | inl ne ↦
        rw ne (IsPrev-here word 0 (high_bit 64 word) small reads (ground arith) (omega arith))
    | inr z ↦ rw z (λ i upto inside.
        Masked-none (λ k. leb k from) word 0 i reads (ground arith) (omega arith) (ground arith))
  ]
  prev_word-IsPrev word (suc w) small le reads = elim (Bool-cases (word != 0)) [
    | inl ne ↦
        rw ne
          (IsPrev-here word (suc w) (suc w * 64 + high_bit 64 word) small reads (ground arith) refl)
    | inr z ↦
        let rest =
          prev_word-IsPrev (word_at occupied w) w (fits w) (omega arith)
            (full_word w (omega arith)) in
        let gone : (i : ℕ)
            → i ≤ from
            → suc w * 64 ≤ i
            → i < suc (suc w) * 64
            → is_set occupied i ≡ false =
          λ i upto above inside.
            Masked-none (λ k. leb k from) word (suc w) i reads (ground arith) (omega arith)
              (ground arith) in
        rw z (more w (prev_word occupied (word_at occupied w) w) gone rest)
  ]
    where
      more :
          (w : ℕ) (out : Option ℕ)
          → ((i : ℕ) → i ≤ from → suc w * 64 ≤ i → i < suc (suc w) * 64 → is_set occupied i ≡ false)
          → IsPrev occupied from (suc w * 64) out
          → IsPrev occupied from (suc (suc w) * 64) out
      more w none gone rest = λ i upto inside. elim (Bool-cases (ltb i (suc w * 64))) [
        | inl low ↦ rest i upto (ground arith)
        | inr high ↦ gone i upto (ground arith) inside
      ]
      more w (some r) gone rest = (
        rest.0,
        rest.1,
        λ i up upto inside. elim (Bool-cases (ltb i (suc w * 64))) [
          | inl low ↦ rest.2 i up upto (ground arith)
          | inr high ↦ gone i upto (ground arith) inside
        ],
      )

  narrow :
      (bound : ℕ) (out : Option ℕ)
      → from < bound
      → IsPrev occupied from bound out
      → IsPrev occupied from (suc from) out
  narrow bound none h p = λ i upto inside. p i upto (omega arith)
  narrow bound (some r) h p = (p.0, p.1, λ i up upto inside. p.2 i up upto (omega arith))

  -- On words of 64 bits `find_prev_set` returns the highest occupied level that is at most `from`, and
  -- -1 exactly if there is none.
  pub find_prev_set-IsPrev : IsPrev occupied from (suc from) (find_prev_set occupied (some from))
  unfolding find_prev_set
  find_prev_set-IsPrev =
      let w = from / 64 in
      let b : bit_and from 63 ≡ from % 64 = bit_and_mask 6 from in
      let word = word_at occupied w in
      let masked = bit_and word (2 ^ (from % 64 + 1) - 1) in
      rw (b, masks (from % 64) (omega arith))
        (narrow (suc w * 64) (prev_word occupied masked w) (omega arith) (
          prev_word-IsPrev masked w (bit_and-lt-pow 64 word (2 ^ (from % 64 + 1) - 1) (fits w))
            (omega arith)
            (λ j lt. ground (
              arith,
              test_bit-bit_and j word (2 ^ (from % 64 + 1) - 1),
              test_bit-low (from % 64 + 1) j,
              is_set-at occupied w j lt,
            ))))
    where
      masks : (b : ℕ) → b < 64 → (if b == 63 then 2 ^ 64 - 1 else 2 ^ (b + 1) - 1) ≡ 2 ^ (b + 1) - 1
      masks b h = elim (Bool-cases (b == 63)) [
        | inl e ↦ rw (==→eq b 63 e) refl
        | inr ne ↦ rw ne refl
      ]
