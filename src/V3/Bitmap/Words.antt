-- ===== src/V3/Bitmap/Words.antt =====
-- Single words of the bitmap: their bounds, and their highest and lowest bits.
use native.Mathlib.Nat.{pow-suc}
use Prim.Native.Nat.{bit_and-bitwise, bit_or-bitwise}
use feed_handler.Prelude.{
  ==→eq, ==→ne, ap, ◌∙◌, ℕ, zero, suc, ◌+◌, ◌/◌, ◌%◌, ◌^◌, ◌≤◌, ◌<◌, ◌≡◌, ◌≢◌, bit_and, bit_or,
  true, false, ◌==◌, arith, Bool-cases, inl, inr,
}
use feed_handler.Prelude.Bits.{test_bit, bit_and_step, bit_or_step}
use feed_handler.V3.Bitmap.{high_bit, low_bit}

pub bit_and-lt-pow : (n a b : ℕ) → a < 2 ^ n → bit_and a b < 2 ^ n
bit_and-lt-pow zero a b h = let e : a ≡ 0 = omega arith in rw e (omega (arith, bit_and-bitwise 0 b))
bit_and-lt-pow (suc n) a b h = omega (
  arith,
  pow-suc 2 n,
  bit_and_step a b,
  bit_and-lt-pow n (a / 2) (b / 2) (omega (arith, pow-suc 2 n)),
)

pub bit_or-lt-pow : (n a b : ℕ) → a < 2 ^ n → b < 2 ^ n → bit_or a b < 2 ^ n
bit_or-lt-pow zero a b h k =
    let e : a ≡ 0 = omega arith in
    let f : b ≡ 0 = omega arith in rw (e, f) (omega (arith, bit_or-bitwise 0 0))
bit_or-lt-pow (suc n) a b h k = omega (
  arith,
  pow-suc 2 n,
  bit_or_step a b,
  bit_or-lt-pow n (a / 2) (b / 2) (omega (arith, pow-suc 2 n)) (omega (arith, pow-suc 2 n)),
)

-- A word that is not 0 has a bit.
pub nonzero-bit :
    (n word : ℕ) → word < 2 ^ n → word ≢ 0 → (i : ℕ) × (i < n) × (test_bit word i ≡ true)
nonzero-bit zero word h ne = absurd (omega arith)
nonzero-bit (suc n) word h ne = elim (Bool-cases (word % 2 == 1)) [
  | inl odd ↦ (0, omega arith, odd)
  | inr even ↦
      let (i, lt, set) = nonzero-bit n (word / 2) (omega (arith, pow-suc 2 n)) (ground arith) in
      (suc i, omega arith, set)
]

-- The highest bit below `n`, if there is one.
pub record IsHigh (n word i : ℕ) : Type 0 where
  pub below : i < n
  pub on : test_bit word i ≡ true
  pub above : (j : ℕ) → i < j → j < n → test_bit word j ≡ false

pub high_bit-IsHigh :
    (n word j : ℕ) → j < n → test_bit word j ≡ true → IsHigh n word (high_bit n word)
unfolding high_bit
high_bit-IsHigh zero word j h on = absurd (omega arith)
high_bit-IsHigh (suc n) word j h on = elim (Bool-cases (test_bit word n)) [
  | inl e ↦ rw e (record { below = omega arith; on = e; above = λ k a b. absurd (omega arith) })
  | inr e ↦
      let rest = high_bit-IsHigh n word j (lower e) on in
      rw e (record {
        below = omega (arith, rest.below);
        on = rest.on;
        above = λ k a b. top e rest k a b;
      })
]
  where
    lower : test_bit word n ≡ false → j < n
    lower e = elim (Bool-cases (j == n)) [
      | inl same ↦ let f = ap (test_bit word) (==→eq j n same) in ground arith
      | inr other ↦ let f = ==→ne j n other in ground arith
    ]

    top :
        test_bit word n ≡ false
        → IsHigh n word (high_bit n word)
        → (k : ℕ) → high_bit n word < k
        → k < suc n
        → test_bit word k ≡ false
    top e rest k a b = elim (Bool-cases (k == n)) [
      | inl same ↦ ap (test_bit word) (==→eq k n same) ∙ e
      | inr other ↦ let f = ==→ne k n other in rest.above k a (ground arith)
    ]

-- The lowest bit from `i` on, below `i + n`.
pub record IsLow (i n word k : ℕ) : Type 0 where
  pub from : i ≤ k
  pub below : k < i + n
  pub on : test_bit word k ≡ true
  pub under : (j : ℕ) → i ≤ j → j < k → test_bit word j ≡ false

pub low_bit-IsLow :
    (n word i j : ℕ)
    → i ≤ j
    → j < i + n
    → test_bit word j ≡ true
    → IsLow i n word (low_bit n word i)
unfolding low_bit
low_bit-IsLow zero word i j a b on = absurd (omega arith)
low_bit-IsLow (suc n) word i j a b on = elim (Bool-cases (test_bit word i)) [
  | inl e ↦ rw e (record {
    from = omega arith;
    below = omega arith;
    on = e;
    under = λ k c d. absurd (omega arith);
  })
  | inr e ↦
      let rest = low_bit-IsLow n word (suc i) j (raise e) (omega arith) on in
      rw e (record {
        from = omega (arith, rest.from);
        below = omega (arith, rest.below);
        on = rest.on;
        under = λ k c d. under e rest k c d;
      })
]
  where
    raise : test_bit word i ≡ false → suc i ≤ j
    raise e = elim (Bool-cases (j == i)) [
      | inl same ↦ let f = ap (test_bit word) (==→eq j i same) in ground arith
      | inr other ↦ let f = ==→ne j i other in ground arith
    ]

    under :
        test_bit word i ≡ false
        → IsLow (suc i) n word (low_bit n word (suc i))
        → (k : ℕ) → i ≤ k
        → k < low_bit n word (suc i)
        → test_bit word k ≡ false
    under e rest k c d = elim (Bool-cases (k == i)) [
      | inl same ↦ ap (test_bit word) (==→eq k i same) ∙ e
      | inr other ↦ let f = ==→ne k i other in rest.under k (ground arith) d
    ]
