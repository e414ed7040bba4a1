-- ===== src/Prelude/Bits.antt =====
-- The bit operations at variables, through the binary digits of a number.
use Prim.Native.Nat.{
  ℕ, zero, suc, ◌+◌, ◌-◌, ◌*◌, ◌/◌, ◌%◌, ◌^◌, ◌≤◌, ◌<◌, min, max, bit_and, bit_or, digits, bitwise,
  bit_and-bitwise, bit_or-bitwise,
}
use mathlib.Core.Path.{◌≡◌, refl, ap, ◌∙◌}
use mathlib.Core.Bool.{Bool, false, ◌&&◌, ◌||◌}
use native.Mathlib.Nat.{pow-suc, one-le-pow}
use native.Mathlib.Omega.{arith}
use feed_handler.Prelude.Tests.{◌==◌, ◌!=◌, leb, ltb}

-- Any count of rounds that covers the first number gives the same digits.
module _ (last : ℕ → ℕ) (join : ℕ → ℕ → ℕ) where
  digits_rounds : (r s a b : ℕ) → a ≤ r → a ≤ s → digits last join r a b ≡ digits last join s a b
  digits_rounds zero zero a b h k = refl
  digits_rounds zero (suc s) zero b h k = refl
  digits_rounds zero (suc s) (suc a) b h k = absurd (omega arith)
  digits_rounds (suc r) zero zero b h k = refl
  digits_rounds (suc r) zero (suc a) b h k = absurd (omega arith)
  digits_rounds (suc r) (suc s) zero b h k = refl
  digits_rounds (suc r) (suc s) (suc a) b h k =
      omega (arith, digits_rounds r s (suc a / 2) (b / 2) (omega arith) (omega arith))

  bitwise-double :
      (a b : ℕ)
      → bitwise last join (suc a) b
        ≡ bitwise last join (suc a / 2) (b / 2) * 2 + join (suc a % 2) (b % 2)
  bitwise-double a b =
      omega (arith, digits_rounds a (suc a / 2) (suc a / 2) (b / 2) (omega arith) (omega arith))

pub bit_or_step : (a b : ℕ) → bit_or a b ≡ bit_or (a / 2) (b / 2) * 2 + max (a % 2) (b % 2)
bit_or_step zero b = omega (arith, bit_or-bitwise 0 b, bit_or-bitwise 0 (b / 2))
bit_or_step (suc a) b = omega (
  arith,
  bit_or-bitwise (suc a) b,
  bit_or-bitwise (suc a / 2) (b / 2),
  bitwise-double (λ d. d) max a b,
)

pub bit_and_step : (a b : ℕ) → bit_and a b ≡ bit_and (a / 2) (b / 2) * 2 + min (a % 2) (b % 2)
bit_and_step zero b = omega (arith, bit_and-bitwise 0 b, bit_and-bitwise 0 (b / 2))
bit_and_step (suc a) b = omega (
  arith,
  bit_and-bitwise (suc a) b,
  bit_and-bitwise (suc a / 2) (b / 2),
  bitwise-double (λ d. 0) min a b,
)

-- The digit of weight 2 ^ i.
abbrev pub test_bit : ℕ → ℕ → Bool
test_bit w zero = w % 2 == 1
test_bit w (suc i) = test_bit (w / 2) i

pub test_bit-bit_or : (i a b : ℕ) → test_bit (bit_or a b) i ≡ test_bit a i || test_bit b i
test_bit-bit_or zero a b = ground (arith, bit_or_step a b)
test_bit-bit_or (suc i) a b =
    let halves : bit_or a b / 2 ≡ bit_or (a / 2) (b / 2) = omega (arith, bit_or_step a b) in
    rw halves (test_bit-bit_or i (a / 2) (b / 2))

pub test_bit-bit_and : (i a b : ℕ) → test_bit (bit_and a b) i ≡ test_bit a i && test_bit b i
test_bit-bit_and zero a b = ground (arith, bit_and_step a b)
test_bit-bit_and (suc i) a b =
    let halves : bit_and a b / 2 ≡ bit_and (a / 2) (b / 2) = omega (arith, bit_and_step a b) in
    rw halves (test_bit-bit_and i (a / 2) (b / 2))

pub test_bit-zero : (i : ℕ) → test_bit 0 i ≡ false
test_bit-zero zero = refl
test_bit-zero (suc i) = test_bit-zero i

-- A power of two below another.
pub pow-lt-pow_right : (b w : ℕ) → b < w → 2 * 2 ^ b ≤ 2 ^ w
pow-lt-pow_right b zero h = absurd (omega arith)
pow-lt-pow_right zero (suc w) h = omega (arith, pow-suc 2 w, one-le-pow w 2)
pow-lt-pow_right (suc b) (suc w) h =
    omega (arith, pow-suc 2 w, pow-suc 2 b, pow-lt-pow_right b w (omega arith))

bit_and-zero : (n a : ℕ) → a ≤ n → bit_and a 0 ≡ 0
bit_and-zero n zero h = omega (arith, bit_and-bitwise 0 0)
bit_and-zero zero (suc a) h = absurd (omega arith)
bit_and-zero (suc n) (suc a) h =
    omega (arith, bit_and_step (suc a) 0, bit_and-zero n (suc a / 2) (omega arith))

bit_or-zero : (n a : ℕ) → a ≤ n → bit_or a 0 ≡ a
bit_or-zero n zero h = omega (arith, bit_or-bitwise 0 0)
bit_or-zero zero (suc a) h = absurd (omega arith)
bit_or-zero (suc n) (suc a) h =
    omega (arith, bit_or_step (suc a) 0, bit_or-zero n (suc a / 2) (omega arith))

-- A mask of `k` ones takes the remainder by 2 ^ k.
bit_and-ones : (k q r : ℕ) → r < 2 ^ k → bit_and (q * 2 ^ k + r) (2 ^ k - 1) ≡ r
bit_and-ones zero q r h = omega (arith, bit_and-zero (q * 1 + r) (q * 1 + r) (omega arith))
bit_and-ones (suc k) q r h =
    let p : q * 2 ^ suc k ≡ 2 * (q * 2 ^ k) = omega (arith, ap (λ (t : ℕ). q * t) (pow-suc 2 k)) in
    ground (
      arith,
      p,
      pow-suc 2 k,
      one-le-pow k 2,
      bit_and_step (q * 2 ^ suc k + r) (2 ^ suc k - 1),
      bit_and-ones k q (r / 2) (omega (arith, pow-suc 2 k)),
    )

pub bit_and_mask : (k a : ℕ) → bit_and a (2 ^ k - 1) ≡ a % 2 ^ k
bit_and_mask k a = ground (arith, one-le-pow k 2, bit_and-ones k (a / 2 ^ k) (a % 2 ^ k))

-- `(q << k) | r` is a sum where `r` has `k` bits.
pub bit_or-shifted : (k q r : ℕ) → r < 2 ^ k → bit_or (q * 2 ^ k) r ≡ q * 2 ^ k + r
bit_or-shifted zero q r h =
    let e : r ≡ 0 = omega arith in rw e (omega (arith, bit_or-zero (q * 1) (q * 1) (omega arith)))
bit_or-shifted (suc k) q r h =
    let p : q * 2 ^ suc k ≡ 2 * (q * 2 ^ k) = omega (arith, ap (λ (t : ℕ). q * t) (pow-suc 2 k)) in
    ground (
      arith,
      p,
      bit_or_step (q * 2 ^ suc k) r,
      bit_or-shifted k q (r / 2) (omega (arith, pow-suc 2 k)),
    )

-- The single bit `1 << b`.
pub test_bit-pow : (b i : ℕ) → test_bit (2 ^ b) i ≡ b == i
test_bit-pow zero zero = refl
test_bit-pow zero (suc i) = test_bit-zero i ∙ ground arith
test_bit-pow (suc b) zero = ground (arith, pow-suc 2 b)
test_bit-pow (suc b) (suc i) =
    let e : 2 ^ suc b / 2 ≡ 2 ^ b = omega (arith, pow-suc 2 b) in
    rw e (test_bit-pow b i ∙ ground arith)

-- The mask `(1 << n) - 1` of the `n` lowest bits.
pub test_bit-low : (n i : ℕ) → test_bit (2 ^ n - 1) i ≡ ltb i n
test_bit-low zero i = test_bit-zero i ∙ ground arith
test_bit-low (suc n) zero = ground (arith, pow-suc 2 n, one-le-pow n 2)
test_bit-low (suc n) (suc i) =
    let e : (2 ^ suc n - 1) / 2 ≡ 2 ^ n - 1 = omega (arith, pow-suc 2 n, one-le-pow n 2) in
    rw e (test_bit-low n i ∙ ground arith)

-- The mask `~((1 << n) - 1)` of a `w`-bit word.
pub test_bit-high : (w n i : ℕ) → n ≤ w → i < w → test_bit (2 ^ w - 2 ^ n) i ≡ leb n i
test_bit-high w zero i h k = test_bit-low w i ∙ ground arith
test_bit-high zero (suc n) i h k = absurd (omega arith)
test_bit-high (suc w) (suc n) zero h k = ground (arith, pow-suc 2 n, pow-suc 2 w)
test_bit-high (suc w) (suc n) (suc i) h k =
    let e : (2 ^ suc w - 2 ^ suc n) / 2 ≡ 2 ^ w - 2 ^ n = omega (arith, pow-suc 2 n, pow-suc 2 w) in
    rw e (test_bit-high w n i (omega arith) (omega arith) ∙ ground arith)

-- The mask `~(1 << b)` of a `w`-bit word.
pub test_bit-clear : (w b i : ℕ) → b < w → i < w → test_bit (2 ^ w - 1 - 2 ^ b) i ≡ b != i
test_bit-clear zero b i h k = absurd (omega arith)
test_bit-clear (suc w) zero zero h k = ground (arith, pow-suc 2 w, one-le-pow w 2)
test_bit-clear (suc w) zero (suc i) h k =
    let e : (2 ^ suc w - 1 - 1) / 2 ≡ 2 ^ w - 1 = omega (arith, pow-suc 2 w, one-le-pow w 2) in
    rw e (test_bit-low w i ∙ ground arith)
test_bit-clear (suc w) (suc b) zero h k =
    ground (arith, pow-suc 2 w, pow-suc 2 b, one-le-pow b 2, pow-lt-pow_right b w (omega arith))
test_bit-clear (suc w) (suc b) (suc i) h k =
    let e : (2 ^ suc w - 1 - 2 ^ suc b) / 2 ≡ 2 ^ w - 1 - 2 ^ b =
      omega (arith, pow-suc 2 w, pow-suc 2 b) in
    rw e (test_bit-clear w b i (omega arith) (omega arith) ∙ ground arith)
