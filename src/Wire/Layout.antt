-- ===== src/Wire/Layout.antt =====
-- Where bytes stand in a buffer, and that the readers decode a big-endian number from it.
use native.Mathlib.Nat.{
  add-mul-mod_self_left, mul-le-mul_left, mul-le-mul_right, mod-eq_of_lt, pow-suc, one-le-pow,
  mod-lt, div-add-mod,
}
use feed_handler.Prelude.{
  ℕ, zero, suc, ◌+◌, ◌*◌, ◌/◌, ◌%◌, ◌^◌, ◌≤◌, ◌<◌, ◌≡◌, refl, ap, sym, ◌∙◌, List, [], ◌∷◌, ◌++◌,
  some, get_elem?, length, arith,
}
use feed_handler.Prelude.Bits.{bit_or-shifted}
use feed_handler.Wire.Bytes.{
  Buffer, load_le, bswap, read_be16, read_be32, read_be64, read_be48, shift_in, read_chars,
}

-- The number `v` in `n` bytes, the most significant first, as the protocol writes it.
unfoldable pub be_bytes : ℕ → ℕ → List ℕ
be_bytes zero v = []
be_bytes (suc n) v = (v / 256 ^ n % 256) ∷ be_bytes n v

-- The bytes stand in the buffer from index `p` on.
unfoldable pub At : Buffer → ℕ → List ℕ → Type 0
At buf p [] = Unit
At buf p (b ∷ bs) = (get_elem? buf p ≡ some b) × At buf (suc p) bs

pub length-be_bytes : (n v : ℕ) → length (be_bytes n v) ≡ n
unfolding be_bytes
length-be_bytes zero v = refl
length-be_bytes (suc n) v = ap suc (length-be_bytes n v)

pub At-append :
    (buf : Buffer) (p q : ℕ) (xs ys : List ℕ)
    → At buf p (xs ++ ys)
    → p + length xs ≡ q
    → At buf p xs × At buf q ys
unfolding At
At-append buf p q [] ys h e = (tt, (let e' : q ≡ p = omega arith in rw e' h))
At-append buf p q (x ∷ xs) ys h e =
    let rest = At-append buf (suc p) q xs ys h.1 (omega arith) in ((h.0, rest.0), rest.1)

-- A number of `n` bytes, and what follows it.
pub At-field :
    (buf : Buffer) (p q n v : ℕ) (ys : List ℕ)
    → At buf p (be_bytes n v ++ ys)
    → p + n ≡ q
    → At buf p (be_bytes n v) × At buf q ys
At-field buf p q n v ys h e =
    At-append buf p q (be_bytes n v) ys h (omega (arith, length-be_bytes n v))

At-shift : (x : ℕ) (buf : Buffer) (p : ℕ) (bs : List ℕ) → At buf p bs → At (x ∷ buf) (suc p) bs
unfolding At
At-shift x buf p [] h = tt
At-shift x buf p (b ∷ bs) h = (h.0, At-shift x buf (suc p) bs h.1)

-- Bytes stand where they have been concatenated.
pub At-middle : (xs ys zs : List ℕ) → At (xs ++ ys ++ zs) (length xs) ys
unfolding At
At-middle [] [] zs = tt
At-middle [] (y ∷ ys) zs = (refl, At-shift y (ys ++ zs) 0 ys (At-middle [] ys zs))
At-middle (x ∷ xs) ys zs = At-shift x (xs ++ ys ++ zs) (length xs) ys (At-middle xs ys zs)

-- One more digit of base 256 on top of a remainder.
split_digit : (P v : ℕ) → 0 < P → v / P % 256 * P + v % P ≡ v % (P * 256)
split_digit P v pos =
    let top = v / P % 256 in
    let parts : v ≡ top * P + v % P + P * 256 * (v / P / 256) =
      omega (arith, div-add-mod v P, ap (λ (t : ℕ). P * t) (div-add-mod (v / P) 256)) in
    let below : top * P ≤ 255 * P = mul-le-mul_right P (omega arith) in
    let small : top * P + v % P < P * 256 = omega (arith, mod-lt v pos) in
    sym (
      ap (λ (t : ℕ). t % (P * 256)) parts
      ∙ add-mul-mod_self_left (top * P + v % P) (P * 256) (v / P / 256)
      ∙ mod-eq_of_lt small)

split_top : (n v : ℕ) → v / 256 ^ n % 256 * 256 ^ n + v % 256 ^ n ≡ v % 256 ^ suc n
split_top n v = rw pow-suc (split_digit (256 ^ n) v (one-le-pow n 256 (omega arith)))

le_value : List ℕ → ℕ
le_value [] = 0
le_value (b ∷ bs) = b + 256 * le_value bs

load_le-At :
    (buf : Buffer) (p : ℕ) (bs : List ℕ)
    → At buf p bs
    → load_le buf p (length bs) ≡ some (le_value bs)
unfolding load_le le_value At
load_le-At buf p [] h = refl
load_le-At buf p (b ∷ bs) h = rw (h.0, load_le-At buf (suc p) bs h.1)

bswap-le_value : (n v : ℕ) → bswap n (le_value (be_bytes n v)) ≡ v % 256 ^ n
unfolding bswap le_value be_bytes
bswap-le_value zero v = omega arith
bswap-le_value (suc n) v =
    let top = v / 256 ^ n % 256 in
    let low = le_value (be_bytes n v) in
    let e : (top + 256 * low) % 256 ≡ top = omega arith in
    let f : (top + 256 * low) / 256 ≡ low = omega arith in
    rw (e, f) (omega (arith, split_top n v, bswap-le_value n v))

-- `memcpy` and the byte swap together read the most significant byte first.
load_be-At :
    (n : ℕ) (buf : Buffer) (p v : ℕ)
    → At buf p (be_bytes n v)
    → v < 256 ^ n
    → (w : ℕ) × (load_le buf p n ≡ some w) × (bswap n w ≡ v)
load_be-At n buf p v h fits =
    let loaded = load_le-At buf p (be_bytes n v) h in
    let e = length-be_bytes n v in
    (le_value (be_bytes n v), rw e at loaded, bswap-le_value n v ∙ mod-eq_of_lt fits)

pub read_be16-At :
    (buf : Buffer) (p v : ℕ) → At buf p (be_bytes 2 v) → v < 2 ^ 16 → read_be16 buf p ≡ some v
unfolding read_be16
read_be16-At buf p v h fits = let (w, e, f) = load_be-At 2 buf p v h fits in rw (e, f)

pub read_be32-At :
    (buf : Buffer) (p v : ℕ) → At buf p (be_bytes 4 v) → v < 2 ^ 32 → read_be32 buf p ≡ some v
unfolding read_be32
read_be32-At buf p v h fits = let (w, e, f) = load_be-At 4 buf p v h fits in rw (e, f)

pub read_be64-At :
    (buf : Buffer) (p v : ℕ) → At buf p (be_bytes 8 v) → v < 2 ^ 64 → read_be64 buf p ≡ some v
unfolding read_be64
read_be64-At buf p v h fits = let (w, e, f) = load_be-At 8 buf p v h fits in rw (e, f)

-- The loop of `read_be48` never shifts a bit out of the 64-bit accumulator.
shift_in-At :
    (n : ℕ) (buf : Buffer) (p acc v : ℕ)
    → At buf p (be_bytes n v)
    → (acc + 1) * 256 ^ n ≤ 2 ^ 56
    → shift_in n buf p acc ≡ some (acc * 256 ^ n + v % 256 ^ n)
unfolding shift_in be_bytes At
shift_in-At zero buf p acc v h room = ap some (omega arith)
shift_in-At (suc n) buf p acc v h room =
    let P = 256 ^ n in
    let top = v / P % 256 in
    let pos : 1 ≤ P = one-le-pow n 256 (omega arith) in
    let power = pow-suc 256 n in
    let scaled : (acc + 1) * 256 ^ suc n ≡ (acc + 1) * (P * 256) =
      ap (λ (t : ℕ). (acc + 1) * t) power in
    let lower : (acc + 1) * 256 ≤ (acc + 1) * 256 * P =
      omega (arith, mul-le-mul_left ((acc + 1) * 256) pos) in
    let kept : acc * 2 ^ 8 % 2 ^ 64 ≡ acc * 2 ^ 8 = mod-eq_of_lt (omega arith) in
    let joined = bit_or-shifted 8 acc top (mod-lt (v / P) (omega arith)) in
    let below : (top + 1) * P ≤ 256 * P = mul-le-mul_right P (omega arith) in
    rw (h.0, kept, joined)
      (shift_in-At n buf (suc p) (acc * 2 ^ 8 + top) v h.1 (omega arith)
        ∙ ap some (omega (arith, split_top n v, ap (λ (t : ℕ). acc * t) power)))

pub read_be48-At :
    (buf : Buffer) (p v : ℕ) → At buf p (be_bytes 6 v) → v < 2 ^ 48 → read_be48 buf p ≡ some v
unfolding read_be48
read_be48-At buf p v h fits =
    shift_in-At 6 buf p 0 v h (omega arith) ∙ ap some (omega (arith, mod-eq_of_lt fits))

pub read_chars-At :
    (buf : Buffer) (p : ℕ) (bs : List ℕ) → At buf p bs → read_chars (length bs) buf p ≡ some bs
unfolding read_chars At
read_chars-At buf p [] h = refl
read_chars-At buf p (b ∷ bs) h = rw (h.0, read_chars-At buf (suc p) bs h.1)

pub get_elem?-At :
    (buf : Buffer) (p v : ℕ) → At buf p (be_bytes 1 v) → v < 256 → get_elem? buf p ≡ some v
unfolding At be_bytes
get_elem?-At buf p v h fits = h.0 ∙ ap some (omega arith)
