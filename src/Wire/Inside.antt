-- ===== src/Wire/Inside.antt =====
-- A read returns exactly when all its bytes lie inside the buffer.
use feed_handler.Prelude.{
  ℕ, zero, suc, ◌+◌, ◌*◌, ◌%◌, ◌^◌, bit_or, List, [], ◌∷◌, >>=-eq-some, ◌≤◌, ◌<◌, ◌≡◌, refl, some,
  get_elem?, length, arith, get_elem?-eq-get_or,
}
use feed_handler.Wire.Bytes.{
  Buffer, load_le, bswap, read_be16, read_be32, read_be64, read_be48, shift_in, read_chars,
}

pub get_elem?-inside :
    (buf : Buffer) (p : ℕ) → p < length buf → (b : ℕ) × (get_elem? buf p ≡ some b)
get_elem?-inside buf p h = (_, get_elem?-eq-get_or buf p 0 h)

pub get_elem?-lt : (buf : Buffer) (p : ℕ) {b : ℕ} → get_elem? buf p ≡ some b → p < length buf
get_elem?-lt [] p h = cc
get_elem?-lt (x ∷ buf) zero h = omega arith
get_elem?-lt (x ∷ buf) (suc p) h = omega (arith, get_elem?-lt buf p h)

load_le-inside :
    (n : ℕ) (buf : Buffer) (p : ℕ) → p + n ≤ length buf → (v : ℕ) × (load_le buf p n ≡ some v)
unfolding load_le
load_le-inside zero buf p h = (0, refl)
load_le-inside (suc n) buf p h =
    let (b, e) = get_elem?-inside buf p (omega arith) in
    let (v, f) = load_le-inside n buf (suc p) (omega arith) in (b + 256 * v, rw (e, f))

pub read_be16-inside :
    (buf : Buffer) (p : ℕ) → p + 2 ≤ length buf → (v : ℕ) × (read_be16 buf p ≡ some v)
unfolding read_be16
read_be16-inside buf p h = let (v, e) = load_le-inside 2 buf p h in (bswap 2 v, rw e)

pub read_be32-inside :
    (buf : Buffer) (p : ℕ) → p + 4 ≤ length buf → (v : ℕ) × (read_be32 buf p ≡ some v)
unfolding read_be32
read_be32-inside buf p h = let (v, e) = load_le-inside 4 buf p h in (bswap 4 v, rw e)

pub read_be64-inside :
    (buf : Buffer) (p : ℕ) → p + 8 ≤ length buf → (v : ℕ) × (read_be64 buf p ≡ some v)
unfolding read_be64
read_be64-inside buf p h = let (v, e) = load_le-inside 8 buf p h in (bswap 8 v, rw e)

shift_in-inside :
    (n : ℕ) (buf : Buffer) (p acc : ℕ)
    → p + n ≤ length buf
    → (v : ℕ) × (shift_in n buf p acc ≡ some v)
unfolding shift_in
shift_in-inside zero buf p acc h = (acc, refl)
shift_in-inside (suc n) buf p acc h =
    let (b, e) = get_elem?-inside buf p (omega arith) in
    let (v, f) = shift_in-inside n buf (suc p) (bit_or (acc * 2 ^ 8 % 2 ^ 64) b) (omega arith) in
    (v, rw e f)

pub read_be48-inside :
    (buf : Buffer) (p : ℕ) → p + 6 ≤ length buf → (v : ℕ) × (read_be48 buf p ≡ some v)
unfolding read_be48
read_be48-inside buf p h = shift_in-inside 6 buf p 0 h

pub read_chars-inside :
    (n : ℕ) (buf : Buffer) (p : ℕ)
    → p + n ≤ length buf
    → (cs : List ℕ) × (read_chars n buf p ≡ some cs)
unfolding read_chars
read_chars-inside zero buf p h = ([], refl)
read_chars-inside (suc n) buf p h =
    let (b, e) = get_elem?-inside buf p (omega arith) in
    let (cs, f) = read_chars-inside n buf (suc p) (omega arith) in (b ∷ cs, rw (e, f))

-- A read of at least one byte that returns has not left the buffer.
load_le-within :
    (n : ℕ) (buf : Buffer) (p : ℕ) {v : ℕ} → load_le buf p (suc n) ≡ some v → p + suc n ≤ length buf
unfolding load_le
load_le-within zero buf p h =
    let (b, e, f) = >>=-eq-some (get_elem? buf p) _ h in omega (arith, get_elem?-lt buf p e)
load_le-within (suc n) buf p h =
    let (b, e, f) = >>=-eq-some (get_elem? buf p) _ h in
    let (r, g, k) = >>=-eq-some (load_le buf (suc p) (suc n)) _ f in
    omega (arith, load_le-within n buf (suc p) g)

pub read_be32-within :
    (buf : Buffer) (p : ℕ) {v : ℕ} → read_be32 buf p ≡ some v → p + 4 ≤ length buf
unfolding read_be32
read_be32-within buf p h =
    let (w, e, f) = >>=-eq-some (load_le buf p 4) _ h in load_le-within 3 buf p e

pub read_be64-within :
    (buf : Buffer) (p : ℕ) {v : ℕ} → read_be64 buf p ≡ some v → p + 8 ≤ length buf
unfolding read_be64
read_be64-within buf p h =
    let (w, e, f) = >>=-eq-some (load_le buf p 8) _ h in load_le-within 7 buf p e
