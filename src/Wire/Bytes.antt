-- ===== src/Wire/Bytes.antt =====
-- The readers of itch_messages.hpp and the writers of mold_udp64.hpp. A buffer is the list of its
-- bytes, and a pointer into it an index; a read or a write outside the buffer is a fault. `memcpy`
-- to and from an integer has the host's byte order, which is little endian on the x86 machines that
-- the program is built for.
use feed_handler.Prelude.{
  ℕ, zero, suc, ◌+◌, ◌*◌, ◌/◌, ◌%◌, ◌^◌, bit_or, List, [], ◌∷◌, Option, none, some, ◌>>=◌,
  get_elem?, length, set, ltb, if◌then◌else◌,
}

abbrev pub Buffer : Type 0
Buffer = List ℕ

-- `memcpy(&v, p, n)`
unfoldable pub load_le : Buffer → ℕ → ℕ → Option ℕ
load_le buf p zero = some 0
load_le buf p (suc n) = do b ← get_elem? buf p; rest ← load_le buf (suc p) n; some (b + 256 * rest)

-- `__builtin_bswap16`, `__builtin_bswap32` and `__builtin_bswap64`, at `n` of 2, 4 and 8 bytes.
unfoldable pub bswap : ℕ → ℕ → ℕ
bswap zero v = 0
bswap (suc n) v = v % 256 * 256 ^ n + bswap n (v / 256)

unfoldable pub read_be16 : Buffer → ℕ → Option ℕ
read_be16 buf p = do v ← load_le buf p 2; some (bswap 2 v)

unfoldable pub read_be32 : Buffer → ℕ → Option ℕ
read_be32 buf p = do v ← load_le buf p 4; some (bswap 4 v)

unfoldable pub read_be64 : Buffer → ℕ → Option ℕ
read_be64 buf p = do v ← load_le buf p 8; some (bswap 8 v)

-- `for (i = 0; i < n; i++) v = (v << 8) | p[i];` on a 64-bit `v`.
unfoldable pub shift_in : ℕ → Buffer → ℕ → ℕ → Option ℕ
shift_in zero buf p v = some v
shift_in (suc n) buf p v = do
  b ← get_elem? buf p
  shift_in n buf (suc p) (bit_or (v * 2 ^ 8 % 2 ^ 64) b)

unfoldable pub read_be48 : Buffer → ℕ → Option ℕ
read_be48 buf p = shift_in 6 buf p 0

-- `memcpy(chars, p, n)`
unfoldable pub read_chars : ℕ → Buffer → ℕ → Option (List ℕ)
read_chars zero buf p = some []
read_chars (suc n) buf p = do b ← get_elem? buf p; rest ← read_chars n buf (suc p); some (b ∷ rest)

-- `*p = b`
unfoldable pub write_byte : Buffer → ℕ → ℕ → Option Buffer
write_byte buf p b = if ltb p (length buf) then some (set buf p b) else none

-- `memcpy(p, &v, n)`
unfoldable pub store_le : ℕ → Buffer → ℕ → ℕ → Option Buffer
store_le zero buf p v = some buf
store_le (suc n) buf p v = do buf' ← write_byte buf p (v % 256); store_le n buf' (suc p) (v / 256)

unfoldable pub write_be16 : Buffer → ℕ → ℕ → Option Buffer
write_be16 buf p v = store_le 2 buf p (bswap 2 v)

unfoldable pub write_be64 : Buffer → ℕ → ℕ → Option Buffer
write_be64 buf p v = store_le 8 buf p (bswap 8 v)
