-- ===== src/Wire/Header.antt =====
-- `itch::MsgType`, and the fields with which every message begins.
use feed_handler.Prelude.{ℕ, ◌+◌, ◌≤◌, ◌<◌, ◌^◌, ◌≡◌, List, ◌++◌, some, get_elem?, length, arith}
use feed_handler.Wire.Bytes.{Buffer, read_be16, read_be48, read_be64}
use feed_handler.Wire.Layout.{
  be_bytes, At, At-field, get_elem?-At, read_be16-At, read_be48-At, read_be64-At,
}
use feed_handler.Wire.Inside.{read_be16-inside, read_be48-inside, read_be64-inside}

pub data MsgType : Type 0 where
  add_order order_executed order_cancel order_delete order_replace : MsgType

-- The character of a type, the first byte on the wire.
abbrev pub type_code : MsgType → ℕ
type_code add_order = b'A'
type_code order_executed = b'E'
type_code order_cancel = b'X'
type_code order_delete = b'D'
type_code order_replace = b'U'

-- The first nineteen bytes: type, stock locate, tracking number, timestamp, order reference.
abbrev pub header : MsgType → ℕ → ℕ → ℕ → ℕ → List ℕ → List ℕ
header type locate tracking timestamp ref rest =
    be_bytes 1 (type_code type)
    ++ (be_bytes 2 locate
        ++ (be_bytes 2 tracking ++ (be_bytes 6 timestamp ++ (be_bytes 8 ref ++ rest))))

type_code-lt : (type : MsgType) → type_code type < 256
type_code-lt add_order = omega arith
type_code-lt order_executed = omega arith
type_code-lt order_cancel = omega arith
type_code-lt order_delete = omega arith
type_code-lt order_replace = omega arith

-- What the reads of a header find.
pub record Reads (buf : Buffer) (p locate tracking timestamp ref : ℕ) : Type 0 where
  pub locate_read : read_be16 buf (p + 1) ≡ some locate
  pub tracking_read : read_be16 buf (p + 3) ≡ some tracking
  pub timestamp_read : read_be48 buf (p + 5) ≡ some timestamp
  pub ref_read : read_be64 buf (p + 11) ≡ some ref

pub header-Reads :
    (buf : Buffer) (p : ℕ) (type : MsgType) (locate tracking timestamp ref : ℕ) (rest : List ℕ)
    → locate < 2 ^ 16
    → tracking < 2 ^ 16
    → timestamp < 2 ^ 48
    → ref < 2 ^ 64
    → At buf p (header type locate tracking timestamp ref rest)
    → (get_elem? buf p ≡ some (type_code type))
      × Reads buf p locate tracking timestamp ref
      × At buf (p + 19) rest
header-Reads buf p type locate tracking timestamp ref rest hl ht hs hr at =
    let (f0, r0) = At-field buf p (p + 1) 1 _ _ at (omega arith) in
    let (f1, r1) = At-field buf (p + 1) (p + 3) 2 _ _ r0 (omega arith) in
    let (f2, r2) = At-field buf (p + 3) (p + 5) 2 _ _ r1 (omega arith) in
    let (f3, r3) = At-field buf (p + 5) (p + 11) 6 _ _ r2 (omega arith) in
    let (f4, r4) = At-field buf (p + 11) (p + 19) 8 _ _ r3 (omega arith) in
    (
      get_elem?-At buf p (type_code type) f0 (type_code-lt type),
      record {
        locate_read = read_be16-At buf (p + 1) locate f1 hl;
        tracking_read = read_be16-At buf (p + 3) tracking f2 ht;
        timestamp_read = read_be48-At buf (p + 5) timestamp f3 hs;
        ref_read = read_be64-At buf (p + 11) ref f4 hr;
      },
      r4,
    )

pub header-inside :
    (buf : Buffer) (p : ℕ)
    → p + 19 ≤ length buf
    → (l : ℕ) × (t : ℕ) × (s : ℕ) × (r : ℕ) × Reads buf p l t s r
header-inside buf p h =
    let (l, e1) = read_be16-inside buf (p + 1) (omega arith) in
    let (t, e2) = read_be16-inside buf (p + 3) (omega arith) in
    let (s, e3) = read_be48-inside buf (p + 5) (omega arith) in
    let (r, e4) = read_be64-inside buf (p + 11) (omega arith) in
    (
      l,
      t,
      s,
      r,
      record { locate_read = e1; tracking_read = e2; timestamp_read = e3; ref_read = e4 },
    )
