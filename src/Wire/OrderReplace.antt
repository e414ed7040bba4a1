-- ===== src/Wire/OrderReplace.antt =====
-- `itch::OrderReplace`.
use feed_handler.Prelude.{
  ℕ, ◌+◌, ◌≤◌, ◌<◌, ◌^◌, ◌≡◌, ◌↔◌, List, ◌++◌, Option, some, ◌>>=◌, get_elem?, length, arith,
  >>=-eq-some,
}
use feed_handler.Wire.Bytes.{Buffer, read_be16, read_be32, read_be48, read_be64}
use feed_handler.Wire.Layout.{be_bytes, At, At-field, read_be32-At, read_be64-At}
use feed_handler.Wire.Inside.{read_be32-inside, read_be64-inside, read_be32-within}
use feed_handler.Wire.Header.{order_replace, header, header-Reads, header-inside}

abbrev pub k_wire_size : ℕ
k_wire_size = 35

pub record OrderReplace : Type 0 where
  pub stock_locate : ℕ
  pub tracking_number : ℕ
  pub timestamp_ns : ℕ
  pub original_order_ref : ℕ
  pub new_order_ref : ℕ
  pub shares : ℕ
  pub price : ℕ

-- `OrderReplace::parse`, on the message that begins at index `wire`.
unfoldable pub parse : Buffer → ℕ → Option OrderReplace
parse buf wire = do
  stock_locate ← read_be16 buf (wire + 1)
  tracking_number ← read_be16 buf (wire + 3)
  timestamp_ns ← read_be48 buf (wire + 5)
  original_order_ref ← read_be64 buf (wire + 11)
  new_order_ref ← read_be64 buf (wire + 19)
  shares ← read_be32 buf (wire + 27)
  price ← read_be32 buf (wire + 31)
  some (record {
    stock_locate = stock_locate;
    tracking_number = tracking_number;
    timestamp_ns = timestamp_ns;
    original_order_ref = original_order_ref;
    new_order_ref = new_order_ref;
    shares = shares;
    price = price;
  })

-- The message as the protocol lays it out, for comparison with `parse`.
unfoldable pub encode : OrderReplace → List ℕ
encode m =
    header order_replace m.stock_locate m.tracking_number m.timestamp_ns m.original_order_ref
      (be_bytes 8 m.new_order_ref ++ ((be_bytes 4 m.shares ++ be_bytes 4 m.price)))

-- Every field fits its width.
pub record Fits (m : OrderReplace) : Type 0 where
  pub locate_fits : m.stock_locate < 2 ^ 16
  pub tracking_fits : m.tracking_number < 2 ^ 16
  pub timestamp_fits : m.timestamp_ns < 2 ^ 48
  pub ref_fits : m.original_order_ref < 2 ^ 64
  pub new_order_ref_fits : m.new_order_ref < 2 ^ 64
  pub shares_fits : m.shares < 2 ^ 32
  pub price_fits : m.price < 2 ^ 32

-- Wherever an order-replace message whose fields fit their widths stands encoded in a buffer, its first byte is
-- 'U' and `parse` returns that very message.
pub parse-encode_order_replace :
    (buf : Buffer) (p : ℕ) (m : OrderReplace)
    → Fits m
    → At buf p (encode m)
    → (get_elem? buf p ≡ some b'U') × (parse buf p ≡ some m)
unfolding parse encode
parse-encode_order_replace buf p m fit at =
    let (code, h, r0) =
      header-Reads buf p order_replace m.stock_locate m.tracking_number m.timestamp_ns
        m.original_order_ref _ fit.locate_fits fit.tracking_fits fit.timestamp_fits fit.ref_fits
        at in
    let (f0, r1) = At-field buf (p + 19) (p + 27) 8 m.new_order_ref _ r0 (omega arith) in
    let (f1, r2) = At-field buf (p + 27) (p + 31) 4 m.shares _ r1 (omega arith) in
    (
      code,
      rw (
        h.locate_read,
        h.tracking_read,
        h.timestamp_read,
        h.ref_read,
        read_be64-At buf (p + 19) m.new_order_ref f0 fit.new_order_ref_fits,
        read_be32-At buf (p + 27) m.shares f1 fit.shares_fits,
        read_be32-At buf (p + 31) m.price r2 fit.price_fits,
      ),
    )

-- `parse` of an order-replace message returns one if and only if the whole wire size lies inside the buffer, since
-- otherwise it reads outside.
pub parse-inside_order_replace :
    (buf : Buffer) (p : ℕ)
    → ((m : OrderReplace) × (parse buf p ≡ some m)) ↔ (p + k_wire_size ≤ length buf)
unfolding parse
parse-inside_order_replace buf p = (
  λ r.
      let (l, _, h1) = >>=-eq-some (read_be16 buf (p + 1)) _ r.1 in
      let (t, _, h2) = >>=-eq-some (read_be16 buf (p + 3)) _ h1 in
      let (s, _, h3) = >>=-eq-some (read_be48 buf (p + 5)) _ h2 in
      let (o, _, h4) = >>=-eq-some (read_be64 buf (p + 11)) _ h3 in
      let (v0, _, h5) = >>=-eq-some (read_be64 buf (p + 19)) _ h4 in
      let (v1, _, h6) = >>=-eq-some (read_be32 buf (p + 27)) _ h5 in
      let (v2, e, _) = >>=-eq-some (read_be32 buf (p + 31)) _ h6 in
      omega (arith, read_be32-within buf (p + 31) e),
  λ h.
      let (l, t, s, r, g) = header-inside buf p (omega arith) in
      let (v0, e0) = read_be64-inside buf (p + 19) (omega arith) in
      let (v1, e1) = read_be32-inside buf (p + 27) (omega arith) in
      let (v2, e2) = read_be32-inside buf (p + 31) (omega arith) in
      (
        record {
          stock_locate = l;
          tracking_number = t;
          timestamp_ns = s;
          original_order_ref = r;
          new_order_ref = v0;
          shares = v1;
          price = v2;
        },
        rw (g.locate_read, g.tracking_read, g.timestamp_read, g.ref_read, e0, e1, e2),
      ),
)
