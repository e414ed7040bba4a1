-- ===== src/Wire/OrderExecuted.antt =====
-- `itch::OrderExecuted`.
use feed_handler.Prelude.{
  ℕ, ◌+◌, ◌≤◌, ◌<◌, ◌^◌, ◌≡◌, ◌↔◌, List, ◌++◌, Option, some, ◌>>=◌, get_elem?, length, arith,
  >>=-eq-some,
}
use feed_handler.Wire.Bytes.{Buffer, read_be16, read_be32, read_be48, read_be64}
use feed_handler.Wire.Layout.{be_bytes, At, At-field, read_be32-At, read_be64-At}
use feed_handler.Wire.Inside.{read_be32-inside, read_be64-inside, read_be64-within}
use feed_handler.Wire.Header.{order_executed, header, header-Reads, header-inside}

abbrev pub k_wire_size : ℕ
k_wire_size = 31

pub record OrderExecuted : Type 0 where
  pub stock_locate : ℕ
  pub tracking_number : ℕ
  pub timestamp_ns : ℕ
  pub order_ref : ℕ
  pub executed_shares : ℕ
  pub match_number : ℕ

-- `OrderExecuted::parse`, on the message that begins at index `wire`.
unfoldable pub parse : Buffer → ℕ → Option OrderExecuted
parse buf wire = do
  stock_locate ← read_be16 buf (wire + 1)
  tracking_number ← read_be16 buf (wire + 3)
  timestamp_ns ← read_be48 buf (wire + 5)
  order_ref ← read_be64 buf (wire + 11)
  executed_shares ← read_be32 buf (wire + 19)
  match_number ← read_be64 buf (wire + 23)
  some (record {
    stock_locate = stock_locate;
    tracking_number = tracking_number;
    timestamp_ns = timestamp_ns;
    order_ref = order_ref;
    executed_shares = executed_shares;
    match_number = match_number;
  })

-- The message as the protocol lays it out, for comparison with `parse`.
unfoldable pub encode : OrderExecuted → List ℕ
encode m =
    header order_executed m.stock_locate m.tracking_number m.timestamp_ns m.order_ref
      (be_bytes 4 m.executed_shares ++ be_bytes 8 m.match_number)

-- Every field fits its width.
pub record Fits (m : OrderExecuted) : Type 0 where
  pub locate_fits : m.stock_locate < 2 ^ 16
  pub tracking_fits : m.tracking_number < 2 ^ 16
  pub timestamp_fits : m.timestamp_ns < 2 ^ 48
  pub ref_fits : m.order_ref < 2 ^ 64
  pub executed_shares_fits : m.executed_shares < 2 ^ 32
  pub match_number_fits : m.match_number < 2 ^ 64

-- Wherever an order-executed message whose fields fit their widths stands encoded in a buffer, its first byte is
-- 'E' and `parse` returns that very message.
pub parse-encode_order_executed :
    (buf : Buffer) (p : ℕ) (m : OrderExecuted)
    → Fits m
    → At buf p (encode m)
    → (get_elem? buf p ≡ some b'E') × (parse buf p ≡ some m)
unfolding parse encode
parse-encode_order_executed buf p m fit at =
    let (code, h, r0) =
      header-Reads buf p order_executed m.stock_locate m.tracking_number m.timestamp_ns m.order_ref
        _ fit.locate_fits fit.tracking_fits fit.timestamp_fits fit.ref_fits at in
    let (f0, r1) = At-field buf (p + 19) (p + 23) 4 m.executed_shares _ r0 (omega arith) in
    (
      code,
      rw (
        h.locate_read,
        h.tracking_read,
        h.timestamp_read,
        h.ref_read,
        read_be32-At buf (p + 19) m.executed_shares f0 fit.executed_shares_fits,
        read_be64-At buf (p + 23) m.match_number r1 fit.match_number_fits,
      ),
    )

-- `parse` of an order-executed message returns one if and only if the whole wire size lies inside the buffer, since
-- otherwise it reads outside.
pub parse-inside_order_executed :
    (buf : Buffer) (p : ℕ)
    → ((m : OrderExecuted) × (parse buf p ≡ some m)) ↔ (p + k_wire_size ≤ length buf)
unfolding parse
parse-inside_order_executed buf p = (
  λ r.
      let (l, _, h1) = >>=-eq-some (read_be16 buf (p + 1)) _ r.1 in
      let (t, _, h2) = >>=-eq-some (read_be16 buf (p + 3)) _ h1 in
      let (s, _, h3) = >>=-eq-some (read_be48 buf (p + 5)) _ h2 in
      let (o, _, h4) = >>=-eq-some (read_be64 buf (p + 11)) _ h3 in
      let (v0, _, h5) = >>=-eq-some (read_be32 buf (p + 19)) _ h4 in
      let (v1, e, _) = >>=-eq-some (read_be64 buf (p + 23)) _ h5 in
      omega (arith, read_be64-within buf (p + 23) e),
  λ h.
      let (l, t, s, r, g) = header-inside buf p (omega arith) in
      let (v0, e0) = read_be32-inside buf (p + 19) (omega arith) in
      let (v1, e1) = read_be64-inside buf (p + 23) (omega arith) in
      (
        record {
          stock_locate = l;
          tracking_number = t;
          timestamp_ns = s;
          order_ref = r;
          executed_shares = v0;
          match_number = v1;
        },
        rw (g.locate_read, g.tracking_read, g.timestamp_read, g.ref_read, e0, e1),
      ),
)
