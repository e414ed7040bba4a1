-- ===== src/Wire/AddOrder.antt =====
-- `itch::AddOrder`.
use feed_handler.Prelude.{
  ℕ, ◌+◌, ◌≤◌, ◌<◌, ◌^◌, ◌≡◌, ◌↔◌, List, ◌++◌, Option, some, ◌>>=◌, get_elem?, length, arith,
  >>=-eq-some,
}
use feed_handler.Wire.Bytes.{Buffer, read_be16, read_be32, read_be48, read_be64, read_chars}
use feed_handler.Wire.Layout.{
  be_bytes, At, At-field, At-append, get_elem?-At, read_be32-At, read_chars-At,
}
use feed_handler.Wire.Inside.{
  read_be32-inside, read_chars-inside, read_be32-within, get_elem?-inside,
}
use feed_handler.Wire.Header.{add_order, header, header-Reads, header-inside}

abbrev pub k_wire_size : ℕ
k_wire_size = 36

pub record AddOrder : Type 0 where
  pub stock_locate : ℕ
  pub tracking_number : ℕ
  pub timestamp_ns : ℕ
  pub order_ref : ℕ
  pub side : ℕ
  pub shares : ℕ
  pub stock : List ℕ
  pub price : ℕ

-- `AddOrder::parse`, on the message that begins at index `wire`.
unfoldable pub parse : Buffer → ℕ → Option AddOrder
parse buf wire = do
  stock_locate ← read_be16 buf (wire + 1)
  tracking_number ← read_be16 buf (wire + 3)
  timestamp_ns ← read_be48 buf (wire + 5)
  order_ref ← read_be64 buf (wire + 11)
  side ← get_elem? buf (wire + 19)
  shares ← read_be32 buf (wire + 20)
  stock ← read_chars 8 buf (wire + 24)
  price ← read_be32 buf (wire + 32)
  some (record {
    stock_locate = stock_locate;
    tracking_number = tracking_number;
    timestamp_ns = timestamp_ns;
    order_ref = order_ref;
    side = side;
    shares = shares;
    stock = stock;
    price = price;
  })

-- The message as the protocol lays it out, for comparison with `parse`.
unfoldable pub encode : AddOrder → List ℕ
encode m =
    header add_order m.stock_locate m.tracking_number m.timestamp_ns m.order_ref
      (be_bytes 1 m.side ++ (be_bytes 4 m.shares ++ (m.stock ++ be_bytes 4 m.price)))

-- Every field fits its width.
pub record Fits (m : AddOrder) : Type 0 where
  pub locate_fits : m.stock_locate < 2 ^ 16
  pub tracking_fits : m.tracking_number < 2 ^ 16
  pub timestamp_fits : m.timestamp_ns < 2 ^ 48
  pub ref_fits : m.order_ref < 2 ^ 64
  pub side_fits : m.side < 256
  pub shares_fits : m.shares < 2 ^ 32
  pub stock_fits : length m.stock ≡ 8
  pub price_fits : m.price < 2 ^ 32

-- Wherever an encoded add-order message whose fields fit their widths stands in a buffer, its first
-- byte is 'A' and `parse` returns that very message.
pub parse-encode_add_order :
    (buf : Buffer) (p : ℕ) (m : AddOrder)
    → Fits m
    → At buf p (encode m)
    → (get_elem? buf p ≡ some b'A') × (parse buf p ≡ some m)
unfolding parse encode
parse-encode_add_order buf p m fit at =
    let (code, h, r) =
      header-Reads buf p add_order m.stock_locate m.tracking_number m.timestamp_ns m.order_ref _
        fit.locate_fits fit.tracking_fits fit.timestamp_fits fit.ref_fits at in
    let (f1, r1) = At-field buf (p + 19) (p + 20) 1 m.side _ r (omega arith) in
    let (f2, r2) = At-field buf (p + 20) (p + 24) 4 m.shares _ r1 (omega arith) in
    let (f3, r3) = At-append buf (p + 24) (p + 32) m.stock _ r2 (omega (arith, fit.stock_fits)) in
    let chars = rw fit.stock_fits at (read_chars-At buf (p + 24) m.stock f3) in
    (
      code,
      rw (
        h.locate_read,
        h.tracking_read,
        h.timestamp_read,
        h.ref_read,
        get_elem?-At buf (p + 19) m.side f1 fit.side_fits,
        read_be32-At buf (p + 20) m.shares f2 fit.shares_fits,
        chars,
        read_be32-At buf (p + 32) m.price r3 fit.price_fits,
      ),
    )

-- `parse` of an add-order message returns one if and only if the whole wire size lies inside the buffer, since
-- otherwise it reads outside.
pub parse-inside_add_order :
    (buf : Buffer) (p : ℕ)
    → ((m : AddOrder) × (parse buf p ≡ some m)) ↔ (p + k_wire_size ≤ length buf)
unfolding parse
parse-inside_add_order buf p = (
  λ r.
      let (l, _, h1) = >>=-eq-some (read_be16 buf (p + 1)) _ r.1 in
      let (t, _, h2) = >>=-eq-some (read_be16 buf (p + 3)) _ h1 in
      let (s, _, h3) = >>=-eq-some (read_be48 buf (p + 5)) _ h2 in
      let (o, _, h4) = >>=-eq-some (read_be64 buf (p + 11)) _ h3 in
      let (c, _, h5) = >>=-eq-some (get_elem? buf (p + 19)) _ h4 in
      let (n, _, h6) = >>=-eq-some (read_be32 buf (p + 20)) _ h5 in
      let (cs, _, h7) = >>=-eq-some (read_chars 8 buf (p + 24)) _ h6 in
      let (q, e, _) = >>=-eq-some (read_be32 buf (p + 32)) _ h7 in
      omega (arith, read_be32-within buf (p + 32) e),
  λ h.
      let (l, t, s, r, g) = header-inside buf p (omega arith) in
      let (c, e1) = get_elem?-inside buf (p + 19) (omega arith) in
      let (n, e2) = read_be32-inside buf (p + 20) (omega arith) in
      let (cs, e3) = read_chars-inside 8 buf (p + 24) (omega arith) in
      let (q, e4) = read_be32-inside buf (p + 32) (omega arith) in
      (
        record {
          stock_locate = l;
          tracking_number = t;
          timestamp_ns = s;
          order_ref = r;
          side = c;
          shares = n;
          stock = cs;
          price = q;
        },
        rw (g.locate_read, g.tracking_read, g.timestamp_read, g.ref_read, e1, e2, e3, e4),
      ),
)
