-- ===== src/Feed/Books.antt =====
-- The books of all stocks, `books` in every `main`, as what the loops ask for. A book is made when its
-- stock's first message comes.
use feed_handler.Prelude.{
  ℕ, ◌≡◌, refl, Bool, false, List, [], ◌∷◌, none, some, ◌==◌, if◌then◌else◌, arith, Bool-cases, inl,
  inr, ==→eq, ap, ◌∙◌,
}
use feed_handler.Map.{Map, find, insert}
use feed_handler.Map.Sorted.{find-insert}
use feed_handler.Feed.{Handlers}
use feed_handler.Feed.Frames.{apply, apply_all}
use feed_handler.Wire.Message.{Message, added, executed, canceled, deleted, replaced, other}
use feed_handler.V1
use feed_handler.V3.RefTable.{RefTable}
use feed_handler.V3.ObjectPool.{OrderPool}
use feed_handler.V3.OrderBook
use feed_handler.V3.BookState

-- `books[locate]` in v1 and v2.
unfoldable pub book_of : Map V1.OrderBook → ℕ → V1.OrderBook
book_of books locate = elim (find locate books) [ none ↦ V1.empty_book | some b ↦ b ]

abbrev pub on_book : Map V1.OrderBook → ℕ → (V1.OrderBook → V1.OrderBook) → Map V1.OrderBook
on_book books locate f = insert locate (f (book_of books locate)) books

-- The calls in the `switch` of v1 and v2.
abbrev pub v1_books : Handlers (Map V1.OrderBook)
v1_books = record {
  add = λ s m. on_book s m.stock_locate (λ b. V1.add_order b m);
  execute = λ s m. on_book s m.stock_locate (λ b. V1.execute_order b m);
  cancel = λ s m. on_book s m.stock_locate (λ b. V1.cancel_order b m);
  delete = λ s m. on_book s m.stock_locate (λ b. V1.delete_order b m);
  replace = λ s m. on_book s m.stock_locate (λ b. V1.replace_order b m);
}

-- All books of v3, with the pool and the table that they share.
pub record SharedBooks : Type 0 where
  pub pool : OrderPool
  pub refs : RefTable
  pub books : Map BookState.OrderBook

-- `books.try_emplace(locate, pool, refs).first->second`, and a method called on it.
unfoldable pub on_shared : SharedBooks → ℕ → (BookState.Store → BookState.Store) → SharedBooks
on_shared s locate f =
    let b : BookState.OrderBook = elim (find locate s.books) [
      | none ↦ BookState.new_book
      | some b ↦ b
    ] in
    let s' = f (record { pool = s.pool; refs = s.refs; book = b }) in
    record { pool = s'.pool; refs = s'.refs; books = insert locate s'.book s.books }

-- The calls in the `switch` of v3.
abbrev pub v3_books : Handlers SharedBooks
v3_books = record {
  add = λ s m. on_shared s m.stock_locate (λ b. OrderBook.add_order b m);
  execute = λ s m. on_shared s m.stock_locate (λ b. OrderBook.execute_order b m);
  cancel = λ s m. on_shared s m.stock_locate (λ b. OrderBook.cancel_order b m);
  delete = λ s m. on_shared s m.stock_locate (λ b. OrderBook.delete_order b m);
  replace = λ s m. on_shared s m.stock_locate (λ b. OrderBook.replace_order b m);
}

-- The message is for the book of the stock.
abbrev pub is_for : ℕ → Message → Bool
is_for locate (added m) = m.stock_locate == locate
is_for locate (executed m) = m.stock_locate == locate
is_for locate (canceled m) = m.stock_locate == locate
is_for locate (deleted m) = m.stock_locate == locate
is_for locate (replaced m) = m.stock_locate == locate
is_for locate (other type body) = false

-- A single book as what the loops ask for: every message goes to it.
abbrev pub one_book : Handlers V1.OrderBook
one_book = record {
  add = V1.add_order;
  execute = V1.execute_order;
  cancel = V1.cancel_order;
  delete = V1.delete_order;
  replace = V1.replace_order;
}

-- The messages of one stock.
abbrev pub of_stock : ℕ → List Message → List Message
of_stock locate [] = []
of_stock locate (m ∷ ms) =
    let rest = of_stock locate ms in if is_for locate m then m ∷ rest else rest

book_of-insert :
    (books : Map V1.OrderBook) (locate : ℕ) (b : V1.OrderBook) (q : ℕ)
    → book_of (insert locate b books) q ≡ (if locate == q then b else book_of books q)
unfolding book_of
book_of-insert books locate b q = ground (arith, find-insert locate q b books)

-- A call on the book of one stock, seen from another stock or its own.
book_of-on_book :
    (books : Map V1.OrderBook) (locate : ℕ) (f : V1.OrderBook → V1.OrderBook) (q : ℕ)
    → book_of (on_book books locate f) q
      ≡ (if locate == q then f (book_of books q) else book_of books q)
book_of-on_book books locate f q = elim (Bool-cases (locate == q)) [
  | inl e ↦ rw (book_of-insert, e) (ap (λ (t : ℕ). f (book_of books t)) (==→eq locate q e))
  | inr ne ↦ rw (book_of-insert, ne) refl
]

book_of-apply :
    (books : Map V1.OrderBook) (m : Message) (q : ℕ)
    → book_of (apply v1_books books m) q
      ≡ (if is_for q m then apply one_book (book_of books q) m else book_of books q)
book_of-apply books (added m) q = book_of-on_book books m.stock_locate (λ b. V1.add_order b m) q
book_of-apply books (executed m) q =
    book_of-on_book books m.stock_locate (λ b. V1.execute_order b m) q
book_of-apply books (canceled m) q =
    book_of-on_book books m.stock_locate (λ b. V1.cancel_order b m) q
book_of-apply books (deleted m) q =
    book_of-on_book books m.stock_locate (λ b. V1.delete_order b m) q
book_of-apply books (replaced m) q =
    book_of-on_book books m.stock_locate (λ b. V1.replace_order b m) q
book_of-apply books (other type body) q = refl

-- However the messages of the stocks are interleaved, with messages of other types among them, the v1 book of a stock ends up as if it had been
-- given the messages of that stock alone, in their order.
pub book_of-apply_all :
    (books : Map V1.OrderBook) (ms : List Message) (q : ℕ)
    → book_of (apply_all v1_books books ms) q ≡ apply_all one_book (book_of books q) (of_stock q ms)
book_of-apply_all books [] q = refl
book_of-apply_all books (m ∷ ms) q =
    let rest = book_of-apply_all (apply v1_books books m) ms q in
    let here = book_of-apply books m q in
    elim (Bool-cases (is_for q m)) [
      | inl e ↦
          rw e
            (rest ∙ ap (λ (b : V1.OrderBook). apply_all one_book b (of_stock q ms)) (rw e at here))
      | inr ne ↦
          rw ne
            (rest ∙ ap (λ (b : V1.OrderBook). apply_all one_book b (of_stock q ms)) (rw ne at here))
    ]
