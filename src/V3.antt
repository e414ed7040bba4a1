-- ===== src/V3.antt =====
-- include/v3 and src/v3/order_book.cpp: the optimised book, its order pool and its hash table.
pub mod RefTable
pub mod ObjectPool
pub mod Owned
pub mod Links
pub mod Bitmap
pub mod BookState
pub mod OrderBook
