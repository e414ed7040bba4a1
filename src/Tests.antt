-- ===== src/Tests.antt =====
-- The theorems at concrete inputs: one small session, book, table, pool and buffer.
mod Book
mod Tracking
mod Table
mod Pool
mod Messages
mod Feed
mod Flat
mod Agree
mod Queues
mod Stranded
mod Rounds
mod Sending
