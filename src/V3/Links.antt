-- ===== src/V3/Links.antt =====
-- The doubly linked queues that the pooled orders of a book form, one for each price level, as
-- functions from indices: `next_idx`, `prev_idx` and `level_idx` of an order, `head_idx` and `tail_idx`
-- of a level. `live` says which orders are linked, and `stamp` when each arrived.
pub mod Append
pub mod Detach
pub mod Detached
pub mod Walk
pub mod Chain
use feed_handler.Prelude.{ℕ, ◌<◌, ◌≡◌, ◌≢◌, Bool, true}
use feed_handler.V3.RefTable.{k_null_idx}

pub record Links : Type 0 where
  pub nx : ℕ → ℕ
  pub pv : ℕ → ℕ
  pub lv : ℕ → ℕ
  pub hd : ℕ → ℕ
  pub tl : ℕ → ℕ

-- Each queue runs from its head to its tail in the order of arrival, and back.
pub record IsLinked (c : Links) (live : ℕ → Bool) (stamp : ℕ → ℕ) (clock : ℕ) : Type 0 where
  pub not_null : (i : ℕ) → live i ≡ true → i ≢ k_null_idx
  pub past : (i : ℕ) → live i ≡ true → stamp i < clock
  pub next :
      (i : ℕ)
      → live i ≡ true
      → c.nx i ≢ k_null_idx
      → (live (c.nx i) ≡ true)
        × (c.pv (c.nx i) ≡ i)
        × (c.lv (c.nx i) ≡ c.lv i)
        × (stamp i < stamp (c.nx i))
  pub last : (i : ℕ) → live i ≡ true → c.nx i ≡ k_null_idx → c.tl (c.lv i) ≡ i
  pub prev :
      (i : ℕ)
      → live i ≡ true
      → c.pv i ≢ k_null_idx
      → (live (c.pv i) ≡ true) × (c.nx (c.pv i) ≡ i) × (c.lv (c.pv i) ≡ c.lv i)
  pub first : (i : ℕ) → live i ≡ true → c.pv i ≡ k_null_idx → c.hd (c.lv i) ≡ i
  pub head :
      (l : ℕ)
      → c.hd l ≢ k_null_idx
      → (live (c.hd l) ≡ true) × (c.lv (c.hd l) ≡ l) × (c.pv (c.hd l) ≡ k_null_idx)
  pub tail :
      (l : ℕ)
      → c.tl l ≢ k_null_idx
      → (live (c.tl l) ≡ true) × (c.lv (c.tl l) ≡ l) × (c.nx (c.tl l) ≡ k_null_idx)
  pub headless : (l : ℕ) → c.hd l ≡ k_null_idx → c.tl l ≡ k_null_idx
  pub tailless : (l : ℕ) → c.tl l ≡ k_null_idx → c.hd l ≡ k_null_idx
