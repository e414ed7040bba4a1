-- ===== src/V3/ObjectPool.antt =====
-- include/v3/object_pool.hpp: a flat array of orders, whose unused slots form a linked list.
pub mod FreeList
use feed_handler.Prelude.{
  ℕ, zero, suc, ◌+◌, ◌-◌, ◌%◌, ◌^◌, List, [], ◌∷◌, get_or, set, ◌==◌, if◌then◌else◌,
}
use feed_handler.V3.RefTable.{k_null_idx}

pub record PooledOrder : Type 0 where
  pub next_idx : ℕ
  pub prev_idx : ℕ
  pub qty : ℕ
  pub level_idx : ℕ

pub record OrderPool : Type 0 where
  pub slots : List PooledOrder
  pub free_head : ℕ

abbrev pub no_pooled : PooledOrder
no_pooled = record { next_idx = 0; prev_idx = 0; qty = 0; level_idx = 0 }

-- `pool_[idx]`
abbrev pub pooled : List PooledOrder → ℕ → PooledOrder
pooled s idx = get_or s idx no_pooled

-- The slots from index `i` on, `n` of them, each linked to the next.
unfoldable pub linked : ℕ → ℕ → List PooledOrder
linked zero i = []
linked (suc zero) i = record no_pooled { next_idx = k_null_idx } ∷ []
linked (suc (suc n)) i = record no_pooled { next_idx = suc i % 2 ^ 32 } ∷ linked (suc n) (suc i)

-- The constructor, for a capacity that is not 0.
unfoldable pub new : ℕ → OrderPool
new capacity = record { slots = linked capacity 0; free_head = 0 }

unfoldable pub allocate : OrderPool → ℕ × OrderPool
allocate p =
    if p.free_head == k_null_idx
    then (k_null_idx, p)
    else (p.free_head, record p { free_head = (pooled p.slots p.free_head).next_idx })

unfoldable pub release : OrderPool → ℕ → OrderPool
release p idx = record {
  slots = set p.slots idx (record (pooled p.slots idx) { next_idx = p.free_head });
  free_head = idx;
}
