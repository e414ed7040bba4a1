-- ===== src/Tests/Pool.antt =====
-- A pool of three slots.
use feed_handler.Prelude.{length, ◌<◌, [], ◌∷◌, arith}
use feed_handler.V3.ObjectPool.{OrderPool, new, linked, allocate}
use feed_handler.V3.ObjectPool.FreeList.{IsFree, Allocates, allocate-Allocates, new-IsFree}

abbrev three : OrderPool
three = new 3

allocate-Allocates_example : Allocates three (0 ∷ 1 ∷ 2 ∷ []) (allocate three)
allocate-Allocates_example = allocate-Allocates three (0 ∷ 1 ∷ 2 ∷ []) (new-IsFree 2 (omega arith))

abbrev two_left : OrderPool
two_left = (allocate three).1

two_left-IsFree : IsFree two_left (1 ∷ 2 ∷ [])
unfolding allocate new
two_left-IsFree =
    let (_, _, _, _, free, _) =
      allocate-Allocates three (0 ∷ 1 ∷ 2 ∷ []) (new-IsFree 2 (omega arith)) in
    free

long : 0 < length two_left.slots
unfolding allocate new linked
long = omega arith
