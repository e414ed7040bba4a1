-- ===== src/V3/RefTable/Cycle.antt =====
-- Distances round a table of `cap` slots.
use feed_handler.Prelude.{
  ℕ, suc, ◌+◌, ◌-◌, ◌%◌, ◌^◌, ◌<◌, ◌≡◌, ◌≢◌, ◌↔◌, true, leb, ◌==◌, if◌then◌else◌, arith, ◌∙◌,
  Bool-cases, inl, inr,
}
use native.Mathlib.Nat.{mod-lt, one-le-pow, mod-eq_of_lt, mod_self}
use feed_handler.Prelude.Bits.{bit_and_mask}
use feed_handler.V3.RefTable.{hash, home, next, can_move}

-- The steps from `a` on to `x`.
abbrev pub dist : ℕ → ℕ → ℕ → ℕ
dist cap a x = if leb a x then x - a else x + cap - a

-- The slot after `i`.
abbrev pub after : ℕ → ℕ → ℕ
after cap i = if suc i == cap then 0 else suc i

pub home-lt : (n key : ℕ) → home (2 ^ n - 1) key < 2 ^ n
unfolding home
home-lt n key = rw bit_and_mask (mod-lt (hash key) (one-le-pow n 2 (omega arith)))

pub next-after : (n i : ℕ) → i < 2 ^ n → 2 ^ n < 2 ^ 64 → next (2 ^ n - 1) i ≡ after (2 ^ n) i
unfolding next
next-after n i h fits =
    let kept : (i + 1) % 2 ^ 64 ≡ i + 1 = omega arith in
    rw (kept, bit_and_mask n (i + 1))
      (elim (Bool-cases (suc i == 2 ^ n)) [
        | inl e ↦ rw e (let round : i + 1 ≡ 2 ^ n = ground arith in rw round (mod_self (2 ^ n)))
        | inr ne ↦ rw ne (mod-eq_of_lt (ground arith) ∙ omega arith)
      ])

module _ (cap : ℕ) where
  pub after-lt : (i : ℕ) → i < cap → after cap i < cap
  after-lt i h = ground arith

  -- One step on from `j` is one step further from `i`, short of coming round.
  pub dist-after :
      (i j : ℕ)
      → i < cap
      → j < cap
      → suc (dist cap i j) < cap
      → dist cap i (after cap j) ≡ suc (dist cap i j)
  dist-after i j hi hj h = ground arith

  pub dist-lt : (i j : ℕ) → i < cap → j < cap → dist cap i j < cap
  dist-lt i j hi hj = ground arith

  pub dist-zero : (i j : ℕ) → i < cap → j < cap → dist cap i j ≡ 0 → i ≡ j
  dist-zero i j hi hj h = ground arith

  pub dist-injective :
      (a i j : ℕ) → a < cap → i < cap → j < cap → dist cap a i ≡ dist cap a j → i ≡ j
  dist-injective a i j ha hi hj h = ground arith

  -- `can_move` says that the hole lies on the way from the entry's home to the entry.
  pub can_move-dist :
      (i j k : ℕ)
      → i < cap
      → j < cap
      → k < cap
      → i ≢ j
      → (can_move i j k ≡ true) ↔ (dist cap k i < dist cap k j)
  unfolding can_move
  can_move-dist i j k hi hj hk ne = (λ h. ground arith, λ h. ground arith)

  -- From the next slot everything but the slot itself is one step nearer.
  pub dist_step :
      (i q : ℕ) → i < cap → q < cap → i ≢ q → suc (dist cap (after cap i) q) ≡ dist cap i q
  dist_step i q hi hq ne = ground arith

  pub dist_self : (i : ℕ) → dist cap i i ≡ 0
  dist_self i = ground arith

-- Of three slots on the way from `h` to `p`, the later lies behind the earlier.
pub dist-between :
    (cap h i j p : ℕ)
    → h < cap
    → i < cap
    → j < cap
    → p < cap
    → dist cap h i < dist cap h p
    → dist cap i j < dist cap i p
    → dist cap h j < dist cap h p
dist-between cap h i j p hh hi hj hp a b = ground arith

-- The mask is that of a table of `cap` slots.
pub record IsRing (cap mask : ℕ) : Type 0 where
  pub home_lt : (key : ℕ) → home mask key < cap
  pub next_after : (i : ℕ) → i < cap → next mask i ≡ after cap i

pub pow-IsRing : (n : ℕ) → 2 ^ n < 2 ^ 64 → IsRing (2 ^ n) (2 ^ n - 1)
pow-IsRing n fits = record { home_lt = home-lt n; next_after = λ i h. next-after n i h fits }
