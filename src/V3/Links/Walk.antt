-- ===== src/V3/Links/Walk.antt =====
-- From an order of a queue back to its head.
use feed_handler.Prelude.{
  ℕ, zero, suc, ◌<◌, ◌≡◌, ◌≢◌, sym, ap, ◌∙◌, Bool, true, ◌==◌, arith, Bool-cases, inl, inr, ==→eq,
  ==→ne,
}
use feed_handler.V3.RefTable.{k_null_idx}
use feed_handler.V3.Links.{Links, IsLinked}

module _ (c : Links) (live : ℕ → Bool) (stamp : ℕ → ℕ) (clock : ℕ)
    (v : IsLinked c live stamp clock) where
  -- The order before has arrived before.
  pub earlier : (i : ℕ) → live i ≡ true → c.pv i ≢ k_null_idx → stamp (c.pv i) < stamp i
  earlier i on ne =
      let (lp, np, kp) = v.prev i on ne in
      let later = v.next (c.pv i) lp (λ z. v.not_null i on (sym np ∙ z)) in
      omega (arith, later.3, ap stamp np)

  has_head-below : (n i : ℕ) → stamp i < n → live i ≡ true → c.hd (c.lv i) ≢ k_null_idx
  has_head-below zero i h on = absurd (omega arith)
  has_head-below (suc n) i h on = elim (Bool-cases (c.pv i == k_null_idx)) [
    | inl p ↦ λ z. v.not_null i on (sym (v.first i on (==→eq _ _ p)) ∙ z)
    | inr p ↦
        let ne = ==→ne _ _ p in
        let (lp, np, kp) = v.prev i on ne in
        let back = has_head-below n (c.pv i) (omega (arith, earlier i on ne)) lp in
        λ z. back (ap c.hd kp ∙ z)
  ]

  -- The queue of a linked order has a head.
  pub has_head : (i : ℕ) → live i ≡ true → c.hd (c.lv i) ≢ k_null_idx
  has_head i on = has_head-below (suc (stamp i)) i (omega arith) on
