-- ===== src/V3/Links/Detached.antt =====
-- The ends of the queues after an order has left its queue, and the queues as a whole.
use feed_handler.Prelude.{
  ℕ, ◌≡◌, ◌≢◌, sym, ap, ◌∙◌, Bool, true, false, ◌==◌, arith, Bool-cases, inl, inr, ==→eq, ==→ne,
  ne→==,
}
use feed_handler.V3.RefTable.{k_null_idx}
use feed_handler.V3.Links.{Links, IsLinked}
use feed_handler.V3.Links.Detach.{
  IsDetached, live', was, still, next_other, prev_other, next', last', prev', first',
}

module _ (c d : Links) (live : ℕ → Bool) (stamp : ℕ → ℕ) (clock o : ℕ)
    (v : IsLinked c live stamp clock) (on : live o ≡ true) (a : IsDetached c d live o) where
  -- An end that has not changed, and is not `o`.
  same_head :
      (k : ℕ)
      → d.hd k ≡ c.hd k
      → c.hd k ≢ k_null_idx
      → (c.lv o ≡ k → c.pv o ≢ k_null_idx)
      → (live' c d live stamp clock o v on a (d.hd k) ≡ true)
        × (d.lv (d.hd k) ≡ k)
        × (d.pv (d.hd k) ≡ k_null_idx)
  same_head k e some_head inner =
      let (lh, kh, ph) = v.head k some_head in
      let far : o ≢ c.hd k = λ f. inner (ap c.lv f ∙ kh) (ap c.pv f ∙ ph) in
      let apart : c.nx o == c.hd k ≡ false = ne→== _ _ (λ f.
        let (_, po, _, _) = v.next o on (λ z. some_head (sym f ∙ z)) in
        v.not_null o on (sym po ∙ ap c.pv f ∙ ph)) in
      rw e (
        still c d live stamp clock o v on a (c.hd k) lh far,
        a.lv_at (c.hd k) lh far ∙ kh,
        rw apart at (a.pv_at (c.hd k) lh far) ∙ ph,
      )

  head' :
      (k : ℕ)
      → d.hd k ≢ k_null_idx
      → (live' c d live stamp clock o v on a (d.hd k) ≡ true)
        × (d.lv (d.hd k) ≡ k)
        × (d.pv (d.hd k) ≡ k_null_idx)
  head' k ne = elim (Bool-cases (c.lv o == k)) [
    | inl e ↦ elim (Bool-cases (c.pv o == k_null_idx)) [
      | inl p ↦
          let h : d.hd k ≡ c.nx o = rw (e, p) at (a.hd_at k) in
          let some_next : c.nx o ≢ k_null_idx = λ z. ne (h ∙ z) in
          let (ln, pn, kn, sn) = v.next o on some_next in
          let far = next_other c d live stamp clock o v on a some_next in
          rw h (
            still c d live stamp clock o v on a (c.nx o) ln far,
            a.lv_at (c.nx o) ln far ∙ kn ∙ ==→eq _ _ e,
            ground (arith, a.pv_at (c.nx o) ln far),
          )
      | inr p ↦
          let h : d.hd k ≡ c.hd k = rw (e, p) at (a.hd_at k) in
          same_head k h (λ z. ne (h ∙ z)) (λ _. ==→ne _ _ p)
    ]
    | inr e ↦
        let h : d.hd k ≡ c.hd k = rw e at (a.hd_at k) in
        same_head k h (λ z. ne (h ∙ z)) (λ f. absurd (==→ne _ _ e f))
  ]

  same_tail :
      (k : ℕ)
      → d.tl k ≡ c.tl k
      → c.tl k ≢ k_null_idx
      → (c.lv o ≡ k → c.nx o ≢ k_null_idx)
      → (live' c d live stamp clock o v on a (d.tl k) ≡ true)
        × (d.lv (d.tl k) ≡ k)
        × (d.nx (d.tl k) ≡ k_null_idx)
  same_tail k e some_tail inner =
      let (lt, kt, nt) = v.tail k some_tail in
      let far : o ≢ c.tl k = λ f. inner (ap c.lv f ∙ kt) (ap c.nx f ∙ nt) in
      let apart : c.pv o == c.tl k ≡ false = ne→== _ _ (λ f.
        let (_, no', _) = v.prev o on (λ z. some_tail (sym f ∙ z)) in
        v.not_null o on (sym no' ∙ ap c.nx f ∙ nt)) in
      rw e (
        still c d live stamp clock o v on a (c.tl k) lt far,
        a.lv_at (c.tl k) lt far ∙ kt,
        rw apart at (a.nx_at (c.tl k) lt far) ∙ nt,
      )

  tail' :
      (k : ℕ)
      → d.tl k ≢ k_null_idx
      → (live' c d live stamp clock o v on a (d.tl k) ≡ true)
        × (d.lv (d.tl k) ≡ k)
        × (d.nx (d.tl k) ≡ k_null_idx)
  tail' k ne = elim (Bool-cases (c.lv o == k)) [
    | inl e ↦ elim (Bool-cases (c.nx o == k_null_idx)) [
      | inl n ↦
          let t : d.tl k ≡ c.pv o = rw (e, n) at (a.tl_at k) in
          let some_prev : c.pv o ≢ k_null_idx = λ z. ne (t ∙ z) in
          let (lp, np, kp) = v.prev o on some_prev in
          let far = prev_other c d live stamp clock o v on a some_prev in
          rw t (
            still c d live stamp clock o v on a (c.pv o) lp far,
            a.lv_at (c.pv o) lp far ∙ kp ∙ ==→eq _ _ e,
            ground (arith, a.nx_at (c.pv o) lp far),
          )
      | inr n ↦
          let t : d.tl k ≡ c.tl k = rw (e, n) at (a.tl_at k) in
          same_tail k t (λ z. ne (t ∙ z)) (λ _. ==→ne _ _ n)
    ]
    | inr e ↦
        let t : d.tl k ≡ c.tl k = rw e at (a.tl_at k) in
        same_tail k t (λ z. ne (t ∙ z)) (λ f. absurd (==→ne _ _ e f))
  ]

  -- The queues stay linked when an order leaves one.
  pub IsDetached-IsLinked : IsLinked d (live' c d live stamp clock o v on a) stamp clock
  IsDetached-IsLinked = record {
    not_null = λ i h. v.not_null i (was c d live stamp clock o v on a i h);
    past = λ i h. v.past i (was c d live stamp clock o v on a i h);
    next = next' c d live stamp clock o v on a;
    last = last' c d live stamp clock o v on a;
    prev = prev' c d live stamp clock o v on a;
    first = first' c d live stamp clock o v on a;
    head = head';
    tail = tail';
    headless =
        λ k z. ground (arith, a.hd_at k, a.tl_at k, v.headless k, v.last o on, v.not_null o on);
    tailless =
        λ k z. ground (arith, a.hd_at k, a.tl_at k, v.tailless k, v.first o on, v.not_null o on);
  }
