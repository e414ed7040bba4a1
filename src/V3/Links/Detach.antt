-- ===== src/V3/Links/Detach.antt =====
-- An order leaves its queue, wherever in it it stands.
use feed_handler.Prelude.{
  ℕ, ◌<◌, ◌≡◌, ◌≢◌, sym, ap, ◌∙◌, Bool, true, false, not, ◌&&◌, ◌==◌, if◌then◌else◌, arith,
  Bool-cases, inl, inr, ==→eq, ==→ne, ne→==,
}
use feed_handler.V3.RefTable.{k_null_idx}
use feed_handler.V3.Links.{Links, IsLinked}

-- The queues after `o` has been unlinked; what becomes of `o` itself does not matter.
pub record IsDetached (c d : Links) (live : ℕ → Bool) (o : ℕ) : Type 0 where
  pub nx_at : (i : ℕ) → live i ≡ true → o ≢ i → d.nx i ≡ (if c.pv o == i then c.nx o else c.nx i)
  pub pv_at : (i : ℕ) → live i ≡ true → o ≢ i → d.pv i ≡ (if c.nx o == i then c.pv o else c.pv i)
  pub lv_at : (i : ℕ) → live i ≡ true → o ≢ i → d.lv i ≡ c.lv i
  pub hd_at :
      (k : ℕ)
      → d.hd k ≡ (if c.lv o == k then (if c.pv o == k_null_idx then c.nx o else c.hd k) else c.hd k)
  pub tl_at :
      (k : ℕ)
      → d.tl k ≡ (if c.lv o == k then (if c.nx o == k_null_idx then c.pv o else c.tl k) else c.tl k)

module _ (c d : Links) (live : ℕ → Bool) (stamp : ℕ → ℕ) (clock o : ℕ)
    (v : IsLinked c live stamp clock) (on : live o ≡ true) (a : IsDetached c d live o) where
  abbrev pub live' : ℕ → Bool
  live' i = not (o == i) && live i

  pub real : o ≢ k_null_idx
  real = v.not_null o on

  pub off : (i : ℕ) → live' i ≡ true → o ≢ i
  off i h = ==→ne o i (ground arith)

  pub was : (i : ℕ) → live' i ≡ true → live i ≡ true
  was i h = ground arith

  pub still : (i : ℕ) → live i ≡ true → o ≢ i → live' i ≡ true
  still i h ne = ground (arith, ne→== o i ne)

  -- The neighbours of `o` are others.
  pub next_other : c.nx o ≢ k_null_idx → o ≢ c.nx o
  next_other ne e = absurd (omega (arith, (v.next o on ne).3, ap stamp e))

  pub prev_other : c.pv o ≢ k_null_idx → o ≢ c.pv o
  prev_other ne e =
      let (lp, np, kp) = v.prev o on ne in
      let later = v.next (c.pv o) lp (λ z. real (sym np ∙ z)) in
      absurd (omega (arith, later.3, ap stamp e, ap stamp np))

  pub next' :
      (i : ℕ)
      → live' i ≡ true
      → d.nx i ≢ k_null_idx
      → (live' (d.nx i) ≡ true)
        × (d.pv (d.nx i) ≡ i)
        × (d.lv (d.nx i) ≡ d.lv i)
        × (stamp i < stamp (d.nx i))
  next' i h ne =
      let old = was i h in
      let ri = v.not_null i old in
      elim (Bool-cases (c.pv o == i)) [
        | inl e ↦
            let p = ==→eq (c.pv o) i e in
            let n : d.nx i ≡ c.nx o = rw e at (a.nx_at i old (off i h)) in
            let some_next : c.nx o ≢ k_null_idx = λ z. ne (n ∙ z) in
            let (ln, pn, kn, sn) = v.next o on some_next in
            let (lp, np, kp) = v.prev o on (λ z. ri (sym p ∙ z)) in
            let before = v.next (c.pv o) lp (λ z. real (sym np ∙ z)) in
            let far = next_other some_next in
            rw n (
              still (c.nx o) ln far,
              ground (arith, a.pv_at (c.nx o) ln far),
              ground (arith, a.lv_at (c.nx o) ln far, a.lv_at i old (off i h), ap c.lv p),
              omega (arith, before.3, sn, ap stamp p, ap stamp np),
            )
        | inr e ↦
            let n : d.nx i ≡ c.nx i = rw e at (a.nx_at i old (off i h)) in
            let (ln, pn, kn, sn) = v.next i old (λ z. ne (n ∙ z)) in
            let far : o ≢ c.nx i = λ f. ==→ne (c.pv o) i e (ap c.pv f ∙ pn) in
            let apart : c.nx o == c.nx i ≡ false = ne→== _ _ (λ f.
              let (_, po, _, _) = v.next o on (λ z. v.not_null (c.nx i) ln (sym f ∙ z)) in
              off i h (sym po ∙ ap c.pv f ∙ pn)) in
            rw n (
              still (c.nx i) ln far,
              rw apart at (a.pv_at (c.nx i) ln far) ∙ pn,
              a.lv_at (c.nx i) ln far ∙ kn ∙ sym (a.lv_at i old (off i h)),
              sn,
            )
      ]

  pub last' : (i : ℕ) → live' i ≡ true → d.nx i ≡ k_null_idx → d.tl (d.lv i) ≡ i
  last' i h z =
      let old = was i h in
      let ri = v.not_null i old in
      let k = a.lv_at i old (off i h) in
      elim (Bool-cases (c.pv o == i)) [
        | inl e ↦
            let p = ==→eq (c.pv o) i e in
            let n : c.nx o ≡ k_null_idx = sym (rw e at (a.nx_at i old (off i h))) ∙ z in
            let (lp, np, kp) = v.prev o on (λ y. ri (sym p ∙ y)) in
            let same : c.lv o ≡ c.lv i = sym kp ∙ ap c.lv p in
            rw k (ground (arith, a.tl_at (c.lv i)))
        | inr e ↦
            let n : c.nx i ≡ k_null_idx = sym (rw e at (a.nx_at i old (off i h))) ∙ z in
            let t = v.last i old n in
            let not_last : c.lv o ≡ c.lv i → c.nx o ≢ k_null_idx =
              λ f y. off i h (sym (v.last o on y) ∙ ap c.tl f ∙ t) in
            rw k (elim (Bool-cases (c.lv o == c.lv i)) [
              | inl f ↦ let y = not_last (==→eq _ _ f) in ground (arith, a.tl_at (c.lv i))
              | inr f ↦ ground (arith, a.tl_at (c.lv i))
            ])
      ]

  pub prev' :
      (i : ℕ)
      → live' i ≡ true
      → d.pv i ≢ k_null_idx
      → (live' (d.pv i) ≡ true) × (d.nx (d.pv i) ≡ i) × (d.lv (d.pv i) ≡ d.lv i)
  prev' i h ne =
      let old = was i h in
      let ri = v.not_null i old in
      elim (Bool-cases (c.nx o == i)) [
        | inl e ↦
            let n = ==→eq (c.nx o) i e in
            let p : d.pv i ≡ c.pv o = rw e at (a.pv_at i old (off i h)) in
            let some_prev : c.pv o ≢ k_null_idx = λ z. ne (p ∙ z) in
            let (lp, np, kp) = v.prev o on some_prev in
            let (ln, pn, kn, sn) = v.next o on (λ z. ri (sym n ∙ z)) in
            let far = prev_other some_prev in
            rw p (
              still (c.pv o) lp far,
              ground (arith, a.nx_at (c.pv o) lp far),
              ground (arith, a.lv_at (c.pv o) lp far, a.lv_at i old (off i h), ap c.lv n),
            )
        | inr e ↦
            let p : d.pv i ≡ c.pv i = rw e at (a.pv_at i old (off i h)) in
            let (lp, np, kp) = v.prev i old (λ z. ne (p ∙ z)) in
            let far : o ≢ c.pv i = λ f. ==→ne (c.nx o) i e (ap c.nx f ∙ np) in
            let apart : c.pv o == c.pv i ≡ false = ne→== _ _ (λ f.
              let (_, no', _) = v.prev o on (λ z. v.not_null (c.pv i) lp (sym f ∙ z)) in
              off i h (sym no' ∙ ap c.nx f ∙ np)) in
            rw p (
              still (c.pv i) lp far,
              rw apart at (a.nx_at (c.pv i) lp far) ∙ np,
              a.lv_at (c.pv i) lp far ∙ kp ∙ sym (a.lv_at i old (off i h)),
            )
      ]

  pub first' : (i : ℕ) → live' i ≡ true → d.pv i ≡ k_null_idx → d.hd (d.lv i) ≡ i
  first' i h z =
      let old = was i h in
      let ri = v.not_null i old in
      let k = a.lv_at i old (off i h) in
      elim (Bool-cases (c.nx o == i)) [
        | inl e ↦
            let n = ==→eq (c.nx o) i e in
            let p : c.pv o ≡ k_null_idx = sym (rw e at (a.pv_at i old (off i h))) ∙ z in
            let (ln, pn, kn, sn) = v.next o on (λ y. ri (sym n ∙ y)) in
            let same : c.lv o ≡ c.lv i = sym kn ∙ ap c.lv n in
            rw k (ground (arith, a.hd_at (c.lv i)))
        | inr e ↦
            let p : c.pv i ≡ k_null_idx = sym (rw e at (a.pv_at i old (off i h))) ∙ z in
            let f = v.first i old p in
            let not_first : c.lv o ≡ c.lv i → c.pv o ≢ k_null_idx =
              λ g y. off i h (sym (v.first o on y) ∙ ap c.hd g ∙ f) in
            rw k (elim (Bool-cases (c.lv o == c.lv i)) [
              | inl g ↦ let y = not_first (==→eq _ _ g) in ground (arith, a.hd_at (c.lv i))
              | inr g ↦ ground (arith, a.hd_at (c.lv i))
            ])
      ]
