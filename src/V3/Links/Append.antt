-- ===== src/V3/Links/Append.antt =====
-- A new order at the end of a queue.
use feed_handler.Prelude.{
  ℕ, suc, ◌<◌, ◌≡◌, ◌≢◌, sym, ap, ◌∙◌, Bool, true, false, ◌||◌, ◌==◌, if◌then◌else◌, arith,
  Bool-cases, inl, inr, ==→eq, ==→ne, ne→==,
}
use feed_handler.V3.RefTable.{k_null_idx}
use feed_handler.V3.Links.{Links, IsLinked}

-- The queues after `o` has been linked to the end of the queue `l`.
pub record IsAppended (c d : Links) (o l : ℕ) : Type 0 where
  pub nx_at :
      (i : ℕ)
      → i ≢ k_null_idx
      → d.nx i ≡ (if o == i then k_null_idx else if c.tl l == i then o else c.nx i)
  pub pv_at : (i : ℕ) → i ≢ k_null_idx → d.pv i ≡ (if o == i then c.tl l else c.pv i)
  pub lv_at : (i : ℕ) → i ≢ k_null_idx → d.lv i ≡ (if o == i then l else c.lv i)
  pub tl_at : (k : ℕ) → d.tl k ≡ (if l == k then o else c.tl k)
  pub hd_at :
      (k : ℕ) → d.hd k ≡ (if l == k then (if c.tl l == k_null_idx then o else c.hd l) else c.hd k)

-- An index that is not live is none that is.
pub live_apart : (live : ℕ → Bool) (o i : ℕ) → live o ≡ false → live i ≡ true → o == i ≡ false
live_apart live o i dead on = ne→== o i (λ e. cc (ap live e))

module _ (c d : Links) (live : ℕ → Bool) (stamp : ℕ → ℕ) (clock o l : ℕ)
    (v : IsLinked c live stamp clock) (fresh : live o ≡ false) (real : o ≢ k_null_idx)
    (a : IsAppended c d o l) where
  abbrev live' : ℕ → Bool
  live' i = o == i || live i

  abbrev stamp' : ℕ → ℕ
  stamp' i = if o == i then clock else stamp i

  is_real : (i : ℕ) → live' i ≡ true → i ≢ k_null_idx
  is_real i h = ground (arith, v.not_null i)

  next' :
      (i : ℕ)
      → live' i ≡ true
      → d.nx i ≢ k_null_idx
      → (live' (d.nx i) ≡ true)
        × (d.pv (d.nx i) ≡ i)
        × (d.lv (d.nx i) ≡ d.lv i)
        × (stamp' i < stamp' (d.nx i))
  next' i h ne = elim (Bool-cases (o == i)) [
    | inl e ↦ absurd (ne (rw e at (a.nx_at i (is_real i h))))
    | inr other ↦
        let old : live i ≡ true = ground arith in
        let ri = v.not_null i old in
        elim (Bool-cases (c.tl l == i)) [
          | inl t ↦
              let same : c.tl l ≡ i = ==→eq _ i t in
              let n : d.nx i ≡ o = rw (other, t) at (a.nx_at i ri) in
              let at_tail = v.tail l (λ z. ri (sym same ∙ z)) in
              rw n (
                ground arith,
                a.pv_at o real ∙ ground arith,
                ground (arith, a.lv_at o real, a.lv_at i ri, at_tail, ap c.lv same),
                ground (arith, v.past i old),
              )
          | inr u ↦
              let n : d.nx i ≡ c.nx i = rw (other, u) at (a.nx_at i ri) in
              let (ln, pn, kn, sn) = v.next i old (λ z. ne (n ∙ z)) in
              let rn = v.not_null (c.nx i) ln in
              let off = live_apart live o (c.nx i) fresh ln in
              rw n (
                ground arith,
                ground (arith, a.pv_at (c.nx i) rn),
                ground (arith, a.lv_at (c.nx i) rn, a.lv_at i ri),
                ground arith,
              )
        ]
  ]

  last' : (i : ℕ) → live' i ≡ true → d.nx i ≡ k_null_idx → d.tl (d.lv i) ≡ i
  last' i h z = elim (Bool-cases (o == i)) [
    | inl e ↦ rw (a.lv_at i (is_real i h), e) (a.tl_at l ∙ ground arith)
    | inr other ↦
        let old : live i ≡ true = ground arith in
        let ri = v.not_null i old in
        let k : d.lv i ≡ c.lv i = ground (arith, a.lv_at i ri) in
        let off_tail : c.tl l ≢ i = λ t. real (sym (ground (arith, a.nx_at i ri)) ∙ z) in
        let n : c.nx i ≡ k_null_idx = ground (arith, a.nx_at i ri) in
        let t = v.last i old n in
        let ne : l ≢ c.lv i = λ e. off_tail (ap c.tl e ∙ t) in
        rw k (ground (arith, a.tl_at (c.lv i), t, ne))
  ]

  prev' :
      (i : ℕ)
      → live' i ≡ true
      → d.pv i ≢ k_null_idx
      → (live' (d.pv i) ≡ true) × (d.nx (d.pv i) ≡ i) × (d.lv (d.pv i) ≡ d.lv i)
  prev' i h ne = elim (Bool-cases (o == i)) [
    | inl e ↦
        let p : d.pv i ≡ c.tl l = rw e at (a.pv_at i (is_real i h)) in
        let (lt, kt, nt) = v.tail l (λ z. ne (p ∙ z)) in
        let rt = v.not_null (c.tl l) lt in
        let off = live_apart live o (c.tl l) fresh lt in
        rw p (
          ground arith,
          ground (arith, a.nx_at (c.tl l) rt),
          ground (arith, a.lv_at (c.tl l) rt, a.lv_at i (is_real i h)),
        )
    | inr other ↦
        let old : live i ≡ true = ground arith in
        let ri = v.not_null i old in
        let p : d.pv i ≡ c.pv i = ground (arith, a.pv_at i ri) in
        let (lp, np, kp) = v.prev i old (λ z. ne (p ∙ z)) in
        let rp = v.not_null (c.pv i) lp in
        let off = live_apart live o (c.pv i) fresh lp in
        let off_tail : c.tl l ≢ c.pv i = λ t.
          let (_, _, nt) = v.tail l (λ z. rp (sym t ∙ z)) in ri (sym np ∙ ap c.nx (sym t) ∙ nt) in
        rw p (
          ground arith,
          ground (arith, a.nx_at (c.pv i) rp),
          ground (arith, a.lv_at (c.pv i) rp, a.lv_at i ri),
        )
  ]

  first' : (i : ℕ) → live' i ≡ true → d.pv i ≡ k_null_idx → d.hd (d.lv i) ≡ i
  first' i h z = elim (Bool-cases (o == i)) [
    | inl e ↦ ground (arith, a.lv_at i (is_real i h), a.pv_at i (is_real i h), a.hd_at l)
    | inr other ↦
        let old : live i ≡ true = ground arith in
        let ri = v.not_null i old in
        let k : d.lv i ≡ c.lv i = ground (arith, a.lv_at i ri) in
        let f = v.first i old (ground (arith, a.pv_at i ri)) in
        let taken : l ≡ c.lv i → c.tl l ≢ k_null_idx =
          λ e t. ri (sym f ∙ ap c.hd (sym e) ∙ v.tailless l t) in
        rw k (elim (Bool-cases (l == c.lv i)) [
          | inl e ↦
              let e' = ==→eq l (c.lv i) e in
              let t = taken e' in ground (arith, a.hd_at (c.lv i), f, ap c.hd e')
          | inr e ↦ ground (arith, a.hd_at (c.lv i), f)
        ])
  ]

  old_head :
      (k : ℕ)
      → d.hd k ≡ c.hd k
      → d.hd k ≢ k_null_idx
      → (live' (d.hd k) ≡ true) × (d.lv (d.hd k) ≡ k) × (d.pv (d.hd k) ≡ k_null_idx)
  old_head k e ne =
      let (lh, kh, ph) = v.head k (λ z. ne (e ∙ z)) in
      let rh = v.not_null (c.hd k) lh in
      let off = live_apart live o (c.hd k) fresh lh in
      rw e (ground arith, ground (arith, a.lv_at (c.hd k) rh), ground (arith, a.pv_at (c.hd k) rh))

  head' :
      (k : ℕ)
      → d.hd k ≢ k_null_idx
      → (live' (d.hd k) ≡ true) × (d.lv (d.hd k) ≡ k) × (d.pv (d.hd k) ≡ k_null_idx)
  head' k ne = elim (Bool-cases (l == k)) [
    | inl e ↦ elim (Bool-cases (c.tl l == k_null_idx)) [
      | inl t ↦
          let h : d.hd k ≡ o = rw (e, t) at (a.hd_at k) in
          rw h (ground arith, ground (arith, a.lv_at o real), ground (arith, a.pv_at o real))
      | inr t ↦
          let h : d.hd k ≡ c.hd l = rw (e, t) at (a.hd_at k) in
          old_head k (h ∙ ap c.hd (==→eq l k e)) ne
    ]
    | inr e ↦ old_head k (rw e at (a.hd_at k)) ne
  ]

  tail' :
      (k : ℕ)
      → d.tl k ≢ k_null_idx
      → (live' (d.tl k) ≡ true) × (d.lv (d.tl k) ≡ k) × (d.nx (d.tl k) ≡ k_null_idx)
  tail' k ne = elim (Bool-cases (l == k)) [
    | inl e ↦
        let t : d.tl k ≡ o = rw e at (a.tl_at k) in
        rw t (ground arith, ground (arith, a.lv_at o real), ground (arith, a.nx_at o real))
    | inr e ↦
        let t : d.tl k ≡ c.tl k = rw e at (a.tl_at k) in
        let (lt, kt, nt) = v.tail k (λ z. ne (t ∙ z)) in
        let rt = v.not_null (c.tl k) lt in
        let off = live_apart live o (c.tl k) fresh lt in
        let other : c.tl l ≢ c.tl k = λ f.
          let (_, kl, _) = v.tail l (λ z. rt (sym f ∙ z)) in
          ==→ne l k e (sym kl ∙ ap c.lv f ∙ kt) in
        rw t
          (ground arith, ground (arith, a.lv_at (c.tl k) rt), ground (arith, a.nx_at (c.tl k) rt))
  ]

  -- The queues stay linked when a new order joins the end of one.
  pub IsAppended-IsLinked : IsLinked d live' stamp' (suc clock)
  IsAppended-IsLinked = record {
    not_null = is_real;
    past = λ i h. ground (arith, v.past i);
    next = next';
    last = last';
    prev = prev';
    first = first';
    head = head';
    tail = tail';
    headless = λ k z. ground (arith, a.hd_at k, a.tl_at k, v.headless k, v.tailless l);
    tailless = λ k z. ground (arith, a.hd_at k, a.tl_at k, v.tailless k);
  }
