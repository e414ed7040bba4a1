-- ===== src/V3/Links/Chain.antt =====
-- A queue as the list of its orders, from the head on.
use feed_handler.Prelude.{
  ℕ, ◌≡◌, ◌≢◌, refl, sym, ap, ◌∙◌, Bool, true, false, List, [], ◌∷◌, ◌++◌, ◌==◌, if◌then◌else◌,
  arith, Bool-cases, inl, inr, ==→eq, ==→ne, ne→==,
}
use feed_handler.V3.RefTable.{k_null_idx}
use feed_handler.V3.Links.{Links, IsLinked}
use feed_handler.V3.Links.Append.{live_apart, IsAppended}
use feed_handler.V3.Links.Detach.{IsDetached}

-- From `i` the links lead through `q` to the null index.
abbrev pub IsChain : Links → ℕ → List ℕ → Type 0
IsChain c i [] = i ≡ k_null_idx
IsChain c i (j ∷ q) = (i ≡ j) × (j ≢ k_null_idx) × IsChain c (c.nx j) q

-- The queue of a level.
abbrev pub IsQueue : Links → ℕ → List ℕ → Type 0
IsQueue c l q = IsChain c (c.hd l) q

-- The list without `o`.
abbrev pub without : ℕ → List ℕ → List ℕ
without o [] = []
without o (j ∷ q) = let rest = without o q in if o == j then rest else j ∷ rest

module _ (c d : Links) (live : ℕ → Bool) (stamp : ℕ → ℕ) (clock o l : ℕ)
    (v : IsLinked c live stamp clock) where
  module _ (fresh : live o ≡ false) (real : o ≢ k_null_idx) (a : IsAppended c d o l) where
    alone : (q : List ℕ) → IsChain c k_null_idx q → q ≡ []
    alone [] h = refl
    alone (j ∷ q) h = absurd (h.1 (sym h.0))

    end-IsChain : IsChain d o (o ∷ [])
    end-IsChain = (refl, real, ground (arith, a.nx_at o real))

    append-IsChain :
        (q : List ℕ) (i : ℕ)
        → live i ≡ true
        → c.lv i ≡ l
        → IsChain c i q
        → IsChain d i (q ++ o ∷ [])
    append-IsChain [] i on at h = absurd (v.not_null i on h)
    append-IsChain (j ∷ q) i on at (e, ne, h) =
        let on' : live j ≡ true = rw (← e) on in
        let at' : c.lv j ≡ l = rw (← e) at in
        let off = live_apart live o j fresh on' in
        let step = a.nx_at j ne in
        elim (Bool-cases (c.nx j == k_null_idx)) [
          | inl z ↦
              let z' = ==→eq _ _ z in
              let last : c.tl l ≡ j = ap c.tl (sym at') ∙ v.last j on' z' in
              let n : d.nx j ≡ o = ground (arith, last) in
              let none_left = alone q (rw z' at h) in (e, ne, rw (n, none_left) end-IsChain)
          | inr z ↦
              let (ln, pn, kn, sn) = v.next j on' (==→ne _ _ z) in
              let inner : c.tl l ≢ j = λ t.
                let (_, _, nt) = v.tail l (λ y. ne (sym t ∙ y)) in
                ==→ne _ _ z (ap c.nx (sym t) ∙ nt) in
              let n : d.nx j ≡ c.nx j = rw (off, ne→== _ _ inner) at step in
              (e, ne, rw n (append-IsChain q (c.nx j) ln (kn ∙ at') h))
        ]

    other-IsChain :
        (q : List ℕ) (i : ℕ)
        → (i ≢ k_null_idx → (live i ≡ true) × (c.lv i ≢ l))
        → IsChain c i q
        → IsChain d i q
    other-IsChain [] i on h = h
    other-IsChain (j ∷ q) i on (e, ne, h) =
        let (live_i, apart) = on (λ z. ne (sym e ∙ z)) in
        let on' : live j ≡ true = rw (← e) live_i in
        let apart' : c.lv j ≢ l = rw (← e) apart in
        let off = live_apart live o j fresh on' in
        let inner : c.tl l ≢ j =
          λ t. let (_, kt, _) = v.tail l (λ y. ne (sym t ∙ y)) in apart' (ap c.lv (sym t) ∙ kt) in
        let n : d.nx j ≡ c.nx j = rw (off, ne→== _ _ inner) at (a.nx_at j ne) in
        (
          e,
          ne,
          rw n (
              other-IsChain q (c.nx j)
                (λ y. let (ln, pn, kn, sn) = v.next j on' y in (ln, λ f. apart' (sym kn ∙ f))) h),
        )

    -- A new order stands behind all others of its level, and the other queues are as before.
    pub IsAppended-IsQueue :
        (k : ℕ) (q : List ℕ) → IsQueue c k q → IsQueue d k (if l == k then q ++ o ∷ [] else q)
    IsAppended-IsQueue k q h = elim (Bool-cases (l == k)) [
      | inl e ↦ rw e (elim (Bool-cases (c.hd k == k_null_idx)) [
        | inl z ↦
            let z' = ==→eq _ _ z in
            let no_tail = v.headless k z' in
            let start : d.hd k ≡ o = ground (arith, a.hd_at k, ap c.tl (==→eq l k e)) in
            let empty = alone q (rw z' at h) in rw (start, empty) end-IsChain
        | inr z ↦
            let z' = ==→ne _ _ z in
            let (lh, kh, ph) = v.head k z' in
            let same = ==→eq l k e in
            let some_tail : c.tl l ≢ k_null_idx = λ y. z' (v.tailless k (ap c.tl (sym same) ∙ y)) in
            let start : d.hd k ≡ c.hd k = ground (arith, a.hd_at k, ap c.hd same) in
            rw start (append-IsChain q (c.hd k) lh (kh ∙ sym same) h)
      ])
      | inr e ↦
          let start : d.hd k ≡ c.hd k = rw e at (a.hd_at k) in
          rw (e, start)
            (other-IsChain q (c.hd k)
              (λ y. let (lh, kh, _) = v.head k y in (lh, λ f. ==→ne l k e (sym f ∙ kh))) h)
    ]

  module _ (on : live o ≡ true) (a : IsDetached c d live o) where
    -- The order behind `i`, where `i` may be the one that leaves.
    abbrev skip : ℕ → ℕ
    skip i = if o == i then c.nx o else i

    real_o : o ≢ k_null_idx
    real_o = v.not_null o on

    skip-next : skip (c.nx o) ≡ c.nx o
    skip-next = elim (Bool-cases (o == c.nx o)) [ inl e ↦ rw e refl | inr e ↦ rw e refl ]

    nx-skip : (j : ℕ) → live j ≡ true → o ≢ j → d.nx j ≡ skip (c.nx j)
    nx-skip j live_j far = elim (Bool-cases (o == c.nx j)) [
      | inl e ↦
          let next = ==→eq o (c.nx j) e in
          let (_, pn, _, _) = v.next j live_j (λ z. real_o (next ∙ z)) in
          let before : c.pv o ≡ j = ap c.pv next ∙ pn in ground (arith, a.nx_at j live_j far)
      | inr e ↦
          let apart : c.pv o ≢ j = λ f.
            let (_, np, _) = v.prev o on (λ z. v.not_null j live_j (sym f ∙ z)) in
            ==→ne o (c.nx j) e (sym np ∙ ap c.nx f) in
          rw (e, a.nx_at j live_j far, ne→== _ _ apart) refl
    ]

    without-IsChain :
        (q : List ℕ) (i : ℕ)
        → (i ≢ k_null_idx → live i ≡ true)
        → IsChain c i q
        → IsChain d (skip i) (without o q)
    without-IsChain [] i live_i h = let gone : skip i ≡ k_null_idx = ground (arith, real_o) in gone
    without-IsChain (j ∷ q) i live_i (e, ne, h) =
        let live_j : live j ≡ true = rw (← e) (live_i (λ z. ne (sym e ∙ z))) in
        let rest =
          without-IsChain q (c.nx j) (λ y. let (ln, _, _, _) = v.next j live_j y in ln) h in
        elim (Bool-cases (o == j)) [
          | inl f ↦
              let same = ==→eq o j f in
              let start : skip i ≡ c.nx o = ground arith in
              let at : skip (c.nx j) ≡ c.nx o = rw (← same) skip-next in
              rw (f, start) (rw at at rest)
          | inr f ↦
              let start : skip i ≡ j = ground arith in
              rw f (start, ne, rw (nx-skip j live_j (==→ne o j f)) rest)
        ]

    -- An order that is unlinked leaves its queue, and the others keep their order.
    pub IsDetached-IsQueue : (k : ℕ) (q : List ℕ) → IsQueue c k q → IsQueue d k (without o q)
    IsDetached-IsQueue k q h =
        let start : d.hd k ≡ skip (c.hd k) =
          ground (arith, a.hd_at k, v.first o on, v.head k, real_o) in
        rw start (without-IsChain q (c.hd k) (λ y. let (lh, _, _) = v.head k y in lh) h)

-- The null index stands in no queue.
pub without-k_null_idx : (c : Links) (i : ℕ) (q : List ℕ) → IsChain c i q → without k_null_idx q ≡ q
without-k_null_idx c i [] h = refl
without-k_null_idx c i (j ∷ q) (e, ne, h) =
    let rest = without-k_null_idx c (c.nx j) q h in
    rw (ne→== k_null_idx j (λ f. ne (sym f))) (ap (λ (r : List ℕ). j ∷ r) rest)
