-- ===== src/Feed/Rounds/Batches.antt =====
-- Well-formed packets over several rounds.
use feed_handler.Prelude.{
  ℕ, ◌+◌, ◌^◌, ◌≤◌, ◌<◌, ◌≡◌, refl, sym, ap, ◌∙◌, List, [], ◌∷◌, ◌++◌, append-nil, append_assoc,
  some, length, length-append, arith, Bool-cases, inl, inr, map,
}
use feed_handler.Wire.Message.{Message}
use feed_handler.Receiver.Gaps.{Tracker, observe}
use feed_handler.Feed.{Handlers}
use feed_handler.Feed.Frames.{apply_all}
use feed_handler.Feed.Rounds.{Wait, ready, timed_out, Run, submit_if, run}
use feed_handler.Feed.Rounds.Parcels.{
  Parcel, completion, AllPacked, accepted, indices, total, after, apply_all-append, drain-packets,
}

-- The packets of several rounds.
abbrev pub all_of : List (List Parcel) → List Parcel
all_of [] = []
all_of (ps ∷ pss) = ps ++ all_of pss

abbrev pub rounds : List (List Parcel) → List Wait
rounds [] = timed_out ∷ []
rounds (ps ∷ pss) = ready (map completion ps) ∷ rounds pss

accepted-append :
    (t : Tracker) (ps qs : List Parcel)
    → accepted t (ps ++ qs)
      ≡ (let (t', ms) = accepted t ps in let (t'', ns) = accepted t' qs in (t'', ms ++ ns))
unfolding accepted
accepted-append t [] qs = refl
accepted-append t (p ∷ ps) qs =
    let (t', accept) = observe t p.seq (length p.ms) in
    let rest = accepted-append t' ps qs in
    elim (Bool-cases (observe t p.seq (length p.ms)).1) [
      | inl e ↦
          rw (e, rest)
            (ap (λ (ms : List Message). ((accepted (accepted t' ps).0 qs).0, ms))
              (sym (append_assoc p.ms _ _)))
      | inr e ↦ rw (e, rest) refl
    ]

indices-append : (ps qs : List Parcel) → indices (ps ++ qs) ≡ indices ps ++ indices qs
indices-append [] qs = refl
indices-append (p ∷ ps) qs = ap (λ (l : List ℕ). p.idx ∷ l) (indices-append ps qs)

total-append : (ps qs : List Parcel) → total (ps ++ qs) ≡ total ps + total qs
total-append [] qs = omega arith
total-append (p ∷ ps) qs = rw (total-append ps qs) (omega arith)

AllPacked-append : (ps qs : List Parcel) → AllPacked (ps ++ qs) → AllPacked ps × AllPacked qs
AllPacked-append [] qs v = (tt, v)
AllPacked-append (p ∷ ps) qs v = let rest = AllPacked-append ps qs v.1 in ((v.0, rest.0), rest.1)

length-accepted : (t : Tracker) (ps : List Parcel) → length (accepted t ps).1 ≤ total ps
unfolding accepted
length-accepted t [] = omega arith
length-accepted t (p ∷ ps) =
    let (t', accept) = observe t p.seq (length p.ms) in
    let rest = length-accepted t' ps in
    elim (Bool-cases (observe t p.seq (length p.ms)).1) [
      | inl e ↦ rw (e, length-append) (omega arith)
      | inr e ↦ rw e (omega arith)
    ]

module _ {S : Type 0} (h : Handlers S) where
  -- Between two rounds: every receive that is prepared is submitted.
  abbrev pub idle : Tracker → S → ℕ → List ℕ → Run S
  idle t books messages submitted = record {
    tracker = t;
    books = books;
    messages = messages;
    prepared = [];
    submitted = submitted;
  }

  abbrev settled : Tracker → S → ℕ → List ℕ → List Parcel → Run S
  settled t books messages submitted ps =
      let (t', ms) = accepted t ps in
      idle t' (apply_all h books ms) (messages + length ms) (submitted ++ indices ps)

  submit-after :
      (t : Tracker) (books : S) (messages : ℕ) (submitted : List ℕ) (ps : List Parcel)
      → submit_if h (map completion ps) (after h (idle t books messages submitted) ps)
        ≡ settled t books messages submitted ps
  submit-after t books messages submitted [] = rw (append-nil submitted) refl
  submit-after t books messages submitted (p ∷ ps) = refl

  settled-append :
      (t : Tracker) (books : S) (messages : ℕ) (submitted : List ℕ) (ps qs : List Parcel)
      → settled
          (accepted t ps).0
          (apply_all h books (accepted t ps).1)
          (messages + length (accepted t ps).1)
          (submitted ++ indices ps)
          qs
        ≡ settled t books messages submitted (ps ++ qs)
  settled-append t books messages submitted ps qs =
      let ms = (accepted t ps).1 in
      let out = accepted (accepted t ps).0 qs in
      let sum : messages + length ms + length out.1 ≡ messages + length (ms ++ out.1) =
        rw length-append (omega arith) in
      rw
        (
          accepted-append t ps qs,
          indices-append ps qs,
          apply_all-append h books ms out.1,
          ← sum,
          ← append_assoc submitted (indices ps) (indices qs),
        )
        refl

  -- However well-formed packets are spread over the rounds, the loop of v2 and v3 takes the messages of
  -- exactly those packets that the sequence tracking accepts to the books, in the order of arrival,
  -- counts them, and submits one receive again for each buffer that it has emptied, if all receives
  -- were submitted before and the count stays below 2 ^ 64; it ends with the time-out.
  pub run-packets :
      (pss : List (List Parcel)) (t : Tracker) (books : S) (messages : ℕ) (submitted : List ℕ)
      → AllPacked (all_of pss)
      → messages + total (all_of pss) < 2 ^ 64
      → run h (rounds pss) (idle t books messages submitted)
        ≡ some (
            let (t', ms) = accepted t (all_of pss) in
            idle t'
              (apply_all h books ms)
              (messages + length ms)
              (submitted ++ indices (all_of pss)))
  unfolding run accepted
  run-packets [] t books messages submitted v few =
      rw (append-nil submitted) (ap (λ (n : ℕ). some (idle t books n submitted)) (omega arith))
  run-packets (ps ∷ pss) t books messages submitted v few =
      let (here, later) = AllPacked-append ps (all_of pss) v in
      let both = total-append ps (all_of pss) in
      let bound = length-accepted t ps in
      let out = accepted t ps in
      let first = drain-packets h ps (idle t books messages submitted) here (omega (arith, both)) in
      let rest =
        run-packets pss out.0 (apply_all h books out.1) (messages + length out.1)
          (submitted ++ indices ps) later (omega (arith, both, bound)) in
      rw (first, submit-after t books messages submitted ps)
        (rest ∙ ap some (settled-append t books messages submitted ps (all_of pss)))
