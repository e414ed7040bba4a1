-- ===== src/Analysis/Prices.antt =====
-- What the first pass keeps of the prices of each stock, on a whole file.
use feed_handler.Prelude.{
  ℕ, zero, suc, ◌+◌, ◌<◌, ◌≡◌, refl, ◌⊎◌, some, get_elem?, List, [], ◌∷◌, length, inl, inr, arith,
}
use feed_handler.Map
use feed_handler.Wire.Bytes.{Buffer}
use feed_handler.Wire.Layout.{At}
use feed_handler.Wire.Message
use feed_handler.Wire.Message.{
  Message, added, executed, canceled, deleted, replaced, other, wire_size,
}
use feed_handler.Wire.AddOrder.{parse-encode_add_order}
use feed_handler.Wire.OrderExecuted.{parse-encode_order_executed}
use feed_handler.Wire.OrderCancel.{parse-encode_order_cancel}
use feed_handler.Wire.OrderDelete.{parse-encode_order_delete}
use feed_handler.Wire.OrderReplace.{parse-encode_order_replace}
use feed_handler.Feed.Frames.{
  At-first, frames, AllFit, At-frame, length-frames, next_message-frame, next_message-end,
}
use feed_handler.Analysis.{
  Survey, no_stats, start, survey, survey_case, survey_add, survey_delete, survey_replace, stats_of,
}
use feed_handler.Analysis.Exact.{IsExact, IsExact-iff, survey_add-IsExact}

-- An add order of the stock `q` among the messages has the price `p`.
abbrev pub Priced : ℕ → List Message → ℕ → Type 0
Priced q [] p = ⊥
Priced q (added m ∷ ms) p = ((m.stock_locate ≡ q) × (m.price ≡ p)) ⊎ Priced q ms p
Priced q (executed m ∷ ms) p = Priced q ms p
Priced q (canceled m ∷ ms) p = Priced q ms p
Priced q (deleted m ∷ ms) p = Priced q ms p
Priced q (replaced m ∷ ms) p = Priced q ms p
Priced q (other type body ∷ ms) p = Priced q ms p

-- The survey after a message.
abbrev survey_one : Survey → Message → Survey
survey_one v (added m) = survey_add v m
survey_one v (executed m) = v
survey_one v (canceled m) = v
survey_one v (deleted m) = survey_delete v m
survey_one v (replaced m) = survey_replace v m
survey_one v (other type body) = v

abbrev survey_all : Survey → List Message → Survey
survey_all v [] = v
survey_all v (m ∷ ms) = survey_all (survey_one v m) ms

survey_all-IsExact :
    (v : Survey) (ms : List Message) (q : ℕ) (P : ℕ → Type 0)
    → AllFit ms
    → IsExact (stats_of v.stats q) P
    → IsExact (stats_of (survey_all v ms).stats q) (λ p. Priced q ms p ⊎ P p)
unfolding survey_delete survey_replace
survey_all-IsExact v [] q P fit x =
    IsExact-iff (stats_of v.stats q) P _ (λ p y. inr y)
      (λ p h. elim h [ inl y ↦ absurd y | inr y ↦ y ]) x
survey_all-IsExact v (added m ∷ ms) q P fit x =
    let one = survey_add-IsExact v m q P fit.0.price_fits x in
    let rest = survey_all-IsExact (survey_add v m) ms q _ fit.1 one in
    IsExact-iff (stats_of (survey_all (survey_add v m) ms).stats q) _ _
      (λ p h. elim h [
        | inl y ↦ inl (inr y)
        | inr z ↦ elim z [ inl e ↦ inl (inl e) | inr y ↦ inr y ]
      ])
      (λ p h. elim h [
        | inl z ↦ elim z [ inl e ↦ inr (inl e) | inr y ↦ inl y ]
        | inr y ↦ inr (inr y)
      ])
      rest
survey_all-IsExact v (executed m ∷ ms) q P fit x = survey_all-IsExact v ms q P fit.1 x
survey_all-IsExact v (canceled m ∷ ms) q P fit x = survey_all-IsExact v ms q P fit.1 x
survey_all-IsExact v (deleted m ∷ ms) q P fit x =
    survey_all-IsExact (survey_delete v m) ms q P fit.1 x
survey_all-IsExact v (replaced m ∷ ms) q P fit x =
    survey_all-IsExact (survey_replace v m) ms q P fit.1 x
survey_all-IsExact v (other type body ∷ ms) q P fit x = survey_all-IsExact v ms q P fit.1 x

-- The first byte of an encoded message, and what the first pass does with it.
survey_case-encode :
    (v : Survey) (buf : Buffer) (p : ℕ) (m : Message)
    → Message.Fits m
    → At buf p (Message.encode m)
    → (type : ℕ) × (get_elem? buf p ≡ some type)
      × (survey_case type v buf p ≡ some (survey_one v m))
unfolding survey_case
survey_case-encode v buf p (added m) fit at =
    let (code, parsed) = parse-encode_add_order buf p m fit at in (_, code, rw parsed refl)
survey_case-encode v buf p (executed m) fit at =
    let (code, parsed) = parse-encode_order_executed buf p m fit at in (_, code, refl)
survey_case-encode v buf p (canceled m) fit at =
    let (code, parsed) = parse-encode_order_cancel buf p m fit at in (_, code, refl)
survey_case-encode v buf p (deleted m) fit at =
    let (code, parsed) = parse-encode_order_delete buf p m fit at in (_, code, rw parsed refl)
survey_case-encode v buf p (replaced m) fit at =
    let (code, parsed) = parse-encode_order_replace buf p m fit at in (_, code, rw parsed refl)
survey_case-encode v buf p (other type body) (is, _) at =
    (type, At-first buf p type body at, rw (is.not_added, is.not_deleted, is.not_replaced) refl)

survey-lem :
    (ms : List Message) (fuel : ℕ) (file : Buffer) (offset : ℕ) (v : Survey)
    → AllFit ms
    → At file offset (frames ms)
    → offset + length (frames ms) ≡ length file
    → length ms < fuel
    → survey fuel file offset v ≡ some (survey_all v ms)
unfolding survey
survey-lem ms zero file offset v fit at all enough = absurd (omega arith)
survey-lem [] (suc fuel) file offset v fit at all enough =
    rw (next_message-end file offset (omega arith), survey) refl
survey-lem (m ∷ ms) (suc fuel) file offset v fit at all enough =
    let (size, here, behind) = At-frame file offset m ms fit.0 at in
    let len = length-frames m ms fit.0 in
    let (type, code, done) = survey_case-encode v file (offset + 2) m fit.0 here in
    let rest =
      survey-lem ms fuel file (offset + 2 + wire_size m) (survey_one v m) fit.1 behind
        (omega (arith, len)) (omega arith) in
    rw (next_message-frame file offset m ms fit.0 at (omega arith), code, done, survey) rest

-- On a file of messages of the five types at their sizes and of other types that ends with its last
-- message, the first pass ends, and one more round of fuel than there are messages is enough. For each
-- stock its statistics have exactly the prices of the stock's add orders: the least and the greatest of
-- them, or 2 ^ 32 - 1 and 0 if there are none, and as distinct prices these and no others.
pub survey-IsExact :
    (ms : List Message) (fuel : ℕ) (file : Buffer)
    → AllFit ms
    → At file 0 (frames ms)
    → length (frames ms) ≡ length file
    → length ms < fuel
    → (v : Survey) × (survey fuel file 0 start ≡ some v)
      × ((q : ℕ) → IsExact (stats_of v.stats q) (Priced q ms))
unfolding Map.find stats_of
survey-IsExact ms fuel file fit at all enough = (
  survey_all start ms,
  survey-lem ms fuel file 0 start fit at (omega arith) enough,
  λ q.
      let fresh : IsExact no_stats (λ p. ⊥) = record {
        least = λ p h. absurd h;
        greatest = λ p h. absurd h;
        least_seen = inr (refl, λ p h. h);
        greatest_seen = inr (refl, λ p h. h);
        listed = λ p h. absurd h;
        seen = λ p h. cc;
      } in
      IsExact-iff (stats_of (survey_all start ms).stats q) _ _
        (λ p h. elim h [ inl y ↦ y | inr y ↦ absurd y ]) (λ p y. inl y)
        (survey_all-IsExact start ms q (λ p. ⊥) fit fresh),
)
