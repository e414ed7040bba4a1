-- ===== src/V1/Follow.antt =====
-- The v1 book on whole feeds.
use feed_handler.Spec.{Orders}
use feed_handler.Spec.Messages.{follow, follow_all, Legal, Covered, LegalAll, CoveredAll}
use feed_handler.Prelude.{refl, ap, ◌∙◌, List, [], ◌∷◌}
use feed_handler.V1.{OrderBook}
use feed_handler.V1.Valid.{IsValid}
use feed_handler.V1.View.{view}
use feed_handler.V1.Refine.{
  Refines, add_order-Refines, execute_order-Refines, cancel_order-Refines, delete_order-Refines,
  replace_order-Refines,
}
use feed_handler.Feed.Frames.{apply, apply_all}
use feed_handler.Feed.Books.{one_book}
use feed_handler.Wire.Message.{Message, added, executed, canceled, deleted, replaced, other}

-- Every message that a feed may send has the effect on the live orders that it asks for.
pub follow-Refines :
    (b : OrderBook) (m : Message)
    → IsValid b
    → Legal (view b) m
    → Covered (view b) m
    → Refines (apply one_book b m) (follow (view b) m)
follow-Refines b (added m) v (_, fresh, _, small) c = add_order-Refines b v m fresh small
follow-Refines b (executed m) v _ c = execute_order-Refines b v m c
follow-Refines b (canceled m) v _ c = cancel_order-Refines b v m c
follow-Refines b (deleted m) v _ c = delete_order-Refines b v m
follow-Refines b (replaced m) v (_, _, fresh, _, small) c = replace_order-Refines b m v fresh small
follow-Refines b (other type body) v _ c = record { valid = v; orders_view = refl }

pub follow_all-Refines :
    (b : OrderBook) (ms : List Message)
    → IsValid b
    → LegalAll (view b) ms
    → CoveredAll (view b) ms
    → Refines (apply_all one_book b ms) (follow_all (view b) ms)
follow_all-Refines b [] v legal c = record { valid = v; orders_view = refl }
follow_all-Refines b (m ∷ ms) v legal c =
    let here = follow-Refines b m v legal.0 c.0 in
    let b' = apply one_book b m in
    let rest =
      follow_all-Refines b' ms here.valid (rw here.orders_view legal.1) (rw here.orders_view c.1) in
    record {
      valid = rest.valid;
      orders_view = rest.orders_view ∙ ap (λ (w : Orders). follow_all w ms) here.orders_view;
    }
