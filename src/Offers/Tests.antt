-- ===== src/Offers/Tests.antt =====
-- An order that looks for a company, in the feed of one that took its offer back, and with a third offer
-- that is sent.
use my_build.Base.{
  ◌*◌, String, String_eq, Bool, beq→ne, ◌≡◌, refl, none, not, ◌&&◌, ◌==◌, [], ◌∷◌, arith,
}
use my_build.Shared.Enums.{OrderStatus, OfferStatus, OfferStatus_eq}
use my_build.Orders.View.{OrderDetailRow, has_own, to_order_detail}
use my_build.Orders.View.Tests.{bid, sketch, card}
use my_build.Orders.View.Privacy.{own_offer_of}
use my_build.Errors.{ok, ok_of}
use my_build.Shared.Dates.{day_ms}
use my_build.Shared.Offers.{is_finally_rejected}
use my_build.Shared.State.{can_transition}
use my_build.Common.Uuid.{is_uuid}
use my_build.Store.Tables.{Db, Offer}
use my_build.Store.Queries.{Queries, list_queries, list_queries-IsLawful}
use my_build.Store.Notices.{drop_superseded_notifications, create_notifications}
use my_build.Orders.Notification.{offer_key}
use my_build.Orders.Machine.Handlers.{handler_for, offer_submitted}
use my_build.Orders.Machine.{transition}
use my_build.Orders.Transition.Types.{AppliedTransition}
use my_build.Orders.Transition.{
  lock_order, resolve_offer, build_event, conclude, decide_on, run_locked, run,
}
use my_build.Orders.Transition.Write.{apply_effects}
use my_build.Orders.Transition.Tests.{order_id, chosen_id, rival_id, tables}
use my_build.Offers.Service.{CreateOfferDto, upsert, submit_written, submit_locked, submit_in}
use my_build.Offers.Service.Submit.{Submitted, submit_in-Submitted}
use my_build.Offers.Feed.{is_in_feed, is_in_feed-can_submit}

abbrev searched : OrderDetailRow
searched =
    card OrderStatus.awaiting_confirmation none
      (bid "a" "rival" OfferStatus.sent ∷ bid "b" "company" OfferStatus.withdrawn ∷ [])
      (sketch ∷ [])

is_in_feed-can_submit_example : is_in_feed "company" none searched.row ≡ (
    (to_order_detail searched "company").can_submit_offer
    && not (has_own (λ s. s == OfferStatus.sent) (own_offer_of searched.row "company")))
is_in_feed-can_submit_example = is_in_feed-can_submit searched "company" refl (omega arith)

abbrev new_id : String
new_id = "00000000-0000-4000-8000-00000000000a"

abbrev with_ids : Queries
with_ids = list_queries (λ n. new_id)

abbrev dto : CreateOfferDto
dto = record {
  order_id = order_id;
  proposed_price = "900";
  proposed_deadline = 30 * day_ms;
  comment = none;
}

sent :
    (r : (Offer × AppliedTransition × Bool) × Db) × (submit_in with_ids day_ms "third" dto tables
      ≡ ok r)
unfolding submit_in submit_locked upsert submit_written run run_locked decide_on conclude
    resolve_offer lock_order build_event transition can_transition handler_for offer_submitted
    is_uuid apply_effects drop_superseded_notifications create_notifications offer_key
    is_finally_rejected
sent = ok_of (submit_in with_ids day_ms "third" dto tables) refl

submit_in-Submitted_example : Submitted with_ids day_ms "third" dto tables sent.0.1 sent.0.0
submit_in-Submitted_example =
    submit_in-Submitted with_ids day_ms "third" dto tables sent.0.1 sent.0.0
      (list_queries-IsLawful (λ n. new_id)) ((beq→ne chosen_id rival_id refl, tt), (tt, tt))
      (beq→ne chosen_id new_id refl, (beq→ne rival_id new_id refl, tt)) sent.1
