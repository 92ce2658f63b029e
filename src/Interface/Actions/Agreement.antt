-- ===== src/Interface/Actions/Agreement.antt =====
-- The buttons of a client, and what the server does when they are pressed.
use my_build.Base.{
  ◌≡◌, sym, ◌∙◌, String, Bool, true, Option, some, arith, find, ◌==◌, String_eq, Option_eq, eq_refl,
}
use mathlib.Core.Option
use my_build.Errors.{is_ok}
use my_build.Shared.Enums.{OrderStatus}
use my_build.Shared.Dates.{Date, to_iso_string, utc_calendar_date}
use my_build.Shared.State.{OrderEventType}
use my_build.Store.Tables.{Db, Order, Offer}
use my_build.Store.Queries.{Queries, IsLawful}
use my_build.Orders.Machine.{transition, finally_refused, past_deadline, seen_otherwise}
use my_build.Orders.Machine.Rules.{transition-is_ok}
use my_build.Orders.Transition.Types.{OrderTransitionCommand, command_order_id}
use my_build.Orders.Transition.{build_event, run}
use my_build.Orders.Transition.Inversion.{context_of, is_meant}
use my_build.Orders.Transition.Total.{named, run-is_ok}
use my_build.Orders.View.{OfferDto, to_offer_dto}
use my_build.Orders.Detail.{offer_row}
use my_build.Interface.Actions.{decision_on, executor_allows}

-- What a client presses, with the comment that goes along.
pub data Click : Type 0 where
  accepts rejects : Click
  confirms : Option String → Click
  disputes : String → Click

-- The request: an acceptance names the version of the offer that is on the screen.
abbrev pub request : Click → Order → OfferDto → OrderTransitionCommand
request Click.accepts order offer =
    OrderTransitionCommand.offer_accepted order.id offer.id offer.edited_at
request Click.rejects order offer = OrderTransitionCommand.offer_rejected order.id offer.id
request (Click.confirms comment) order offer =
    OrderTransitionCommand.work_confirmed order.id comment
request (Click.disputes comment) order offer = OrderTransitionCommand.work_disputed order.id comment

-- Whether the interface shows the button, of an order and an offer, on a day.
abbrev pub shows : Click → OrderStatus → String → OfferDto → Bool
shows Click.accepts status today offer = (decision_on status today offer).can_accept
shows Click.rejects status today offer = (decision_on status today offer).can_reject
shows (Click.confirms comment) status today offer =
    executor_allows status OrderEventType.work_confirmed (some offer)
shows (Click.disputes comment) status today offer =
    executor_allows status OrderEventType.work_disputed (some offer)

shows-transition :
    (q : Queries) (now : Date) (click : Click) (order : Order) (offer : Offer) (db : Db)
    → shows click order.status (utc_calendar_date now) (to_offer_dto (offer_row q db offer))
      ≡ is_ok (
          transition (context_of order) (
            build_event q now (request click order (to_offer_dto (offer_row q db offer))) offer db))
unfolding decision_on to_offer_dto build_event finally_refused past_deadline seen_otherwise
shows-transition q now Click.accepts order offer db = ground (
  arith,
  transition-is_ok (context_of order) (
      build_event q now (request Click.accepts order (to_offer_dto (offer_row q db offer))) offer
        db),
  eq_refl (Option.map to_iso_string offer.edited_at),
)
shows-transition q now Click.rejects order offer db = ground (
  arith,
  transition-is_ok (context_of order) (
      build_event q now (request Click.rejects order (to_offer_dto (offer_row q db offer))) offer
        db),
)
shows-transition q now (Click.confirms comment) order offer db = ground (
  arith,
  transition-is_ok (context_of order) (
      build_event q now
        (request (Click.confirms comment) order (to_offer_dto (offer_row q db offer))) offer db),
)
shows-transition q now (Click.disputes comment) order offer db = ground (
  arith,
  transition-is_ok (context_of order) (
      build_event q now
        (request (Click.disputes comment) order (to_offer_dto (offer_row q db offer))) offer db),
)

-- On tables that meet the laws, of an order and an offer that are among their rows, the one that the
-- request is about (the one that is named, or the executor's), and with identifiers in form, a
-- client is shown a button exactly when the server carries the request out that the press of
-- it sends: an acceptance with the version of the offer on the screen, on the same day by UTC.
pub shows-run :
    (q : Queries) (now : Date) (click : Click) (order : Order) (offer : Offer) (db : Db)
    → IsLawful q
    → named (request click order (to_offer_dto (offer_row q db offer))) ≡ true
    → find (λ row. row.id == order.id) db.orders ≡ some order
    → find (is_meant order.id (request click order (to_offer_dto (offer_row q db offer)))) db.offers
      ≡ some offer
    → shows click order.status (utc_calendar_date now) (to_offer_dto (offer_row q db offer))
      ≡ is_ok (run q now (request click order (to_offer_dto (offer_row q db offer))) db)
shows-run q now click order offer db lawful form found meant =
    shows-transition q now click order offer db
    ∙ sym (
        run-is_ok q now (request click order (to_offer_dto (offer_row q db offer))) db order offer
          lawful form (by_order click found) meant)
  where
    by_order :
        (click : Click)
        → find (λ row. row.id == order.id) db.orders ≡ some order
        → find
            (λ row.
              row.id
              == command_order_id (request click order (to_offer_dto (offer_row q db offer))))
            db.orders
          ≡ some order
    by_order Click.accepts h = h
    by_order Click.rejects h = h
    by_order (Click.confirms comment) h = h
    by_order (Click.disputes comment) h = h
