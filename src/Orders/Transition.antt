-- ===== src/Orders/Transition.antt =====
-- backend/src/modules/orders/order-transition.service.ts: one transaction for one transition.
pub mod Types
pub mod Collect
pub mod Write
pub mod Inversion
pub mod Applied
pub mod Settled
pub mod Offers
pub mod Deal
pub mod Total
pub mod Replaced
pub mod Told
pub mod Tests
use my_build.Base.{
  String, ◌<>◌, Bool, true, false, not, ◌&&◌, List, map, Option, none, some, or_else, includes,
  ◌==◌, ◌!=◌, String_eq, if◌then◌else◌,
}
use mathlib.Core.Option
use my_build.Errors.{not_found, conflict}
use my_build.Shared.Enums.{OrderStatus, OfferStatus, OfferStatus_eq}
use my_build.Shared.Offers.{executor_offer_statuses}
use my_build.Shared.Dates.{Date, to_iso_string, utc_calendar_date}
use my_build.Common.Uuid.{is_uuid}
use my_build.Store.Tables.{Db, Order, Offer, User}
use my_build.Store.Queries.{Queries}
use my_build.Store.Tx.{Tx, ◌>>=◌, ◌>>◌, return, throw, lift, read}
use my_build.Errors.{refuse, or_throw}
use my_build.Orders.Machine.Types.{OrderEvent, OfferOwner, OfferRef, OrderTransitionResult}
use my_build.Orders.Machine.{transition}
use Types.{OrderTransitionCommand, command_order_id, command_offer_id, AppliedTransition}
use Write.{apply_effects}

abbrev pub order_not_found : String
order_not_found = "Заказ не найден"

abbrev pub offer_not_found : String
offer_not_found = "Предложение не найдено"

abbrev pub no_executor : String
no_executor = "У заказа нет компании-исполнителя"

-- `SENT`, of the order, and not the offer itself.
abbrev pub is_rival : String → String → Offer → Bool
is_rival order_id offer_id row =
    row.order_id == order_id && row.status == OfferStatus.sent && row.id != offer_id

abbrev pub offer_ref : Offer → OfferRef
offer_ref offer = record {
  offer_id = offer.id;
  company_id = offer.company_id;
  offer_status = offer.status;
}

abbrev pub owner_of : Offer → OfferOwner
owner_of rival = record { offer_id = rival.id; company_id = rival.company_id }

module _ (q : Queries) where
  -- The row is locked until the transaction ends; a transaction is one step of the model.
  unfoldable pub lock_order : String → Tx Order
  lock_order order_id = do
    lift (refuse (not (is_uuid order_id)) (not_found order_not_found))
    found ← read λ db. q.find_first Order (λ row. row.id == order_id) db.orders
    lift (or_throw found (not_found order_not_found))

  unfoldable pub resolve_offer : String → OrderTransitionCommand → Tx Offer
  resolve_offer order_id command = elim (command_offer_id command) [
    | some offer_id ↦ do
      lift (refuse (not (is_uuid offer_id)) (not_found offer_not_found))
      found ←
          read λ db.
            q.find_first Offer (λ row. row.id == offer_id && row.order_id == order_id) db.offers
      lift (or_throw found (not_found offer_not_found))
    | none ↦ do
      found ← read λ db.
          q.find_first Offer
            (λ row. row.order_id == order_id && includes executor_offer_statuses row.status)
            db.offers
      lift (or_throw found (conflict no_executor))
  ]

  abbrev pub company_name_of : Db → Offer → Option String
  company_name_of db offer =
      Option.bind (q.find_first User (λ row. row.id == offer.company_id) db.users)
        (λ user. user.company_name)

  unfoldable pub build_event : Date → OrderTransitionCommand → Offer → Db → OrderEvent
  build_event now (OrderTransitionCommand.offer_submitted order_id offer_id before) offer db =
      OrderEvent.offer_submitted
        (record {
          offer_id = offer.id;
          company_id = offer.company_id;
          offer_status = before;
          rejection_count = offer.rejection_count;
        })
        (or_else (company_name_of db offer) "Компания")
  build_event now (OrderTransitionCommand.offer_withdrawn order_id offer_id) offer db =
      OrderEvent.offer_withdrawn (offer_ref offer)
        (q.count_rows Offer (is_rival order_id offer.id) db.offers)
  build_event now (OrderTransitionCommand.offer_rejected order_id offer_id) offer db =
      OrderEvent.offer_rejected (offer_ref offer)
        (q.count_rows Offer (is_rival order_id offer.id) db.offers)
  build_event now (OrderTransitionCommand.offer_accepted order_id offer_id seen) offer db =
      OrderEvent.offer_accepted (offer_ref offer) (record {
        proposed_price = offer.proposed_price;
        proposed_deadline = offer.proposed_deadline;
        today = utc_calendar_date now;
        offer_edited_at = Option.map to_iso_string offer.edited_at;
        seen_offer_edited_at = seen;
        other_offers = map owner_of (q.find_many Offer (is_rival order_id offer.id) db.offers);
      })
  build_event now (OrderTransitionCommand.work_submitted order_id) offer db =
      OrderEvent.work_submitted (offer_ref offer)
  build_event now (OrderTransitionCommand.work_confirmed order_id comment) offer db =
      OrderEvent.work_confirmed (offer_ref offer) comment
  build_event now (OrderTransitionCommand.work_disputed order_id comment) offer db =
      OrderEvent.work_disputed (offer_ref offer) comment

  -- `run`, from its end: what follows the machine's decision, the choice of the offer, the lock.
  unfoldable pub conclude : Date → Order → Offer → OrderTransitionResult → Tx AppliedTransition
  conclude now order offer result = do
    written ← apply_effects q now order.id result.next_status result.effects
    return (record {
      order = written.updated_order;
      offer_id = offer.id;
      company_id = offer.company_id;
      from_status = result.from_status;
      next_status = result.next_status;
      offer_updates = written.offer_updates;
      notifications = written.notifications;
    })

  unfoldable pub decide_on : Date → OrderTransitionCommand → Order → Offer → Tx AppliedTransition
  unfolding conclude
  decide_on now command order offer = do
    event ← read (build_event now command offer)
    result ← lift (
        transition
          (record {
            order_id = order.id;
            order_number = order.order_number;
            title = order.title;
            client_id = order.client_id;
            status = order.status;
          })
          event)
    conclude now order offer result

  unfoldable pub run_locked : Date → OrderTransitionCommand → Order → Tx AppliedTransition
  unfolding resolve_offer decide_on
  run_locked now command order = do
    offer ← resolve_offer order.id command
    decide_on now command order offer

  -- The transition inside a transaction that is open.
  unfoldable pub run : Date → OrderTransitionCommand → Tx AppliedTransition
  unfolding lock_order run_locked
  run now command = do order ← lock_order (command_order_id command); run_locked now command order
