-- ===== src/Orders/Machine.antt =====
-- backend/src/modules/orders/order-state-machine.ts: the pure function that decides a transition.
pub mod Types
pub mod Handlers
pub mod Rules
pub mod Effects
pub mod Graph
pub mod Tests
use my_build.Base.{
  ◌≡◌, Bool, true, false, not, ◌&&◌, ◌||◌, List, Option, none, some, includes, Option_eq, String_eq,
  ◌!=◌, if◌then◌else◌,
}
use my_build.Errors.{
  HttpError, Result, ok, err, ◌>>=◌, ◌>>◌, refuse, invalid_state_transition, invalid_offer_status,
  offer_finally_rejected, offer_expired, offer_changed, unexpected,
}
use my_build.Shared.Enums.{OrderStatus, OfferStatus, OfferStatus_eq}
use my_build.Shared.Offers.{is_finally_rejected}
use my_build.Shared.Dates.{to_iso_string, is_offer_expired}
use my_build.Shared.State.{OrderEventType, can_transition, offer_preconditions}
use Types.{
  OrderStateContext, OrderEvent, Decision, OrderTransitionResult, event_type, event_offer_status,
}
use Handlers.{handler_for}

-- The offer's status does not suit the event; an offer that is new has none to look at.
unfoldable pub unsuitable : OrderEvent → Option OfferStatus → Result (Unit {0})
unfolding offer_preconditions
unsuitable event none = ok tt
unsuitable event (some status) =
    refuse (not (includes (offer_preconditions (event_type event)) status))
      (invalid_offer_status status (event_type event))

unfoldable pub finally_refused : OrderEvent → Bool
finally_refused (OrderEvent.offer_submitted offer company_name) =
    is_finally_rejected offer.offer_status offer.rejection_count
finally_refused _ = false

unfoldable pub past_deadline : OrderEvent → Bool
past_deadline (OrderEvent.offer_accepted offer terms) =
    is_offer_expired (to_iso_string terms.proposed_deadline) terms.today
past_deadline _ = false

unfoldable pub seen_otherwise : OrderEvent → Bool
seen_otherwise (OrderEvent.offer_accepted offer terms) =
    terms.offer_edited_at != terms.seen_offer_edited_at
seen_otherwise _ = false

-- The table has a handler for the event, and the shared rules allow it.
abbrev pub allowed_handler :
    OrderStateContext → OrderEvent → Result (OrderStateContext → OrderEvent → Result Decision)
allowed_handler context event = elim (handler_for context.status (event_type event)) [
  | none ↦ err (invalid_state_transition context.status (event_type event))
  | some handler ↦
      if can_transition context.status (event_type event) none
      then ok handler
      else err (invalid_state_transition context.status (event_type event))
]

unfoldable pub transition : OrderStateContext → OrderEvent → Result OrderTransitionResult
unfolding unsuitable finally_refused past_deadline seen_otherwise
transition context event = do
  handler ← allowed_handler context event
  unsuitable event (event_offer_status event)
  refuse (finally_refused event) offer_finally_rejected
  refuse (past_deadline event) offer_expired
  refuse (seen_otherwise event) offer_changed
  decision ← handler context event
  ok (record {
    from_status = context.status;
    next_status = decision.next_status;
    effects = decision.effects;
  })

-- `OrderStateMachine.can`.
unfoldable pub can : OrderStatus → OrderEventType → Option OfferStatus → Bool
can status event offer_status = can_transition status event offer_status

abbrev pub initial_order_status : OrderStatus
initial_order_status = OrderStatus.waiting
