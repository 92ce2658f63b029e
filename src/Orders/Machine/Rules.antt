-- ===== src/Orders/Machine/Rules.antt =====
-- When the order's machine accepts an event, and with which exception it refuses.
use my_build.Base.{◌≡◌, ◌≢◌, Bool, true, false, not, ◌&&◌, Option, none, some, arith, includes}
use my_build.Errors.{err, unexpected, invalid_state_transition, is_ok}
use my_build.Shared.Enums.{OrderStatus}
use my_build.Shared.State.{OrderEventType, OrderEventType_eq, order_transitions, can_transition}
use my_build.Orders.Machine.Types.{OrderStateContext, OrderEvent, event_type, event_offer_status}
use my_build.Orders.Machine.Handlers.{
  handler_for, offer_submitted, offer_left_selection, offer_accepted, work_submitted,
  work_confirmed, work_disputed,
}
use my_build.Orders.Machine.{finally_refused, past_deadline, seen_otherwise, transition}

abbrev pub is_some {ℓ} : {A : Type ℓ} → Option A → Bool
is_some none = false
is_some (some a) = true

-- The server's table has a handler for an event in a status exactly where the table of the shared
-- package, by which the interface shows its buttons, lists the event.
pub handler_for_lem :
    (status : OrderStatus) (event : OrderEventType)
    → is_some (handler_for status event) ≡ includes (order_transitions status) event
unfolding handler_for order_transitions
handler_for_lem status event = ground arith

-- The machine carries an event out exactly where the shared rule that shows the button allows it at
-- the offer's status, the client has not refused the company for good, the deadline of an accepted
-- offer has not passed, and its terms are those that the client saw.
pub transition-is_ok :
    (context : OrderStateContext) (event : OrderEvent)
    → is_ok (transition context event) ≡ (
        can_transition context.status (event_type event) (event_offer_status event)
        && not (finally_refused event)
        && not (past_deadline event)
        && not (seen_otherwise event))
unfolding transition can_transition handler_for offer_submitted offer_left_selection offer_accepted
    work_submitted work_confirmed work_disputed
transition-is_ok context event = ground arith

-- No event, in whatever status, reaches a handler that is not its own.
pub transition-ne-unexpected :
    (context : OrderStateContext) (event : OrderEvent) (type : OrderEventType)
    → transition context event ≢ err (unexpected type)
unfolding transition can_transition handler_for offer_submitted offer_left_selection offer_accepted
    work_submitted work_confirmed work_disputed
transition-ne-unexpected context event type = ground arith

-- Where the order's status does not allow the event, that is the answer, whatever else is wrong.
pub transition-wrong_status :
    (context : OrderStateContext) (event : OrderEvent)
    → can_transition context.status (event_type event) none ≡ false
    → transition context event ≡ err (invalid_state_transition context.status (event_type event))
unfolding transition can_transition handler_for
transition-wrong_status context event h = ground arith
