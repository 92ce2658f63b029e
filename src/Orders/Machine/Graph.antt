-- ===== src/Orders/Machine/Graph.antt =====
-- The diagram of the order's life, as the repository's README draws it.
use my_build.Base.{
  ℕ, zero, suc, ◌≡◌, ◌≢◌, sym, subst, refl, true, false, none, [], arith, ltb, if◌then◌else◌,
}
use my_build.Errors.{ok, ok_of}
use my_build.Shared.Enums.{OrderStatus, OfferStatus}
use my_build.Shared.Offers.{accepts_offers, is_finally_rejected}
use my_build.Shared.Dates.{to_iso_string, is_offer_expired}
use my_build.Shared.State.{OrderEventType, can_transition}
use my_build.Orders.Machine.Types.{
  OrderStateContext, OrderEvent, OfferRef, OrderTransitionResult, event_type, event_offer_status,
}
use my_build.Orders.Machine.Handlers.{
  handler_for, offer_submitted, offer_left_selection, offer_accepted, work_submitted,
  work_confirmed, work_disputed,
}
use my_build.Orders.Machine.Rules.{transition-is_ok}
use my_build.Orders.Machine.{transition, finally_refused, past_deadline, seen_otherwise}

-- The rows of the table in README.md, with the two stays of an order that still has offers.
pub data Moves : OrderStatus → OrderEventType → OrderStatus → Type 0 where
  first_offer :
      Moves OrderStatus.waiting OrderEventType.offer_submitted OrderStatus.awaiting_confirmation
  another_offer :
      Moves OrderStatus.awaiting_confirmation OrderEventType.offer_submitted
        OrderStatus.awaiting_confirmation
  withdrawn_among_others :
      Moves OrderStatus.awaiting_confirmation OrderEventType.offer_withdrawn
        OrderStatus.awaiting_confirmation
  last_withdrawn :
      Moves OrderStatus.awaiting_confirmation OrderEventType.offer_withdrawn OrderStatus.waiting
  rejected_among_others :
      Moves OrderStatus.awaiting_confirmation OrderEventType.offer_rejected
        OrderStatus.awaiting_confirmation
  last_rejected :
      Moves OrderStatus.awaiting_confirmation OrderEventType.offer_rejected OrderStatus.waiting
  accepted :
      Moves OrderStatus.awaiting_confirmation OrderEventType.offer_accepted OrderStatus.in_progress
  submitted :
      Moves OrderStatus.in_progress OrderEventType.work_submitted
        OrderStatus.awaiting_completion_confirmation
  confirmed :
      Moves OrderStatus.awaiting_completion_confirmation OrderEventType.work_confirmed
        OrderStatus.completed
  disputed :
      Moves OrderStatus.awaiting_completion_confirmation OrderEventType.work_disputed
        OrderStatus.completion_disputed
  submitted_again :
      Moves OrderStatus.completion_disputed OrderEventType.work_submitted
        OrderStatus.awaiting_completion_confirmation

ruleset rows = (
  first_offer, another_offer, withdrawn_among_others, last_withdrawn, rejected_among_others,
  last_rejected, accepted, submitted, confirmed, disputed, submitted_again,
)

-- Where an order stands when an offer has left, by how many others are active.
abbrev pub left_with : ℕ → OrderStatus
left_with zero = OrderStatus.waiting
left_with (suc others) = OrderStatus.awaiting_confirmation

-- The order goes back to the search exactly with the last of its active offers.
abbrev pub ReturnsWithLast : OrderEvent → OrderStatus → Type 0
ReturnsWithLast (OrderEvent.offer_withdrawn _ others) next = next ≡ left_with others
ReturnsWithLast (OrderEvent.offer_rejected _ others) next = next ≡ left_with others
ReturnsWithLast _ next = next ≢ OrderStatus.waiting

moved :
    (context : OrderStateContext) (event : OrderEvent) (r : OrderTransitionResult)
    → transition context event ≡ ok r
    → Moves context.status (event_type event) r.next_status
unfolding transition can_transition handler_for offer_submitted offer_left_selection offer_accepted
    work_submitted work_confirmed work_disputed
moved context event r h = grind (arith, rows)

-- Every transition that the machine carries out is a row of the table, and none but the withdrawal or
-- the refusal of the last active offer takes the order back to the search for a company: with that one
-- it goes back, and while another offer is active it stays.
pub transition-Moves :
    (context : OrderStateContext) (event : OrderEvent) (r : OrderTransitionResult)
    → transition context event ≡ ok r
    → Moves context.status (event_type event) r.next_status × ReturnsWithLast event r.next_status
unfolding transition can_transition handler_for offer_submitted offer_left_selection offer_accepted
    work_submitted work_confirmed work_disputed
transition-Moves context (OrderEvent.offer_withdrawn offer zero) r h =
    (moved context (OrderEvent.offer_withdrawn offer 0) r h, ground arith)
transition-Moves context (OrderEvent.offer_withdrawn offer (suc others)) r h =
    (moved context (OrderEvent.offer_withdrawn offer (suc others)) r h, ground arith)
transition-Moves context (OrderEvent.offer_rejected offer zero) r h =
    (moved context (OrderEvent.offer_rejected offer 0) r h, ground arith)
transition-Moves context (OrderEvent.offer_rejected offer (suc others)) r h =
    (moved context (OrderEvent.offer_rejected offer (suc others)) r h, ground arith)
transition-Moves context event r h = (moved context event r h, (λ e. ground arith))

abbrev ref : OfferStatus → OfferRef
ref status = record { offer_id = "offer"; company_id = "company"; offer_status = status }

-- An event for each row.
abbrev instance_of : {s t : OrderStatus} {type : OrderEventType} → Moves s type t → OrderEvent
instance_of first_offer =
    OrderEvent.offer_submitted
      (record {
        offer_id = "offer";
        company_id = "company";
        offer_status = none;
        rejection_count = 0;
      })
      "Строй"
instance_of another_offer =
    OrderEvent.offer_submitted
      (record {
        offer_id = "offer";
        company_id = "company";
        offer_status = none;
        rejection_count = 0;
      })
      "Строй"
instance_of withdrawn_among_others = OrderEvent.offer_withdrawn (ref OfferStatus.sent) 1
instance_of last_withdrawn = OrderEvent.offer_withdrawn (ref OfferStatus.sent) 0
instance_of rejected_among_others = OrderEvent.offer_rejected (ref OfferStatus.sent) 1
instance_of last_rejected = OrderEvent.offer_rejected (ref OfferStatus.sent) 0
instance_of accepted = OrderEvent.offer_accepted (ref OfferStatus.sent) (record {
  proposed_price = "1000";
  proposed_deadline = 0;
  today = "1970-01-01";
  offer_edited_at = none;
  seen_offer_edited_at = none;
  other_offers = [];
})
instance_of submitted = OrderEvent.work_submitted (ref OfferStatus.accepted)
instance_of confirmed = OrderEvent.work_confirmed (ref OfferStatus.work_submitted) none
instance_of disputed = OrderEvent.work_disputed (ref OfferStatus.work_submitted) "исправить"
instance_of submitted_again = OrderEvent.work_submitted (ref OfferStatus.back_for_override)

abbrev pub Realises : OrderStateContext → OrderEventType → OrderStatus → OrderEvent → Type 0
Realises context type next event =
    (r : OrderTransitionResult) × (transition context event ≡ ok r)
    × (event_type event ≡ type)
    × (r.next_status ≡ next)

-- The status that an event leads to.
abbrev pub intended_next : OrderEvent → OrderStatus
intended_next (OrderEvent.offer_submitted _ _) = OrderStatus.awaiting_confirmation
intended_next (OrderEvent.offer_withdrawn _ others) =
    if ltb 0 others then OrderStatus.awaiting_confirmation else OrderStatus.waiting
intended_next (OrderEvent.offer_rejected _ others) =
    if ltb 0 others then OrderStatus.awaiting_confirmation else OrderStatus.waiting
intended_next (OrderEvent.offer_accepted _ _) = OrderStatus.in_progress
intended_next (OrderEvent.work_submitted _) = OrderStatus.awaiting_completion_confirmation
intended_next (OrderEvent.work_confirmed _ _) = OrderStatus.completed
intended_next (OrderEvent.work_disputed _ _) = OrderStatus.completion_disputed

pub transition_next :
    (context : OrderStateContext) (event : OrderEvent) (r : OrderTransitionResult)
    → transition context event ≡ ok r
    → (r.next_status ≡ intended_next event) × (r.from_status ≡ context.status)
unfolding transition can_transition handler_for offer_submitted offer_left_selection offer_accepted
    work_submitted work_confirmed work_disputed
transition_next context event r h = ground arith

carried_out :
    (context : OrderStateContext) (event : OrderEvent)
    → can_transition context.status (event_type event) (event_offer_status event) ≡ true
    → finally_refused event ≡ false
    → past_deadline event ≡ false
    → seen_otherwise event ≡ false
    → Realises context (event_type event) (intended_next event) event
carried_out context event a f p s =
    let (r, e) = ok_of (transition context event) (rw transition-is_ok (ground arith)) in
    (r, e, refl, (transition_next context event r e).0)

-- Every row of the table is carried out, in every order of its status, for some event of its type.
pub Moves-transition :
    {s t : OrderStatus} {type : OrderEventType} (context : OrderStateContext)
    → Moves s type t
    → context.status ≡ s
    → (event : OrderEvent) × Realises context type t event
unfolding can_transition finally_refused past_deadline seen_otherwise is_finally_rejected
    to_iso_string is_offer_expired
Moves-transition context first_offer h =
    let e = instance_of first_offer in (e, carried_out context e (ground arith) refl refl refl)
Moves-transition context m h =
    let e = instance_of m in (e, carried_out context e (ground arith) refl refl refl)

-- The statuses that the machine can take an order to, by any events.
pub data Reaches (s : OrderStatus) : OrderStatus → Type 0 where
  here : Reaches s s
  next :
      {t u : OrderStatus} (context : OrderStateContext) (event : OrderEvent)
      (r : OrderTransitionResult)
      → Reaches s t
      → context.status ≡ t
      → transition context event ≡ ok r
      → r.next_status ≡ u
      → Reaches s u

Moves-dealt :
    {s t : OrderStatus} {type : OrderEventType}
    → Moves s type t
    → accepts_offers s ≡ false
    → accepts_offers t ≡ false
unfolding accepts_offers
Moves-dealt first_offer h = cc
Moves-dealt another_offer h = cc
Moves-dealt withdrawn_among_others h = cc
Moves-dealt last_withdrawn h = cc
Moves-dealt rejected_among_others h = cc
Moves-dealt last_rejected h = cc
Moves-dealt accepted h = cc
Moves-dealt submitted h = refl
Moves-dealt confirmed h = refl
Moves-dealt disputed h = refl
Moves-dealt submitted_again h = refl

-- An order that has left the search for a company never gets back to it, whatever the machine carries
-- out on it.
pub Reaches-dealt :
    {s t : OrderStatus} → Reaches s t → accepts_offers s ≡ false → accepts_offers t ≡ false
Reaches-dealt here h = h
Reaches-dealt (next {t = t} context event r before e ran e') h =
    subst (λ u. accepts_offers u ≡ false) e'
      (Moves-dealt (transition-Moves context event r ran).0
        (subst (λ u. accepts_offers u ≡ false) (sym e) (Reaches-dealt before h)))

abbrev some_order : OrderStatus → OrderStateContext
some_order s = record {
  order_id = "order";
  order_number = 1;
  title = "Ремонт";
  client_id = "client";
  status = s;
}

Reaches-Moves :
    {s t u : OrderStatus} {type : OrderEventType} → Reaches s t → Moves t type u → Reaches s u
Reaches-Moves {t = t} before m =
    let (event, realised) = Moves-transition (some_order t) m refl in
    let (r, ran, _, same) = realised in next (some_order t) event r before refl ran same

-- From every status that an order can be in, the machine can take it to its completion.
pub Reaches-completed : (s : OrderStatus) → Reaches s OrderStatus.completed
Reaches-completed OrderStatus.completed = here
Reaches-completed s = search (here, Reaches-Moves, rows)
