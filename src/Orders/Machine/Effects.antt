-- ===== src/Orders/Machine/Effects.antt =====
-- What a transition of the order's machine changes and whom it tells.
use my_build.Base.{String, ◌≡◌, refl, ap, ◌≢◌, List, [], ◌∷◌, map, arith, All}
use my_build.Errors.{ok}
use my_build.Shared.Enums.{OfferStatus, NotificationType}
use my_build.Shared.Dates.{Date}
use my_build.Shared.State.{can_transition}
use my_build.Orders.Machine.Types.{
  OrderStateContext, OfferOwner, OrderEvent, Notice, OrderSideEffect, set_offer_status,
  set_order_deal, create_notification, OrderTransitionResult, event_owner,
}
use my_build.Orders.Machine.Handlers.{
  handler_for, offer_submitted, offer_left_selection, offer_accepted, work_submitted,
  work_confirmed, work_disputed, rival_effects,
}
use my_build.Orders.Machine.{transition}

-- The parts of a list of effects.
abbrev pub status_updates : List OrderSideEffect → List (OfferOwner × OfferStatus)
status_updates [] = []
status_updates (set_offer_status offer status ∷ effects) = (offer, status) ∷ status_updates effects
status_updates (_ ∷ effects) = status_updates effects

abbrev pub notices : List OrderSideEffect → List Notice
notices [] = []
notices (create_notification notice ∷ effects) = notice ∷ notices effects
notices (_ ∷ effects) = notices effects

abbrev pub deals : List OrderSideEffect → List (String × Date)
deals [] = []
deals (set_order_deal price deadline ∷ effects) = (price, deadline) ∷ deals effects
deals (_ ∷ effects) = deals effects

-- The status that the event means for its offer, and the offers that lose by it.
abbrev pub intended_status : OrderEvent → OfferStatus
intended_status (OrderEvent.offer_submitted _ _) = OfferStatus.sent
intended_status (OrderEvent.offer_withdrawn _ _) = OfferStatus.withdrawn
intended_status (OrderEvent.offer_rejected _ _) = OfferStatus.rejected
intended_status (OrderEvent.offer_accepted _ _) = OfferStatus.accepted
intended_status (OrderEvent.work_submitted _) = OfferStatus.work_submitted
intended_status (OrderEvent.work_confirmed _ _) = OfferStatus.completed
intended_status (OrderEvent.work_disputed _ _) = OfferStatus.back_for_override

abbrev pub losers : OrderEvent → List OfferOwner
losers (OrderEvent.offer_accepted _ terms) = terms.other_offers
losers _ = []

abbrev pub agreed : OrderEvent → List (String × Date)
agreed (OrderEvent.offer_accepted _ terms) = (terms.proposed_price, terms.proposed_deadline) ∷ []
agreed _ = []

abbrev pub lost : OfferOwner → OfferOwner × OfferStatus
lost rival = (rival, OfferStatus.not_accepted)

status_updates-rival_effects :
    (context : OrderStateContext) (rivals : List OfferOwner)
    → status_updates (rival_effects context rivals) ≡ map lost rivals
unfolding rival_effects
status_updates-rival_effects context [] = refl
status_updates-rival_effects context (rival ∷ rivals) =
    ap (λ us. lost rival ∷ us) (status_updates-rival_effects context rivals)

deals-rival_effects :
    (context : OrderStateContext) (rivals : List OfferOwner)
    → deals (rival_effects context rivals) ≡ []
unfolding rival_effects
deals-rival_effects context [] = refl
deals-rival_effects context (rival ∷ rivals) = deals-rival_effects context rivals

-- A transition sets the event's own offer to the status that the event means, turns every rival of
-- an accepted offer down as not chosen, and touches no other offer; it fixes a price and a deadline
-- only with an acceptance, those of the offer that is accepted.
pub transition_changes :
    (context : OrderStateContext) (event : OrderEvent) (r : OrderTransitionResult)
    → transition context event ≡ ok r
    → (status_updates r.effects
        ≡ (event_owner event, intended_status event) ∷ map lost (losers event))
      × (deals r.effects ≡ agreed event)
unfolding transition can_transition handler_for offer_submitted offer_left_selection offer_accepted
    work_submitted work_confirmed work_disputed
transition_changes context (OrderEvent.offer_accepted offer terms) r h = ground (
  arith,
  status_updates-rival_effects context terms.other_offers,
  deals-rival_effects context terms.other_offers,
)
transition_changes context event r h = ground arith

-- The side that caused the event.
abbrev pub actor : OrderStateContext → OrderEvent → String
actor context (OrderEvent.offer_submitted offer _) = offer.company_id
actor context (OrderEvent.offer_withdrawn offer _) = offer.company_id
actor context (OrderEvent.work_submitted offer) = offer.company_id
actor context _ = context.client_id

-- The order's client is none of the companies that the event concerns.
abbrev pub IsOutside : OrderStateContext → OrderEvent → Type 0
IsOutside context event =
    ((event_owner event).company_id ≢ context.client_id)
    × All (λ rival. rival.company_id ≢ context.client_id) (losers event)

-- Whom a change of an offer's status is told to, and as what.
abbrev pub announcement : String → OfferOwner × OfferStatus → String × NotificationType
announcement client_id (owner, OfferStatus.sent) = (client_id, NotificationType.offer_received)
announcement client_id (owner, OfferStatus.withdrawn) =
    (client_id, NotificationType.offer_withdrawn)
announcement client_id (owner, OfferStatus.rejected) =
    (owner.company_id, NotificationType.offer_rejected)
announcement client_id (owner, OfferStatus.accepted) =
    (owner.company_id, NotificationType.offer_accepted)
announcement client_id (owner, OfferStatus.not_accepted) =
    (owner.company_id, NotificationType.offer_not_accepted)
announcement client_id (owner, OfferStatus.work_submitted) =
    (client_id, NotificationType.work_submitted)
announcement client_id (owner, OfferStatus.completed) =
    (owner.company_id, NotificationType.work_confirmed)
announcement client_id (owner, OfferStatus.back_for_override) =
    (owner.company_id, NotificationType.work_disputed)

abbrev pub told_as : Notice → String × NotificationType
told_as notice = (notice.user_id, notice.type)

rival_notices :
    (context : OrderStateContext) (rivals : List OfferOwner)
    → map told_as (notices (rival_effects context rivals))
      ≡ map (announcement context.client_id) (map lost rivals)
unfolding rival_effects
rival_notices context [] = refl
rival_notices context (rival ∷ rivals) =
    ap
      (λ (ts : List (String × NotificationType)).
        (rival.company_id, NotificationType.offer_not_accepted) ∷ ts)
      (rival_notices context rivals)

rivals_apart :
    (context : OrderStateContext) (rivals : List OfferOwner)
    → All (λ rival. rival.company_id ≢ context.client_id) rivals
    → All (λ n. n.user_id ≢ context.client_id) (notices (rival_effects context rivals))
unfolding rival_effects
rivals_apart context [] h = tt
rivals_apart context (rival ∷ rivals) h = (h.0, rivals_apart context rivals h.1)

pub notices-changes :
    (context : OrderStateContext) (event : OrderEvent) (r : OrderTransitionResult)
    → transition context event ≡ ok r
    → map told_as (notices r.effects)
      ≡ map (announcement context.client_id) (status_updates r.effects)
unfolding transition can_transition handler_for offer_submitted offer_left_selection offer_accepted
    work_submitted work_confirmed work_disputed
notices-changes context (OrderEvent.offer_accepted offer terms) r h = ground (
  arith,
  rival_notices context terms.other_offers,
  status_updates-rival_effects context terms.other_offers,
)
notices-changes context event r h = ground arith

-- Where the order's client is none of the companies, every change of an offer's status is announced by
-- one notice, in the order of the changes, to the side and of the type that belong to the new
-- status: a loser is told that another offer was chosen, the chosen company that its offer was, the
-- client what the company has done; and no notice goes to the side that caused the event.
pub transition_announces :
    (context : OrderStateContext) (event : OrderEvent) (r : OrderTransitionResult)
    → IsOutside context event
    → transition context event ≡ ok r
    → (map told_as (notices r.effects)
        ≡ map (announcement context.client_id) (status_updates r.effects))
      × All (λ n. n.user_id ≢ actor context event) (notices r.effects)
unfolding transition can_transition handler_for offer_submitted offer_left_selection offer_accepted
    work_submitted work_confirmed work_disputed
transition_announces context (OrderEvent.offer_accepted offer terms) r o h = (
  notices-changes context (OrderEvent.offer_accepted offer terms) r h,
  ground (arith, o.0, rivals_apart context terms.other_offers o.1),
)
transition_announces context event r o h = (notices-changes context event r h, ground arith)
