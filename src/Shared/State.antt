-- ===== src/Shared/State.antt =====
-- shared/src/state.ts: the tables of the order's state machine.
use my_build.Base.{
  ℕ, ◌≡◌, ◌↔◌, Bool, true, false, List, [], ◌∷◌, Option, none, some, arith, nat_beq, Eq, includes,
  if◌then◌else◌,
}
use my_build.Shared.Enums.{OrderStatus, OfferStatus, OfferStatus_eq}
use my_build.Shared.Offers.{resubmittable_offer_statuses}

pub data OrderEventType : Type 0 where
  offer_submitted offer_withdrawn offer_rejected offer_accepted : OrderEventType
  work_submitted work_confirmed work_disputed : OrderEventType

abbrev pub order_event_type_tag : OrderEventType → ℕ
order_event_type_tag OrderEventType.offer_submitted = 0
order_event_type_tag OrderEventType.offer_withdrawn = 1
order_event_type_tag OrderEventType.offer_rejected = 2
order_event_type_tag OrderEventType.offer_accepted = 3
order_event_type_tag OrderEventType.work_submitted = 4
order_event_type_tag OrderEventType.work_confirmed = 5
order_event_type_tag OrderEventType.work_disputed = 6

pub order_event_type_tag_iff :
    (a b : OrderEventType)
    → (nat_beq (order_event_type_tag a) (order_event_type_tag b) ≡ true) ↔ (a ≡ b)
order_event_type_tag_iff a b = ground arith

instance abbrev pub OrderEventType_eq : Eq OrderEventType
OrderEventType_eq = record {
  same = λ a b. nat_beq (order_event_type_tag a) (order_event_type_tag b);
  same_iff = order_event_type_tag_iff;
}

unfoldable pub order_transitions : OrderStatus → List OrderEventType
order_transitions OrderStatus.waiting = OrderEventType.offer_submitted ∷ []
order_transitions OrderStatus.awaiting_confirmation =
    OrderEventType.offer_submitted ∷ OrderEventType.offer_withdrawn ∷ OrderEventType.offer_rejected
    ∷ OrderEventType.offer_accepted ∷ []
order_transitions OrderStatus.in_progress = OrderEventType.work_submitted ∷ []
order_transitions OrderStatus.awaiting_completion_confirmation =
    OrderEventType.work_confirmed ∷ OrderEventType.work_disputed ∷ []
order_transitions OrderStatus.completion_disputed = OrderEventType.work_submitted ∷ []
order_transitions OrderStatus.completed = []

unfoldable pub offer_preconditions : OrderEventType → List OfferStatus
offer_preconditions OrderEventType.offer_submitted = OfferStatus.sent ∷ resubmittable_offer_statuses
offer_preconditions OrderEventType.offer_withdrawn = OfferStatus.sent ∷ []
offer_preconditions OrderEventType.offer_rejected = OfferStatus.sent ∷ []
offer_preconditions OrderEventType.offer_accepted = OfferStatus.sent ∷ []
offer_preconditions OrderEventType.work_submitted =
    OfferStatus.accepted ∷ OfferStatus.back_for_override ∷ []
offer_preconditions OrderEventType.work_confirmed = OfferStatus.work_submitted ∷ []
offer_preconditions OrderEventType.work_disputed = OfferStatus.work_submitted ∷ []

-- The last argument is null or left out where there is no offer to look at.
unfoldable pub can_transition : OrderStatus → OrderEventType → Option OfferStatus → Bool
unfolding order_transitions offer_preconditions
can_transition status event none = if includes (order_transitions status) event then true else false
can_transition status event (some offer_status) =
    if includes (order_transitions status) event
    then includes (offer_preconditions event) offer_status
    else false
