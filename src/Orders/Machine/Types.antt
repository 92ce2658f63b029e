-- ===== src/Orders/Machine/Types.antt =====
-- What the order's machine reads and answers: contexts, events, effects. A price stands as the text
-- that `Decimal.toString` gives.
use my_build.Base.{ℕ, String, List, Option, some}
use my_build.Shared.Enums.{OrderStatus, OfferStatus, NotificationType}
use my_build.Shared.Dates.{Date}
use my_build.Shared.State.{OrderEventType}

pub record OrderStateContext : Type 0 where
  pub order_id : String
  pub order_number : ℕ
  pub title : String
  pub client_id : String
  pub status : OrderStatus

pub record OfferOwner : Type 0 where
  pub offer_id : String
  pub company_id : String

pub record OfferRef : Type 0 where
  pub offer_id : String
  pub company_id : String
  pub offer_status : OfferStatus

-- The status is the one before the offer was written; null, if the offer is new.
pub record SubmittedOfferRef : Type 0 where
  pub offer_id : String
  pub company_id : String
  pub offer_status : Option OfferStatus
  pub rejection_count : ℕ

-- The terms of the offer that is accepted, today's date, the version that the client saw, and the
-- offers that lose.
pub record AcceptedTerms : Type 0 where
  pub proposed_price : String
  pub proposed_deadline : Date
  pub today : String
  pub offer_edited_at : Option String
  pub seen_offer_edited_at : Option String
  pub other_offers : List OfferOwner

pub data OrderEvent : Type 0 where
  offer_submitted : SubmittedOfferRef → String → OrderEvent
  offer_withdrawn offer_rejected : OfferRef → ℕ → OrderEvent
  offer_accepted : OfferRef → AcceptedTerms → OrderEvent
  work_submitted : OfferRef → OrderEvent
  work_confirmed : OfferRef → Option String → OrderEvent
  work_disputed : OfferRef → String → OrderEvent

abbrev pub event_type : OrderEvent → OrderEventType
event_type (OrderEvent.offer_submitted _ _) = OrderEventType.offer_submitted
event_type (OrderEvent.offer_withdrawn _ _) = OrderEventType.offer_withdrawn
event_type (OrderEvent.offer_rejected _ _) = OrderEventType.offer_rejected
event_type (OrderEvent.offer_accepted _ _) = OrderEventType.offer_accepted
event_type (OrderEvent.work_submitted _) = OrderEventType.work_submitted
event_type (OrderEvent.work_confirmed _ _) = OrderEventType.work_confirmed
event_type (OrderEvent.work_disputed _ _) = OrderEventType.work_disputed

abbrev pub event_offer_status : OrderEvent → Option OfferStatus
event_offer_status (OrderEvent.offer_submitted offer _) = offer.offer_status
event_offer_status (OrderEvent.offer_withdrawn offer _) = some offer.offer_status
event_offer_status (OrderEvent.offer_rejected offer _) = some offer.offer_status
event_offer_status (OrderEvent.offer_accepted offer _) = some offer.offer_status
event_offer_status (OrderEvent.work_submitted offer) = some offer.offer_status
event_offer_status (OrderEvent.work_confirmed offer _) = some offer.offer_status
event_offer_status (OrderEvent.work_disputed offer _) = some offer.offer_status

-- The offer and the company behind the event.
abbrev pub event_owner : OrderEvent → OfferOwner
event_owner (OrderEvent.offer_submitted offer _) = record {
  offer_id = offer.offer_id;
  company_id = offer.company_id;
}
event_owner (OrderEvent.offer_withdrawn offer _) = record {
  offer_id = offer.offer_id;
  company_id = offer.company_id;
}
event_owner (OrderEvent.offer_rejected offer _) = record {
  offer_id = offer.offer_id;
  company_id = offer.company_id;
}
event_owner (OrderEvent.offer_accepted offer _) = record {
  offer_id = offer.offer_id;
  company_id = offer.company_id;
}
event_owner (OrderEvent.work_submitted offer) = record {
  offer_id = offer.offer_id;
  company_id = offer.company_id;
}
event_owner (OrderEvent.work_confirmed offer _) = record {
  offer_id = offer.offer_id;
  company_id = offer.company_id;
}
event_owner (OrderEvent.work_disputed offer _) = record {
  offer_id = offer.offer_id;
  company_id = offer.company_id;
}

-- The fields of the effect CREATE_NOTIFICATION.
pub record Notice : Type 0 where
  pub user_id : String
  pub type : NotificationType
  pub title : String
  pub body : String
  pub collapse_key : Option String

pub data OrderSideEffect : Type 0 where
  set_offer_status : OfferOwner → OfferStatus → OrderSideEffect
  set_order_deal : String → Date → OrderSideEffect
  set_correction_comment : String → OrderSideEffect
  set_completion_comment : Option String → OrderSideEffect
  create_notification : Notice → OrderSideEffect

-- What a handler answers: the result without `fromStatus`.
pub record Decision : Type 0 where
  pub next_status : OrderStatus
  pub effects : List OrderSideEffect

pub record OrderTransitionResult : Type 0 where
  pub from_status : OrderStatus
  pub next_status : OrderStatus
  pub effects : List OrderSideEffect
