-- ===== src/Orders/Transition/Types.antt =====
-- The commands of the transition service and what it answers.
use my_build.Base.{String, List, Option, none, some}
use my_build.Shared.Enums.{OrderStatus, OfferStatus}
use my_build.Shared.State.{OrderEventType}
use my_build.Store.Tables.{Order, Notification}

-- The arguments are the order, the offer where the command names one, and what the event needs.
pub data OrderTransitionCommand : Type 0 where
  offer_submitted : String → String → Option OfferStatus → OrderTransitionCommand
  offer_withdrawn offer_rejected : String → String → OrderTransitionCommand
  offer_accepted : String → String → Option String → OrderTransitionCommand
  work_submitted : String → OrderTransitionCommand
  work_confirmed : String → Option String → OrderTransitionCommand
  work_disputed : String → String → OrderTransitionCommand

abbrev pub command_order_id : OrderTransitionCommand → String
command_order_id (OrderTransitionCommand.offer_submitted order_id _ _) = order_id
command_order_id (OrderTransitionCommand.offer_withdrawn order_id _) = order_id
command_order_id (OrderTransitionCommand.offer_rejected order_id _) = order_id
command_order_id (OrderTransitionCommand.offer_accepted order_id _ _) = order_id
command_order_id (OrderTransitionCommand.work_submitted order_id) = order_id
command_order_id (OrderTransitionCommand.work_confirmed order_id _) = order_id
command_order_id (OrderTransitionCommand.work_disputed order_id _) = order_id

abbrev pub command_offer_id : OrderTransitionCommand → Option String
command_offer_id (OrderTransitionCommand.offer_submitted _ offer_id _) = some offer_id
command_offer_id (OrderTransitionCommand.offer_withdrawn _ offer_id) = some offer_id
command_offer_id (OrderTransitionCommand.offer_rejected _ offer_id) = some offer_id
command_offer_id (OrderTransitionCommand.offer_accepted _ offer_id _) = some offer_id
command_offer_id _ = none

abbrev pub command_type : OrderTransitionCommand → OrderEventType
command_type (OrderTransitionCommand.offer_submitted _ _ _) = OrderEventType.offer_submitted
command_type (OrderTransitionCommand.offer_withdrawn _ _) = OrderEventType.offer_withdrawn
command_type (OrderTransitionCommand.offer_rejected _ _) = OrderEventType.offer_rejected
command_type (OrderTransitionCommand.offer_accepted _ _ _) = OrderEventType.offer_accepted
command_type (OrderTransitionCommand.work_submitted _) = OrderEventType.work_submitted
command_type (OrderTransitionCommand.work_confirmed _ _) = OrderEventType.work_confirmed
command_type (OrderTransitionCommand.work_disputed _ _) = OrderEventType.work_disputed

pub record OfferStatusUpdate : Type 0 where
  pub offer_id : String
  pub company_id : String
  pub status : OfferStatus

pub record AppliedTransition : Type 0 where
  pub order : Order
  pub offer_id : String
  pub company_id : String
  pub from_status : OrderStatus
  pub next_status : OrderStatus
  pub offer_updates : List OfferStatusUpdate
  pub notifications : List Notification
