-- ===== src/Orders/Machine/Handlers.antt =====
-- The handlers of the order's machine and the table that finds them.
use my_build.Base.{ℕ, String, ◌<>◌, List, [], ◌∷◌, Option, none, some, ltb, if◌then◌else◌}
use my_build.Errors.{Result, ok, err, unexpected}
use my_build.Shared.Enums.{OrderStatus, OfferStatus, NotificationType}
use my_build.Shared.Labels.{notification_type_labels}
use my_build.Shared.State.{OrderEventType}
use my_build.Orders.Notification.{order_ref, offer_key}
use my_build.Orders.Machine.Types.{
  OrderStateContext, OfferOwner, OrderEvent, OrderSideEffect, set_offer_status, set_order_deal,
  set_correction_comment, set_completion_comment, create_notification, Decision, event_type,
  event_owner,
}

-- `TransitionHandler`. A handler that is called with an event of another type throws.
abbrev pub TransitionHandler : Type 0
TransitionHandler = OrderStateContext → OrderEvent → Result Decision

-- The order's name and what happened to it.
unfoldable pub notice_body : OrderStateContext → String → String
notice_body context text =
    order_ref (record { order_number = context.order_number; title = context.title })
    <> ": "
    <> text

unfoldable pub notify : String → NotificationType → String → Option String → OrderSideEffect
notify user_id type body collapse_key = create_notification (record {
  user_id = user_id;
  type = type;
  title = notification_type_labels type;
  body = body;
  collapse_key = collapse_key;
})

unfoldable pub offer_submitted : TransitionHandler
unfolding notice_body notify
offer_submitted context (OrderEvent.offer_submitted offer company_name) = ok (record {
  next_status = OrderStatus.awaiting_confirmation;
  effects =
      set_offer_status (event_owner (OrderEvent.offer_submitted offer company_name))
        OfferStatus.sent
      ∷ notify context.client_id NotificationType.offer_received
          (notice_body context ("предложение от «" <> company_name <> "»"))
          (some (offer_key offer.offer_id))
      ∷ [];
})
offer_submitted context event = err (unexpected (event_type event))

-- Whom to tell that an offer has left the selection, and in what words.
pub data NoticeSide : Type 0 where
  client company : NoticeSide

pub record LeftSelectionNotice : Type 0 where
  pub to : NoticeSide
  pub type : NotificationType
  pub body : String

abbrev pub addressee : NoticeSide → OrderStateContext → OfferOwner → String
addressee NoticeSide.client context offer = context.client_id
addressee NoticeSide.company context offer = offer.company_id

abbrev pub left_selection :
    OfferStatus → LeftSelectionNotice → OrderStateContext → OfferOwner → ℕ → Decision
left_selection offer_status notice context offer other_active_offers = record {
  next_status =
      if ltb 0 other_active_offers then OrderStatus.awaiting_confirmation else OrderStatus.waiting;
  effects =
      set_offer_status offer offer_status
      ∷ notify (addressee notice.to context offer) notice.type (notice_body context notice.body)
          (some (offer_key offer.offer_id))
      ∷ [];
}

unfoldable pub offer_left_selection : OfferStatus → LeftSelectionNotice → TransitionHandler
unfolding notice_body notify
offer_left_selection offer_status notice context (OrderEvent.offer_withdrawn offer others) = ok (
    left_selection offer_status notice context
      (event_owner (OrderEvent.offer_withdrawn offer others)) others)
offer_left_selection offer_status notice context (OrderEvent.offer_rejected offer others) = ok (
    left_selection offer_status notice context
      (event_owner (OrderEvent.offer_rejected offer others)) others)
offer_left_selection offer_status notice context event = err (unexpected (event_type event))

-- The loop over the offers that lost.
unfoldable pub rival_effects : OrderStateContext → List OfferOwner → List OrderSideEffect
unfolding notice_body notify
rival_effects context [] = []
rival_effects context (rival ∷ rivals) =
    set_offer_status rival OfferStatus.not_accepted
    ∷ notify rival.company_id NotificationType.offer_not_accepted
        (notice_body context "клиент выбрал другое предложение") (some (offer_key rival.offer_id))
    ∷ rival_effects context rivals

unfoldable pub offer_accepted : TransitionHandler
unfolding notice_body notify rival_effects
offer_accepted context (OrderEvent.offer_accepted offer terms) = ok (record {
  next_status = OrderStatus.in_progress;
  effects =
      set_offer_status (event_owner (OrderEvent.offer_accepted offer terms)) OfferStatus.accepted
      ∷ set_order_deal terms.proposed_price terms.proposed_deadline
      ∷ notify offer.company_id NotificationType.offer_accepted
          (notice_body context "ваше предложение принято, можно приступать")
          (some (offer_key offer.offer_id))
      ∷ rival_effects context terms.other_offers;
})
offer_accepted context event = err (unexpected (event_type event))

unfoldable pub work_submitted : TransitionHandler
unfolding notice_body notify
work_submitted context (OrderEvent.work_submitted offer) = ok (record {
  next_status = OrderStatus.awaiting_completion_confirmation;
  effects =
      set_offer_status (event_owner (OrderEvent.work_submitted offer)) OfferStatus.work_submitted
      ∷ notify context.client_id NotificationType.work_submitted
          (notice_body context "работа сдана и ждёт вашего подтверждения") none
      ∷ [];
})
work_submitted context event = err (unexpected (event_type event))

unfoldable pub work_confirmed : TransitionHandler
unfolding notice_body notify
work_confirmed context (OrderEvent.work_confirmed offer comment) = ok (record {
  next_status = OrderStatus.completed;
  effects =
      set_offer_status (event_owner (OrderEvent.work_confirmed offer comment)) OfferStatus.completed
      ∷ set_completion_comment comment
      ∷ notify offer.company_id NotificationType.work_confirmed
          (notice_body context "клиент принял работу") none
      ∷ [];
})
work_confirmed context event = err (unexpected (event_type event))

unfoldable pub work_disputed : TransitionHandler
unfolding notice_body notify
work_disputed context (OrderEvent.work_disputed offer comment) = ok (record {
  next_status = OrderStatus.completion_disputed;
  effects =
      set_offer_status (event_owner (OrderEvent.work_disputed offer comment))
        OfferStatus.back_for_override
      ∷ set_correction_comment comment
      ∷ notify offer.company_id NotificationType.work_disputed
          (notice_body context "клиент отправил работу на доработку") none
      ∷ [];
})
work_disputed context event = err (unexpected (event_type event))

abbrev withdrawn_notice : LeftSelectionNotice
withdrawn_notice = record {
  to = NoticeSide.client;
  type = NotificationType.offer_withdrawn;
  body = "компания отозвала своё предложение";
}

abbrev rejected_notice : LeftSelectionNotice
rejected_notice = record {
  to = NoticeSide.company;
  type = NotificationType.offer_rejected;
  body = "ваше предложение отклонено";
}

-- The table `TRANSITIONS` by `handlerFor`.
unfoldable pub handler_for : OrderStatus → OrderEventType → Option TransitionHandler
handler_for OrderStatus.waiting OrderEventType.offer_submitted = some offer_submitted
handler_for OrderStatus.awaiting_confirmation OrderEventType.offer_submitted = some offer_submitted
handler_for OrderStatus.awaiting_confirmation OrderEventType.offer_withdrawn =
    some (offer_left_selection OfferStatus.withdrawn withdrawn_notice)
handler_for OrderStatus.awaiting_confirmation OrderEventType.offer_rejected =
    some (offer_left_selection OfferStatus.rejected rejected_notice)
handler_for OrderStatus.awaiting_confirmation OrderEventType.offer_accepted = some offer_accepted
handler_for OrderStatus.in_progress OrderEventType.work_submitted = some work_submitted
handler_for OrderStatus.awaiting_completion_confirmation OrderEventType.work_confirmed =
    some work_confirmed
handler_for OrderStatus.awaiting_completion_confirmation OrderEventType.work_disputed =
    some work_disputed
handler_for OrderStatus.completion_disputed OrderEventType.work_submitted = some work_submitted
handler_for _ _ = none
