-- ===== src/Orders/Machine/Tests.antt =====
-- Runs of the order's machine, and its theorems at them.
use my_build.Base.{
  String_eq, beq→ne, ◌*◌, ◌≡◌, ◌≢◌, refl, false, ◌&&◌, not, none, some, [], ◌∷◌, map, All,
}
use my_build.Errors.{ok, is_ok, ok_of}
use my_build.Shared.Enums.{OrderStatus, OfferStatus}
use my_build.Shared.Offers.{accepts_offers}
use my_build.Shared.Dates.{day_ms, to_iso_string, is_offer_expired}
use my_build.Shared.State.{OrderEventType, OrderEventType_eq, order_transitions, can_transition}
use my_build.Orders.Machine.Types.{
  OrderStateContext, OrderEvent, OrderTransitionResult, event_owner,
}
use my_build.Orders.Machine.Handlers.{handler_for, offer_accepted}
use my_build.Orders.Machine.{transition, finally_refused, past_deadline, seen_otherwise}
use my_build.Orders.Machine.Rules.{transition-is_ok}
use my_build.Orders.Machine.Effects.{
  transition_changes, transition_announces, status_updates, notices, deals, lost, losers,
  intended_status, agreed, actor, IsOutside, announcement, told_as,
}
use my_build.Orders.Machine.Graph.{
  Moves, Reaches, transition-Moves, Moves-transition, Reaches-dealt, Reaches-completed, Realises,
}

abbrev house : OrderStateContext
house = record {
  order_id = "order";
  order_number = 7;
  title = "Дом";
  client_id = "client";
  status = OrderStatus.awaiting_confirmation;
}

abbrev done_house : OrderStateContext
done_house = record house { status = OrderStatus.completed }

-- The client accepts one of two offers before its deadline.
abbrev acceptance : OrderEvent
acceptance =
    OrderEvent.offer_accepted
      (record { offer_id = "offer"; company_id = "company"; offer_status = OfferStatus.sent })
      (record {
        proposed_price = "1000";
        proposed_deadline = 20 * day_ms;
        today = "1970-01-03";
        offer_edited_at = none;
        seen_offer_edited_at = none;
        other_offers = (record { offer_id = "rival"; company_id = "other" }) ∷ [];
      })

accepted : (r : OrderTransitionResult) × (transition house acceptance ≡ ok r)
unfolding transition can_transition handler_for offer_accepted past_deadline seen_otherwise
    to_iso_string is_offer_expired
accepted = ok_of (transition house acceptance) refl

closed : can_transition OrderStatus.completed OrderEventType.offer_accepted none ≡ false
unfolding can_transition order_transitions
closed = refl

in_work_is_closed : accepts_offers OrderStatus.in_progress ≡ false
unfolding accepts_offers
in_work_is_closed = refl

transition-is_ok_example : is_ok (transition house acceptance) ≡ (
    can_transition OrderStatus.awaiting_confirmation OrderEventType.offer_accepted
      (some OfferStatus.sent)
    && not (finally_refused acceptance)
    && not (past_deadline acceptance)
    && not (seen_otherwise acceptance))
transition-is_ok_example = transition-is_ok house acceptance

transition_changes_example :
    (status_updates accepted.0.effects
      ≡ (event_owner acceptance, intended_status acceptance) ∷ map lost (losers acceptance))
    × (deals accepted.0.effects ≡ agreed acceptance)
transition_changes_example = transition_changes house acceptance accepted.0 accepted.1

outside : IsOutside house acceptance
outside = (beq→ne "company" "client" refl, (beq→ne "other" "client" refl, tt))

transition_announces_example :
    (map told_as (notices accepted.0.effects)
      ≡ map (announcement house.client_id) (status_updates accepted.0.effects))
    × All (λ n. n.user_id ≢ actor house acceptance) (notices accepted.0.effects)
transition_announces_example = transition_announces house acceptance accepted.0 outside accepted.1

transition-Moves_example :
    Moves OrderStatus.awaiting_confirmation OrderEventType.offer_accepted accepted.0.next_status
    × (accepted.0.next_status ≢ OrderStatus.waiting)
transition-Moves_example = transition-Moves house acceptance accepted.0 accepted.1

Moves-transition_example :
    (event : OrderEvent) × Realises house OrderEventType.offer_accepted OrderStatus.in_progress
      event
Moves-transition_example = Moves-transition house Moves.accepted refl

Reaches-dealt_example : accepts_offers OrderStatus.completed ≡ false
Reaches-dealt_example =
    Reaches-dealt {s = OrderStatus.in_progress} (Reaches-completed OrderStatus.in_progress)
      in_work_is_closed

Reaches-completed_example : Reaches OrderStatus.waiting OrderStatus.completed
Reaches-completed_example = Reaches-completed OrderStatus.waiting
