-- ===== src/Orders/Transition/Inversion.antt =====
-- What a transition that answers has found and written on its way.
use my_build.Base.{
  String, ◌≡◌, ◌∙◌, subst, Bool, ◌&&◌, none, some, arith, ◌==◌, String_eq, includes, inl, inr,
}
use my_build.Errors.{ok, Result-cases}
use my_build.Shared.Enums.{OfferStatus_eq}
use my_build.Shared.Offers.{executor_offer_statuses}
use my_build.Shared.Dates.{Date}
use my_build.Store.Tables.{Db, Order, Offer}
use my_build.Store.Queries.{Queries}
use my_build.Store.Tx.{Tx-eq-ok}
use my_build.Orders.Machine.Types.{OrderStateContext, OrderTransitionResult}
use my_build.Orders.Machine.{transition}
use my_build.Orders.Transition.Types.{
  OrderTransitionCommand, command_order_id, command_offer_id, AppliedTransition,
}
use my_build.Orders.Transition.Write.{Written, apply_effects}
use my_build.Orders.Transition.{
  lock_order, resolve_offer, build_event, conclude, decide_on, run_locked, run,
}

abbrev pub context_of : Order → OrderStateContext
context_of order = record {
  order_id = order.id;
  order_number = order.order_number;
  title = order.title;
  client_id = order.client_id;
  status = order.status;
}

-- The offer that the command names, or the executor's.
abbrev pub is_meant : String → OrderTransitionCommand → Offer → Bool
is_meant order_id command row = elim (command_offer_id command) [
  | some offer_id ↦ row.id == offer_id && row.order_id == order_id
  | none ↦ row.order_id == order_id && includes executor_offer_statuses row.status
]

abbrev pub answer_of : Offer → OrderTransitionResult → Written → AppliedTransition
answer_of offer r written = record {
  order = written.updated_order;
  offer_id = offer.id;
  company_id = offer.company_id;
  from_status = r.from_status;
  next_status = r.next_status;
  offer_updates = written.offer_updates;
  notifications = written.notifications;
}

pub record RunOf (q : Queries) (now : Date) (command : OrderTransitionCommand) (db : Db)
    (a : AppliedTransition) (after : Db) : Type 0 where
  pub order : Order
  pub offer : Offer
  pub result : OrderTransitionResult
  pub written : Written
  pub found : q.find_first Order (λ row. row.id == command_order_id command) db.orders ≡ some order
  pub meant : q.find_first Offer (is_meant order.id command) db.offers ≡ some offer
  pub decided : transition (context_of order) (build_event q now command offer db) ≡ ok result
  pub applied :
      apply_effects q now order.id result.next_status result.effects db ≡ ok (written, after)
  pub answer : a ≡ answer_of offer result written

module _ (q : Queries) where
  pub lock_order-inv :
      (order_id : String) (db after : Db) (order : Order)
      → lock_order q order_id db ≡ ok (order, after)
      → (after ≡ db) × (q.find_first Order (λ row. row.id == order_id) db.orders ≡ some order)
  unfolding lock_order
  lock_order-inv order_id db after order h = ground arith

  resolve_offer-inv :
      (order_id : String) (command : OrderTransitionCommand) (db after : Db) (offer : Offer)
      → resolve_offer q order_id command db ≡ ok (offer, after)
      → (after ≡ db) × (q.find_first Offer (is_meant order_id command) db.offers ≡ some offer)
  unfolding resolve_offer
  resolve_offer-inv order_id command db after offer h = ground arith

  decide_on-inv :
      (now : Date) (command : OrderTransitionCommand) (order : Order) (offer : Offer)
      (db after : Db) (a : AppliedTransition)
      → decide_on q now command order offer db ≡ ok (a, after)
      → (result : OrderTransitionResult) × (transition
            (context_of order)
            (build_event q now command offer db)
          ≡ ok result)
        × (conclude q now order offer result db ≡ ok (a, after))
  unfolding decide_on
  decide_on-inv now command order offer db after a h =
      elim (Result-cases (transition (context_of order) (build_event q now command offer db))) [
        | inl (result, e) ↦ (result, e, rw (e, decide_on) at h)
        | inr (x, e) ↦ absurd (ground arith)
      ]

  conclude-inv :
      (now : Date) (order : Order) (offer : Offer) (result : OrderTransitionResult) (db after : Db)
      (a : AppliedTransition)
      → conclude q now order offer result db ≡ ok (a, after)
      → (written : Written) × (apply_effects q now order.id result.next_status result.effects db
          ≡ ok (written, after))
        × (a ≡ answer_of offer result written)
  unfolding conclude
  conclude-inv now order offer result db after a h =
      elim (Result-cases (apply_effects q now order.id result.next_status result.effects db)) [
        | inl ((written, db'), e) ↦ (written, ground arith, ground arith)
        | inr (x, e) ↦ absurd (ground arith)
      ]

  pub run-inv :
      (now : Date) (command : OrderTransitionCommand) (db after : Db) (a : AppliedTransition)
      → run q now command db ≡ ok (a, after)
      → RunOf q now command db a after
  unfolding run run_locked
  run-inv now command db after a h =
      let (order, db1, e1, h1) =
        Tx-eq-ok (lock_order q (command_order_id command)) (run_locked q now command) db h in
      let (offer, db2, e2, h2) =
        Tx-eq-ok (resolve_offer q order.id command) (decide_on q now command order) db1 h1 in
      let (same1, found) = lock_order-inv (command_order_id command) db db1 order e1 in
      let (same2, meant) = resolve_offer-inv order.id command db1 db2 offer e2 in
      let there : db2 ≡ db = same2 ∙ same1 in
      let (result, decided, h3) =
        decide_on-inv now command order offer db after a
          (subst (λ d. decide_on q now command order offer d ≡ ok (a, after)) there h2) in
      let (written, applied, answer) = conclude-inv now order offer result db after a h3 in
      record {
        order = order;
        offer = offer;
        result = result;
        written = written;
        found = found;
        meant =
            subst (λ (d : Db). q.find_first Offer (is_meant order.id command) d.offers ≡ some offer)
              same1 meant;
        decided = decided;
        applied = applied;
        answer = answer;
      }
