-- ===== src/Orders/Transition/Total.antt =====
-- What the machine decides is carried out: no query of the service fails after the decision.
use my_build.Base.{
  ℕ, ◌≡◌, sym, ap, subst, inl, inr, String, Bool, true, ◌&&◌, List, [], ◌∷◌, none, some, arith,
  find, ◌==◌, String_eq,
}
use my_build.Errors.{Result, ok, err, is_ok, Result-cases}
use my_build.Shared.Enums.{OrderStatus}
use my_build.Shared.Dates.{Date}
use my_build.Common.Uuid.{is_uuid}
use my_build.Store.Tables.{Db, Order, Offer}
use my_build.Store.Queries.{Queries, IsLawful, list_queries, IsLawful-list_queries, update_where}
use my_build.Store.Notices.{drop_superseded_notifications_lem, create_notifications}
use my_build.Orders.Machine.Types.{OrderSideEffect, OrderTransitionResult}
use my_build.Orders.Machine.{transition}
use my_build.Orders.Transition.Types.{OrderTransitionCommand, command_order_id, command_offer_id}
use my_build.Orders.Transition.Write.{apply_effects, update_groups}
use my_build.Orders.Transition.Collect.{group_offer_ids_by_status}
use my_build.Orders.Transition.Applied.{collected_of, order_data_changes}
use my_build.Orders.Transition.Inversion.{context_of, is_meant}
use my_build.Orders.Transition.{
  lock_order, resolve_offer, build_event, conclude, decide_on, run_locked, run,
}

find-update_where :
    (p : Order → Bool) (f : Order → Order) (rows : List Order) (o : Order)
    → ((r : Order) → p r ≡ true → p (f r) ≡ true)
    → find p rows ≡ some o
    → find p (update_where Order p f rows) ≡ some (f o)
find-update_where p f [] o k h = cc
find-update_where p f (r ∷ rows) o k h = ground (arith, k r, h, find-update_where p f rows o k)

-- Every identifier of the command has the form of one.
abbrev pub named : OrderTransitionCommand → Bool
named command =
    is_uuid (command_order_id command)
    && elim (command_offer_id command) [ none ↦ true | some offer_id ↦ is_uuid offer_id ]

module _ (lists : Queries) (now : Date) (db : Db) (order : Order) where
  written :
      (next : OrderStatus) (effects : List OrderSideEffect)
      → lists.find_first Order
          (λ row. row.id == order.id)
          (lists.update_many Order
            (λ row. row.id == order.id)
            (collected_of now order.id next effects).order_data
            db.orders)
        ≡ some ((collected_of now order.id next effects).order_data order)
      → is_ok (apply_effects lists now order.id next effects db) ≡ true
  unfolding apply_effects create_notifications
  written next effects h =
      let collected = collected_of now order.id next effects in
      let mid = record db {
        offers =
            update_groups lists now (group_offer_ids_by_status collected.offer_updates) db.offers;
        orders = lists.update_many Order (λ row. row.id == order.id) collected.order_data db.orders;
      } in
      let (rows, d) =
        drop_superseded_notifications_lem lists collected.notifications_to_create mid in
      ground (arith, h, d)

concluded :
    (new_id : ℕ → String) (now : Date) (db : Db) (order : Order) (offer : Offer)
    (result : OrderTransitionResult)
    → find (λ row. row.id == order.id) db.orders ≡ some order
    → is_ok (conclude (list_queries new_id) now order offer result db) ≡ true
unfolding conclude
concluded new_id now db order offer result h =
    let collected = collected_of now order.id result.next_status result.effects in
    ground (
      arith,
      written (list_queries new_id) now db order result.next_status result.effects (
          find-update_where (λ row. row.id == order.id) collected.order_data db.orders order
            (λ r e.
              subst (λ id. (id == order.id) ≡ true)
                (sym (order_data_changes now order.id result.next_status result.effects r).id) e)
            h),
    )

found_id :
    (id : String) (rows : List Order) (o : Order)
    → find (λ row. row.id == id) rows ≡ some o
    → o.id ≡ id
found_id id [] o h = cc
found_id id (r ∷ rows) o h = ground (arith, h, found_id id rows o, String_eq.same_iff r.id id)

found_self :
    (id : String) (rows : List Order) (o : Order)
    → find (λ row. row.id == id) rows ≡ some o
    → find (λ row. row.id == o.id) rows ≡ some o
found_self id [] o h = cc
found_self id (r ∷ rows) o h = ground (
  arith,
  h,
  found_self id rows o,
  String_eq.same_iff r.id id,
  String_eq.same_iff r.id o.id,
  found_id id rows o,
)

decided :
    (new_id : ℕ → String) (now : Date) (command : OrderTransitionCommand) (db : Db) (order : Order)
    (offer : Offer)
    → find (λ row. row.id == order.id) db.orders ≡ some order
    → is_ok (decide_on (list_queries new_id) now command order offer db)
      ≡ is_ok
          (transition (context_of order) (build_event (list_queries new_id) now command offer db))
unfolding decide_on
decided new_id now command db order offer h =
    elim (Result-cases
      (transition (context_of order) (build_event (list_queries new_id) now command offer db))) [
        | inl (result, e) ↦ ground (arith, e, concluded new_id now db order offer result h)
        | inr (error, e) ↦ ground (arith, e)
      ]

resolved :
    (new_id : ℕ → String) (command : OrderTransitionCommand) (db : Db) (order : Order)
    (offer : Offer)
    → named command ≡ true
    → find (is_meant order.id command) db.offers ≡ some offer
    → resolve_offer (list_queries new_id) order.id command db ≡ ok (offer, db)
unfolding resolve_offer
resolved new_id command db order offer form meant = ground (arith, form, meant)

located :
    (new_id : ℕ → String) (now : Date) (command : OrderTransitionCommand) (db : Db) (order : Order)
    (offer : Offer)
    → named command ≡ true
    → find (is_meant order.id command) db.offers ≡ some offer
    → run_locked (list_queries new_id) now command order db
      ≡ decide_on (list_queries new_id) now command order offer db
unfolding run_locked
located new_id now command db order offer form meant =
    ap
      (λ (m : Result (Offer × Db)). elim m [
        | err e ↦ err e
        | ok (found, there) ↦ decide_on (list_queries new_id) now command order found there
      ])
      (resolved new_id command db order offer form meant)

run_on_lists :
    (new_id : ℕ → String) (now : Date) (command : OrderTransitionCommand) (db : Db) (order : Order)
    (offer : Offer)
    → named command ≡ true
    → find (λ row. row.id == command_order_id command) db.orders ≡ some order
    → find (is_meant order.id command) db.offers ≡ some offer
    → is_ok (run (list_queries new_id) now command db)
      ≡ is_ok
          (transition (context_of order) (build_event (list_queries new_id) now command offer db))
unfolding run lock_order
run_on_lists new_id now command db order offer form found meant = ground (
  arith,
  form,
  found,
  located new_id now command db order offer form meant,
  decided new_id now command db order offer
      (found_self (command_order_id command) db.orders order found),
)

-- On tables that meet the laws, with the order and the offer that the command is about among their rows,
-- a transition answers exactly when the machine carries the event out: nothing else can refuse it.
pub run-is_ok :
    (q : Queries) (now : Date) (command : OrderTransitionCommand) (db : Db) (order : Order)
    (offer : Offer)
    → IsLawful q
    → named command ≡ true
    → find (λ row. row.id == command_order_id command) db.orders ≡ some order
    → find (is_meant order.id command) db.offers ≡ some offer
    → is_ok (run q now command db)
      ≡ is_ok (transition (context_of order) (build_event q now command offer db))
run-is_ok q now command db order offer lawful form found meant =
    subst Claim (IsLawful-list_queries q lawful) on_lists
  where
    Claim : Queries → Type 0
    Claim p =
        is_ok (run p now command db)
        ≡ is_ok (transition (context_of order) (build_event p now command offer db))

    on_lists : Claim (list_queries q.new_id)
    on_lists = run_on_lists q.new_id now command db order offer form found meant
