-- ===== src/Orders/Transition/Deal.antt =====
-- A transition and the order: its status, and the price and the deadline of the deal.
use my_build.Base.{
  ℕ, zero, suc, Bool, not, ◌&&◌, count, ltb, if◌then◌else◌, refl, String, ◌≡◌, sym, ap, ◌∙◌, subst,
  List, [], ◌∷◌, some, arith, find, ◌==◌, String_eq,
}
use text.Mathlib.TextEquality.{eq_iff}
use my_build.Errors.{ok}
use my_build.Shared.Enums.{OrderStatus, OfferStatus, OfferStatus_eq}
use my_build.Shared.State.{OrderEventType}
use my_build.Shared.Dates.{Date}
use my_build.Store.Tables.{Db, Order, Offer}
use my_build.Store.Queries.{Queries, IsLawful, IsLawful-list_queries, list_queries, update_where}
use my_build.Orders.Machine.Effects.{agreed, transition_changes}
use my_build.Orders.Machine.Graph.{
  transition_next, Moves, transition-Moves, left_with, intended_next,
}
use my_build.Orders.Machine.Types.{OrderEvent, event_type}
use my_build.Orders.Transition.Types.{
  OrderTransitionCommand, command_order_id, command_type, AppliedTransition,
}
use my_build.Orders.Transition.Applied.{
  OrderChange, collected_of, order_data_changes, apply_effects-inv,
}
use my_build.Orders.Transition.Inversion.{RunOf, is_meant, context_of, run-inv}
use my_build.Orders.Transition.{is_rival, build_event, run}

built_type :
    (q : Queries) (now : Date) (command : OrderTransitionCommand) (offer : Offer) (db : Db)
    → event_type (build_event q now command offer db) ≡ command_type command
unfolding build_event
built_type q now command offer db = ground arith

-- The price and the deadline that a command fixes: those of the offer, with its acceptance.
abbrev pub deal_of : OrderEventType → Offer → List (String × Date)
deal_of OrderEventType.offer_accepted offer = (offer.proposed_price, offer.proposed_deadline) ∷ []
deal_of _ offer = []

built_deal :
    (q : Queries) (now : Date) (command : OrderTransitionCommand) (offer : Offer) (db : Db)
    → agreed (build_event q now command offer db) ≡ deal_of (command_type command) offer
unfolding build_event
built_deal q now command offer db = ground arith

find-update_where :
    (id : String) (f : Order → Order) (rows : List Order) (row : Order)
    → ((r : Order) → (f r).id ≡ r.id)
    → find (λ r. r.id == id) rows ≡ some row
    → find (λ r. r.id == id) (update_where Order (λ r. r.id == id) f rows) ≡ some (f row)
find-update_where id f [] row k h = cc
find-update_where id f (r ∷ rows) row k h =
    ground (arith, find-update_where id f rows row k, k r, eq_iff r.id id, eq_iff (f r).id id)

-- The status that a command leads to, by how many of the order's other offers are sent and not answered.
abbrev pub status_after : OrderEventType → ℕ → OrderStatus
status_after OrderEventType.offer_submitted others = OrderStatus.awaiting_confirmation
status_after OrderEventType.offer_withdrawn others = left_with others
status_after OrderEventType.offer_rejected others = left_with others
status_after OrderEventType.offer_accepted others = OrderStatus.in_progress
status_after OrderEventType.work_submitted others = OrderStatus.awaiting_completion_confirmation
status_after OrderEventType.work_confirmed others = OrderStatus.completed
status_after OrderEventType.work_disputed others = OrderStatus.completion_disputed

abbrev pub is_other_sent : String → String → Offer → Bool
is_other_sent order_id chosen row =
    row.order_id == order_id && row.status == OfferStatus.sent && not (row.id == chosen)

count_others :
    (order_id chosen : String) (rows : List Offer)
    → count (is_rival order_id chosen) rows ≡ count (is_other_sent order_id chosen) rows
count_others order_id chosen [] = refl
count_others order_id chosen (r ∷ rows) = ground (arith, count_others order_id chosen rows)

left_with_if :
    (n : ℕ)
    → (if ltb 0 n then OrderStatus.awaiting_confirmation else OrderStatus.waiting) ≡ left_with n
left_with_if zero = refl
left_with_if (suc n) = ground arith

built_next :
    (new_id : ℕ → String) (now : Date) (command : OrderTransitionCommand) (offer : Offer) (db : Db)
    → intended_next (build_event (list_queries new_id) now command offer db)
      ≡ status_after
          (command_type command)
          (count (is_rival (command_order_id command) offer.id) db.offers)
unfolding build_event
built_next new_id now (OrderTransitionCommand.offer_submitted _ _ _) offer db = refl
built_next new_id now (OrderTransitionCommand.offer_withdrawn order_id _) offer db =
    left_with_if (count (is_rival order_id offer.id) db.offers)
built_next new_id now (OrderTransitionCommand.offer_rejected order_id _) offer db =
    left_with_if (count (is_rival order_id offer.id) db.offers)
built_next new_id now (OrderTransitionCommand.offer_accepted _ _ _) offer db = refl
built_next new_id now (OrderTransitionCommand.work_submitted _) offer db = refl
built_next new_id now (OrderTransitionCommand.work_confirmed _ _) offer db = refl
built_next new_id now (OrderTransitionCommand.work_disputed _ _) offer db = refl

-- What a transition that answers says of the order and has written to its row.
abbrev pub Dealt :
    Date → OrderTransitionCommand → Db → Order → Offer → AppliedTransition → Db → Type 0
Dealt now command db before offer a after =
    (a.from_status ≡ before.status)
    × Moves before.status (command_type command) a.next_status
    × (find (λ r. r.id == command_order_id command) after.orders ≡ some a.order)
    × OrderChange a.next_status (deal_of (command_type command) offer) before a.order
    × (a.next_status
        ≡ status_after (command_type command)
            (count (is_other_sent (command_order_id command) offer.id) db.offers))

some_inj : {A : Type 0} {x y : A} → some x ≡ some y → x ≡ y
some_inj h = cc

pub find_id :
    (id : String) (rows : List Order) (row : Order)
    → find (λ r. r.id == id) rows ≡ some row
    → row.id ≡ id
find_id id [] row h = cc
find_id id (r ∷ rows) row h = ground (arith, find_id id rows row, eq_iff r.id id)

module _ (new_id : ℕ → String) (now : Date) (command : OrderTransitionCommand) (db after : Db)
    (a : AppliedTransition) (run_of : RunOf (list_queries new_id) now command db a after) where
  open run_of use {order, offer, result, written, found, decided, applied, answer}

  abbrev event : OrderEvent
  event = build_event (list_queries new_id) now command offer db

  abbrev data_after : Order → Order
  data_after = (collected_of now order.id result.next_status result.effects).order_data

  row_change :
      OrderChange result.next_status (deal_of (command_type command) offer) order (data_after order)
  row_change =
      subst (λ ds. OrderChange result.next_status ds order (data_after order))
        ((transition_changes (context_of order) event result decided).1
          ∙ built_deal (list_queries new_id) now command offer db)
        (order_data_changes now order.id result.next_status result.effects order)

  same_id : order.id ≡ command_order_id command
  same_id = find_id (command_order_id command) db.orders order found

  rows_after : after.orders ≡ update_where Order (λ r. r.id == order.id) data_after db.orders
  rows_after =
      (apply_effects-inv (list_queries new_id) now order.id result.next_status result.effects db
        after written applied).orders

  found_after : find (λ r. r.id == order.id) after.orders ≡ some (data_after order)
  found_after =
      ap (find (λ r. r.id == order.id)) rows_after
      ∙ find-update_where order.id data_after db.orders order
          (λ r. (order_data_changes now order.id result.next_status result.effects r).id)
          (subst (λ id. find (λ r. r.id == id) db.orders ≡ some order) (sym same_id) found)

  answered : a.order ≡ data_after order
  answered =
      ap (λ x. x.order) answer
      ∙ some_inj (
          sym
            (apply_effects-inv (list_queries new_id) now order.id result.next_status result.effects
              db after written applied).updated
          ∙ found_after)

  next_answered : result.next_status ≡ a.next_status
  next_answered = sym (ap (λ x. x.next_status) answer)

  dealt : Dealt now command db order offer a after
  dealt = (
    ap (λ x. x.from_status) answer ∙ (transition_next (context_of order) event result decided).1,
    subst (λ s. Moves order.status (command_type command) s) next_answered
        (subst (λ t. Moves order.status t result.next_status)
          (built_type (list_queries new_id) now command offer db)
          (transition-Moves (context_of order) event result decided).0),
    subst (λ id. find (λ r. r.id == id) after.orders ≡ some a.order) same_id
        (found_after ∙ ap some (sym answered)),
    subst (λ row. OrderChange a.next_status (deal_of (command_type command) offer) order row)
        (sym answered)
        (subst (λ s. OrderChange s (deal_of (command_type command) offer) order (data_after order))
          next_answered row_change),
    sym next_answered
        ∙ (transition_next (context_of order) event result decided).0
        ∙ built_next new_id now command offer db
        ∙ ap (status_after (command_type command))
            (count_others (command_order_id command) offer.id db.offers),
  )

-- On tables that meet the laws, a transition that answers has moved the order by a row of the table in
-- README.md, back to the search exactly where the offer that is withdrawn or refused was the last of those
-- that are sent, and its row has the new status; with an acceptance it has the price and the deadline of
-- the offer, and otherwise those that it had.
pub run-order :
    (q : Queries) (now : Date) (command : OrderTransitionCommand) (db after : Db)
    (a : AppliedTransition) (before : Order) (offer : Offer)
    → IsLawful q
    → find (λ r. r.id == command_order_id command) db.orders ≡ some before
    → find (is_meant before.id command) db.offers ≡ some offer
    → run q now command db ≡ ok (a, after)
    → Dealt now command db before offer a after
run-order q now command db after a before offer lawful found meant h =
    subst Claim (IsLawful-list_queries q lawful) on_lists h
  where
    Claim : Queries → Type 0
    Claim p = run p now command db ≡ ok (a, after) → Dealt now command db before offer a after

    on_lists : Claim (list_queries q.new_id)
    on_lists h' =
        let run_of = run-inv (list_queries q.new_id) now command db after a h' in
        let same_order : run_of.order ≡ before = some_inj (sym run_of.found ∙ found) in
        let same_offer : run_of.offer ≡ offer = some_inj (
          sym run_of.meant
          ∙ (ap (λ (o : Order). find (is_meant o.id command) db.offers) same_order ∙ meant)) in
        subst (λ o. Dealt now command db o offer a after) same_order
          (subst (λ o. Dealt now command db run_of.order o a after) same_offer
            (dealt q.new_id now command db after a run_of))
