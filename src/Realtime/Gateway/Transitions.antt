-- ===== src/Realtime/Gateway/Transitions.antt =====
-- The evictions of a transition reach every company that stops being a participant by it.
use my_build.Base.{
  ℕ, String, Bool, true, false, not, ◌&&◌, ◌||◌, ◌≡◌, ◌≢◌, refl, sym, ap, subst, ◌∙◌, List, [], ◌∷◌,
  map, Option, some, any, find, keep, All, arith, Bool-cases, inl, inr, ◌==◌, String_eq,
  if◌then◌else◌,
}
use text.Mathlib.TextEquality.{eq_iff}
use my_build.Errors.{ok}
use my_build.Shared.Enums.{OfferStatus_eq}
use my_build.Shared.Offers.{is_active_offer}
use my_build.Shared.State.{OrderEventType}
use my_build.Shared.Dates.{Date}
use my_build.Store.Tables.{Db, Order, Offer}
use my_build.Store.Queries.{
  Queries, IsLawful, IsLawful-list_queries, list_queries, list_queries-IsLawful, update_where,
}
use my_build.Orders.Transition.Types.{
  OrderTransitionCommand, command_order_id, command_type, AppliedTransition, OfferStatusUpdate,
}
use my_build.Orders.Transition.Applied.{
  collected_of, order_data_changes, apply_effects-inv, update_of,
}
use my_build.Orders.Transition.Inversion.{RunOf, run-inv, is_meant}
use my_build.Orders.Transition.{is_rival, owner_of, run}
use my_build.Orders.Transition.Settled.{
  DistinctIds, settled, meant_status, is_acceptance, lost_updates,
}
use my_build.Orders.Transition.Deal.{find_id, run-order}
use my_build.Orders.Transition.Offers.{updates_answered, run-settled}
use my_build.Realtime.Events.{SocketEvent, transition_broadcast, eviction, left_play}
use my_build.Realtime.Gateway.{is_order_participant, is_offer_of}
use my_build.Realtime.Gateway.Interleaving.{reaches}

-- A participant is the client of the order that is there, or a company with an active offer of it.
abbrev takes_part : String → String → Bool → Order → Bool
takes_part user_id order_id offers order =
    order.id == order_id && (order.client_id == user_id || offers)

any-takes_part :
    (user_id order_id : String) (offers : List Offer) (orders : List Order)
    → any
        (λ (order : Order).
          order.id == order_id
          && (order.client_id == user_id || any (is_offer_of user_id order.id) offers))
        orders
      ≡ any (takes_part user_id order_id (any (is_offer_of user_id order_id) offers)) orders
any-takes_part user_id order_id offers [] = refl
any-takes_part user_id order_id offers (o ∷ orders) = ground (
  arith,
  any-takes_part user_id order_id offers orders,
  eq_iff o.id order_id,
  ap (λ id. any (is_offer_of user_id id) offers) {x = o.id} {y = order_id},
)

any-takes_part_update :
    (user_id order_id : String) (b : Bool) (p : Order → Bool) (f : Order → Order)
    (orders : List Order)
    → ((row : Order) → (f row).id ≡ row.id)
    → ((row : Order) → (f row).client_id ≡ row.client_id)
    → any (takes_part user_id order_id b) (update_where Order p f orders)
      ≡ any (takes_part user_id order_id b) orders
any-takes_part_update user_id order_id b p f [] same client = refl
any-takes_part_update user_id order_id b p f (o ∷ orders) same client =
    ground
      (arith, any-takes_part_update user_id order_id b p f orders same client, same o, client o)

-- Only the offers can have changed.
any-takes_part_lost :
    (user_id order_id : String) (b c : Bool) (orders : List Order)
    → any (takes_part user_id order_id b) orders ≡ true
    → any (takes_part user_id order_id c) orders ≡ false
    → (b && not c) ≡ true
any-takes_part_lost user_id order_id b c [] before after = cc
any-takes_part_lost user_id order_id b c (o ∷ orders) before after =
    ground (arith, any-takes_part_lost user_id order_id b c orders, before, after)

-- What an update must be for the eviction after it to reach a company.
abbrev puts_out : String → Bool → OfferStatusUpdate → Bool
puts_out user_id here update = left_play update && (here && update.company_id == user_id)

any-reaches :
    (a : AppliedTransition) (user_id order_id : String) (updates : List OfferStatusUpdate)
    → any (reaches user_id order_id) (map (eviction a) (keep left_play updates))
      ≡ any (puts_out user_id (a.order.id == order_id)) updates
any-reaches a user_id order_id [] = refl
any-reaches a user_id order_id (u ∷ updates) =
    ground (arith, any-reaches a user_id order_id updates)

any-lost :
    (user_id : String) (here : Bool) (p : Offer → Bool) (rows : List Offer)
    → any (puts_out user_id here) (lost_updates (map owner_of (keep p rows)))
      ≡ any (λ row. p row && (here && row.company_id == user_id)) rows
unfolding is_active_offer
any-lost user_id here p [] = refl
any-lost user_id here p (r ∷ rows) = ground (arith, any-lost user_id here p rows)

All-find :
    (P : Offer → Type 0) (p : Offer → Bool) (xs : List Offer) (found : Offer)
    → All P xs
    → find p xs ≡ some found
    → P found × (p found ≡ true)
All-find P p [] found h e = cc
All-find P p (x ∷ xs) found h e = elim (Bool-cases (p x)) [
  | inl t ↦ let same : x ≡ found = ground (arith, t, e) in (subst P same h.0, ap p (sym same) ∙ t)
  | inr t ↦ All-find P p xs found h.1 (ground (arith, t, e))
]

-- With distinct identifiers, a row that has the found one's is the found one.
abbrev Same : Offer → Offer → Type 0
Same found row = row.id ≡ found.id → row ≡ found

Same-others :
    (r found : Offer) (xs : List Offer)
    → r ≡ found
    → All (λ s. r.id ≢ s.id) xs
    → All (Same found) xs
Same-others r found [] same h = tt
Same-others r found (x ∷ xs) same h =
    (λ k. absurd (h.0 (ap (λ (o : Offer). o.id) same ∙ sym k)), Same-others r found xs same h.1)

All-Same :
    (p : Offer → Bool) (rows : List Offer) (found : Offer)
    → DistinctIds rows
    → find p rows ≡ some found
    → All (Same found) rows
All-Same p [] found d e = tt
All-Same p (r ∷ rows) found d e = elim (Bool-cases (p r)) [
  | inl t ↦
      let same : r ≡ found = ground (arith, t, e) in
      ((λ k. same), Same-others r found rows same d.0)
  | inr t ↦
      let later : find p rows ≡ some found = ground (arith, t, e) in
      (
        λ k. absurd ((All-find (λ s. r.id ≢ s.id) p rows found d.0 later).0 k),
        All-Same p rows found d.1 later,
      )
]

-- A row more, by what is lost of it and of the others.
lost_cons :
    {before later after more : Bool} (meant accepts out others : Bool)
    → (before ≡ true → after ≡ false → (meant || (accepts && out)) ≡ true)
    → (later ≡ true → more ≡ false → (meant || (accepts && others)) ≡ true)
    → (before || later) ≡ true
    → (after || more) ≡ false
    → (meant || (accepts && (out || others))) ≡ true
lost_cons meant accepts out others row rows before after = ground (arith, row, rows, before, after)

module _ (type : OrderEventType) (now : Date) (offer : Offer) (user_id order_id : String) where
  abbrev put_out : Offer → Bool
  put_out r =
      is_rival offer.order_id offer.id r && (offer.order_id == order_id && r.company_id == user_id)

  abbrev meant_out : Bool
  meant_out =
      not (is_active_offer (meant_status type))
      && (offer.order_id == order_id && offer.company_id == user_id)

  row_lost :
      (r : Offer)
      → Same offer r
      → is_offer_of user_id order_id r ≡ true
      → is_offer_of user_id order_id (settled type now offer.order_id offer.id r) ≡ false
      → (meant_out || (is_acceptance type && put_out r)) ≡ true
  unfolding is_active_offer
  row_lost r same before after = ground (
    arith,
    same,
    before,
    after,
    eq_iff r.id offer.id,
    eq_iff r.order_id offer.order_id,
    eq_iff r.order_id order_id,
    eq_iff offer.order_id order_id,
    eq_iff r.company_id user_id,
    eq_iff offer.company_id user_id,
  )

  offers_lost :
      (rows : List Offer)
      → All (Same offer) rows
      → any (is_offer_of user_id order_id) rows ≡ true
      → any (is_offer_of user_id order_id) (map (settled type now offer.order_id offer.id) rows)
        ≡ false
      → (meant_out || (is_acceptance type && any put_out rows)) ≡ true
  offers_lost [] same before after = cc
  offers_lost (r ∷ rows) same before after =
      lost_cons meant_out (is_acceptance type) (put_out r) (any put_out rows) (row_lost r same.0)
        (offers_lost rows same.1) before after

any-lost_if :
    (user_id : String) (here : Bool) (p : Offer → Bool) (rows : List Offer) (accepts : Bool)
    → any
        (puts_out user_id here)
        (lost_updates (if accepts then map owner_of (keep p rows) else []))
      ≡ accepts && any (λ row. p row && (here && row.company_id == user_id)) rows
any-lost_if user_id here p rows true = any-lost user_id here p rows
any-lost_if user_id here p rows false = refl

module _ (new_id : ℕ → String) (now : Date) (command : OrderTransitionCommand) (db after : Db)
    (a : AppliedTransition) (d : DistinctIds db.offers)
    (h : run (list_queries new_id) now command db ≡ ok (a, after)) (user_id order_id : String) where
  abbrev run_of : RunOf (list_queries new_id) now command db a after
  run_of = run-inv (list_queries new_id) now command db after a h

  Same-rows : All (Same run_of.offer) db.offers
  Same-rows = All-Same (is_meant run_of.order.id command) db.offers run_of.offer d run_of.meant

  locked : run_of.order.id ≡ command_order_id command
  locked = find_id (command_order_id command) db.orders run_of.order run_of.found

  placed : run_of.offer.order_id ≡ run_of.order.id
  placed =
      by_meaning command
        (All-find (Same run_of.offer) (is_meant run_of.order.id command) db.offers run_of.offer
          Same-rows run_of.meant).1
    where
      by_meaning :
          (c : OrderTransitionCommand)
          → is_meant run_of.order.id c run_of.offer ≡ true
          → run_of.offer.order_id ≡ run_of.order.id
      by_meaning c m = ground (arith, m, eq_iff run_of.offer.order_id run_of.order.id)

  told_of : a.order.id ≡ command_order_id command
  told_of =
      find_id (command_order_id command) after.orders a.order
        (run-order (list_queries new_id) now command db after a run_of.order run_of.offer
          (list_queries-IsLawful new_id) run_of.found run_of.meant h).2

  offers_after :
      after.offers
      ≡ map (settled (command_type command) now run_of.offer.order_id run_of.offer.id) db.offers
  offers_after =
      run-settled (list_queries new_id) now command db after a (list_queries-IsLawful new_id) d h
      ∙ ap (λ o. map (settled (command_type command) now o a.offer_id) db.offers)
          (sym (placed ∙ locked))
      ∙ ap (λ c. map (settled (command_type command) now run_of.offer.order_id c) db.offers)
          (ap (λ x. x.offer_id) run_of.answer)

  abbrev data_after : Order → Order
  data_after =
      (collected_of now run_of.order.id run_of.result.next_status run_of.result.effects).order_data

  orders_after :
      after.orders ≡ update_where Order (λ r. r.id == run_of.order.id) data_after db.orders
  orders_after =
      (apply_effects-inv (list_queries new_id) now run_of.order.id run_of.result.next_status
        run_of.result.effects db after run_of.written run_of.applied).orders

  abbrev active_of : List Offer → Bool
  active_of rows = any (is_offer_of user_id order_id) rows

  lost :
      is_order_participant user_id order_id db ≡ true
      → is_order_participant user_id order_id after ≡ false
      → (active_of db.offers && not (active_of after.offers)) ≡ true
  unfolding is_order_participant
  lost was is =
      any-takes_part_lost user_id order_id (active_of db.offers) (active_of after.offers) db.orders
        (sym (any-takes_part user_id order_id db.offers db.orders) ∙ was)
        (sym (
            any-takes_part_update user_id order_id (active_of after.offers)
              (λ r. r.id == run_of.order.id) data_after db.orders
              (λ r.
                (order_data_changes now run_of.order.id run_of.result.next_status
                  run_of.result.effects r).id)
              (λ r.
                (order_data_changes now run_of.order.id run_of.result.next_status
                  run_of.result.effects r).client_id))
          ∙ ap (any (takes_part user_id order_id (active_of after.offers))) (sym orders_after)
          ∙ sym (any-takes_part user_id order_id after.offers after.orders)
          ∙ is)

  abbrev hit_by : String → Bool → Bool
  hit_by at here =
      puts_out user_id here (update_of (owner_of run_of.offer, meant_status (command_type command)))
      || (is_acceptance (command_type command)
          && any (λ row. is_rival at run_of.offer.id row && (here && row.company_id == user_id))
              db.offers)

  any-reaches_run :
      any (reaches user_id order_id) (map (eviction a) (keep left_play a.offer_updates))
      ≡ hit_by (command_order_id command) (a.order.id == order_id)
  any-reaches_run =
      any-reaches a user_id order_id a.offer_updates
      ∙ ap (any (puts_out user_id (a.order.id == order_id))) (updates_answered run_of)
      ∙ ap
          (λ b.
            puts_out user_id (a.order.id == order_id)
              (update_of (owner_of run_of.offer, meant_status (command_type command)))
            || b)
          (any-lost_if user_id (a.order.id == order_id)
            (is_rival (command_order_id command) run_of.offer.id) db.offers
            (is_acceptance (command_type command)))

  hit_by-lost :
      (active_of db.offers && not (active_of after.offers)) ≡ true
      → hit_by (command_order_id command) (a.order.id == order_id) ≡ true
  hit_by-lost gone =
      subst (λ id. hit_by (command_order_id command) (id == order_id) ≡ true)
        (placed ∙ locked ∙ sym told_of)
        (subst (λ at. hit_by at (run_of.offer.order_id == order_id) ≡ true) (placed ∙ locked)
          (offers_lost (command_type command) now run_of.offer user_id order_id db.offers Same-rows
            (ground (arith, gone)) (sym (ap active_of offers_after) ∙ ground (arith, gone))))

-- On tables that meet the laws, with no two offers of one identifier: whoever is a participant of an
-- order before a transition and is none after it is reached by an eviction of the transition's broadcast.
pub run-reaches :
    (q : Queries) (now : Date) (command : OrderTransitionCommand) (db after : Db)
    (a : AppliedTransition) (event : Option SocketEvent) (user_id order_id : String)
    → IsLawful q
    → DistinctIds db.offers
    → run q now command db ≡ ok (a, after)
    → is_order_participant user_id order_id db ≡ true
    → is_order_participant user_id order_id after ≡ false
    → any (reaches user_id order_id) (transition_broadcast a event).evictions ≡ true
unfolding transition_broadcast
run-reaches q now command db after a event user_id order_id lawful d h was is =
    subst Claim (IsLawful-list_queries q lawful) on_lists h
  where
    Claim : Queries → Type 0
    Claim p =
        run p now command db ≡ ok (a, after)
        → any (reaches user_id order_id) (map (eviction a) (keep left_play a.offer_updates)) ≡ true

    on_lists : Claim (list_queries q.new_id)
    on_lists h' =
        any-reaches_run q.new_id now command db after a d h' user_id order_id
        ∙ hit_by-lost q.new_id now command db after a d h' user_id order_id
            (lost q.new_id now command db after a d h' user_id order_id was is)
