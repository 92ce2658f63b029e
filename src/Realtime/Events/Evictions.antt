-- ===== src/Realtime/Events/Evictions.antt =====
-- Whom the broadcast of an acceptance takes out of the order's room.
use my_build.Base.{
  ◌≡◌, refl, ap, ◌∙◌, subst, String, Bool, not, ◌&&◌, List, [], ◌∷◌, map, Option, some, find, arith,
  keep, ◌==◌, String_eq,
}
use my_build.Errors.{ok}
use my_build.Shared.Enums.{OfferStatus, OfferStatus_eq}
use my_build.Shared.Offers.{is_active_offer}
use my_build.Shared.Dates.{Date}
use my_build.Store.Tables.{Db, Offer}
use my_build.Store.Queries.{
  Queries, IsLawful, list_queries, IsLawful-list_queries, list_queries-IsLawful,
}
use my_build.Orders.Transition.Types.{OrderTransitionCommand, AppliedTransition}
use my_build.Orders.Transition.{is_rival, owner_of, run}
use my_build.Orders.Transition.Inversion.{run-inv}
use my_build.Orders.Transition.Settled.{lost_updates}
use my_build.Orders.Transition.Offers.{updates_answered}
use my_build.Orders.Transition.Deal.{find_id, run-order}
use my_build.Realtime.Events.{
  Room, SocketEvent, RoomEviction, transition_broadcast, eviction, left_play,
}

-- A company taken out of the order's room.
abbrev pub out_of : String → Offer → RoomEviction
out_of order_id row = record {
  members = Room.of_user row.company_id;
  room = Room.of_order order_id;
}

-- An offer that an acceptance of another one turns down.
abbrev pub is_lost : String → String → Offer → Bool
is_lost order_id chosen row =
    row.order_id == order_id && row.status == OfferStatus.sent && not (row.id == chosen)

evictions-lost :
    (a : AppliedTransition) (order_id chosen : String) (rows : List Offer)
    → map
        (eviction a)
        (keep left_play (lost_updates (map owner_of (keep (is_rival order_id chosen) rows))))
      ≡ map (out_of a.order.id) (keep (is_lost order_id chosen) rows)
unfolding is_active_offer
evictions-lost a order_id chosen [] = refl
evictions-lost a order_id chosen (r ∷ rows) = ground (arith, evictions-lost a order_id chosen rows)

meant_id :
    (id order_id : String) (rows : List Offer) (offer : Offer)
    → find (λ row. row.id == id && row.order_id == order_id) rows ≡ some offer
    → offer.id ≡ id
meant_id id order_id [] offer h = cc
meant_id id order_id (r ∷ rows) offer h =
    ground (arith, h, meant_id id order_id rows offer, String_eq.same_iff r.id id)

-- On tables that meet the laws, the broadcast of an acceptance takes out of the order's room the companies
-- of the order's other offers that were sent and not answered, one for each of them and in their
-- order, and takes nobody else out of any room.
pub run-evictions :
    (q : Queries) (now : Date) (order_id offer_id : String) (seen : Option String) (db after : Db)
    (a : AppliedTransition) (event : Option SocketEvent)
    → IsLawful q
    → run q now (OrderTransitionCommand.offer_accepted order_id offer_id seen) db ≡ ok (a, after)
    → (transition_broadcast a event).evictions
      ≡ map (out_of order_id) (keep (is_lost order_id offer_id) db.offers)
unfolding transition_broadcast is_active_offer
run-evictions q now order_id offer_id seen db after a event lawful h =
    subst Claim (IsLawful-list_queries q lawful) on_lists h
  where
    command : OrderTransitionCommand
    command = OrderTransitionCommand.offer_accepted order_id offer_id seen

    Claim : Queries → Type 0
    Claim p =
        run p now command db ≡ ok (a, after)
        → (transition_broadcast a event).evictions
          ≡ map (out_of order_id) (keep (is_lost order_id offer_id) db.offers)

    on_lists : Claim (list_queries q.new_id)
    on_lists h' =
        let run_of = run-inv (list_queries q.new_id) now command db after a h' in
        let chosen : run_of.offer.id ≡ offer_id =
          meant_id offer_id run_of.order.id db.offers run_of.offer run_of.meant in
        let dealt =
          run-order (list_queries q.new_id) now command db after a run_of.order run_of.offer
            (list_queries-IsLawful q.new_id) run_of.found run_of.meant h' in
        let same = find_id order_id after.orders a.order dealt.2 in
        ap (λ us. map (eviction a) (keep left_play us)) (updates_answered run_of)
        ∙ evictions-lost a order_id run_of.offer.id db.offers
        ∙ (λ i. map (out_of (same i)) (keep (is_lost order_id (chosen i)) db.offers))
