-- ===== src/Orders/Transition/Offers.antt =====
-- A transition and the offers: what it answers of them, and what it leaves of the table.
use my_build.Base.{◌≡◌, refl, sym, ap, ◌∙◌, subst, [], ◌∷◌, map, arith, String_eq, if◌then◌else◌}
use my_build.Errors.{ok}
use my_build.Shared.Enums.{OfferStatus_eq}
use my_build.Shared.Dates.{Date}
use my_build.Store.Tables.{Db, Offer}
use my_build.Store.Queries.{Queries, IsLawful, IsLawful-list_queries, list_queries}
use my_build.Orders.Machine.Types.{event_owner}
use my_build.Orders.Machine.Effects.{losers, intended_status, transition_changes}
use my_build.Orders.Transition.Types.{
  OrderTransitionCommand, command_order_id, command_type, AppliedTransition,
}
use my_build.Orders.Transition.Collect.{group_offer_ids_by_status}
use my_build.Orders.Transition.Write.{update_groups}
use my_build.Orders.Transition.Applied.{update_of, apply_effects-inv, offer_updates-collected_of}
use my_build.Orders.Transition.Inversion.{RunOf, run-inv}
use my_build.Orders.Transition.{is_rival, owner_of, build_event, run}
use my_build.Orders.Transition.Settled.{
  DistinctIds, groups_settled, is_acceptance, lost_updates, map-settled, meant_status, row_after,
  settled,
}

-- The event of a command is of its type, and concerns the offer that was found.
module _ (q : Queries) (now : Date) (offer : Offer) (db : Db) where
  pub built :
      (command : OrderTransitionCommand)
      → let event = build_event q now command offer db in
        (event_owner event ≡ owner_of offer)
        × (intended_status event ≡ meant_status (command_type command))
        × (losers event ≡ (
            if is_acceptance (command_type command)
            then map owner_of
                (q.find_many Offer (is_rival (command_order_id command) offer.id) db.offers)
            else []))
  unfolding build_event
  built command = ground arith

-- What a transition answers of the offers that it has changed.
pub updates_answered :
    {q : Queries} {now : Date} {command : OrderTransitionCommand} {db after : Db}
    {a : AppliedTransition} (run_of : RunOf q now command db a after)
    → a.offer_updates
      ≡ update_of (owner_of run_of.offer, meant_status (command_type command))
        ∷ lost_updates (
            if is_acceptance (command_type command)
            then map owner_of
                (q.find_many Offer (is_rival (command_order_id command) run_of.offer.id) db.offers)
            else [])
updates_answered {q = q} {now = now} {command = command} {db = db} {after = after} run_of =
    let event = build_event q now command run_of.offer db in
    let (owner, status, others) = built q now run_of.offer db command in
    let (updates, _) = transition_changes _ event run_of.result run_of.decided in
    let written =
      apply_effects-inv q now run_of.order.id run_of.result.next_status run_of.result.effects db
        after run_of.written run_of.applied in
    ap (λ x. x.offer_updates) run_of.answer
    ∙ written.updates
    ∙ offer_updates-collected_of q now run_of.order.id run_of.result.next_status
        run_of.result.effects
    ∙ ap (map update_of) updates
    ∙ (λ i. update_of (owner i, status i) ∷ lost_updates (others i))

changed_to :
    {q : Queries} {now : Date} {command : OrderTransitionCommand} {db after : Db}
    {a : AppliedTransition} (run_of : RunOf q now command db a after)
    → after.offers
      ≡ update_groups q now
          (group_offer_ids_by_status (
            update_of (owner_of run_of.offer, meant_status (command_type command))
            ∷ lost_updates (
                if is_acceptance (command_type command)
                then map owner_of (
                    q.find_many Offer
                      (is_rival (command_order_id command) run_of.offer.id)
                      db.offers)
                else [])))
          db.offers
changed_to {q = q} {now = now} {command = command} {db = db} {after = after} run_of =
    let event = build_event q now command run_of.offer db in
    let (owner, status, others) = built q now run_of.offer db command in
    let (updates, _) = transition_changes _ event run_of.result run_of.decided in
    let written =
      apply_effects-inv q now run_of.order.id run_of.result.next_status run_of.result.effects db
        after run_of.written run_of.applied in
    written.offers
    ∙ ap (λ us. update_groups q now (group_offer_ids_by_status us) db.offers)
        (offer_updates-collected_of q now run_of.order.id run_of.result.next_status
            run_of.result.effects
          ∙ ap (map update_of) updates
          ∙ (λ i. update_of (owner i, status i) ∷ lost_updates (others i)))

pub run-settled :
    (q : Queries) (now : Date) (command : OrderTransitionCommand) (db after : Db)
    (a : AppliedTransition)
    → IsLawful q
    → DistinctIds db.offers
    → run q now command db ≡ ok (a, after)
    → after.offers
      ≡ map (settled (command_type command) now (command_order_id command) a.offer_id) db.offers
run-settled q now command db after a lawful d h =
    subst Claim (IsLawful-list_queries q lawful) on_lists h
  where
    Claim : Queries → Type 0
    Claim p =
        run p now command db ≡ ok (a, after)
        → after.offers
          ≡ map (settled (command_type command) now (command_order_id command) a.offer_id) db.offers

    on_lists : Claim (list_queries q.new_id)
    on_lists h' =
        let run_of = run-inv (list_queries q.new_id) now command db after a h' in
        let chosen : run_of.offer.id ≡ a.offer_id = sym (ap (λ x. x.offer_id) run_of.answer) in
        changed_to run_of
        ∙ groups_settled q.new_id now (command_order_id command) run_of.offer.id
            (command_type command) db.offers (owner_of run_of.offer) d refl
        ∙ ap (λ c. map (settled (command_type command) now (command_order_id command) c) db.offers)
            chosen

-- On tables that meet the laws, with no two offers of one identifier, a transition that answers has
-- settled every offer: the offer that it is about has the status that the event means and the moment
-- as that of its last change, one refusal more where the client refused it, and all else as it
-- was; an acceptance has turned down the order's other offers that were sent and not answered; and all
-- other rows are as they were.
pub run-offers :
    (q : Queries) (now : Date) (command : OrderTransitionCommand) (db after : Db)
    (a : AppliedTransition)
    → IsLawful q
    → DistinctIds db.offers
    → run q now command db ≡ ok (a, after)
    → after.offers
      ≡ map (row_after (command_type command) now (command_order_id command) a.offer_id) db.offers
run-offers q now command db after a lawful d h =
    run-settled q now command db after a lawful d h
    ∙ map-settled (command_type command) now (command_order_id command) a.offer_id db.offers
