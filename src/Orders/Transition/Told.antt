-- ===== src/Orders/Transition/Told.antt =====
-- The notifications of a transition: whom they tell, and of what.
use my_build.Base.{
  ℕ, suc, ◌≡◌, refl, sym, ap, ◌∙◌, subst, String, Bool, true, false, not, ◌&&◌, List, [], ◌∷◌, ◌++◌,
  All, map, keep, find, some, arith, ◌==◌, String_eq, Option_eq, if◌then◌else◌,
}
use my_build.Errors.{ok}
use my_build.Shared.Enums.{OfferStatus, OfferStatus_eq, NotificationType}
use my_build.Shared.Dates.{Date}
use my_build.Store.Tables.{Db, Order, Offer, Notification}
use my_build.Store.Queries.{Queries, IsLawful, list_queries, IsLawful-list_queries}
use my_build.Store.Notices.{keyed, superseded, notification_rows}
use my_build.Orders.Machine.Types.{OfferOwner, Notice}
use my_build.Orders.Machine.Effects.{
  announcement, told_as, notices, lost, transition_changes, notices-changes,
}
use my_build.Orders.Transition.Types.{
  OrderTransitionCommand, command_order_id, command_type, AppliedTransition,
}
use my_build.Orders.Transition.Collect.{draft_of}
use my_build.Orders.Transition.Write.{apply_effects}
use my_build.Orders.Transition.Applied.{collected_of, notifications-collect}
use my_build.Orders.Transition.Inversion.{RunOf, run-inv, context_of, is_meant}
use my_build.Orders.Transition.Settled.{meant_status, is_acceptance}
use my_build.Orders.Transition.Offers.{built}
use my_build.Orders.Transition.Replaced.{
  replaced, rows_except-keep, superseded-replaced, written_told,
}
use my_build.Orders.Transition.{is_rival, owner_of, run, build_event}

-- The offers that lose by a command about the offer `chosen`: with an acceptance, the order's others
-- that were sent and not answered.
abbrev pub losses : OrderTransitionCommand → String → List Offer → List (OfferOwner × OfferStatus)
losses command chosen offers =
    if is_acceptance (command_type command)
    then map
        (λ row.
          (record { offer_id = row.id; company_id = row.company_id }, OfferStatus.not_accepted))
        (keep
          (λ row.
            row.order_id == command_order_id command
            && row.status == OfferStatus.sent
            && not (row.id == chosen))
          offers)
    else []

abbrev pub told_of : Notification → String × NotificationType
told_of row = (row.user_id, row.type)

abbrev pub IsNewFor : String → Date → Notification → Type 0
IsNewFor order_id now row =
    (row.order_id ≡ some order_id) × (row.is_read ≡ false) × (row.created_at ≡ now)

-- What a transition has told, and whom: the order and the offer of the command, the sides that hear of
-- the changes of offers, and the table of notifications.
pub record Told (now : Date) (command : OrderTransitionCommand) (db after : Db)
    (a : AppliedTransition) : Type 0 where
  pub order : Order
  pub offer : Offer
  pub found : find (λ row. row.id == command_order_id command) db.orders ≡ some order
  pub meant : find (is_meant order.id command) db.offers ≡ some offer
  pub told :
      map told_of a.notifications
      ≡ map (announcement order.client_id) (
          (
            record { offer_id = offer.id; company_id = offer.company_id },
            meant_status (command_type command),
          )
          ∷ losses command offer.id db.offers)
  pub new : All (IsNewFor order.id now) a.notifications
  pub kept :
      after.notifications
      ≡ keep (λ row. not (replaced a.notifications row)) db.notifications ++ a.notifications

told_of-rows :
    (new_id : ℕ → String) (now : Date) (order_id : String) (issued : ℕ) (ns : List Notice)
    → map told_of (notification_rows (list_queries new_id) now issued (map (draft_of order_id) ns))
      ≡ map told_as ns
told_of-rows new_id now order_id issued [] = refl
told_of-rows new_id now order_id issued (n ∷ ns) =
    ap (λ (ts : List (String × NotificationType)). told_as n ∷ ts)
      (told_of-rows new_id now order_id (suc issued) ns)

rows-IsNewFor :
    (new_id : ℕ → String) (now : Date) (order_id : String) (issued : ℕ) (ns : List Notice)
    → All
        (IsNewFor order_id now)
        (notification_rows (list_queries new_id) now issued (map (draft_of order_id) ns))
rows-IsNewFor new_id now order_id issued [] = tt
rows-IsNewFor new_id now order_id issued (n ∷ ns) =
    ((refl, refl, refl), rows-IsNewFor new_id now order_id (suc issued) ns)

lost-losses :
    (command : OrderTransitionCommand) (chosen : String) (offers : List Offer)
    → map lost (
        if is_acceptance (command_type command)
        then map owner_of (keep (is_rival (command_order_id command) chosen) offers)
        else [])
      ≡ losses command chosen offers
lost-losses command chosen offers = by_type (is_acceptance (command_type command))
  where
    rivals :
        (rows : List Offer)
        → map lost (map owner_of (keep (is_rival (command_order_id command) chosen) rows))
          ≡ map
              (λ (row : Offer). (
                record { offer_id = row.id; company_id = row.company_id },
                OfferStatus.not_accepted,
              ))
              (keep
                (λ row.
                  row.order_id == command_order_id command
                  && row.status == OfferStatus.sent
                  && not (row.id == chosen))
                rows)
    rivals [] = refl
    rivals (r ∷ rows) = ground (arith, rivals rows)

    by_type :
        (b : Bool)
        → map lost (
            if b
            then map owner_of (keep (is_rival (command_order_id command) chosen) offers)
            else [])
          ≡ (if b
              then map
                  (λ (row : Offer). (
                    record { offer_id = row.id; company_id = row.company_id },
                    OfferStatus.not_accepted,
                  ))
                  (keep
                    (λ row.
                      row.order_id == command_order_id command
                      && row.status == OfferStatus.sent
                      && not (row.id == chosen))
                    offers)
              else [])
    by_type true = rivals offers
    by_type false = refl

RunOf-Told :
    (new_id : ℕ → String) (now : Date) (command : OrderTransitionCommand) (db after : Db)
    (a : AppliedTransition)
    → RunOf (list_queries new_id) now command db a after
    → Told now command db after a
unfolding apply_effects
RunOf-Told new_id now command db after a run_of =
    let lists = list_queries new_id in
    let order_id = run_of.order.id in
    let effects = run_of.result.effects in
    let event = build_event lists now command run_of.offer db in
    let collected = collected_of now order_id run_of.result.next_status effects in
    let (kept, rows) =
      written_told new_id now order_id collected db after run_of.written run_of.applied in
    let drafts : collected.notifications_to_create ≡ map (draft_of order_id) (notices effects) =
      notifications-collect order_id _ effects in
    let answer : run_of.written.notifications ≡ a.notifications =
      sym (ap (λ (x : AppliedTransition). x.notifications) run_of.answer) in
    let answered_rows = sym answer ∙ rows in
    let is_rows = answered_rows ∙ ap (notification_rows lists now db.issued) drafts in
    let (owner, status, others) = built lists now run_of.offer db command in
    let (updates, _) = transition_changes _ event run_of.result run_of.decided in
    record {
      order = run_of.order;
      offer = run_of.offer;
      found = run_of.found;
      meant = run_of.meant;
      told =
          ap (map told_of) is_rows
          ∙ told_of-rows new_id now order_id db.issued (notices effects)
          ∙ notices-changes (context_of run_of.order) event run_of.result run_of.decided
          ∙ ap (map (announcement run_of.order.client_id)) (
              updates
              ∙ (λ i. (owner i, status i) ∷ map lost (others i))
              ∙ ap
                  (λ (ls : List (OfferOwner × OfferStatus)).
                    (owner_of run_of.offer, meant_status (command_type command)) ∷ ls)
                  (lost-losses command run_of.offer.id db.offers));
      new =
          subst (All (IsNewFor order_id now)) (sym is_rows)
            (rows-IsNewFor new_id now order_id db.issued (notices effects));
      kept =
          kept
          ∙ ap (λ (xs : List Notification). xs ++ run_of.written.notifications)
              (rows_except-keep (superseded (keyed collected.notifications_to_create))
                (replaced (notification_rows lists now db.issued collected.notifications_to_create))
                db.notifications
                (superseded-replaced new_id now db.issued collected.notifications_to_create))
          ∙ ap
              (λ (told : List Notification).
                keep (λ row. not (replaced told row)) db.notifications
                ++ run_of.written.notifications)
              (sym answered_rows)
          ∙ ap
              (λ (told : List Notification).
                keep (λ row. not (replaced a.notifications row)) db.notifications ++ told)
              answer;
    }

-- On tables that meet the laws, a transition that answers has told, of each offer whose status it has
-- changed, the side that the new status concerns, by one unread notification of the order, in the
-- order of the changes: the client that a company has sent or withdrawn its offer or handed its work in,
-- the company of the command's offer that the client has refused or accepted it, confirmed its work
-- or sent it back, and, with an acceptance, the company of each of the order's other pending offers
-- that another one was chosen; nobody else is told. The table has lost just the unread notifications
-- of the same users about the same thing, and the new ones are at its end.
pub run-Told :
    (q : Queries) (now : Date) (command : OrderTransitionCommand) (db after : Db)
    (a : AppliedTransition)
    → IsLawful q
    → run q now command db ≡ ok (a, after)
    → Told now command db after a
run-Told q now command db after a lawful = subst Claim (IsLawful-list_queries q lawful) on_lists
  where
    Claim : Queries → Type 0
    Claim p = run p now command db ≡ ok (a, after) → Told now command db after a

    on_lists : Claim (list_queries q.new_id)
    on_lists h =
        let run_of = run-inv (list_queries q.new_id) now command db after a h in
        RunOf-Told q.new_id now command db after a run_of
