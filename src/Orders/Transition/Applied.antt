-- ===== src/Orders/Transition/Applied.antt =====
-- What applying the effects of a transition does to each table.
use mathlib.Core.List.{append_assoc, append-nil}
use my_build.Base.{
  String, ◌≡◌, sym, ◌∙◌, List, [], ◌∷◌, ◌++◌, map, Option, some, arith, ◌==◌, String_eq,
  Option-cases, inl, inr,
}
use my_build.Errors.{ok}
use my_build.Shared.Enums.{OrderStatus, OfferStatus}
use my_build.Shared.Dates.{Date}
use my_build.Store.Tables.{Db, Order}
use my_build.Store.Queries.{Queries}
use my_build.Store.Notices.{drop_superseded_notifications_lem, create_notifications}
use my_build.Orders.Machine.Types.{
  OfferOwner, OrderSideEffect, set_offer_status, set_order_deal, create_notification,
}
use my_build.Orders.Machine.Effects.{status_updates, notices, deals}
use my_build.Orders.Transition.Types.{OfferStatusUpdate}
use my_build.Orders.Transition.Collect.{
  Collected, collect, collect_one, draft_of, group_offer_ids_by_status,
}
use my_build.Orders.Transition.Write.{
  Written, initial_data, update_groups, write_collected, apply_effects,
}

abbrev pub update_of : OfferOwner × OfferStatus → OfferStatusUpdate
update_of (offer, status) = record {
  offer_id = offer.offer_id;
  company_id = offer.company_id;
  status = status;
}

-- The loop collects the status changes in their order.
pub offer_updates-collect :
    (order_id : String) (acc : Collected) (effects : List OrderSideEffect)
    → (collect order_id acc effects).offer_updates
      ≡ acc.offer_updates ++ map update_of (status_updates effects)
unfolding collect
offer_updates-collect order_id acc [] = sym (append-nil acc.offer_updates)
offer_updates-collect order_id acc (set_offer_status offer status ∷ effects) =
    offer_updates-collect order_id (collect_one order_id acc (set_offer_status offer status))
      effects
    ∙ append_assoc acc.offer_updates (update_of (offer, status) ∷ []) _
offer_updates-collect order_id acc (effect ∷ effects) =
    offer_updates-collect order_id (collect_one order_id acc effect) effects

pub notifications-collect :
    (order_id : String) (acc : Collected) (effects : List OrderSideEffect)
    → (collect order_id acc effects).notifications_to_create
      ≡ acc.notifications_to_create ++ map (draft_of order_id) (notices effects)
unfolding collect
notifications-collect order_id acc [] = sym (append-nil acc.notifications_to_create)
notifications-collect order_id acc (create_notification n ∷ effects) =
    notifications-collect order_id (collect_one order_id acc (create_notification n)) effects
    ∙ append_assoc acc.notifications_to_create (draft_of order_id n ∷ []) _
notifications-collect order_id acc (effect ∷ effects) =
    notifications-collect order_id (collect_one order_id acc effect) effects

-- The price and the deadline that a row has after the deals of the effects; the last one counts.
abbrev pub price_after : Option String → List (String × Date) → Option String
price_after price [] = price
price_after price ((p, d) ∷ more) = price_after (some p) more

abbrev pub deadline_after : Option Date → List (String × Date) → Option Date
deadline_after deadline [] = deadline
deadline_after deadline ((p, d) ∷ more) = deadline_after (some d) more

-- What the change of the order keeps of the row, and what it sets.
pub record OrderChange (next : OrderStatus) (agreed : List (String × Date)) (row row' : Order)
    : Type 0 where
  pub id : row'.id ≡ row.id
  pub client_id : row'.client_id ≡ row.client_id
  pub status : row'.status ≡ next
  pub price : row'.price ≡ price_after row.price agreed
  pub deadline : row'.deadline ≡ deadline_after row.deadline agreed

order_data-collect :
    (order_id : String) (acc : Collected) (effects : List OrderSideEffect) (row : Order)
    → OrderChange
        (acc.order_data row).status
        (deals effects)
        (acc.order_data row)
        ((collect order_id acc effects).order_data row)
unfolding collect
order_data-collect order_id acc [] row = ground arith
order_data-collect order_id acc (set_order_deal p d ∷ effects) row =
    ground (
      arith,
      order_data-collect order_id (collect_one order_id acc (set_order_deal p d)) effects row,
    )
order_data-collect order_id acc (effect ∷ effects) row =
    ground (arith, order_data-collect order_id (collect_one order_id acc effect) effects row)

abbrev pub collected_of : Date → String → OrderStatus → List OrderSideEffect → Collected
collected_of now order_id next_status effects =
    collect order_id
      (record {
        order_data = initial_data now next_status;
        offer_updates = [];
        notifications_to_create = [];
      })
      effects

pub order_data_changes :
    (now : Date) (order_id : String) (status : OrderStatus) (effects : List OrderSideEffect)
    (row : Order)
    → OrderChange status
        (deals effects)
        row
        ((collected_of now order_id status effects).order_data row)
order_data_changes now order_id status effects row = ground (
  arith,
  order_data-collect order_id
      (record {
        order_data = initial_data now status;
        offer_updates = [];
        notifications_to_create = [];
      })
      effects row,
)

module _ (q : Queries) (now : Date) where
  pub record WrittenTo (order_id : String) (collected : Collected) (db : Db) (written : Written)
      (after : Db) : Type 0 where
    pub offers :
        after.offers
        ≡ update_groups q now (group_offer_ids_by_status collected.offer_updates) db.offers
    pub orders :
        after.orders
        ≡ q.update_many Order (λ row. row.id == order_id) collected.order_data db.orders
    pub updates : written.offer_updates ≡ collected.offer_updates
    pub updated :
        q.find_first Order (λ row. row.id == order_id) after.orders ≡ some written.updated_order
    pub users : after.users ≡ db.users
    pub submissions : after.submissions ≡ db.submissions
    pub files : after.files ≡ db.files

  write_collected-inv :
      (order_id : String) (collected : Collected) (db after : Db) (written : Written)
      → write_collected q now order_id collected db ≡ ok (written, after)
      → WrittenTo order_id collected db written after
  unfolding write_collected create_notifications
  write_collected-inv order_id collected db after written h =
      elim (Option-cases (
        q.find_first Order (λ row. row.id == order_id)
          (q.update_many Order (λ row. row.id == order_id) collected.order_data db.orders))) [
            | inl e ↦ absurd (ground arith)
            | inr (order, e) ↦
                let (rows, d) =
                  drop_superseded_notifications_lem q collected.notifications_to_create (record db {
                    offers =
                        update_groups q now (group_offer_ids_by_status collected.offer_updates)
                          db.offers;
                    orders =
                        q.update_many Order (λ row. row.id == order_id) collected.order_data
                          db.orders;
                  }) in
                ground arith
          ]

  pub apply_effects-inv :
      (order_id : String) (status : OrderStatus) (effects : List OrderSideEffect) (db after : Db)
      (written : Written)
      → apply_effects q now order_id status effects db ≡ ok (written, after)
      → WrittenTo order_id (collected_of now order_id status effects) db written after
  unfolding apply_effects
  apply_effects-inv order_id status effects db after written h =
      write_collected-inv order_id (collected_of now order_id status effects) db after written h

  pub offer_updates-collected_of :
      (order_id : String) (status : OrderStatus) (effects : List OrderSideEffect)
      → (collected_of now order_id status effects).offer_updates
        ≡ map update_of (status_updates effects)
  offer_updates-collected_of order_id status effects = offer_updates-collect order_id _ effects
