-- ===== src/Orders/Transition/Write.antt =====
-- `applyEffects`, its second part: what the effects come to is written to the tables.
use my_build.Base.{◌+◌, String, List, [], ◌∷◌, includes, ◌==◌, String_eq, if◌then◌else◌}
use my_build.Errors.{not_found, or_throw}
use my_build.Shared.Enums.{OrderStatus, OfferStatus, OfferStatus_eq}
use my_build.Shared.Dates.{Date}
use my_build.Store.Tables.{Order, Offer, Notification}
use my_build.Store.Queries.{Queries}
use my_build.Store.Tx.{Tx, ◌>>=◌, ◌>>◌, return, lift, read, write}
use my_build.Store.Notices.{drop_superseded_notifications, create_notifications}
use my_build.Orders.Machine.Types.{OrderSideEffect}
use my_build.Orders.Transition.Types.{OfferStatusUpdate}
use my_build.Orders.Transition.Collect.{Collected, collect, group_offer_ids_by_status}

pub record Written : Type 0 where
  pub updated_order : Order
  pub offer_updates : List OfferStatusUpdate
  pub notifications : List Notification

-- A client's refusal is counted too. Prisma sets `updatedAt` with every update.
abbrev pub with_status : Date → OfferStatus → Offer → Offer
with_status now status row =
    if status == OfferStatus.rejected
    then record row { status = status; rejection_count = row.rejection_count + 1; updated_at = now }
    else record row { status = status; updated_at = now }

abbrev pub initial_data : Date → OrderStatus → Order → Order
initial_data now next_status row = record row { status = next_status; updated_at = now }

module _ (q : Queries) (now : Date) where
  -- One `updateMany` for each group; the groups share no offer, so their order is free.
  unfoldable pub update_groups : List (OfferStatus × List String) → List Offer → List Offer
  update_groups [] offers = offers
  update_groups ((status, ids) ∷ groups) offers =
      update_groups groups
        (q.update_many Offer (λ row. includes ids row.id) (with_status now status) offers)

  -- `order.update`, which throws where no row has the identifier.
  unfoldable pub update_order : String → (Order → Order) → Tx Order
  update_order order_id order_data = do
    write λ db. record db {
      orders = q.update_many Order (λ row. row.id == order_id) order_data db.orders;
    }
    found ← read λ db. q.find_first Order (λ row. row.id == order_id) db.orders
    lift (or_throw found (not_found "Order"))

  unfoldable pub write_collected : String → Collected → Tx Written
  unfolding group_offer_ids_by_status update_groups update_order
  write_collected order_id collected = do
    write λ db. record db {
      offers = update_groups (group_offer_ids_by_status collected.offer_updates) db.offers;
    }
    updated_order ← update_order order_id collected.order_data
    drop_superseded_notifications q collected.notifications_to_create
    notifications ← create_notifications q now collected.notifications_to_create
    return (record {
      updated_order = updated_order;
      offer_updates = collected.offer_updates;
      notifications = notifications;
    })

  unfoldable pub apply_effects : String → OrderStatus → List OrderSideEffect → Tx Written
  unfolding collect write_collected
  apply_effects order_id next_status effects = write_collected order_id (
      collect order_id
        (record {
          order_data = initial_data now next_status;
          offer_updates = [];
          notifications_to_create = [];
        })
        effects)
