-- ===== src/Orders/Service.antt =====
-- backend/src/modules/orders/orders.service.ts and order-search.ts: an order is created, listed, found and
-- deleted. How the database compares a text with a pattern, and which number an order is given next,
-- are parameters.
pub mod Deleting
pub mod Deletion
pub mod Tests
use my_build.Base.{
  ℕ, suc, String, ◌<>◌, Bool, true, false, not, ◌&&◌, ◌||◌, List, [], ◌∷◌, ◌++◌, Option, none, some,
  any, map, keep, length, take, drop, includes, nat_beq, leb, ltb, ◌==◌, String_eq, Option_eq,
  if◌then◌else◌,
}
use mathlib.Core.Option
use Prim.Native.Char.{Char, code}
use my_build.Errors.{HttpError, conflict, refuse}
use my_build.Shared.Enums.{
  OrderStatus, OrderStatus_eq, OfferStatus_eq, NotificationType, OrderCategory, ObjectType,
}
use my_build.Shared.Dates.{Date}
use my_build.Shared.Labels.{notification_type_labels}
use my_build.Shared.Offers.{active_offer_statuses, executor_offer_statuses}
use my_build.Shared.Orders.{can_delete_order, deletable_order_statuses}
use my_build.Shared.OrderNumber.{parse_order_number}
use my_build.Common.Pagination.{Paginated, page_request, to_page}
use my_build.Store.Tables.{Db, User, Order, OrderSubmission, OrderFile, Offer, Notification}
use my_build.Store.Queries.{Queries}
use my_build.Store.Tx.{Tx, ◌>>=◌, ◌>>◌, return, lift, read, write}
use my_build.Store.Notices.{Draft, create_notifications}
use my_build.Orders.Notification.{order_ref}
use my_build.Orders.Transition.{lock_order}
use my_build.Orders.Workflow.{order_ref_of}
use my_build.Orders.View.{OrderRow, OrderListItem, to_order_list_item}
use my_build.Orders.Detail.{order_row, offer_row}

pub record CreateOrderDto : Type 0 where
  pub title : String
  pub category : OrderCategory
  pub object_type : ObjectType
  pub description : String
  pub address : String
  pub square_meters : ℕ
  pub client_budget : Option String
  pub desired_start_date : Option Date

abbrev pub new_order : Date → String → ℕ → String → CreateOrderDto → Order
new_order now id order_number client_id dto = record {
  id = id;
  order_number = order_number;
  client_id = client_id;
  title = dto.title;
  category = dto.category;
  object_type = dto.object_type;
  description = dto.description;
  address = dto.address;
  square_meters = dto.square_meters;
  verified_square_meters = none;
  client_budget = dto.client_budget;
  desired_start_date = dto.desired_start_date;
  price = none;
  deadline = none;
  status = OrderStatus.waiting;
  client_completion_comment = none;
  correction_comment = none;
  created_at = now;
  updated_at = now;
}

abbrev pub order_not_deletable : HttpError
order_not_deletable = conflict "Заказ уже в работе — его нельзя удалить. Дождитесь завершения"

-- `value.replaceAll`, thrice: no replacement meets what an earlier one has added but for the backslash,
-- which goes first.
unfoldable pub escape_like : String → String
escape_like String.[] = ""
escape_like (String.◌∷◌ c s) =
    let rest = escape_like s in
    if nat_beq (code c) b'\\' || nat_beq (code c) b'%' || nat_beq (code c) b'_'
    then String.◌∷◌ "\\" (String.◌∷◌ c rest)
    else String.◌∷◌ c rest

abbrev pub of_them : String → Offer → Bool
of_them order_id row = row.order_id == order_id && includes active_offer_statuses row.status

abbrev pub is_deletable : String → Order → Bool
is_deletable order_id row = row.id == order_id && includes deletable_order_statuses row.status

-- `onDelete: SetNull`.
abbrev pub without_order : String → Notification → Notification
without_order order_id row =
    if row.order_id == some order_id then record row { order_id = none } else row

abbrev pub deletion_draft : Order → Offer → Draft
deletion_draft order offer = record {
  user_id = offer.company_id;
  type = NotificationType.order_deleted;
  order_id = none;
  title = notification_type_labels NotificationType.order_deleted;
  body =
      order_ref (order_ref_of order)
      <> ": клиент удалил заказ, ваше предложение больше не действует";
  collapse_key = none;
}

-- A text that is missing or empty is no filter.
abbrev pub wanted_text : Option String → Option String
wanted_text none = none
wanted_text (some q) = if q == "" then none else some q

module _ (q : Queries) where
  unfoldable pub create_order : Date → ℕ → String → CreateOrderDto → Tx Order
  create_order now order_number client_id dto = do
    order ← read λ db. new_order now (q.new_id db.issued) order_number client_id dto
    write λ db. record db { orders = db.orders ++ order ∷ []; issued = suc db.issued }
    return order

  -- `EXECUTOR_OFFER_SELECT`: an order's row in a list has the executor's offer alone.
  abbrev pub list_row : Db → Order → OrderRow
  list_row db order = record (order_row q db order) {
    offers = map (offer_row q db) (
        take 1 (
          q.find_many Offer
            (λ offer. offer.order_id == order.id && includes executor_offer_statuses offer.status)
            db.offers));
  }

  -- `order.deleteMany` with what the foreign keys of the schema take along.
  abbrev pub deleted_rows : String → Db → Db
  deleted_rows order_id db = record db {
    orders = q.delete_many Order (is_deletable order_id) db.orders;
    submissions = q.delete_many OrderSubmission (λ row. row.order_id == order_id) db.submissions;
    files = q.delete_many OrderFile (λ row. row.order_id == order_id) db.files;
    offers = q.delete_many Offer (λ row. row.order_id == order_id) db.offers;
    notifications =
        q.update_many Notification (λ row. row.order_id == some order_id)
          (λ row. record row { order_id = none }) db.notifications;
  }

  -- The number of the orders that are deleted, and the tables after that.
  unfoldable pub delete_order : String → Tx ℕ
  delete_order order_id = do
    count ← read λ db. q.count_rows Order (is_deletable order_id) db.orders
    write λ db. if nat_beq count 0 then db else deleted_rows order_id db
    return count

  abbrev pub notify_deleted : Date → Order → List Offer → Tx (List Notification)
  notify_deleted now order [] = return []
  notify_deleted now order (offer ∷ offers) =
      create_notifications q now (map (deletion_draft order) (offer ∷ offers))

  abbrev pub delete_counted : Date → Order → List Offer → ℕ → Tx (List Notification)
  delete_counted now order affected count = do
    lift (refuse (nat_beq count 0) order_not_deletable)
    notify_deleted now order affected

  unfoldable pub delete_locked : Date → String → Order → Tx (List Notification)
  unfolding delete_order
  delete_locked now order_id order = do
    affected ← read λ db. q.find_many Offer (of_them order_id) db.offers
    count ← delete_order order_id
    delete_counted now order affected count

  unfoldable pub delete_with_notices : Date → String → Tx (List Notification)
  unfolding lock_order delete_locked
  delete_with_notices now order_id = do
    order ← lock_order q order_id
    delete_locked now order_id order

  module _ (like : String → String → Bool) where
    abbrev pub has_title : String → Order → Bool
    has_title pattern row = like pattern row.title

    -- The companies whose offers an order is carried out by.
    abbrev pub has_contractor : Db → String → Order → Bool
    has_contractor db pattern row =
        any
          (λ (offer : Offer).
            offer.order_id == row.id
            && (includes executor_offer_statuses offer.status
                && (elim (q.find_first User (λ user. user.id == offer.company_id) db.users) [
                  | none ↦ false
                  | some user ↦ elim user.company_name [
                    | none ↦ false
                    | some name ↦ like pattern name
                  ]
                ])))
          db.offers

    abbrev pub has_number : Option ℕ → Order → Bool
    has_number none row = false
    has_number (some n) row = nat_beq row.order_number n

    -- `buildSearchConditions`: the order meets one of the conditions.
    unfoldable pub is_searched : Db → String → Bool → Order → Bool
    unfolding escape_like parse_order_number
    is_searched db query include_contractor row =
        has_number (parse_order_number query) row
        || has_title (escape_like query) row
        || include_contractor && has_contractor db (escape_like query) row

    abbrev pub has_status : Option OrderStatus → Order → Bool
    has_status none row = true
    has_status (some status) row = row.status == status

    abbrev pub meets_query : Db → Option String → Order → Bool
    meets_query db none row = true
    meets_query db (some query) row = is_searched db query true row

    unfoldable pub is_listed : Db → String → Option OrderStatus → Option String → Order → Bool
    unfolding is_searched
    is_listed db client_id status query row =
        row.client_id == client_id
        && has_status status row
        && meets_query db (wanted_text query) row

    -- `ORDER_BY`: the newest first, then by the identifier.
    abbrev pub newer_first : (String → String → Bool) → Order → Order → Bool
    newer_first id_before a b =
        ltb b.created_at a.created_at || nat_beq a.created_at b.created_at && id_before b.id a.id

    unfoldable pub list_orders :
        (String → String → Bool)
        → String
        → Option OrderStatus
        → Option String
        → Option ℕ
        → Option ℕ
        → Tx (Paginated OrderListItem)
    unfolding is_listed page_request to_page
    list_orders id_before client_id status query page page_size = do
      total ← read λ db. q.count_rows Order (is_listed db client_id status query) db.orders
      rows ← read λ db.
          let request = page_request page page_size in
          map (λ row. to_order_list_item (list_row db row) client_id)
            (take request.page_size (
              drop request.skip (
                q.find_sorted Order (is_listed db client_id status query) (newer_first id_before)
                  db.orders)))
      return (to_page rows (page_request page page_size) total)
