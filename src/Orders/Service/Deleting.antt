-- ===== src/Orders/Service/Deleting.antt =====
-- The steps of the deletion of an order: the rows that go and stay, and the notifications.
use my_build.Base.{
  ℕ, suc, ◌+◌, ◌≤◌, ◌≡◌, refl, sym, ap, subst, ◌∙◌, String, Bool, true, false, not, List, [], ◌∷◌,
  ◌++◌, Option, none, some, arith, map, keep, find, count, includes, if◌then◌else◌, nat_beq, ◌==◌,
  String_eq, Option_eq, ◌&&◌, Bool-cases, inl, inr,
}
use my_build.Errors.{ok}
use my_build.Shared.Enums.{
  OrderStatus, OrderStatus_eq, OfferStatus, OfferStatus_eq, NotificationType,
}
use my_build.Shared.Dates.{Date}
use my_build.Shared.Offers.{active_offer_statuses}
use my_build.Store.Tables.{Db, Order, Offer, Notification}
use my_build.Store.Queries.{list_queries, update_where, rows_except}
use my_build.Store.Notices.{create_notifications, notification_rows}
use my_build.Orders.Service.{
  of_them, is_deletable, deletion_draft, deleted_rows, delete_order, notify_deleted,
}

module _ {A : Type 0} where
  pub rows_except-others :
      (p : A → Bool) (xs : List A) → rows_except A p xs ≡ keep (λ x. not (p x)) xs
  rows_except-others p [] = refl
  rows_except-others p (x ∷ xs) = ground (arith, rows_except-others p xs)

-- A notification without its reference to the order.
abbrev pub cleared : String → Notification → Notification
cleared order_id row = record row {
  order_id = if row.order_id == some order_id then none else row.order_id;
}

pub cleared_all :
    (order_id : String) (rows : List Notification)
    → update_where Notification
        (λ row. row.order_id == some order_id)
        (λ row. record row { order_id = none })
        rows
      ≡ map (cleared order_id) rows
cleared_all order_id [] = refl
cleared_all order_id (row ∷ rows) = ground (arith, cleared_all order_id rows)

pub unreferred :
    (order_id : String) (rows : List Notification)
    → count (λ row. row.order_id == some order_id) (map (cleared order_id) rows) ≡ 0
unreferred order_id [] = refl
unreferred order_id (row ∷ rows) = ground (arith, unreferred order_id rows)

pub count-both :
    {A : Type 0} (p : A → Bool) (xs ys : List A) → count p (xs ++ ys) ≡ count p xs + count p ys
count-both p [] ys = omega arith
count-both p (x ∷ xs) ys = ground (arith, count-both p xs ys)

none_deleted :
    (order_id : String) (rows : List Order)
    → count (λ row. row.id == order_id) rows ≡ 0
    → (rows_except Order (is_deletable order_id) rows ≡ rows)
      × (keep (λ row. not (row.id == order_id)) rows ≡ rows)
      × (count (is_deletable order_id) rows ≡ 0)
none_deleted order_id [] h = (refl, refl, refl)
none_deleted order_id (row ∷ rows) h = ground (arith, h, none_deleted order_id rows)

-- Of an order whose identifier is its own, the deletion leaves the others.
pub one_deleted :
    (order_id : String) (rows : List Order)
    → count (λ row. row.id == order_id) rows ≤ 1
    → nat_beq (count (is_deletable order_id) rows) 0 ≡ false
    → rows_except Order (is_deletable order_id) rows ≡ keep (λ row. not (row.id == order_id)) rows
one_deleted order_id [] h d = refl
one_deleted order_id (row ∷ rows) h d =
    ground (arith, h, d, one_deleted order_id rows, none_deleted order_id rows)

-- The statuses of an offer that is in play, and those of an order that may be deleted.
abbrev pub is_in_play : OfferStatus → Bool
is_in_play OfferStatus.withdrawn = false
is_in_play OfferStatus.rejected = false
is_in_play OfferStatus.not_accepted = false
is_in_play _ = true

abbrev pub may_go : OrderStatus → Bool
may_go OrderStatus.waiting = true
may_go OrderStatus.awaiting_confirmation = true
may_go _ = false

-- Whom a notification is for, what it is, the order that it refers to, and whether it is read.
abbrev pub Notified : Type 0
Notified = String × NotificationType × Option String × Bool

abbrev pub notified : Notification → Notified
notified row = (row.user_id, row.type, row.order_id, row.is_read)

abbrev pub to_company : Offer → Notified
to_company offer = (offer.company_id, NotificationType.order_deleted, none, false)

abbrev pub in_play : String → Offer → Bool
in_play order_id offer = offer.order_id == order_id && is_in_play offer.status

in_play_statuses :
    (status : OfferStatus) → includes active_offer_statuses status ≡ is_in_play status
in_play_statuses OfferStatus.sent = refl
in_play_statuses OfferStatus.accepted = refl
in_play_statuses OfferStatus.rejected = refl
in_play_statuses OfferStatus.not_accepted = refl
in_play_statuses OfferStatus.withdrawn = refl
in_play_statuses OfferStatus.work_submitted = refl
in_play_statuses OfferStatus.completed = refl
in_play_statuses OfferStatus.back_for_override = refl

pub affected_in_play :
    (order_id : String) (rows : List Offer)
    → keep (of_them order_id) rows ≡ keep (in_play order_id) rows
affected_in_play order_id [] = refl
affected_in_play order_id (row ∷ rows) =
    ground (arith, affected_in_play order_id rows, in_play_statuses row.status)

module _ (new_id : ℕ → String) (now : Date) (order : Order) where
  pub told_companies :
      (issued : ℕ) (offers : List Offer)
      → map notified
          (notification_rows (list_queries new_id) now issued (map (deletion_draft order) offers))
        ≡ map to_company offers
  told_companies issued [] = refl
  told_companies issued (offer ∷ offers) =
      ap (λ (rest : List Notified). to_company offer ∷ rest) (told_companies (suc issued) offers)

  pub unreferred_drafts :
      (order_id : String) (issued : ℕ) (offers : List Offer)
      → count
          (λ (row : Notification). row.order_id == some order_id)
          (notification_rows (list_queries new_id) now issued (map (deletion_draft order) offers))
        ≡ 0
  unreferred_drafts order_id issued [] = refl
  unreferred_drafts order_id issued (offer ∷ offers) =
      unreferred_drafts order_id (suc issued) offers

pub notify_deleted-inv :
    (new_id : ℕ → String) (now : Date) (order : Order) (offers : List Offer) (db after : Db)
    (told : List Notification)
    → notify_deleted (list_queries new_id) now order offers db ≡ ok (told, after)
    → (told
        ≡ notification_rows (list_queries new_id) now db.issued (map (deletion_draft order) offers))
      × (after.notifications ≡ db.notifications ++ told)
      × (after.orders ≡ db.orders)
      × (after.offers ≡ db.offers)
      × (after.submissions ≡ db.submissions)
      × (after.files ≡ db.files)
      × (after.users ≡ db.users)
unfolding create_notifications
notify_deleted-inv new_id now order [] db after told h = (
  ground (arith, h),
  subst (λ t. after.notifications ≡ db.notifications ++ t) (ground (arith, h))
      (sym (append-nil db.notifications ∙ ground (arith, h))),
  ground (arith, h),
  ground (arith, h),
  ground (arith, h),
  ground (arith, h),
  ground (arith, h),
)
  where
    append-nil : (xs : List Notification) → xs ++ [] ≡ xs
    append-nil [] = refl
    append-nil (x ∷ xs) = ap (λ ys. x ∷ ys) (append-nil xs)
notify_deleted-inv new_id now order (offer ∷ offers) db after told h = ground (arith, h)

pub delete_order-inv :
    (new_id : ℕ → String) (order_id : String) (db after : Db) (n : ℕ)
    → delete_order (list_queries new_id) order_id db ≡ ok (n, after)
    → nat_beq n 0 ≡ false
    → (after ≡ deleted_rows (list_queries new_id) order_id db)
      × (nat_beq (count (is_deletable order_id) db.orders) 0 ≡ false)
unfolding delete_order
delete_order-inv new_id order_id db after n h some_there =
    elim (Bool-cases (nat_beq (count (is_deletable order_id) db.orders) 0)) [
      | inl e ↦ absurd (ground (arith, h, e, some_there))
      | inr e ↦ (ground (arith, h, e), e)
    ]

pub found_may_go :
    (order_id : String) (rows : List Order) (order : Order)
    → count (λ row. row.id == order_id) rows ≤ 1
    → nat_beq (count (is_deletable order_id) rows) 0 ≡ false
    → find (λ row. row.id == order_id) rows ≡ some order
    → may_go order.status ≡ true
found_may_go order_id [] order h d e = cc
found_may_go order_id (row ∷ rows) order h d e =
    ground (arith, h, d, e, found_may_go order_id rows order, none_deleted order_id rows)
