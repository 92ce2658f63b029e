-- ===== src/Orders/Service/Deletion.antt =====
-- What the deletion of an order leaves of the tables, and whom it tells.
use my_build.Base.{
  ◌≤◌, ◌≡◌, ap, subst, ◌∙◌, String, true, not, List, ◌++◌, some, arith, map, keep, find, count,
  nat_beq, ◌==◌, String_eq, Option_eq,
}
use my_build.Errors.{ok}
use my_build.Shared.Enums.{OrderStatus_eq, OfferStatus_eq}
use my_build.Shared.Dates.{Date}
use my_build.Store.Tables.{Db, Order, OrderSubmission, OrderFile, Offer, Notification}
use my_build.Store.Queries.{Queries, IsLawful, list_queries, IsLawful-list_queries}
use my_build.Store.Tx.{Tx-eq-ok, refuse-eq-ok}
use my_build.Orders.Transition.{lock_order}
use my_build.Orders.Transition.Inversion.{lock_order-inv}
use my_build.Orders.Service.Deleting.{
  rows_except-others, cleared, cleared_all, unreferred, count-both, one_deleted, may_go, notified,
  to_company, in_play, affected_in_play, told_companies, unreferred_drafts, notify_deleted-inv,
  delete_order-inv, found_may_go,
}
use my_build.Orders.Service.{
  of_them, order_not_deletable, delete_order, notify_deleted, delete_with_notices, delete_locked,
  delete_counted,
}

-- What a deletion leaves: the order is gone with its offers, hand-ins and files, every other row of those
-- tables stays, every notification stays without its reference to the order, and the companies whose
-- offers were in play are told.
pub record Deleted (order_id : String) (db after : Db) (told : List Notification) : Type 0 where
  pub order : Order
  pub there : find (λ row. row.id == order_id) db.orders ≡ some order
  pub allowed : may_go order.status ≡ true
  pub orders : after.orders ≡ keep (λ row. not (row.id == order_id)) db.orders
  pub offers : after.offers ≡ keep (λ row. not (row.order_id == order_id)) db.offers
  pub submissions : after.submissions ≡ keep (λ row. not (row.order_id == order_id)) db.submissions
  pub files : after.files ≡ keep (λ row. not (row.order_id == order_id)) db.files
  pub users : after.users ≡ db.users
  pub notifications : after.notifications ≡ map (cleared order_id) db.notifications ++ told
  pub unreferred :
      count (λ (row : Notification). row.order_id == some order_id) after.notifications ≡ 0
  pub companies : map notified told ≡ map to_company (keep (in_play order_id) db.offers)

-- On tables that meet the laws and where the order's identifier is its own, a deletion that commits is
-- of an order that was looking for a company. The order is gone with its offers, hand-ins and files,
-- and every other order, offer, hand-in and file and every user stays as it was; every notification
-- stays, without its reference to the order; and each offer of the order that was in play gives its
-- company one unread notification of the deletion, that refers to no order, and no other is written.
pub delete_with_notices-Deleted :
    (q : Queries) (now : Date) (order_id : String) (db after : Db) (told : List Notification)
    → IsLawful q
    → count (λ row. row.id == order_id) db.orders ≤ 1
    → delete_with_notices q now order_id db ≡ ok (told, after)
    → Deleted order_id db after told
unfolding delete_with_notices delete_locked
delete_with_notices-Deleted q now order_id db after told lawful one h =
    subst Claim (IsLawful-list_queries q lawful) on_lists h
  where
    Claim : Queries → Type 0
    Claim p =
        delete_with_notices p now order_id db ≡ ok (told, after) → Deleted order_id db after told

    lists : Queries
    lists = list_queries q.new_id

    on_lists : Claim (list_queries q.new_id)
    on_lists h' =
        let (order, there, e1, h1) =
          Tx-eq-ok (lock_order lists order_id) (delete_locked lists now order_id) db h' in
        let (same, found) = lock_order-inv lists order_id db there order e1 in
        let (n, mid, e2, h2) =
          Tx-eq-ok (delete_order lists order_id)
            (delete_counted lists now order (keep (of_them order_id) there.offers)) there h1 in
        let (some_there, h3) =
          refuse-eq-ok (nat_beq n 0) order_not_deletable
            (notify_deleted lists now order (keep (of_them order_id) there.offers)) mid h2 in
        let (is_mid, some_deletable) =
          delete_order-inv q.new_id order_id db mid n
            (subst (λ d. delete_order lists order_id d ≡ ok (n, mid)) same e2) some_there in
        let affected = keep (of_them order_id) db.offers in
        let (is_told, notifications, orders, offers, submissions, files, users) =
          notify_deleted-inv q.new_id now order affected mid after told (
            subst
              (λ (d : Db).
                notify_deleted lists now order (keep (of_them order_id) d.offers) mid
                ≡ ok (told, after))
              same h3) in
        let left : after.notifications ≡ map (cleared order_id) db.notifications ++ told =
          notifications
          ∙ ap (λ (d : Db). d.notifications ++ told) is_mid
          ∙ ap (λ (ns : List Notification). ns ++ told) (cleared_all order_id db.notifications) in
        record {
          order = order;
          there = found;
          allowed = found_may_go order_id db.orders order one some_deletable found;
          orders =
              orders
              ∙ ap (λ (d : Db). d.orders) is_mid
              ∙ one_deleted order_id db.orders one some_deletable;
          offers =
              offers
              ∙ ap (λ (d : Db). d.offers) is_mid
              ∙ rows_except-others (λ (row : Offer). row.order_id == order_id) db.offers;
          submissions =
              submissions
              ∙ ap (λ (d : Db). d.submissions) is_mid
              ∙ rows_except-others (λ (row : OrderSubmission). row.order_id == order_id)
                  db.submissions;
          files =
              files
              ∙ ap (λ (d : Db). d.files) is_mid
              ∙ rows_except-others (λ (row : OrderFile). row.order_id == order_id) db.files;
          users = users ∙ ap (λ (d : Db). d.users) is_mid;
          notifications = left;
          unreferred = ground (
            arith,
            left,
            count-both (λ (row : Notification). row.order_id == some order_id)
                (map (cleared order_id) db.notifications) told,
            unreferred order_id db.notifications,
            is_told,
            unreferred_drafts q.new_id now order order_id mid.issued affected,
          );
          companies =
              ap (map notified) is_told
              ∙ told_companies q.new_id now order mid.issued affected
              ∙ ap (map to_company) (affected_in_play order_id db.offers);
        }
