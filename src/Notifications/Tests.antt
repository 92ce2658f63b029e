-- ===== src/Notifications/Tests.antt =====
-- Two notifications of one user, marked as read.
use my_build.Base.{ℕ, ◌≡◌, refl, false, none, [], ◌∷◌, count}
use my_build.Errors.{ok}
use my_build.Shared.Enums.{NotificationType}
use my_build.Store.Tables.{Db, Notification}
use my_build.Store.Queries.{list_queries-IsLawful}
use my_build.Orders.Transition.Tests.{order_id, numbered, tables}
use my_build.Notifications.{is_unread_of, unread_count, mark_all_read}
use my_build.Notifications.Laws.{mark_all_read-unread_count}

abbrev told : Notification
told = record {
  id = order_id;
  user_id = "client";
  type = NotificationType.offer_received;
  order_id = none;
  title = "";
  body = none;
  is_read = false;
  collapse_key = none;
  created_at = 0;
}

abbrev mailbox : Db
mailbox = record tables { notifications = told ∷ record told { id = "2" } ∷ [] }

mark_all_read-unread_count_example :
    (marked : ℕ) × (after : Db) × (mark_all_read numbered "client" mailbox ≡ ok (marked, after))
    × (unread_count numbered "client" mailbox ≡ ok (marked, mailbox))
    × (unread_count numbered "client" after ≡ ok (0, after))
    × (unread_count numbered "company" after
        ≡ ok (count (is_unread_of "company") mailbox.notifications, after))
mark_all_read-unread_count_example =
    mark_all_read-unread_count numbered "client" "company" mailbox
      (list_queries-IsLawful (λ n. "notification")) refl
