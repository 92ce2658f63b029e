-- ===== src/Notifications.antt =====
-- backend/src/modules/notifications/notifications.service.ts: a user's notifications, counted and marked
-- as read.
pub mod Laws
pub mod Page
pub mod Tests
use my_build.Base.{
  ℕ, String, Bool, true, not, ◌&&◌, List, [], ◌∷◌, map, Option, none, some, ◌==◌, String_eq,
}
use my_build.Errors.{not_found}
use my_build.Common.Uuid.{is_uuid}
use my_build.Errors.{refuse, or_throw}
use my_build.Store.Tables.{Db, Notification}
use my_build.Store.Queries.{Queries}
use my_build.Store.Tx.{Tx, ◌>>=◌, ◌>>◌, return, lift, read, write}
use my_build.Realtime.Events.{NotificationDto, to_notification_dto}

abbrev pub is_unread_of : String → Notification → Bool
is_unread_of user_id row = row.user_id == user_id && not row.is_read

abbrev pub is_named : String → String → Notification → Bool
is_named user_id notification_id row = row.id == notification_id && row.user_id == user_id

abbrev pub as_read : Notification → Notification
as_read row = record row { is_read = true }

abbrev pub first_of {ℓ} : {A : Type ℓ} → List A → Option A
first_of [] = none
first_of (x ∷ xs) = some x

module _ (q : Queries) where
  unfoldable pub unread_count : String → Tx ℕ
  unread_count user_id =
      read λ db. q.count_rows Notification (is_unread_of user_id) db.notifications

  -- `updateManyAndReturn`: the rows that met the condition, as they are after the change.
  unfoldable pub mark_read : String → String → Tx NotificationDto
  mark_read user_id notification_id = do
    lift (refuse (not (is_uuid notification_id)) (not_found "Уведомление не найдено"))
    rows ← read λ db.
        map as_read (q.find_many Notification (is_named user_id notification_id) db.notifications)
    write λ db. record db {
      notifications =
          q.update_many Notification (is_named user_id notification_id) as_read db.notifications;
    }
    row ← lift (or_throw (first_of rows) (not_found "Уведомление не найдено"))
    return (to_notification_dto row)

  unfoldable pub mark_all_read : String → Tx ℕ
  mark_all_read user_id = do
    marked ← read λ db. q.count_rows Notification (is_unread_of user_id) db.notifications
    write λ db. record db {
      notifications = q.update_many Notification (is_unread_of user_id) as_read db.notifications;
    }
    return marked
