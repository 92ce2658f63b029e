-- ===== src/Notifications/Page.antt =====
-- backend/src/modules/notifications/notifications.service.ts, list: a page of a user's notifications.
use my_build.Base.{
  ℕ, String, Bool, true, false, not, ◌&&◌, ◌||◌, map, take, drop, Option, none, some, nat_beq, ltb,
  ◌==◌, String_eq,
}
use my_build.Common.Pagination.{Paginated, page_request, to_page}
use my_build.Store.Tables.{Notification}
use my_build.Store.Queries.{Queries}
use my_build.Store.Tx.{Tx, ◌>>=◌, return, read}
use my_build.Realtime.Events.{NotificationDto, to_notification_dto}

-- No filter, or only the unread, or only the read.
abbrev pub meets_filter : Option Bool → Notification → Bool
meets_filter none row = true
meets_filter (some true) row = not row.is_read
meets_filter (some false) row = row.is_read

abbrev pub is_wanted : String → Option Bool → Notification → Bool
is_wanted user_id unread_only row = row.user_id == user_id && meets_filter unread_only row

-- `ORDER_BY`: the unread first, the newest first, then by the identifier.
abbrev pub unread_first : (String → String → Bool) → Notification → Notification → Bool
unread_first id_before a b =
    not a.is_read && b.is_read
    || (not a.is_read || b.is_read)
      && (ltb b.created_at a.created_at || nat_beq a.created_at b.created_at && id_before b.id a.id)

unfoldable pub list_notifications :
    Queries
    → (String → String → Bool)
    → String
    → Option Bool
    → Option ℕ
    → Option ℕ
    → Tx (Paginated NotificationDto)
unfolding page_request to_page
list_notifications q id_before user_id unread_only page page_size = do
  total ← read λ db. q.count_rows Notification (is_wanted user_id unread_only) db.notifications
  rows ← read λ db.
      let request = page_request page page_size in
      map to_notification_dto (
        take request.page_size (
          drop request.skip (
            q.find_sorted Notification (is_wanted user_id unread_only) (unread_first id_before)
              db.notifications)))
  return (to_page rows (page_request page page_size) total)
