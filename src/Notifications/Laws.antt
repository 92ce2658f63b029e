-- ===== src/Notifications/Laws.antt =====
-- Marking notifications as read, and counting them.
use my_build.Base.{
  ℕ, ◌≡◌, refl, subst, String, false, List, [], ◌∷◌, arith, count, keep, ◌==◌, String_eq,
}
use my_build.Errors.{ok, err, not_found}
use my_build.Store.Tables.{Db, Notification}
use my_build.Store.Queries.{Queries, IsLawful, list_queries, IsLawful-list_queries, update_where}
use my_build.Notifications.{is_unread_of, is_named, as_read, unread_count, mark_read, mark_all_read}

none_unread :
    (user_id : String) (rows : List Notification)
    → count (is_unread_of user_id) (update_where Notification (is_unread_of user_id) as_read rows)
      ≡ 0
none_unread user_id [] = refl
none_unread user_id (r ∷ rows) = ground (arith, none_unread user_id rows)

others_unread :
    (user_id other : String) (rows : List Notification)
    → (user_id == other) ≡ false
    → count (is_unread_of other) (update_where Notification (is_unread_of user_id) as_read rows)
      ≡ count (is_unread_of other) rows
others_unread user_id other [] h = refl
others_unread user_id other (r ∷ rows) h = ground (
  arith,
  others_unread user_id other rows h,
  String_eq.same_iff r.user_id user_id,
  String_eq.same_iff r.user_id other,
  String_eq.same_iff user_id other,
)

-- On tables that meet the laws, marking all as read answers how many were unread, leaves none unread,
-- and changes the count of nobody else.
pub mark_all_read-unread_count :
    (q : Queries) (user_id other : String) (db : Db)
    → IsLawful q
    → (user_id == other) ≡ false
    → (marked : ℕ) × (after : Db) × (mark_all_read q user_id db ≡ ok (marked, after))
      × (unread_count q user_id db ≡ ok (marked, db))
      × (unread_count q user_id after ≡ ok (0, after))
      × (unread_count q other after ≡ ok (count (is_unread_of other) db.notifications, after))
unfolding mark_all_read unread_count
mark_all_read-unread_count q user_id other db lawful h =
    subst Claim (IsLawful-list_queries q lawful) on_lists
  where
    Claim : Queries → Type 0
    Claim p =
        (marked : ℕ) × (after : Db) × (mark_all_read p user_id db ≡ ok (marked, after))
        × (unread_count p user_id db ≡ ok (marked, db))
        × (unread_count p user_id after ≡ ok (0, after))
        × (unread_count p other after ≡ ok (count (is_unread_of other) db.notifications, after))

    after : Db
    after = record db {
      notifications = update_where Notification (is_unread_of user_id) as_read db.notifications;
    }

    on_lists : Claim (list_queries q.new_id)
    on_lists = (
      count (is_unread_of user_id) db.notifications,
      after,
      refl,
      refl,
      (λ i. ok (none_unread user_id db.notifications i, after)),
      (λ i. ok (others_unread user_id other db.notifications h i, after)),
    )

keep_none :
    (user_id notification_id : String) (rows : List Notification)
    → count (is_named user_id notification_id) rows ≡ 0
    → keep (is_named user_id notification_id) rows ≡ []
keep_none user_id notification_id [] h = refl
keep_none user_id notification_id (r ∷ rows) h =
    ground (arith, keep_none user_id notification_id rows)

-- On tables that meet the laws, a notification that is not the user's own is answered as one that does
-- not exist.
pub mark_read-foreign :
    (q : Queries) (user_id notification_id : String) (db : Db)
    → IsLawful q
    → count (is_named user_id notification_id) db.notifications ≡ 0
    → mark_read q user_id notification_id db ≡ err (not_found "Уведомление не найдено")
unfolding mark_read
mark_read-foreign q user_id notification_id db lawful h =
    subst Claim (IsLawful-list_queries q lawful) on_lists
  where
    Claim : Queries → Type 0
    Claim p = mark_read p user_id notification_id db ≡ err (not_found "Уведомление не найдено")

    on_lists : Claim (list_queries q.new_id)
    on_lists = ground (arith, keep_none user_id notification_id db.notifications h)
