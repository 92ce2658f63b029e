-- ===== src/Orders/Transition/Replaced.antt =====
-- Which notifications the ones of a transition replace.
use my_build.Base.{
  ℕ, suc, ◌≡◌, refl, inl, inr, String, Bool, false, not, ◌&&◌, ◌||◌, List, [], ◌∷◌, ◌++◌, keep,
  Option, none, some, Option-cases, arith, ◌==◌, String_eq, Option_eq,
}
use my_build.Errors.{ok}
use my_build.Shared.Dates.{Date}
use my_build.Store.Tables.{Db, Order, Notification}
use my_build.Store.Queries.{list_queries, rows_except}
use my_build.Store.Notices.{
  Draft, keyed, superseded, drop_keys, drop_superseded_notifications, create_notifications,
  notification_rows,
}
use my_build.Orders.Transition.Collect.{Collected, group_offer_ids_by_status}
use my_build.Orders.Transition.Write.{Written, write_collected, update_groups}

none_superseded : (rows : List Notification) → rows ≡ rows_except Notification (superseded []) rows
none_superseded [] = refl
none_superseded (r ∷ rows) = ground (arith, none_superseded rows)

-- The tables without the notifications that drafts replace.
abbrev pub without_superseded : List Draft → Db → Db
without_superseded drafts db = record db {
  notifications = rows_except Notification (superseded (keyed drafts)) db.notifications;
}

module _ (new_id : ℕ → String) where
  drop_by_keys :
      (keys : List (String × String)) (db : Db)
      → drop_keys (list_queries new_id) keys db
        ≡ ok (
          tt,
          record db { notifications = rows_except Notification (superseded keys) db.notifications },
        )
  unfolding drop_keys
  drop_by_keys [] db =
      λ i. ok (tt, record db { notifications = none_superseded db.notifications i })
  drop_by_keys (k ∷ keys) db = refl

  dropped :
      (drafts : List Draft) (db : Db)
      → drop_superseded_notifications (list_queries new_id) drafts db
        ≡ ok (tt, without_superseded drafts db)
  unfolding drop_superseded_notifications
  dropped drafts db = drop_by_keys (keyed drafts) db

  pub written_told :
      (now : Date) (order_id : String) (collected : Collected) (db after : Db) (written : Written)
      → write_collected (list_queries new_id) now order_id collected db ≡ ok (written, after)
      → (after.notifications
          ≡ (without_superseded collected.notifications_to_create db).notifications
            ++ written.notifications)
        × (written.notifications
            ≡ notification_rows
                (list_queries new_id)
                now
                db.issued
                collected.notifications_to_create)
  unfolding write_collected create_notifications
  written_told now order_id collected db after written h =
      let lists = list_queries new_id in
      elim (Option-cases (
        lists.find_first Order (λ row. row.id == order_id)
          (lists.update_many Order (λ row. row.id == order_id) collected.order_data db.orders))) [
            | inl e ↦ absurd (ground (arith, h, e))
            | inr (order, e) ↦ ground (
              arith,
              h,
              e,
              dropped collected.notifications_to_create (record db {
                offers =
                    update_groups lists now (group_offer_ids_by_status collected.offer_updates)
                      db.offers;
                orders =
                    lists.update_many Order (λ row. row.id == order_id) collected.order_data
                      db.orders;
              }),
            )
          ]

pub rows_except-keep :
    {A : Type 0} (p r : A → Bool) (xs : List A)
    → ((x : A) → p x ≡ r x)
    → rows_except A p xs ≡ keep (λ x. not (r x)) xs
rows_except-keep p r [] same = refl
rows_except-keep p r (x ∷ xs) same = ground (arith, same x, rows_except-keep p r xs same)

-- Whether a notification is about the same thing as another, by a key that is not empty.
abbrev pub same_thing : Option String → Option String → Bool
same_thing none old = false
same_thing (some key) old = not (key == "") && old == some key

-- An unread notification of a user who is told the same thing anew.
abbrev pub replaced : List Notification → Notification → Bool
replaced [] row = false
replaced (new ∷ told) row =
    (not row.is_read && row.user_id == new.user_id && same_thing new.collapse_key row.collapse_key)
    || replaced told row

pub superseded-replaced :
    (new_id : ℕ → String) (now : Date) (issued : ℕ) (drafts : List Draft) (row : Notification)
    → superseded (keyed drafts) row
      ≡ replaced (notification_rows (list_queries new_id) now issued drafts) row
superseded-replaced new_id now issued [] row = ground arith
superseded-replaced new_id now issued (draft ∷ drafts) row =
    ground (arith, superseded-replaced new_id now (suc issued) drafts row)
