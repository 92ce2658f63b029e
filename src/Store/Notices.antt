-- ===== src/Store/Notices.antt =====
-- backend/src/modules/orders/order-notification.ts and the calls of `createManyAndReturn`: how
-- notifications are replaced and written.
use my_build.Base.{
  ◌≡◌, refl, ℕ, suc, ◌+◌, String, Bool, false, not, ◌&&◌, List, [], ◌∷◌, ◌++◌, Option, none, some,
  any, length, ◌==◌, String_eq, Option_eq, if◌then◌else◌,
}
use my_build.Errors.{ok}
use my_build.Shared.Enums.{NotificationType}
use my_build.Shared.Dates.{Date}
use my_build.Store.Tables.{Db, Notification}
use my_build.Store.Queries.{Queries}
use my_build.Store.Tx.{Tx, return, write}

-- The data of a notification that is to be written.
pub record Draft : Type 0 where
  pub user_id : String
  pub type : NotificationType
  pub order_id : Option String
  pub title : String
  pub body : String
  pub collapse_key : Option String

-- `collapseKey ? … : []`: null and the empty text are dropped.
abbrev pub keyed : List Draft → List (String × String)
keyed [] = []
keyed (draft ∷ drafts) =
    let rest = keyed drafts in
    elim draft.collapse_key [
      | none ↦ rest
      | some key ↦ if key == "" then rest else (draft.user_id, key) ∷ rest
    ]

-- Unread, and of one of the keyed users with that user's key.
abbrev pub superseded : List (String × String) → Notification → Bool
superseded keys row =
    not row.is_read
    && any (λ (k : String × String). row.user_id == k.0 && row.collapse_key == some k.1) keys

module _ (q : Queries) where
  unfoldable pub drop_keys : List (String × String) → Tx (Unit {0})
  drop_keys [] = return tt
  drop_keys (k ∷ keys) = write λ db. record db {
    notifications = q.delete_many Notification (superseded (k ∷ keys)) db.notifications;
  }

  unfoldable pub drop_superseded_notifications : List Draft → Tx (Unit {0})
  unfolding drop_keys
  drop_superseded_notifications drafts = drop_keys (keyed drafts)

  -- The row of a draft: unread, under a new identifier.
  abbrev pub notification_row : Date → ℕ → Draft → Notification
  notification_row now issued draft = record {
    id = q.new_id issued;
    user_id = draft.user_id;
    type = draft.type;
    order_id = draft.order_id;
    title = draft.title;
    body = some draft.body;
    is_read = false;
    collapse_key = draft.collapse_key;
    created_at = now;
  }

  abbrev pub notification_rows : Date → ℕ → List Draft → List Notification
  notification_rows now issued [] = []
  notification_rows now issued (draft ∷ drafts) =
      notification_row now issued draft ∷ notification_rows now (suc issued) drafts

  unfoldable pub create_notifications : Date → List Draft → Tx (List Notification)
  create_notifications now drafts db =
      let rows = notification_rows now db.issued drafts in
      ok (
        rows,
        record db { notifications = db.notifications ++ rows; issued = db.issued + length drafts },
      )

  -- Replacing notifications touches no other table, and never fails.
  pub drop_superseded_notifications_lem :
      (drafts : List Draft) (db : Db)
      → (rows : List Notification) × (drop_superseded_notifications drafts db
          ≡ ok (tt, record db { notifications = rows }))
  unfolding drop_superseded_notifications
  drop_superseded_notifications_lem drafts db = go (keyed drafts)
    where
      go :
          (keys : List (String × String))
          → (rows : List Notification) × (drop_keys keys db
              ≡ ok (tt, record db { notifications = rows }))
      go [] = (db.notifications, refl)
      go (k ∷ keys) = (q.delete_many Notification (superseded (k ∷ keys)) db.notifications, refl)
