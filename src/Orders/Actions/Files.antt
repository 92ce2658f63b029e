-- ===== src/Orders/Actions/Files.antt =====
-- backend/src/modules/orders/order-workflow.service.ts, addFiles, and backend/src/modules/orders/
-- orders.service.ts, create and remove: the routes that put objects into the storage of files or take
-- them out. The files of a request are read and hashed by `prepareUploads`, whose answer is an argument.
use my_build.Base.{
  ℕ, String, Bool, not, ◌||◌, List, [], ◌∷◌, Option, none, some, ◌==◌, String_eq, if◌then◌else◌,
}
use my_build.Errors.{Result, ok, err, refuse}
use my_build.Shared.Enums.{OrderStatus, FileOwnerType}
use my_build.Shared.Dates.{Date}
use my_build.Shared.Orders.{can_upload_work, can_delete_order}
use my_build.Store.Tables.{Db, Order, Notification}
use my_build.Store.Queries.{Queries}
use my_build.Store.Tx as Tables
use my_build.Store.Tx.{Tx, write}
use my_build.Realtime.Actions.{
  Action, ◌>>=◌, ◌>>◌, return, lift, commit, look, attempt, order_created, order_files_updated,
  order_deleted,
}
use my_build.Files.Quota.Reservations.{StorageReservations}
use my_build.Files.Uploads.{PreparedFile, list_storage_keys}
use my_build.Files.Attach.{Attached, attach_files, remove_objects, is_empty}
use my_build.Orders.View.{OrderDetail}
use my_build.Orders.Detail.{get_detail}
use my_build.Orders.Workflow.{
  OpenSubmission, open_submission, save_comment, notify_files, upload_forbidden,
}
use my_build.Orders.Service.{CreateOrderDto, create_order, delete_with_notices, order_not_deletable}

-- `created.notification ? [created.notification] : []`.
abbrev pub notices_of : Option (Bool × Option (List Notification)) → List Notification
notices_of none = []
notices_of (some (changed, none)) = []
notices_of (some (changed, some notifications)) = notifications

module _ (q : Queries) (id_before : String → String → Bool) (to_megabytes : ℕ → String)
    (keeps : String → Bool) (meanwhile : Db → Db) (now : Date) where
  -- `created.commentChanged ??= …`: where no file was new, the comment is all that changes.
  unfoldable pub comment_changed :
      String → OpenSubmission → String → Option (Bool × Option (List Notification)) → Action Bool
  comment_changed order_id submission comment (some (changed, notifications)) = return changed
  comment_changed order_id submission comment none =
      commit (save_comment q order_id submission.id comment)

  unfoldable pub tell_files :
      String → OpenSubmission → Attached Bool (List Notification) → Bool → Action (Unit {0})
  unfolding order_files_updated
  tell_files order_id submission added changed =
      if not (is_empty added.files) || changed
      then order_files_updated order_id submission.order.client_id (notices_of added.written)
      else return tt

  unfoldable pub add_files :
      StorageReservations
      → String
      → OrderStatus
      → String
      → String
      → Result (List PreparedFile)
      → Action OrderDetail
  unfolding open_submission attach_files comment_changed tell_files
  add_files reservations order_id status company_id comment prepared = do
    lift (refuse (not (can_upload_work status)) upload_forbidden)
    files ← lift prepared
    submission ← commit (open_submission q now order_id comment)
    added ←
        attach_files q to_megabytes keeps meanwhile now reservations order_id FileOwnerType.company
          submission.round (save_comment q order_id submission.id comment)
          (λ rows. notify_files q now order_id submission) files
    changed ← comment_changed order_id submission comment added.written
    tell_files order_id submission added changed
    look (get_detail q id_before order_id company_id)

  -- `order.delete`, after files that were refused.
  abbrev pub roll_back : String → Tx (Unit {0})
  roll_back order_id =
      write λ db. record db { orders = q.delete_many Order (λ row. row.id == order_id) db.orders }

  -- The files of a new order are all of its round 0, and the caller of the insertion checks nothing more.
  unfoldable pub attach_to_new :
      StorageReservations → String → List PreparedFile → Action (Unit {0})
  unfolding attach_files
  attach_to_new reservations order_id [] = return tt
  attach_to_new reservations order_id (file ∷ files) = do
    done ← attempt (
        attach_files q to_megabytes keeps meanwhile now reservations order_id FileOwnerType.client 0
          (Tables.return (tt {0})) (λ rows. Tables.return (tt {0})) (file ∷ files))
    elim done [ ok attached ↦ return tt | err e ↦ do commit (roll_back order_id); lift (err e) ]

  unfoldable pub create :
      StorageReservations
      → ℕ
      → String
      → CreateOrderDto
      → Result (List PreparedFile)
      → Action OrderDetail
  unfolding create_order attach_to_new order_created
  create reservations order_number client_id dto prepared = do
    files ← lift prepared
    order ← commit (create_order q now order_number client_id dto)
    attach_to_new reservations order.id files
    order_created order.id
    look (get_detail q id_before order.id client_id)

  -- The status is that of the guard's snapshot; the deletion checks it again.
  unfoldable pub remove : String → OrderStatus → Action (Unit {0})
  unfolding list_storage_keys delete_with_notices order_deleted remove_objects
  remove order_id status = do
    lift (refuse (not (can_delete_order status)) order_not_deletable)
    keys ← look (list_storage_keys q order_id)
    notifications ← commit (delete_with_notices q now order_id)
    order_deleted order_id notifications
    remove_objects keys
