-- ===== src/Orders/Workflow.antt =====
-- backend/src/modules/orders/order-workflow.service.ts: the hand-ins of a deal, inside the transactions
-- of the service. The text of an area comes from the platform's printer of numbers, and is a parameter.
pub mod Counts
pub mod Spec
pub mod Taken
pub mod Kept
pub mod Refinement
pub mod Tests
pub mod Inversion
pub mod Numbered
use my_build.Base.{
  ℕ, suc, String, ◌<>◌, decimal, Bool, true, false, not, ◌&&◌, List, [], ◌∷◌, ◌++◌, Option, none,
  some, nat_beq, ltb, ◌==◌, String_eq, Option_eq, ℕ_eq,
}
use my_build.Errors.{HttpError, conflict, not_found, refuse, or_throw}
use my_build.Shared.Enums.{FileOwnerType, FileOwnerType_eq, NotificationType}
use my_build.Shared.Dates.{Date}
use my_build.Shared.Labels.{notification_type_labels}
use my_build.Shared.Orders.{can_upload_work, can_verify_area}
use my_build.Store.Tables.{Db, Order, OrderSubmission, OrderFile, Notification}
use my_build.Store.Queries.{Queries}
use my_build.Store.Tx.{Tx, ◌>>=◌, ◌>>◌, return, throw, lift, read, write}
use my_build.Store.Notices.{Draft, drop_superseded_notifications, create_notifications}
use my_build.Orders.Notification.{OrderRef, order_ref, order_files_key, order_area_key}
use my_build.Orders.Transition.Types.{OrderTransitionCommand, AppliedTransition}
use my_build.Orders.Transition.Write.{update_order}
use my_build.Orders.Transition.{lock_order, run}

abbrev pub upload_forbidden : HttpError
upload_forbidden = conflict "Файлы сдачи добавляются, только пока заказ в работе или на доработке"

abbrev pub nothing_to_submit : HttpError
nothing_to_submit = conflict "Нечего сдавать: сначала загрузите файлы работы с комментарием"

abbrev pub submission_already_sent : HttpError
submission_already_sent =
    conflict "Эта сдача уже отправлена клиенту: файлы добавляются в следующую сдачу"

abbrev pub area_forbidden : HttpError
area_forbidden =
    conflict "Площадь уточняется только по заказу в работе, на проверке или на доработке"

pub record OpenSubmission : Type 0 where
  pub id : String
  pub round : ℕ
  pub order : Order

abbrev pub is_null {ℓ} : {A : Type ℓ} → Option A → Bool
is_null none = true
is_null (some a) = false

abbrev pub of_order : String → OrderSubmission → Bool
of_order order_id row = row.order_id == order_id

abbrev pub is_open_of : String → OrderSubmission → Bool
is_open_of order_id row = row.order_id == order_id && is_null row.submitted_at

-- `(last?.round ?? 0) + 1`.
abbrev pub next_round : Option OrderSubmission → ℕ
next_round none = 1
next_round (some last) = suc last.round

abbrev pub is_work_of : String → ℕ → OrderFile → Bool
is_work_of order_id round row =
    row.order_id == order_id
    && (row.owner_type == FileOwnerType.company && nat_beq row.submission_round round)

abbrev pub order_ref_of : Order → OrderRef
order_ref_of order = record { order_number = order.order_number; title = order.title }

module _ (q : Queries) where
  unfoldable pub find_open_submission : String → Tx (Option OrderSubmission)
  find_open_submission order_id =
      read λ db.
        q.find_greatest OrderSubmission (is_open_of order_id) (λ row. row.round) db.submissions

  -- `orderSubmission.update`, which throws where no row has the identifier.
  unfoldable pub update_submission : String → (OrderSubmission → OrderSubmission) → Tx (Unit {0})
  update_submission id f = do
    found ← read λ db. q.find_first OrderSubmission (λ row. row.id == id) db.submissions
    row ← lift (or_throw found (not_found "OrderSubmission"))
    write λ db. record db {
      submissions = q.update_many OrderSubmission (λ row. row.id == id) f db.submissions;
    }

  abbrev pub submission_row : Date → String → String → ℕ → String → OrderSubmission
  submission_row now id order_id round comment = record {
    id = id;
    order_id = order_id;
    round = round;
    comment = comment;
    submitted_at = none;
    created_at = now;
  }

  unfoldable pub create_submission : Date → String → ℕ → String → Tx OrderSubmission
  create_submission now order_id round comment = do
    row ← read λ db. submission_row now (q.new_id db.issued) order_id round comment
    write λ db. record db { submissions = db.submissions ++ row ∷ []; issued = suc db.issued }
    return row

  unfoldable pub open_or_create :
      Date → String → String → Order → Option OrderSubmission → Tx OpenSubmission
  unfolding create_submission
  open_or_create now order_id comment order (some current) =
      return (record { id = current.id; round = current.round; order = order })
  open_or_create now order_id comment order none = do
    last ←
        read λ db.
          q.find_greatest OrderSubmission (of_order order_id) (λ row. row.round) db.submissions
    created ← create_submission now order_id (next_round last) comment
    return (record { id = created.id; round = created.round; order = order })

  unfoldable pub open_submission : Date → String → String → Tx OpenSubmission
  unfolding lock_order find_open_submission open_or_create
  open_submission now order_id comment = do
    order ← lock_order q order_id
    lift (refuse (not (can_upload_work order.status)) upload_forbidden)
    current ← find_open_submission order_id
    open_or_create now order_id comment order current

  unfoldable pub assert_submission_open : String → String → Tx OrderSubmission
  unfolding lock_order
  assert_submission_open order_id submission_id = do
    order ← lock_order q order_id
    lift (refuse (not (can_upload_work order.status)) upload_forbidden)
    found ← read λ db.
        q.find_first OrderSubmission (λ row. row.id == submission_id && is_null row.submitted_at)
          db.submissions
    lift (or_throw found submission_already_sent)

  -- The comment is written to an open hand-in, and the answer is whether it has changed.
  unfoldable pub write_comment : String → String → OrderSubmission → Tx Bool
  unfolding update_submission
  write_comment submission_id comment current = if_same (current.comment == comment)
    where
      if_same : Bool → Tx Bool
      if_same true = return false
      if_same false = do
        update_submission submission_id (λ row. record row { comment = comment })
        return true

  unfoldable pub save_comment : String → String → String → Tx Bool
  unfolding assert_submission_open write_comment
  save_comment order_id submission_id comment = do
    current ← assert_submission_open order_id submission_id
    write_comment submission_id comment current

  -- What closes the hand-in, after the transition.
  unfoldable pub close_submission : Date → String → Option OrderSubmission → Tx (Unit {0})
  unfolding update_submission
  close_submission now order_id none = throw nothing_to_submit
  close_submission now order_id (some current) = do
    files ← read λ db. q.count_rows OrderFile (is_work_of order_id current.round) db.files
    lift (refuse (nat_beq files 0) nothing_to_submit)
    update_submission current.id (λ row. record row { submitted_at = some now })

  unfoldable pub submit_open : Date → String → Option OrderSubmission → Tx AppliedTransition
  unfolding close_submission
  submit_open now order_id current = do
    transition ← run q now (OrderTransitionCommand.work_submitted order_id)
    close_submission now order_id current
    return transition

  -- `submitWork`, its transaction: the transition and the hand-in are one commit.
  unfoldable pub submit_work_in : Date → String → Tx AppliedTransition
  unfolding lock_order find_open_submission submit_open
  submit_work_in now order_id = do
    order ← lock_order q order_id
    current ← find_open_submission order_id
    submit_open now order_id current

  -- The notification of an action that keeps the order's status.
  abbrev pub order_draft : NotificationType → String → String → Order → String → Draft
  order_draft type key order_id order text = record {
    user_id = order.client_id;
    type = type;
    order_id = some order_id;
    title = notification_type_labels type;
    body = order_ref (order_ref_of order) <> text;
    collapse_key = some key;
  }

  unfoldable pub notify : Date → Draft → Tx (List Notification)
  notify now draft = do
    drop_superseded_notifications q (draft ∷ [])
    create_notifications q now (draft ∷ [])

  -- `onAttached` of `addFiles`.
  unfoldable pub notify_files : Date → String → OpenSubmission → Tx (List Notification)
  unfolding notify
  notify_files now order_id submission = notify now (
      order_draft NotificationType.files_updated (order_files_key order_id) order_id
        submission.order
        (": исполнитель добавил файлы (сдача №" <> decimal submission.round <> ")"))

  unfoldable pub write_area :
      Date → (ℕ → String) → String → ℕ → Order → Tx (Option (String × List Notification))
  unfolding notify update_order
  write_area now area_text order_id area order = if_same (order.verified_square_meters == some area)
    where
      if_same : Bool → Tx (Option (String × List Notification))
      if_same true = return none
      if_same false = do
        updated ←
            update_order q now order_id
              (λ row. record row { verified_square_meters = some area; updated_at = now })
        notifications ← notify now (
            order_draft NotificationType.area_verified (order_area_key order_id) order_id order
              (": исполнитель уточнил площадь — " <> area_text area <> " м²"))
        return (some (order.client_id, notifications))

  -- `verifyArea`, its transaction: the client to tell, and the notification, or nothing where the area
  -- is the one that is written already.
  unfoldable pub verify_area_in :
      Date → (ℕ → String) → String → ℕ → Tx (Option (String × List Notification))
  unfolding lock_order write_area
  verify_area_in now area_text order_id area = do
    order ← lock_order q order_id
    lift (refuse (not (can_verify_area order.status)) area_forbidden)
    write_area now area_text order_id area order
