-- ===== src/Files/Uploads/Callers.antt =====
-- The steps that the hand-ins of orders put into an insertion of files leave the files as they are.
use my_build.Base.{ℕ, String, ◌==◌, String_eq, [], ◌∷◌, Bool-cases, inl, inr, arith}
use my_build.Shared.Dates.{Date}
use my_build.Store.Queries.{list_queries}
use my_build.Store.Notices.{Draft, drop_superseded_notifications_lem, create_notifications}
use my_build.Orders.Workflow.{OpenSubmission, save_comment, notify, notify_files}
use my_build.Orders.Workflow.Inversion.{save_comment-inv}
use my_build.Files.Uploads.Insertion.{LeavesFiles}

-- `guard` and `onAttached` of `addFiles`.
pub save_comment-LeavesFiles :
    (new_id : ℕ → String) (order_id submission_id comment : String)
    → LeavesFiles (save_comment (list_queries new_id) order_id submission_id comment)
save_comment-LeavesFiles new_id order_id submission_id comment db after changed h =
    let (row, found, written) =
      save_comment-inv (list_queries new_id) 0 order_id submission_id comment db after changed h in
    elim (Bool-cases (row.comment == comment)) [
      | inl same ↦ ground (arith, written, same)
      | inr other ↦ ground (arith, written, other)
    ]

notify-LeavesFiles :
    (new_id : ℕ → String) (now : Date) (draft : Draft)
    → LeavesFiles (notify (list_queries new_id) now draft)
unfolding notify create_notifications
notify-LeavesFiles new_id now draft db after told h =
    ground (arith, h, drop_superseded_notifications_lem (list_queries new_id) (draft ∷ []) db)

pub notify_files-LeavesFiles :
    (new_id : ℕ → String) (now : Date) (order_id : String) (submission : OpenSubmission)
    → LeavesFiles (notify_files (list_queries new_id) now order_id submission)
unfolding notify_files
notify_files-LeavesFiles new_id now order_id submission = notify-LeavesFiles new_id now _
