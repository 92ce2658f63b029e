-- ===== src/Files/Uploads/Tests.antt =====
-- A company adds a file to the hand-in that is open, beside one that is there already.
use my_build.Base.{ℕ, ◌≡◌, refl, String, Bool, Option, List, [], ◌∷◌, arith}
use my_build.Errors.{ok, ok_of}
use my_build.Shared.Enums.{FileOwnerType}
use my_build.Shared.Dates.{day_ms}
use my_build.Shared.Orders.{can_upload_work}
use my_build.Common.Uuid.{is_uuid}
use my_build.Store.Tables.{OrderFile, Notification, Db}
use my_build.Store.Queries.{list_queries}
use my_build.Store.Notices.{drop_superseded_notifications, create_notifications}
use my_build.Orders.Notification.{order_files_key}
use my_build.Orders.Transition.{lock_order}
use my_build.Orders.Transition.Tests.{order_id}
use my_build.Orders.Workflow.{
  OpenSubmission, save_comment, assert_submission_open, write_comment, notify, notify_files,
}
use my_build.Orders.Workflow.Tests.{submission_id, in_work, with_draft}
use my_build.Files.Quota.{check_storage_quota}
use my_build.Files.Uploads.{
  PreparedFile, sum_sizes, refuse_over_quota, build_storage_key, insert_skipping, client_of,
  read_storage_usage, assert_storage_quota, create_files, attached, insert_in,
}
use my_build.Files.Uploads.Rows.{NoDuplicates, insert_skipping-NoDuplicates}
use my_build.Files.Uploads.Callers.{save_comment-LeavesFiles, notify_files-LeavesFiles}
use my_build.Files.Uploads.Insertion.{Inserted, insert_in-Inserted}

abbrev new_id : ℕ → String
new_id n = "00000000-0000-4000-8000-00000000000c"

abbrev in_megabytes : ℕ → String
in_megabytes n = "1"

abbrev sketch : PreparedFile
sketch = record {
  original_name = "sketch.pdf";
  safe_name = "sketch.pdf";
  mime_type = "application/pdf";
  size_bytes = 2;
  file_hash = "another hash";
}

-- What another upload commits in between: a file of another order.
abbrev others_file : OrderFile
others_file = record {
  id = "others";
  order_id = "another order";
  storage_key = "key";
  owner_type = FileOwnerType.company;
  submission_round = 1;
  file_hash = "hash";
  original_name = "plan.pdf";
  mime_type = "application/pdf";
  size_bytes = 5;
  created_at = 0;
}

abbrev another_upload : Db → Db
another_upload d = record d { files = (insert_skipping (others_file ∷ []) d.files).1 }

abbrev opened : OpenSubmission
opened = record { id = submission_id; round = 1; order = in_work }

once : NoDuplicates with_draft.files
once order_id round hash = ground arith

inserted :
    (r : (List OrderFile × Bool × Option (List Notification)) × Db) × (insert_in
        (list_queries new_id)
        in_megabytes
        day_ms
        order_id
        FileOwnerType.company
        1
        another_upload
        (save_comment (list_queries new_id) order_id submission_id "исправлено")
        (λ rows. notify_files (list_queries new_id) day_ms order_id opened)
        (sketch ∷ [])
        with_draft
      ≡ ok r)
unfolding insert_in save_comment assert_submission_open write_comment lock_order is_uuid
    can_upload_work assert_storage_quota read_storage_usage client_of check_storage_quota
    refuse_over_quota sum_sizes create_files insert_skipping build_storage_key attached notify_files
    notify drop_superseded_notifications create_notifications order_files_key
inserted =
    ok_of
      (insert_in (list_queries new_id) in_megabytes day_ms order_id FileOwnerType.company 1
        another_upload (save_comment (list_queries new_id) order_id submission_id "исправлено")
        (λ rows. notify_files (list_queries new_id) day_ms order_id opened) (sketch ∷ [])
        with_draft)
      refl

insert_in-Inserted_example :
    Inserted order_id 1 another_upload (sketch ∷ []) with_draft inserted.0.1
insert_in-Inserted_example =
    insert_in-Inserted new_id in_megabytes day_ms order_id FileOwnerType.company 1 another_upload
      (save_comment (list_queries new_id) order_id submission_id "исправлено")
      (λ rows. notify_files (list_queries new_id) day_ms order_id opened) (sketch ∷ []) with_draft
      inserted.0.1 inserted.0.0
      (save_comment-LeavesFiles new_id order_id submission_id "исправлено")
      (λ rows. notify_files-LeavesFiles new_id day_ms order_id opened)
      (λ d. insert_skipping-NoDuplicates (others_file ∷ []) d.files) once inserted.1
