-- ===== src/Files/Tests.antt =====
-- Uploads on their way, and the files of an order in work: the theorems at them.
use my_build.Base.{◌≡◌, refl, true, none, some, List, [], ◌∷◌, arith}
use my_build.Errors.{is_ok}
use my_build.Shared.Enums.{Role, FileOwnerType}
use my_build.Shared.Offers.{is_executor_offer}
use my_build.Orders.View.{to_order_detail}
use my_build.Orders.View.Tests.{in_work, sketch}
use my_build.Files.Quota.{StorageUsage, check_storage_quota, add_usage}
use my_build.Files.Quota.Bounds.{Judges, of_incoming, check_storage_quota-Judges}
use my_build.Files.Quota.Reservations.{Call, run, empty, IsExact, run-IsExact}
use my_build.Files.Access.{DocumentScope, assert_file_access, is_document}
use my_build.Files.Access.Laws.{readable, files-readable, is_document-readable}

abbrev calls : List Call
calls =
    Call.reserves "order" "client" 1000
    ∷ Call.reserves "other" "client" 500
    ∷ Call.releases 0
    ∷ Call.releases 0
    ∷ []

run-IsExact_example : IsExact (run empty calls)
run-IsExact_example = run-IsExact calls

abbrev taken : StorageUsage
taken = record { order = 52428000; client = 60000000; total = 100000000 }

check_storage_quota-Judges_example :
    Judges
      (add_usage taken (of_incoming 1000))
      (check_storage_quota (λ n. "") taken 1000 FileOwnerType.client)
check_storage_quota-Judges_example =
    check_storage_quota-Judges (λ n. "") taken 1000 FileOwnerType.client

files-readable_example :
    (to_order_detail in_work "winner").files ≡ readable in_work.row "winner" in_work.files
files-readable_example = files-readable in_work "winner"

abbrev scope : DocumentScope
scope = record { user_id = "winner"; owner_type = none; order_id = none }

documented : is_document scope in_work.row sketch ≡ true
unfolding is_document is_executor_offer
documented = refl

is_document-readable_example :
    is_ok (assert_file_access (some in_work.row) "winner" (some Role.company) FileOwnerType.client)
    ≡ true
is_document-readable_example =
    is_document-readable scope (some Role.company) in_work.row sketch (omega arith) (λ h. refl)
      documented
