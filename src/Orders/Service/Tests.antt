-- ===== src/Orders/Service/Tests.antt =====
-- An order with two offers whose client deletes it, and a search by its number.
use my_build.Base.{◌≡◌, refl, some, List, arith, decimal}
use my_build.Errors.{ok, ok_of}
use my_build.Shared.Dates.{day_ms}
use my_build.Shared.Labels.{format_order_number}
use my_build.Shared.OrderNumber.{parse_order_number}
use my_build.Shared.OrderNumber.RoundTrip.{parse-format}
use my_build.Common.Uuid.{is_uuid}
use my_build.Store.Tables.{Notification, Db}
use my_build.Store.Queries.{list_queries-IsLawful}
use my_build.Store.Notices.{create_notifications}
use my_build.Orders.Transition.{lock_order}
use my_build.Orders.Transition.Tests.{order_id, numbered, tables}
use my_build.Orders.Service.{delete_order, delete_locked, delete_with_notices}
use my_build.Orders.Service.Deletion.{Deleted, delete_with_notices-Deleted}

deleted :
    (r : List Notification × Db) × (delete_with_notices numbered day_ms order_id tables ≡ ok r)
unfolding delete_with_notices delete_locked delete_order lock_order is_uuid create_notifications
deleted = ok_of (delete_with_notices numbered day_ms order_id tables) refl

delete_with_notices-Deleted_example : Deleted order_id tables deleted.0.1 deleted.0.0
delete_with_notices-Deleted_example =
    delete_with_notices-Deleted numbered day_ms order_id tables deleted.0.1 deleted.0.0
      (list_queries-IsLawful (λ n. "notification")) (omega arith) deleted.1

parse-format_example :
    (parse_order_number (format_order_number 7829) ≡ some 7829)
    × (parse_order_number (decimal 7829) ≡ some 7829)
parse-format_example = parse-format 7829
