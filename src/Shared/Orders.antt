-- ===== src/Shared/Orders.antt =====
-- shared/src/orders.ts: in which statuses an order may be deleted, take files of a submission, and
-- have its area corrected.
use my_build.Base.{Bool, List, [], ◌∷◌, includes}
use my_build.Shared.Enums.{OrderStatus, OrderStatus_eq}

abbrev pub deletable_order_statuses : List OrderStatus
deletable_order_statuses = OrderStatus.waiting ∷ OrderStatus.awaiting_confirmation ∷ []

unfoldable pub can_delete_order : OrderStatus → Bool
can_delete_order status = includes deletable_order_statuses status

abbrev pub work_upload_order_statuses : List OrderStatus
work_upload_order_statuses = OrderStatus.in_progress ∷ OrderStatus.completion_disputed ∷ []

abbrev pub area_verifiable_order_statuses : List OrderStatus
area_verifiable_order_statuses =
    OrderStatus.in_progress ∷ OrderStatus.awaiting_completion_confirmation
    ∷ OrderStatus.completion_disputed ∷ []

unfoldable pub can_upload_work : OrderStatus → Bool
can_upload_work status = includes work_upload_order_statuses status

unfoldable pub can_verify_area : OrderStatus → Bool
can_verify_area status = includes area_verifiable_order_statuses status
