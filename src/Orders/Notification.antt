-- ===== src/Orders/Notification.antt =====
-- backend/src/modules/orders/order-notification.ts: how an order is named in a notification, and the
-- keys by which a newer notification replaces an unread one.
use my_build.Base.{ℕ, String, ◌<>◌}
use my_build.Shared.Labels.{format_order_number}

pub record OrderRef : Type 0 where
  pub order_number : ℕ
  pub title : String

unfoldable pub order_ref : OrderRef → String
unfolding format_order_number
order_ref order = format_order_number order.order_number <> " «" <> order.title <> "»"

-- `notificationKeys.offer`, `.orderFiles` and `.orderArea`.
unfoldable pub offer_key : String → String
offer_key offer_id = "offer:" <> offer_id

unfoldable pub order_files_key : String → String
order_files_key order_id = "files:" <> order_id

unfoldable pub order_area_key : String → String
order_area_key order_id = "area:" <> order_id
