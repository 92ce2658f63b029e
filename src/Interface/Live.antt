-- ===== src/Interface/Live.antt =====
-- frontend/src/lib/live-updates.ts: which events make a screen read its data again, and how a burst of
-- them comes to one reading.
use my_build.Base.{
  ℕ, ◌+◌, String, Bool, true, false, ◌||◌, List, [], ◌∷◌, Option, none, some, ◌==◌, String_eq,
  option_beq, if◌then◌else◌,
}
use my_build.Shared.Enums.{NotificationType}
use my_build.Realtime.Events.{SocketEvent, Payload}

abbrev pub order_detail_events : List SocketEvent
order_detail_events =
    SocketEvent.order_status_changed ∷ SocketEvent.offer_created ∷ SocketEvent.offer_updated
    ∷ SocketEvent.offer_status_changed ∷ SocketEvent.order_files_updated
    ∷ SocketEvent.order_area_verified ∷ SocketEvent.notification_created ∷ []

abbrev pub orders_list_events : List SocketEvent
orders_list_events = SocketEvent.order_status_changed ∷ []

abbrev pub company_offers_events : List SocketEvent
company_offers_events = SocketEvent.offer_status_changed ∷ SocketEvent.notification_created ∷ []

abbrev pub company_feed_events : List SocketEvent
company_feed_events =
    SocketEvent.order_created ∷ SocketEvent.order_status_changed ∷ SocketEvent.notification_created
    ∷ []

abbrev pub documents_events : List SocketEvent
documents_events = SocketEvent.order_files_updated ∷ SocketEvent.offer_status_changed ∷ []

abbrev pub notifications_events : List SocketEvent
notifications_events = SocketEvent.notification_created ∷ []

-- Of a payload of the server; that of a notification has no order of its own.
abbrev pub text_of_order : String → Option String
text_of_order order_id = if order_id == "" then none else some order_id

unfoldable pub event_order_id : Payload → Option String
event_order_id (Payload.about_order order_id) = text_of_order order_id
event_order_id (Payload.about_offer order_id offer_id) = text_of_order order_id
event_order_id (Payload.about_notification notification) = none

abbrev pub is_deletion : NotificationType → Bool
is_deletion NotificationType.order_deleted = true
is_deletion _ = false

unfoldable pub is_order_deleted : Payload → Bool
is_order_deleted (Payload.about_notification notification) = is_deletion notification.type
is_order_deleted _ = false

unfoldable pub accepts_order_detail_event : String → Payload → Bool
unfolding event_order_id is_order_deleted
accepts_order_detail_event order_id payload =
    option_beq String_eq (event_order_id payload) (some order_id) || is_order_deleted payload

abbrev pub burst_delay_ms : ℕ
burst_delay_ms = 150

-- The moment at which the timer runs out, and how often the reading was run.
pub record Burst : Type 0 where
  pub timer : Option ℕ
  pub runs : ℕ

unfoldable pub schedule : ℕ → ℕ → Burst → Burst
schedule delay now burst = elim burst.timer [
  | none ↦ record burst { timer = some (now + delay) }
  | some moment ↦ burst
]

unfoldable pub cancel : Burst → Burst
cancel burst = record burst { timer = none }

-- The timer's own call.
unfoldable pub fire : Burst → Burst
fire burst = elim burst.timer [
  | none ↦ burst
  | some moment ↦ record { timer = none; runs = burst.runs + 1 }
]
