-- ===== src/Realtime/Events.antt =====
-- backend/src/modules/realtime/realtime-events.ts and the names of shared/src/realtime.ts: the messages
-- of an action and the members that leave a room before they are sent.
pub mod Laws
pub mod Evictions
pub mod Tests
use my_build.Base.{
  String, ◌<>◌, Bool, true, false, not, List, [], ◌∷◌, ◌++◌, map, Option, none, some, keep, ◌==◌,
  ◌!=◌, if◌then◌else◌,
}
use my_build.Shared.Enums.{OrderStatus, OrderStatus_eq, NotificationType}
use my_build.Shared.Offers.{accepts_offers, is_active_offer}
use my_build.Shared.Dates.{to_iso_string}
use my_build.Store.Tables.{Notification}
use my_build.Orders.Transition.Types.{AppliedTransition, OfferStatusUpdate}

-- A room, by what its name is made of.
pub data Room : Type 0 where
  of_user of_order : String → Room
  company_feed : Room

abbrev pub room_name : Room → String
room_name (Room.of_user user_id) = "user:" <> user_id
room_name (Room.of_order order_id) = "order:" <> order_id
room_name Room.company_feed = "company-feed"

pub data SocketEvent : Type 0 where
  order_created order_status_changed offer_created offer_updated offer_status_changed : SocketEvent
  order_files_updated order_area_verified notification_created : SocketEvent

abbrev pub event_name : SocketEvent → String
event_name SocketEvent.order_created = "order:created"
event_name SocketEvent.order_status_changed = "order:status_changed"
event_name SocketEvent.offer_created = "offer:created"
event_name SocketEvent.offer_updated = "offer:updated"
event_name SocketEvent.offer_status_changed = "offer:status_changed"
event_name SocketEvent.order_files_updated = "order:files_updated"
event_name SocketEvent.order_area_verified = "order:area_verified"
event_name SocketEvent.notification_created = "notification:created"

-- backend/src/modules/notifications/notification-view.ts.
pub record NotificationDto : Type 0 where
  pub id : String
  pub type : NotificationType
  pub order_id : Option String
  pub title : String
  pub body : Option String
  pub is_read : Bool
  pub created_at : String

abbrev pub to_notification_dto : Notification → NotificationDto
to_notification_dto row = record {
  id = row.id;
  type = row.type;
  order_id = row.order_id;
  title = row.title;
  body = row.body;
  is_read = row.is_read;
  created_at = to_iso_string row.created_at;
}

pub data Payload : Type 0 where
  about_order : String → Payload
  about_offer : String → String → Payload
  about_notification : NotificationDto → Payload

pub record RealtimeMessage : Type 0 where
  pub rooms : List Room
  pub event : SocketEvent
  pub payload : Payload

pub record RoomEviction : Type 0 where
  pub members : Room
  pub room : Room

pub record RealtimeBroadcast : Type 0 where
  pub evictions : List RoomEviction
  pub messages : List RealtimeMessage

abbrev pub notification_message : Notification → RealtimeMessage
notification_message n = record {
  rooms = Room.of_user n.user_id ∷ [];
  event = SocketEvent.notification_created;
  payload = Payload.about_notification (to_notification_dto n);
}

unfoldable pub order_created_broadcast : String → RealtimeBroadcast
order_created_broadcast order_id = record {
  evictions = [];
  messages =
      (record {
        rooms = Room.company_feed ∷ [];
        event = SocketEvent.order_created;
        payload = Payload.about_order order_id;
      })
      ∷ [];
}

abbrev pub offer_message : AppliedTransition → Option SocketEvent → List RealtimeMessage
offer_message applied none = []
offer_message applied (some event) =
    (record {
      rooms = Room.of_user applied.order.client_id ∷ Room.of_user applied.company_id ∷ [];
      event = event;
      payload = Payload.about_offer applied.order.id applied.offer_id;
    })
    ∷ []

-- `!==` of two Booleans.
abbrev pub differ : Bool → Bool → Bool
differ true b = not b
differ false b = b

-- The feed hears of an order that comes into the search for a company or leaves it.
abbrev pub feed_rooms : AppliedTransition → List Room
feed_rooms applied =
    if differ (accepts_offers applied.from_status) (accepts_offers applied.next_status)
    then Room.company_feed ∷ []
    else []

abbrev pub status_message : AppliedTransition → List RealtimeMessage
status_message applied =
    if applied.from_status != applied.next_status
    then (record {
      rooms =
          Room.of_order applied.order.id
          ∷ Room.of_user applied.order.client_id
          ∷ feed_rooms applied;
      event = SocketEvent.order_status_changed;
      payload = Payload.about_order applied.order.id;
    })
      ∷ []
    else []

abbrev pub update_message : AppliedTransition → OfferStatusUpdate → RealtimeMessage
update_message applied update = record {
  rooms = Room.of_user applied.order.client_id ∷ Room.of_user update.company_id ∷ [];
  event = SocketEvent.offer_status_changed;
  payload = Payload.about_offer applied.order.id update.offer_id;
}

abbrev pub eviction : AppliedTransition → OfferStatusUpdate → RoomEviction
eviction applied update = record {
  members = Room.of_user update.company_id;
  room = Room.of_order applied.order.id;
}

abbrev pub left_play : OfferStatusUpdate → Bool
left_play update = not (is_active_offer update.status)

unfoldable pub transition_broadcast : AppliedTransition → Option SocketEvent → RealtimeBroadcast
transition_broadcast applied offer_event = record {
  evictions = map (eviction applied) (keep left_play applied.offer_updates);
  messages =
      offer_message applied offer_event
      ++ (status_message applied
          ++ (map (update_message applied) applied.offer_updates
              ++ map notification_message applied.notifications));
}

-- `event` is one of the two of an order that keeps its status.
unfoldable pub order_update_broadcast :
    SocketEvent → String → String → List Notification → RealtimeBroadcast
order_update_broadcast event order_id client_id notifications = record {
  evictions = [];
  messages =
      (record {
        rooms = Room.of_order order_id ∷ Room.of_user client_id ∷ [];
        event = event;
        payload = Payload.about_order order_id;
      })
      ∷ map notification_message notifications;
}

unfoldable pub order_deleted_broadcast : String → List Notification → RealtimeBroadcast
order_deleted_broadcast order_id notifications = record {
  evictions = (record { members = Room.of_order order_id; room = Room.of_order order_id }) ∷ [];
  messages =
      (record {
        rooms = Room.company_feed ∷ [];
        event = SocketEvent.order_status_changed;
        payload = Payload.about_order order_id;
      })
      ∷ map notification_message notifications;
}
