-- ===== src/Realtime/Gateway/Connection.antt =====
-- backend/src/modules/realtime/order.gateway.ts: the connection of a socket, the wrapper of its
-- messages, and what leaves through the gateway.
use my_build.Base.{
  ℕ, ◌-◌, String, Bool, true, false, not, ◌&&◌, List, [], ◌∷◌, Option, none, some, or_else, any,
  ◌==◌, String_eq, if◌then◌else◌,
}
use my_build.Common.RateWindow.{RateWindows, hit}
use my_build.Auth.{Verification, bearer_value, split_spaces, email_not_verified}
use my_build.Realtime.Events.{Room, SocketEvent, RealtimeMessage, RoomEviction}
use my_build.Realtime.Adapter.{Rooms}
use my_build.Realtime.Gateway.{
  SubscribeAck, refused, too_many_messages, subscribe_failed, no_token, message_rate, SocketData,
  AppSocket, Handler, disconnect,
}

abbrev pub clear_expiry : SocketData → SocketData
clear_expiry data_of = record data_of { expiry_timer = none }

-- `Math.max(expiresAt - Date.now(), 0)`.
abbrev pub timer_of : ℕ → Option ℕ → Option ℕ
timer_of now none = none
timer_of now (some expires_at) = some (expires_at - now)

abbrev pub schedule_expiry : ℕ → SocketData → SocketData
schedule_expiry now data_of = record data_of { expiry_timer = timer_of now data_of.expires_at }

abbrev pub with_data : {R : Type 0} → AppSocket R → SocketData → AppSocket R
with_data s data_of = record s { data_of = data_of }

unfoldable pub handle_connection : {R : Type 0} → Rooms R → ℕ → AppSocket R → AppSocket R
handle_connection q now s = elim s.data_of.user [
  | none ↦ disconnect s
  | some user ↦ elim (q.join s.id (Room.of_user user.id) s.rooms) [
    | none ↦ disconnect (with_data s (clear_expiry (schedule_expiry now s.data_of)))
    | some rooms ↦ record (with_data s (schedule_expiry now s.data_of)) { rooms = rooms }
  ]
]

unfoldable pub handle_disconnect : {R : Type 0} → AppSocket R → AppSocket R
handle_disconnect s = with_data s (clear_expiry s.data_of)

-- The token of the handshake (null where it is not a text), or that of the header.
unfoldable pub read_handshake_token : Option String → Option String → Option String
unfolding split_spaces
read_handshake_token from_auth header =
    let from_header = bearer_value (split_spaces (or_else header "")) in
    elim from_auth [
      | none ↦ from_header
      | some token ↦ if token == "" then from_header else some token
    ]

-- What the socket keeps of a valid token, or the message of the refused connection.
pub data Authenticated : Type 0 where
  entered : SocketData → Authenticated
  rejected : String → Authenticated

abbrev authenticated_by : Verification → SocketData → Authenticated
authenticated_by (Verification.verified user expires_at) data_of =
    if not user.email_verified
    then rejected email_not_verified
    else entered (record data_of { user = some user; expires_at = expires_at })
authenticated_by (Verification.invalid message) data_of = rejected message
authenticated_by Verification.broken data_of = rejected no_token

unfoldable pub authenticate :
    (String → Verification) → Option String → Option String → SocketData → Authenticated
unfolding read_handshake_token
authenticate verify from_auth header data_of = elim (read_handshake_token from_auth header) [
  | none ↦ rejected no_token
  | some token ↦ authenticated_by (verify token) data_of
]

abbrev pub new_windows : RateWindows
new_windows = record { windows = []; next_sweep_at = 0 }

-- A message that is refused does not reach its handler, and one that throws is answered.
abbrev acknowledged : {R : Type 0} → Option SubscribeAck × AppSocket R → SubscribeAck × AppSocket R
acknowledged (none, s) = (refused subscribe_failed true, s)
acknowledged (some ack, s) = (ack, s)

unfoldable pub handle :
    {R : Type 0} → ℕ → String → Handler R → AppSocket R → SubscribeAck × AppSocket R
handle now message run s =
    let allowed = hit (or_else s.data_of.rate new_windows) message message_rate now in
    let counted = with_data s (record s.data_of { rate = some allowed.0 }) in
    if not allowed.1.allowed
    then (refused too_many_messages true, counted)
    else acknowledged (run counted)

-- Whether a message leaves out the socket that acted.
abbrev pub spares : RealtimeMessage → Option String → String → Bool
spares message none socket = false
spares message (some actor) socket = elim message.event [
  | SocketEvent.notification_created ↦ false
  | SocketEvent.order_created ↦ actor == socket
  | SocketEvent.order_status_changed ↦ actor == socket
  | SocketEvent.offer_created ↦ actor == socket
  | SocketEvent.offer_updated ↦ actor == socket
  | SocketEvent.offer_status_changed ↦ actor == socket
  | SocketEvent.order_files_updated ↦ actor == socket
  | SocketEvent.order_area_verified ↦ actor == socket
]

-- `emit`: which of the messages a socket gets, each once.
unfoldable pub received :
    {R : Type 0}
    → Rooms R
    → R
    → Option String
    → List RealtimeMessage
    → String
    → List RealtimeMessage
received q rooms actor [] socket = []
received q rooms actor (message ∷ messages) socket =
    let rest = received q rooms actor messages socket in
    if any (q.is_in rooms socket) message.rooms && not (spares message actor socket)
    then message ∷ rest
    else rest

unfoldable pub evict : {R : Type 0} → Rooms R → List RoomEviction → R → R
evict q [] rooms = rooms
evict q (eviction ∷ evictions) rooms =
    evict q evictions (q.sockets_leave eviction.members eviction.room rooms)
