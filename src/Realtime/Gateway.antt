-- ===== src/Realtime/Gateway.antt =====
-- backend/src/modules/realtime/order.gateway.ts: who comes into the sockets' rooms. A handler works on
-- what one socket keeps and on the rooms; the tables are those at the time of each of its queries.
pub mod Connection
pub mod Interleaving
pub mod Transitions
pub mod Subscriptions
pub mod Tests
use my_build.Base.{
  ℕ, ◌-◌, String, Bool, true, false, not, ◌&&◌, ◌||◌, List, [], ◌∷◌, Option, none, some, or_else,
  any, leb, ◌==◌, String_eq, option_beq, if◌then◌else◌,
}
use my_build.Errors.{Result}
use my_build.Shared.Enums.{Role, Role_eq}
use my_build.Shared.Offers.{is_active_offer}
use my_build.Store.Tables.{Db, Order, Offer}
use my_build.Common.Uuid.{is_uuid}
use my_build.Common.RateWindow.{RateWindowOptions, RateWindowResult, RateWindows, hit}
use my_build.Auth.{AuthUser, Verification, bearer_value, split_spaces, email_not_verified}
use my_build.Realtime.Events.{Room, SocketEvent, RealtimeMessage, RoomEviction}
use my_build.Realtime.Adapter.{Rooms}

pub record SubscribeAck : Type 0 where
  pub is_accepted : Bool
  pub error : Option String
  pub retryable : Bool

abbrev pub accepted : SubscribeAck
accepted = record { is_accepted = true; error = none; retryable = false }

abbrev pub refused : String → Bool → SubscribeAck
refused error retryable = record { is_accepted = false; error = some error; retryable = retryable }

abbrev pub order_forbidden : String
order_forbidden = "Заказ не найден"

abbrev pub feed_forbidden : String
feed_forbidden = "Лента заказов доступна только компаниям"

abbrev pub too_many_messages : String
too_many_messages = "Слишком много сообщений, попробуйте ещё раз"

abbrev pub subscribe_failed : String
subscribe_failed = "Не удалось подписаться на обновления"

abbrev pub no_token : String
no_token = "Требуется авторизация"

abbrev pub message_rate : RateWindowOptions
message_rate = record { limit = 30; ttl = 10000 }

-- The timer is the number of milliseconds after which it closes the socket.
pub record SocketData : Type 0 where
  pub user : Option AuthUser
  pub expires_at : Option ℕ
  pub expiry_timer : Option ℕ
  pub rate : Option RateWindows

-- A socket with the rooms of all of them.
pub record AppSocket (R : Type 0) : Type 0 where
  pub id : String
  pub data_of : SocketData
  pub is_connected : Bool
  pub rooms : R

-- What a handler answers, or null where it throws.
abbrev pub Handler : Type 0 → Type 0
Handler R = AppSocket R → Option SubscribeAck × AppSocket R

abbrev pub disconnect : {R : Type 0} → AppSocket R → AppSocket R
disconnect s = record s { is_connected = false }

abbrev pub is_offer_of : String → String → Offer → Bool
is_offer_of user_id order_id offer =
    offer.order_id == order_id && (offer.company_id == user_id && is_active_offer offer.status)

unfoldable pub is_order_participant : String → String → Db → Bool
is_order_participant user_id order_id db =
    any
      (λ (order : Order).
        order.id == order_id
        && (order.client_id == user_id || any (is_offer_of user_id order.id) db.offers))
      db.orders

-- The body's field, where it is a text.
unfoldable pub read_order_id : Option String → Option String
read_order_id none = none
read_order_id (some value) = if is_uuid value then some value else none

abbrev pub is_over : ℕ → Option ℕ → Bool
is_over now none = false
is_over now (some expires_at) = leb expires_at now

unfoldable pub active_user : {R : Type 0} → ℕ → AppSocket R → Option AuthUser × AppSocket R
active_user now s = elim s.data_of.user [
  | none ↦ (none, s)
  | some user ↦ if is_over now s.data_of.expires_at then (none, disconnect s) else (some user, s)
]

-- The user and the order of a subscription that the first check lets through.
unfoldable pub admitted : Option AuthUser → Option String → Db → Option (String × String)
unfolding is_order_participant
admitted none order_id db = none
admitted (some user) none db = none
admitted (some user) (some order_id) db =
    if is_order_participant user.id order_id db then some (user.id, order_id) else none

-- Whether the socket stays in the room that it has come into.
unfoldable pub settle : {R : Type 0} → Rooms R → String → String → Db → Handler R
unfolding is_order_participant
settle q user_id order_id db s =
    if is_order_participant user_id order_id db then (some accepted, s) else (
      some (refused order_forbidden false),
      record s { rooms = q.leave s.id (Room.of_order order_id) s.rooms },
    )

abbrev enter :
    {R : Type 0}
    → Rooms R
    → Db
    → Option (String × String)
    → AppSocket R
    → Option SubscribeAck × AppSocket R
enter q after none s = (some (refused order_forbidden false), s)
enter q after (some (user_id, order_id)) s = elim (q.join s.id (Room.of_order order_id) s.rooms) [
  | none ↦ (none, s)
  | some rooms ↦ settle q user_id order_id after (record s { rooms = rooms })
]

-- The tables are those before the entry and those after it.
unfoldable pub subscribe_order : {R : Type 0} → Rooms R → ℕ → Option String → Db → Db → Handler R
unfolding read_order_id active_user admitted settle
subscribe_order q now body before after s =
    let active = active_user now s in
    enter q after (admitted active.0 (read_order_id body) before) active.1

abbrev leave_order : {R : Type 0} → Rooms R → Option String → AppSocket R → AppSocket R
leave_order q none s = s
leave_order q (some order_id) s = record s { rooms = q.leave s.id (Room.of_order order_id) s.rooms }

unfoldable pub unsubscribe_order : {R : Type 0} → Rooms R → Option String → Handler R
unfolding read_order_id
unsubscribe_order q body s = (some accepted, leave_order q (read_order_id body) s)

abbrev pub is_of_company : Option AuthUser → Bool
is_of_company none = false
is_of_company (some user) = option_beq Role_eq user.role (some Role.company)

abbrev enter_feed : {R : Type 0} → Rooms R → Bool → AppSocket R → Option SubscribeAck × AppSocket R
enter_feed q false s = (some (refused feed_forbidden false), s)
enter_feed q true s = elim (q.join s.id Room.company_feed s.rooms) [
  | none ↦ (none, s)
  | some rooms ↦ (some accepted, record s { rooms = rooms })
]

unfoldable pub subscribe_feed : {R : Type 0} → Rooms R → ℕ → Handler R
unfolding active_user
subscribe_feed q now s =
    let active = active_user now s in enter_feed q (is_of_company active.0) active.1

unfoldable pub unsubscribe_feed : {R : Type 0} → Rooms R → Handler R
unsubscribe_feed q s = (some accepted, record s { rooms = q.leave s.id Room.company_feed s.rooms })
