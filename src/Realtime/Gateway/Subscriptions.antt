-- ===== src/Realtime/Gateway/Subscriptions.antt =====
-- Who is in an order's room after a subscription, and what is answered.
use my_build.Base.{
  ℕ, String, Bool, true, false, not, ◌&&◌, ◌≡◌, refl, Option, none, some, arith, leb, String_eq,
  if◌then◌else◌,
}
use text.Mathlib.TextEquality.{eq_iff}
use my_build.Store.Tables.{Db}
use my_build.Common.Uuid.{is_uuid}
use my_build.Auth.{AuthUser}
use my_build.Realtime.Events.{Room}
use my_build.Realtime.Adapter.{Rooms, IsLawful}
use my_build.Realtime.Gateway.{
  AppSocket, SubscribeAck, accepted, refused, order_forbidden, is_order_participant, read_order_id,
  active_user, admitted, settle, subscribe_order,
}

-- A time is before the end of a token, if it has one.
abbrev pub runs : ℕ → Option ℕ → Bool
runs now none = true
runs now (some expires_at) = not (leb expires_at now)

-- Whether a user may hear of an order: the token runs, the order's identifier is in form, and the user
-- takes part in the order before the entry and after it.
abbrev pub may_hear : Option AuthUser → Option ℕ → ℕ → String → Db → Db → Bool
may_hear none expires_at now order_id before after = false
may_hear (some user) expires_at now order_id before after =
    runs now expires_at
    && (is_uuid order_id
        && (is_order_participant user.id order_id before
            && is_order_participant user.id order_id after))

module _ {R : Type 0} (q : Rooms R) (lawful : IsLawful q) (s : AppSocket R) (order_id : String)
    (rooms : R) (out : q.is_in s.rooms s.id (Room.of_order order_id) ≡ false)
    (joined : q.join s.id (Room.of_order order_id) s.rooms ≡ some rooms) where
  abbrev Answered : Bool → Option SubscribeAck × AppSocket R → Type 0
  Answered may r =
      (q.is_in r.1.rooms s.id (Room.of_order order_id) ≡ may)
      × (r.0 ≡ some (if may then accepted else refused order_forbidden false))

  inside : q.is_in rooms s.id (Room.of_order order_id) ≡ true
  inside = ground (
    arith,
    lawful.is_in-join s.id s.id (Room.of_order order_id) (Room.of_order order_id) s.rooms rooms
        joined,
    eq_iff s.id s.id,
    eq_iff order_id order_id,
  )

  left : q.is_in (q.leave s.id (Room.of_order order_id) rooms) s.id (Room.of_order order_id) ≡ false
  left = ground (
    arith,
    lawful.is_in-leave s.id s.id (Room.of_order order_id) (Room.of_order order_id) rooms,
    eq_iff s.id s.id,
    eq_iff order_id order_id,
  )

  by_user :
      (now : ℕ) (before after : Db) (user : Option AuthUser) (expires_at : Option ℕ)
      → s.data_of.user ≡ user
      → s.data_of.expires_at ≡ expires_at
      → Answered
          (may_hear user expires_at now order_id before after)
          (subscribe_order q now (some order_id) before after s)
  unfolding subscribe_order read_order_id active_user admitted settle
  by_user now before after none expires_at e f = ground (arith, e, out)
  by_user now before after (some user) none e f = ground (arith, e, f, out, joined, inside, left)
  by_user now before after (some user) (some end) e f =
      ground (arith, e, f, out, joined, inside, left)

-- Where the rooms meet their laws, a socket that is not in an order's room and whose entry the library
-- carries out is in the room after a subscription, and is answered that it is accepted, exactly if it
-- has a user whose token runs, the identifier is in form, and the user takes part in the order both
-- before the entry and after it; else it is not in the room and is answered that there is no such order.
pub subscribe_order-may_hear :
    {R : Type 0} (q : Rooms R) (s : AppSocket R) (now : ℕ) (order_id : String) (before after : Db)
    (rooms : R)
    → IsLawful q
    → q.is_in s.rooms s.id (Room.of_order order_id) ≡ false
    → q.join s.id (Room.of_order order_id) s.rooms ≡ some rooms
    → let (answer, left) = subscribe_order q now (some order_id) before after s in
      let may = may_hear s.data_of.user s.data_of.expires_at now order_id before after in
      (q.is_in left.rooms s.id (Room.of_order order_id) ≡ may)
      × (answer ≡ some (if may then accepted else refused order_forbidden false))
subscribe_order-may_hear q s now order_id before after rooms lawful out joined =
    by_user q lawful s order_id rooms out joined now before after s.data_of.user
      s.data_of.expires_at refl refl
