-- ===== src/Realtime/Gateway/Interleaving.antt =====
-- Subscriptions to orders' rooms while the tables change: each await of a handler is a step of its own, so
-- that a transaction and its evictions come in between.
use my_build.Base.{
  String, Bool, true, false, ◌&&◌, ◌||◌, ◌≡◌, refl, List, [], ◌∷◌, ◌++◌, Option, none, some, any,
  arith, ◌==◌, String_eq, if◌then◌else◌,
}
use text.Mathlib.TextEquality.{eq_iff}
use my_build.Store.Tables.{Db}
use my_build.Realtime.Events.{Room, RoomEviction}
use my_build.Realtime.Adapter.{Rooms, IsLawful, same_room, same_room-eq}
use my_build.Realtime.Gateway.{is_order_participant}

-- The tables, the rooms, the subscriptions behind their first check, those that have come into the
-- room and wait for the second one, and the evictions of what is committed that are not carried out yet.
-- A subscription is its socket and its order.
pub record World (R : Type 0) : Type 0 where
  pub db : Db
  pub rooms : R
  pub checked : List (String × String)
  pub inside : List (String × String)
  pub pending : List RoomEviction

pub data Event : Type 0 where
  begins joins rechecks leaves : String → String → Event
  commits : Db → List RoomEviction → Event
  evicts : Event

abbrev pub is_pair : String → String → String × String → Bool
is_pair socket order_id p = p.0 == socket && p.1 == order_id

unfoldable pub drop_pair : String → String → List (String × String) → List (String × String)
drop_pair socket order_id [] = []
drop_pair socket order_id (p ∷ pairs) =
    let rest = drop_pair socket order_id pairs in
    if is_pair socket order_id p then pairs else p ∷ rest

-- An eviction that takes a participant's sockets out of the order's room: by the room of the
-- participant, or by the order's own.
abbrev pub reaches : String → String → RoomEviction → Bool
reaches user_id order_id e =
    same_room e.room (Room.of_order order_id)
    && (same_room e.members (Room.of_user user_id) || same_room e.members (Room.of_order order_id))

abbrev pub is_elsewhere : RoomEviction → Bool
is_elsewhere e = elim e.room [
  | Room.of_user user_id ↦ true
  | Room.of_order order_id ↦ false
  | Room.company_feed ↦ true
]

module _ {R : Type 0} (q : Rooms R) (user_of : String → Option String) where
  unfoldable pub came : World R → String → String → Option R → World R
  came w socket order_id none = record w { checked = drop_pair socket order_id w.checked }
  came w socket order_id (some rooms) = record w {
    rooms = rooms;
    checked = drop_pair socket order_id w.checked;
    inside = (socket, order_id) ∷ w.inside;
  }

  unfoldable pub begun : World R → String → String → Option String → World R
  begun w socket order_id none = w
  begun w socket order_id (some user_id) =
      if is_order_participant user_id order_id w.db
      then record w { checked = (socket, order_id) ∷ w.checked }
      else w

  unfoldable pub rechecked : World R → String → String → Option String → World R
  rechecked w socket order_id none = w
  rechecked w socket order_id (some user_id) = record w {
    inside = drop_pair socket order_id w.inside;
    rooms =
        if is_order_participant user_id order_id w.db
        then w.rooms
        else q.leave socket (Room.of_order order_id) w.rooms;
  }

  unfoldable pub evicted : World R → List RoomEviction → World R
  evicted w [] = w
  evicted w (e ∷ pending) = record w {
    rooms = q.sockets_leave e.members e.room w.rooms;
    pending = pending;
  }

  unfoldable pub step : World R → Event → World R
  unfolding begun came rechecked evicted
  step w (begins socket order_id) = begun w socket order_id (user_of socket)
  step w (joins socket order_id) =
      if any (is_pair socket order_id) w.checked
      then came w socket order_id (q.join socket (Room.of_order order_id) w.rooms)
      else w
  step w (rechecks socket order_id) =
      if any (is_pair socket order_id) w.inside
      then rechecked w socket order_id (user_of socket)
      else w
  step w (leaves socket order_id) = record w {
    rooms = q.leave socket (Room.of_order order_id) w.rooms;
  }
  step w (commits db evictions) = record w { db = db; pending = w.pending ++ evictions }
  step w evicts = evicted w w.pending

  unfoldable pub steps : World R → List Event → World R
  unfolding step
  steps w [] = w
  steps w (e ∷ events) = steps (step w e) events

  -- Whoever stops being a participant by what is committed is reached by its evictions, and they are
  -- of orders' rooms.
  abbrev pub Tells : World R → Event → Type 0
  Tells w (commits db evictions) =
      ((user_id order_id : String)
        → is_order_participant user_id order_id w.db ≡ true
        → is_order_participant user_id order_id db ≡ false
        → any (reaches user_id order_id) evictions ≡ true)
      × (any is_elsewhere evictions ≡ false)
  Tells w _ = Unit

  abbrev pub AllTell : World R → List Event → Type 0
  AllTell w [] = Unit
  AllTell w (e ∷ events) = Tells w e × AllTell (step w e) events

  -- A socket in the room of an order is a participant's, or it has its second check before it, or an
  -- eviction is on its way.
  abbrev pub Guarded : World R → Type 0
  Guarded w =
      (socket user_id order_id : String)
      → user_of socket ≡ some user_id
      → q.is_in w.rooms socket (Room.of_order order_id) ≡ true
      → (is_order_participant user_id order_id w.db
          || (any (is_pair socket order_id) w.inside || any (reaches user_id order_id) w.pending))
        ≡ true

  abbrev pub AtHome : World R → Type 0
  AtHome w =
      (socket user_id : String)
      → user_of socket ≡ some user_id
      → q.is_in w.rooms socket (Room.of_user user_id) ≡ true

  abbrev pub Inv : World R → Type 0
  Inv w = Guarded w × AtHome w × (any is_elsewhere w.pending ≡ false)

any-append {ℓ} :
    {A : Type ℓ} (p : A → Bool) (xs ys : List A) → any p (xs ++ ys) ≡ any p xs || any p ys
any-append p [] ys = refl
any-append p (x ∷ xs) ys = ground (arith, any-append p xs ys)

drop_pair-others :
    (socket order_id other there : String) (pairs : List (String × String))
    → any (is_pair other there) (drop_pair socket order_id pairs) ≡ false
    → any (is_pair other there) pairs ≡ true
    → (socket == other && order_id == there) ≡ true
unfolding drop_pair
drop_pair-others socket order_id other there [] dropped present = cc
drop_pair-others socket order_id other there (p ∷ pairs) dropped present = ground (
  arith,
  drop_pair-others socket order_id other there pairs,
  eq_iff p.0 socket,
  eq_iff p.1 order_id,
  eq_iff p.0 other,
  eq_iff p.1 there,
  eq_iff socket other,
  eq_iff order_id there,
)

elsewhere-user :
    (e : RoomEviction) (user_id : String)
    → is_elsewhere e ≡ false
    → same_room e.room (Room.of_user user_id) ≡ false
elsewhere-user e user_id = by_room e.room
  where
    by_room :
        (room : Room)
        → is_elsewhere (record e { room = room }) ≡ false
        → same_room room (Room.of_user user_id) ≡ false
    by_room (Room.of_user a) h = cc
    by_room (Room.of_order a) h = refl
    by_room Room.company_feed h = refl

module _ {R : Type 0} (q : Rooms R) (user_of : String → Option String) (lawful : IsLawful q)
    (w : World R) (inv : Inv q user_of w) where
  begun-Inv :
      (socket order_id : String) (user : Option String)
      → Inv q user_of (begun q user_of w socket order_id user)
  unfolding begun
  begun-Inv socket order_id none = inv
  begun-Inv socket order_id (some user_id) = by_check (is_order_participant user_id order_id w.db)
    where
      by_check :
          (found : Bool)
          → Inv q user_of
              (if found then record w { checked = (socket, order_id) ∷ w.checked } else w)
      by_check true = inv
      by_check false = inv

  came-Inv :
      (socket order_id : String) (answer : Option R)
      → q.join socket (Room.of_order order_id) w.rooms ≡ answer
      → Inv q user_of (came q user_of w socket order_id answer)
  unfolding came
  came-Inv socket order_id none e = inv
  came-Inv socket order_id (some rooms) e = (
    λ other user_id there known present. ground (
      arith,
      inv.0 other user_id there known,
      lawful.is_in-join socket other (Room.of_order order_id) (Room.of_order there) w.rooms rooms e,
      present,
    ),
    λ other user_id known. ground (
      arith,
      inv.1 other user_id known,
      lawful.is_in-join socket other (Room.of_order order_id) (Room.of_user user_id) w.rooms rooms
          e,
    ),
    inv.2,
  )

  rechecked-Inv :
      (socket order_id : String) (user : Option String)
      → user_of socket ≡ user
      → Inv q user_of (rechecked q user_of w socket order_id user)
  unfolding rechecked
  rechecked-Inv socket order_id none e = inv
  rechecked-Inv socket order_id (some user_id) e =
      by_check (is_order_participant user_id order_id w.db) refl
    where
      left : R
      left = q.leave socket (Room.of_order order_id) w.rooms

      by_check :
          (found : Bool)
          → is_order_participant user_id order_id w.db ≡ found
          → Inv q user_of (record w {
            inside = drop_pair socket order_id w.inside;
            rooms = if found then w.rooms else left;
          })
      by_check true f = (
        λ other someone there known present. ground (
          arith,
          inv.0 other someone there known present,
          drop_pair-others socket order_id other there w.inside,
          eq_iff socket other,
          eq_iff order_id there,
          f,
          e,
          known,
        ),
        inv.1,
        inv.2,
      )
      by_check false f = (
        λ other someone there known present. ground (
          arith,
          inv.0 other someone there known,
          lawful.is_in-leave socket other (Room.of_order order_id) (Room.of_order there) w.rooms,
          drop_pair-others socket order_id other there w.inside,
          present,
        ),
        λ other someone known. ground (
          arith,
          inv.1 other someone known,
          lawful.is_in-leave socket other (Room.of_order order_id) (Room.of_user someone) w.rooms,
        ),
        inv.2,
      )

  leaves-Inv :
      (socket order_id : String) → Inv q user_of (step q user_of w (leaves socket order_id))
  unfolding step
  leaves-Inv socket order_id = (
    λ other user_id there known present. ground (
      arith,
      inv.0 other user_id there known,
      lawful.is_in-leave socket other (Room.of_order order_id) (Room.of_order there) w.rooms,
      present,
    ),
    λ other user_id known. ground (
      arith,
      inv.1 other user_id known,
      lawful.is_in-leave socket other (Room.of_order order_id) (Room.of_user user_id) w.rooms,
    ),
    inv.2,
  )

  commits-Inv :
      (db : Db) (evictions : List RoomEviction)
      → Tells q user_of w (commits db evictions)
      → Inv q user_of (step q user_of w (commits db evictions))
  unfolding step
  commits-Inv db evictions (reached, orders) = (
    λ other user_id there known present. ground (
      arith,
      inv.0 other user_id there known present,
      reached user_id there,
      any-append (reaches user_id there) w.pending evictions,
    ),
    inv.1,
    ground (arith, inv.2, orders, any-append is_elsewhere w.pending evictions),
  )

  evicted-Inv :
      (pending : List RoomEviction)
      → w.pending ≡ pending
      → Inv q user_of (evicted q user_of w pending)
  unfolding evicted
  evicted-Inv [] e = inv
  evicted-Inv (eviction ∷ pending) e = (
    λ other user_id there known present. ground (
      arith,
      inv.0 other user_id there known,
      inv.1 other user_id known,
      lawful.is_in-sockets_leave eviction.members eviction.room (Room.of_order there) other w.rooms,
      same_room-eq eviction.members (Room.of_order there),
      same_room-eq eviction.members (Room.of_user user_id),
      e,
      present,
    ),
    λ other user_id known. ground (
      arith,
      inv.1 other user_id known,
      lawful.is_in-sockets_leave eviction.members eviction.room (Room.of_user user_id) other
          w.rooms,
      elsewhere-user eviction user_id,
      inv.2,
      e,
    ),
    ground (arith, inv.2, e),
  )

  step-Inv : (e : Event) → Tells q user_of w e → Inv q user_of (step q user_of w e)
  unfolding step
  step-Inv (begins socket order_id) told = begun-Inv socket order_id (user_of socket)
  step-Inv (joins socket order_id) told = by_check (any (is_pair socket order_id) w.checked)
    where
      by_check :
          (found : Bool)
          → Inv q user_of (
              if found
              then came q user_of w socket order_id (q.join socket (Room.of_order order_id) w.rooms)
              else w)
      by_check true = came-Inv socket order_id _ refl
      by_check false = inv
  step-Inv (rechecks socket order_id) told = by_check (any (is_pair socket order_id) w.inside)
    where
      by_check :
          (found : Bool)
          → Inv q user_of
              (if found then rechecked q user_of w socket order_id (user_of socket) else w)
      by_check true = rechecked-Inv socket order_id _ refl
      by_check false = inv
  step-Inv (leaves socket order_id) told = leaves-Inv socket order_id
  step-Inv (commits db evictions) told = commits-Inv db evictions told
  step-Inv evicts told = evicted-Inv _ refl

steps-Inv :
    {R : Type 0} (q : Rooms R) (user_of : String → Option String) (events : List Event)
    (w : World R)
    → IsLawful q
    → Inv q user_of w
    → AllTell q user_of w events
    → Inv q user_of (steps q user_of w events)
unfolding steps
steps-Inv q user_of [] w lawful inv told = inv
steps-Inv q user_of (e ∷ events) w lawful inv (told, rest) =
    steps-Inv q user_of events (step q user_of w e) lawful (step-Inv q user_of lawful w inv e told)
      rest

-- On rooms that meet the laws, from a state that meets the invariant and by any interleaving of
-- subscriptions, departures, transactions and evictions in which each transaction has an eviction for whoever
-- stops being a participant by it: once no second check and no eviction is outstanding, a socket
-- that is in an order's room is one of a participant of the order.
pub steps-participants :
    {R : Type 0} (q : Rooms R) (user_of : String → Option String) (events : List Event)
    (w : World R) (socket user_id order_id : String)
    → IsLawful q
    → Inv q user_of w
    → AllTell q user_of w events
    → (steps q user_of w events).inside ≡ []
    → (steps q user_of w events).pending ≡ []
    → user_of socket ≡ some user_id
    → q.is_in (steps q user_of w events).rooms socket (Room.of_order order_id) ≡ true
    → is_order_participant user_id order_id (steps q user_of w events).db ≡ true
steps-participants q user_of events w socket user_id order_id lawful inv told settled quiet known
      present =
    ground (
      arith,
      (steps-Inv q user_of events w lawful inv told).0 socket user_id order_id known present,
      settled,
      quiet,
    )
