-- ===== src/Realtime/Gateway/Tests.antt =====
-- Two companies that subscribe to an order while the client chooses one of them.
use my_build.Base.{
  String, Bool, true, false, ◌&&◌, ◌||◌, ◌≡◌, refl, ap, or_else, List, [], ◌∷◌, Option, none, some,
  any, arith, ◌==◌, String_eq, if◌then◌else◌,
}
use text.Mathlib.TextEquality.{eq_iff}
use my_build.Shared.Offers.{is_active_offer}
use my_build.Store.Tables.{Db}
use my_build.Shared.Dates.{day_ms, to_iso_string, utc_calendar_date, is_offer_expired}
use my_build.Shared.State.{can_transition}
use my_build.Common.Uuid.{is_uuid}
use my_build.Store.Queries.{list_queries-IsLawful}
use my_build.Store.Notices.{drop_superseded_notifications, create_notifications}
use my_build.Orders.Notification.{offer_key}
use my_build.Orders.Machine.Handlers.{handler_for, offer_accepted}
use my_build.Orders.Machine.{transition, past_deadline, seen_otherwise}
use my_build.Orders.Transition.{
  lock_order, resolve_offer, build_event, conclude, decide_on, run_locked, run,
}
use my_build.Orders.Transition.Write.{apply_effects}
use my_build.Orders.Transition.Tests.{order_id, tables, chosen, numbered, command, distinct}
use my_build.Realtime.Events.{Room, RoomEviction, transition_broadcast}
use my_build.Realtime.Adapter.{list_rooms, list_rooms-IsLawful}
use my_build.Realtime.Gateway.{
  AppSocket, accepted, refused, order_forbidden, is_order_participant, subscribe_order,
}
use my_build.Realtime.Gateway.Subscriptions.{may_hear, subscribe_order-may_hear}
use my_build.Shared.Enums.{Role}
use my_build.Auth.{AuthUser}
use my_build.Realtime.Gateway.Transitions.{run-reaches}
use my_build.Realtime.Gateway.Interleaving.{
  World, Event, drop_pair, begun, came, rechecked, evicted, step, steps, reaches, AllTell, AtHome,
  Guarded, steps-participants,
}

abbrev user_of : String → Option String
user_of socket =
    if socket == "tab" then some "company" else if socket == "rival tab" then some "other" else none

abbrev start : World (List (String × Room))
start = record {
  db = tables;
  rooms = ("tab", Room.of_user "company") ∷ ("rival tab", Room.of_user "other") ∷ [];
  checked = [];
  inside = [];
  pending = [];
}

-- The rival's offer is gone.
abbrev chosen_only : Db
chosen_only = record tables { offers = chosen ∷ [] }

abbrev out_of_room : RoomEviction
out_of_room = record { members = Room.of_user "other"; room = Room.of_order order_id }

abbrev events : List Event
events =
    Event.begins "tab" order_id
    ∷ Event.begins "rival tab" order_id
    ∷ Event.joins "tab" order_id
    ∷ Event.commits chosen_only (out_of_room ∷ [])
    ∷ Event.evicts
    ∷ Event.joins "rival tab" order_id
    ∷ Event.rechecks "rival tab" order_id
    ∷ Event.rechecks "tab" order_id
    ∷ []

start-Guarded : Guarded list_rooms user_of start
start-Guarded socket user_id there known present = ground (arith, present)

start-AtHome : AtHome list_rooms user_of start
start-AtHome socket user_id = by_socket (socket == "tab") (socket == "rival tab")
  where
    by_socket :
        (a b : Bool)
        → (if a then some "company" else if b then some "other" else none) ≡ some user_id
        → (a && user_id == "company" || (b && user_id == "other" || false)) ≡ true
    by_socket true b known =
        ground (arith, ap (λ (m : Option String). or_else m "") known, eq_iff user_id "company")
    by_socket false true known =
        ground (arith, ap (λ (m : Option String). or_else m "") known, eq_iff user_id "other")
    by_socket false false known = cc

tells :
    (user_id there : String)
    → is_order_participant user_id there tables ≡ true
    → is_order_participant user_id there chosen_only ≡ false
    → any (reaches user_id there) (out_of_room ∷ []) ≡ true
unfolding is_order_participant is_active_offer
tells user_id there before after = ground (
  arith,
  before,
  after,
  eq_iff "company" user_id,
  eq_iff "other" user_id,
  eq_iff user_id "other",
  eq_iff "client" user_id,
)

all_tell : AllTell list_rooms user_of start events
unfolding step begun came is_order_participant is_active_offer
all_tell = (tt, (tt, (tt, ((tells, refl), (tt, (tt, (tt, (tt, tt))))))))

steps-participants_example :
    is_order_participant "company" order_id (steps list_rooms user_of start events).db ≡ true
unfolding steps step begun came rechecked evicted drop_pair is_order_participant is_active_offer
steps-participants_example =
    steps-participants list_rooms user_of events start "tab" "company" order_id list_rooms-IsLawful
      (start-Guarded, start-AtHome, refl) all_tell refl refl refl refl

run-reaches_example : any (reaches "other" order_id) (out_of_room ∷ []) ≡ true
unfolding run run_locked decide_on conclude resolve_offer lock_order build_event transition
    can_transition handler_for offer_accepted past_deadline seen_otherwise to_iso_string
    utc_calendar_date is_offer_expired is_uuid apply_effects drop_superseded_notifications
    create_notifications offer_key transition_broadcast is_order_participant is_active_offer
run-reaches_example =
    run-reaches numbered day_ms command tables _ _ none "other" order_id
      (list_queries-IsLawful (λ n. "notification")) distinct refl refl refl

abbrev company : AuthUser
company = record {
  id = "company";
  email = none;
  email_verified = true;
  role = some Role.company;
  is_demo = false;
  session_id = none;
}

abbrev tab : AppSocket (List (String × Room))
tab = record {
  id = "tab";
  data_of = record { user = some company; expires_at = some 2; expiry_timer = none; rate = none };
  is_connected = true;
  rooms = [];
}

subscribe_order-may_hear_example :
    let (answer, left) = subscribe_order list_rooms 1 (some order_id) tables chosen_only tab in
    let may = may_hear (some company) (some 2) 1 order_id tables chosen_only in
    (list_rooms.is_in left.rooms "tab" (Room.of_order order_id) ≡ may)
    × (answer ≡ some (if may then accepted else refused order_forbidden false))
subscribe_order-may_hear_example =
    subscribe_order-may_hear list_rooms tab 1 order_id tables chosen_only
      (("tab", Room.of_order order_id) ∷ []) list_rooms-IsLawful refl refl
