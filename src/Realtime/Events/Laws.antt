-- ===== src/Realtime/Events/Laws.antt =====
-- Who hears what of a transition.
use my_build.Base.{
  ◌≡◌, refl, ap, ◌∙◌, String, Bool, true, false, not, ◌&&◌, ◌||◌, List, [], ◌∷◌, ◌++◌, map, Option,
  none, some, arith, any, keep, ◌==◌, ◌!=◌, String_eq, if◌then◌else◌,
}
use my_build.Shared.Enums.{OrderStatus, OrderStatus_eq}
use my_build.Shared.Offers.{accepts_offers}
use my_build.Store.Tables.{Notification}
use my_build.Orders.Transition.Types.{AppliedTransition, OfferStatusUpdate}
use my_build.Realtime.Events.{
  Room, SocketEvent, Payload, RealtimeMessage, to_notification_dto, transition_broadcast,
  offer_message, status_message, update_message, notification_message,
}

-- Whether two rooms are the same.
abbrev pub is_room : Room → Room → Bool
is_room (Room.of_user a) (Room.of_user b) = a == b
is_room (Room.of_order a) (Room.of_order b) = a == b
is_room Room.company_feed Room.company_feed = true
is_room _ _ = false

-- What a room hears of a list of messages, in their order.
abbrev pub heard : Room → List RealtimeMessage → List (SocketEvent × Payload)
heard room messages =
    map (λ m. (m.event, m.payload)) (keep (λ m. any (is_room room) m.rooms) messages)

heard-append :
    (room : Room) (xs ys : List RealtimeMessage)
    → heard room (xs ++ ys) ≡ heard room xs ++ heard room ys
heard-append room [] ys = refl
heard-append room (m ∷ xs) ys = ground (arith, heard-append room xs ys)

-- The order looks for a company.
abbrev pub searches : OrderStatus → Bool
searches OrderStatus.waiting = true
searches OrderStatus.awaiting_confirmation = true
searches _ = false

-- The order comes into the search for a company or leaves it.
abbrev pub crosses : AppliedTransition → Bool
crosses a =
    (searches a.from_status && not (searches a.next_status))
    || (not (searches a.from_status) && searches a.next_status)

abbrev pub changed : AppliedTransition → List (SocketEvent × Payload)
changed a = (SocketEvent.order_status_changed, Payload.about_order a.order.id) ∷ []

-- What a user is to hear of the offer that the action was about.
abbrev pub of_offer : AppliedTransition → Option SocketEvent → String → List (SocketEvent × Payload)
of_offer a none user = []
of_offer a (some event) user =
    if user == a.order.client_id || user == a.company_id
    then (event, Payload.about_offer a.order.id a.offer_id) ∷ []
    else []

abbrev pub of_updates :
    AppliedTransition → List OfferStatusUpdate → String → List (SocketEvent × Payload)
of_updates a updates user =
    map (λ u. (SocketEvent.offer_status_changed, Payload.about_offer a.order.id u.offer_id))
      (keep (λ u. user == a.order.client_id || user == u.company_id) updates)

abbrev pub of_notifications : List Notification → String → List (SocketEvent × Payload)
of_notifications rows user =
    map
      (λ n. (SocketEvent.notification_created, Payload.about_notification (to_notification_dto n)))
      (keep (λ n. user == n.user_id) rows)

-- What is to be heard of a transition: in a user's own room the news of the offers as the order's client
-- or the offer's company, that of the order as its client, and that user's notifications; in the order's
-- room and in the feed, that the status is another, and nothing of an offer or of a notification.
abbrev pub due : AppliedTransition → Option SocketEvent → Room → List (SocketEvent × Payload)
due a event (Room.of_user user) =
    of_offer a event user
    ++ ((if user == a.order.client_id && a.from_status != a.next_status then changed a else [])
        ++ (of_updates a a.offer_updates user ++ of_notifications a.notifications user))
due a event (Room.of_order order_id) =
    if order_id == a.order.id && a.from_status != a.next_status then changed a else []
due a event Room.company_feed = if crosses a then changed a else []

abbrev at_offer : AppliedTransition → Option SocketEvent → Room → List (SocketEvent × Payload)
at_offer a event (Room.of_user user) = of_offer a event user
at_offer a event _ = []

abbrev at_status : AppliedTransition → Room → List (SocketEvent × Payload)
at_status a (Room.of_user user) =
    if user == a.order.client_id && a.from_status != a.next_status then changed a else []
at_status a (Room.of_order order_id) =
    if order_id == a.order.id && a.from_status != a.next_status then changed a else []
at_status a Room.company_feed = if crosses a then changed a else []

abbrev at_updates : AppliedTransition → List OfferStatusUpdate → Room → List (SocketEvent × Payload)
at_updates a updates (Room.of_user user) = of_updates a updates user
at_updates a updates _ = []

abbrev at_notifications : List Notification → Room → List (SocketEvent × Payload)
at_notifications rows (Room.of_user user) = of_notifications rows user
at_notifications rows _ = []

heard-offer :
    (a : AppliedTransition) (event : Option SocketEvent) (room : Room)
    → heard room (offer_message a event) ≡ at_offer a event room
heard-offer a none (Room.of_user user) = refl
heard-offer a none (Room.of_order order_id) = refl
heard-offer a none Room.company_feed = refl
heard-offer a (some event) (Room.of_user user) = ground arith
heard-offer a (some event) (Room.of_order order_id) = refl
heard-offer a (some event) Room.company_feed = refl

searches-accepts_offers : (status : OrderStatus) → accepts_offers status ≡ searches status
unfolding accepts_offers
searches-accepts_offers status = ground arith

heard-status :
    (a : AppliedTransition) (room : Room) → heard room (status_message a) ≡ at_status a room
heard-status a (Room.of_user user) = ground arith
heard-status a (Room.of_order order_id) = ground arith
heard-status a Room.company_feed = ground (
  arith,
  searches-accepts_offers a.from_status,
  searches-accepts_offers a.next_status,
  OrderStatus_eq.same_iff a.from_status a.next_status,
)

heard-updates :
    (a : AppliedTransition) (updates : List OfferStatusUpdate) (room : Room)
    → heard room (map (update_message a) updates) ≡ at_updates a updates room
heard-updates a [] (Room.of_user user) = refl
heard-updates a [] (Room.of_order order_id) = refl
heard-updates a [] Room.company_feed = refl
heard-updates a (u ∷ updates) (Room.of_user user) =
    ground (arith, heard-updates a updates (Room.of_user user))
heard-updates a (u ∷ updates) (Room.of_order order_id) =
    heard-updates a updates (Room.of_order order_id)
heard-updates a (u ∷ updates) Room.company_feed = heard-updates a updates Room.company_feed

heard-notifications :
    (rows : List Notification) (room : Room)
    → heard room (map notification_message rows) ≡ at_notifications rows room
heard-notifications [] (Room.of_user user) = refl
heard-notifications [] (Room.of_order order_id) = refl
heard-notifications [] Room.company_feed = refl
heard-notifications (n ∷ rows) (Room.of_user user) =
    ground (arith, heard-notifications rows (Room.of_user user))
heard-notifications (n ∷ rows) (Room.of_order order_id) =
    heard-notifications rows (Room.of_order order_id)
heard-notifications (n ∷ rows) Room.company_feed = heard-notifications rows Room.company_feed

append_nil : {A : Type 0} (xs : List A) → xs ++ [] ≡ xs
append_nil [] = refl
append_nil (x ∷ xs) = ap (λ ys. x ∷ ys) (append_nil xs)

parts-due :
    (a : AppliedTransition) (event : Option SocketEvent) (room : Room)
    → at_offer a event room
        ++ (at_status a room
            ++ (at_updates a a.offer_updates room ++ at_notifications a.notifications room))
      ≡ due a event room
parts-due a event (Room.of_user user) = refl
parts-due a event (Room.of_order order_id) = append_nil _
parts-due a event Room.company_feed = append_nil _

-- Every room hears of a transition just what is due to it, each news once and in the order of the messages.
-- The order's client and the company of an offer hear what is said of the offer, and nobody else; that
-- the order's status is another is heard, without the order's data, in the order's room and by the
-- client, if it is, and in the feed if the order has come into the search for a company or has left it;
-- and a notification is heard by its own user alone.
pub heard-transition_broadcast :
    (applied : AppliedTransition) (event : Option SocketEvent) (room : Room)
    → heard room (transition_broadcast applied event).messages ≡ due applied event room
unfolding transition_broadcast
heard-transition_broadcast a event room =
    let updates = map (update_message a) a.offer_updates in
    let told = map notification_message a.notifications in
    heard-append room (offer_message a event) (status_message a ++ (updates ++ told))
    ∙ (λ i. heard-offer a event room i ++ heard-append room (status_message a) (updates ++ told) i)
    ∙ (λ i. at_offer a event room ++ (heard-status a room i ++ heard-append room updates told i))
    ∙ (λ i.
        at_offer a event room
        ++ (at_status a room
            ++ (heard-updates a a.offer_updates room i
                ++ heard-notifications a.notifications room i)))
    ∙ parts-due a event room
