-- ===== src/Realtime/Events/Tests.antt =====
-- An acceptance told to its rooms.
use my_build.Base.{◌≡◌, none, some, map, keep}
use my_build.Shared.Dates.{day_ms}
use my_build.Store.Queries.{list_queries-IsLawful}
use my_build.Orders.Transition.Tests.{order_id, chosen_id, numbered, tables, answered}
use my_build.Realtime.Events.{Room, SocketEvent, transition_broadcast}
use my_build.Realtime.Events.Laws.{heard, due, heard-transition_broadcast}
use my_build.Realtime.Events.Evictions.{is_lost, out_of, run-evictions}

heard-transition_broadcast_example :
    heard
      (Room.of_user "other")
      (transition_broadcast answered.0.0 (some SocketEvent.offer_updated)).messages
    ≡ due answered.0.0 (some SocketEvent.offer_updated) (Room.of_user "other")
heard-transition_broadcast_example =
    heard-transition_broadcast answered.0.0 (some SocketEvent.offer_updated) (Room.of_user "other")

run-evictions_example :
    (transition_broadcast answered.0.0 none).evictions
    ≡ map (out_of order_id) (keep (is_lost order_id chosen_id) tables.offers)
run-evictions_example =
    run-evictions numbered day_ms order_id chosen_id none tables answered.0.1 answered.0.0 none
      (list_queries-IsLawful (λ n. "notification")) answered.1
