-- ===== src/Interface/Tests.antt =====
-- An address of another site, with a character that a browser drops in between; and a room to which two
-- subscriptions are refused before the first of them is tried again.
use my_build.Base.{◌≡◌, refl, some, true}
use my_build.Realtime.Gateway.{refused, subscribe_failed}
use my_build.Interface.Sockets.{
  RoomBinding, room_retry_delays_ms, clear_retry, join, acknowledged, fired, connected, bind_room,
  unbind_room,
}
use my_build.Interface.Redirects.{IsSafe, safe_next_path, safe_next_path-IsSafe}

root-IsSafe : IsSafe "/"
root-IsSafe = record {
  local = refl;
  no_tab = refl;
  no_line_feed = refl;
  no_return = refl;
  no_blank_end = refl;
}

safe_next_path-IsSafe_example : IsSafe (safe_next_path (some "/\t/example.com") "/")
safe_next_path-IsSafe_example = safe_next_path-IsSafe (some "/\t/example.com") "/" root-IsSafe

-- The timer of the first refusal is not cleared with the binding.
abbrev refused_twice : RoomBinding
refused_twice = acknowledged room_retry_delays_ms 0 (some (refused subscribe_failed true)) (
    acknowledged room_retry_delays_ms 0 (some (refused subscribe_failed true))
      (connected (bind_room true)))

left_over : (fired 0 (unbind_room true refused_twice).0).sent ≡ 3
unfolding bind_room connected join clear_retry acknowledged fired unbind_room
left_over = refl
