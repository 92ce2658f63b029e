-- ===== src/Interface/Sockets.antt =====
-- frontend/src/lib/realtime-bindings.ts: how a screen holds on to its data, to its room and to the
-- knowledge that the connection is there. What a binding keeps is a state with one step for each call of
-- its listeners and of its timers; the listeners that it takes away again are not called any more.
use my_build.Base.{
  ℕ, zero, suc, ◌+◌, Bool, true, false, not, List, [], ◌∷◌, Option, none, some, any, keep, nat_beq,
  if◌then◌else◌,
}
use my_build.Realtime.Gateway.{SubscribeAck}
use my_build.Interface.Live.{Burst}
use my_build.Interface.Live as Live

-- `bindRefresh`: the flag is set by a break of the connection alone.
pub record Refresh : Type 0 where
  pub burst : Burst
  pub missed : Bool

abbrev pub bound_refresh : Refresh
bound_refresh = record { burst = record { timer = none; runs = 0 }; missed = false }

unfoldable pub on_event : ℕ → ℕ → Bool → Refresh → Refresh
unfolding Live.schedule
on_event delay now accepted r =
    if accepted then record r { burst = Live.schedule delay now r.burst } else r

unfoldable pub on_break : Refresh → Refresh
on_break r = record r { missed = true }

unfoldable pub on_reconnect : ℕ → ℕ → Refresh → Refresh
unfolding Live.schedule
on_reconnect delay now r =
    if not r.missed then r else record { burst = Live.schedule delay now r.burst; missed = false }

abbrev pub room_retry_delays_ms : List ℕ
room_retry_delays_ms = 1000 ∷ 3000 ∷ 10000 ∷ []

abbrev pub delay_at : List ℕ → ℕ → Option ℕ
delay_at [] n = none
delay_at (d ∷ delays) zero = some d
delay_at (d ∷ delays) (suc n) = delay_at delays n

-- A timer that runs: its number and its moment.
pub record Timer : Type 0 where
  pub id : ℕ
  pub moment : ℕ

-- `bindRoom`: how often it has tried since the last success, the number of the timer that it can still
-- clear, every timer that runs, how many it has set, and how many subscriptions it has sent.
pub record RoomBinding : Type 0 where
  pub attempt : ℕ
  pub timer : Option ℕ
  pub running : List Timer
  pub issued : ℕ
  pub sent : ℕ

abbrev pub is_timer : ℕ → Timer → Bool
is_timer id t = nat_beq t.id id

abbrev pub stopped : ℕ → List Timer → List Timer
stopped id running = keep (λ t. not (is_timer id t)) running

unfoldable pub clear_retry : RoomBinding → RoomBinding
clear_retry b = elim b.timer [
  | none ↦ b
  | some id ↦ record b { timer = none; running = stopped id b.running }
]

unfoldable pub join : RoomBinding → RoomBinding
unfolding clear_retry
join b = let cleared = clear_retry b in record cleared { sent = cleared.sent + 1 }

-- A timer that is set replaces the number of the one before, which runs on.
abbrev pub retried : List ℕ → ℕ → RoomBinding → RoomBinding
retried delays now b = elim (delay_at delays b.attempt) [
  | none ↦ b
  | some delay ↦ record b {
    attempt = b.attempt + 1;
    timer = some b.issued;
    running = (record { id = b.issued; moment = now + delay }) ∷ b.running;
    issued = b.issued + 1;
  }
]

-- The answer to a subscription; one that does not come at all is tried again.
unfoldable pub acknowledged : List ℕ → ℕ → Option SubscribeAck → RoomBinding → RoomBinding
acknowledged delays now none b = retried delays now b
acknowledged delays now (some ack) b =
    if ack.is_accepted
    then record b { attempt = 0 }
    else if not ack.retryable
    then b
    else retried delays now b

-- The call of a timer that runs.
unfoldable pub fired : ℕ → RoomBinding → RoomBinding
unfolding join
fired id b =
    if any (is_timer id) b.running then join (record b { running = stopped id b.running }) else b

unfoldable pub connected : RoomBinding → RoomBinding
unfolding join
connected b = join (record b { attempt = 0 })

abbrev pub unbound : RoomBinding
unbound = record { attempt = 0; timer = none; running = []; issued = 0; sent = 0 }

unfoldable pub bind_room : Bool → RoomBinding
unfolding join
bind_room is_connected = if is_connected then join unbound else unbound

-- Whether the room is left by a message: a broken connection has left all of them.
unfoldable pub unbind_room : Bool → RoomBinding → RoomBinding × Bool
unfolding clear_retry
unbind_room is_connected b = (clear_retry b, is_connected)

abbrev pub offline_notice_delay_ms : ℕ
offline_notice_delay_ms = 3000

-- `bindConnection` under `createConnectionStore`: what is shown, the moment at which the connection counts
-- as lost, and how often the screen was told of a change.
pub record Connection : Type 0 where
  pub online : Bool
  pub timer : Option ℕ
  pub notified : ℕ

abbrev pub changed_to : Bool → Connection → Connection
changed_to true c = if c.online then c else record c { online = true; notified = c.notified + 1 }
changed_to false c = if c.online then record c { online = false; notified = c.notified + 1 } else c

unfoldable pub came_back : Connection → Connection
came_back c = changed_to true (record c { timer = none })

unfoldable pub broke : ℕ → ℕ → Connection → Connection
broke delay now c = record c { timer = some (now + delay) }

unfoldable pub ran_out : Connection → Connection
ran_out c = elim c.timer [ none ↦ c | some moment ↦ changed_to false (record c { timer = none }) ]

unfoldable pub bind_connection : ℕ → ℕ → Bool → Connection
unfolding broke
bind_connection delay now is_connected =
    let c : Connection = record { online = true; timer = none; notified = 0 } in
    if is_connected then c else broke delay now c
