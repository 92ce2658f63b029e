-- ===== src/Common/Semaphore.antt =====
-- backend/src/common/semaphore.ts: at most `limit` tasks run, and the others wait in a row. A waiter
-- stands as the number of its task.
use my_build.Base.{
  ℕ, suc, ◌+◌, ◌-◌, ◌≤◌, ◌≡◌, refl, ◌⊎◌, Bool, true, false, ◌||◌, List, [], ◌∷◌, ◌++◌, Option, none,
  some, arith, length, length-append, ltb, nat_beq, if◌then◌else◌,
}

pub record Semaphore : Type 0 where
  pub limit : ℕ
  pub active : ℕ
  pub waiting : List ℕ

-- The constructor throws for a limit below 1.
unfoldable pub new : ℕ → Option Semaphore
new limit = if ltb limit 1 then none else some (record { limit = limit; active = 0; waiting = [] })

-- Whether the task may run at once.
unfoldable pub acquire : Semaphore → ℕ → Semaphore × Bool
acquire s task =
    if ltb s.active s.limit
    then (record s { active = s.active + 1 }, true)
    else (record s { waiting = s.waiting ++ task ∷ [] }, false)

-- `active` falls, and the first waiter, if there is one, raises it again and runs.
wake : Semaphore → List ℕ → Semaphore × Option ℕ
wake s [] = (s, none)
wake s (next ∷ rest) = (record s { active = s.active + 1; waiting = rest }, some next)

unfoldable pub release : Semaphore → Semaphore × Option ℕ
unfolding wake
release s = wake (record s { active = s.active - 1 }) s.waiting

-- The semaphore with the tasks that it lets run.
pub record System : Type 0 where
  pub semaphore : Semaphore
  pub running : List ℕ

pub data Event : Type 0 where
  arrives finishes : ℕ → Event

abbrev runs : ℕ → List ℕ → Bool
runs task [] = false
runs task (t ∷ running) = nat_beq t task || runs task running

unfoldable pub drop_task : ℕ → List ℕ → List ℕ
drop_task task [] = []
drop_task task (t ∷ running) = if nat_beq t task then running else t ∷ drop_task task running

admit : System → ℕ → Semaphore × Bool → System
admit s task (m, true) = record { semaphore = m; running = s.running ++ task ∷ [] }
admit s task (m, false) = record s { semaphore = m }

resume : System → Semaphore × Option ℕ → System
resume s (m, none) = record s { semaphore = m }
resume s (m, some task) = record { semaphore = m; running = s.running ++ task ∷ [] }

unfoldable pub step : System → Event → System
unfolding acquire release admit resume drop_task
step s (arrives task) = admit s task (acquire s.semaphore task)
step s (finishes task) =
    if runs task s.running
    then resume (record s { running = drop_task task s.running }) (release s.semaphore)
    else s

unfoldable pub steps : System → List Event → System
unfolding step
steps s [] = s
steps s (e ∷ events) = steps (step s e) events

-- The count is that of the running tasks, within the limit, and nobody waits beside a free place.
pub record Inv (s : System) : Type 0 where
  pub counted : s.semaphore.active ≡ length s.running
  pub within : s.semaphore.active ≤ s.semaphore.limit
  pub busy : (s.semaphore.waiting ≡ []) ⊎ (s.semaphore.active ≡ s.semaphore.limit)

length-drop_task :
    (task : ℕ) (running : List ℕ)
    → runs task running ≡ true
    → suc (length (drop_task task running)) ≡ length running
unfolding drop_task
length-drop_task task [] h = cc
length-drop_task task (t ∷ running) h = ground (arith, length-drop_task task running)

finishes-Inv :
    (s : System) (task : ℕ) (waiting : List ℕ)
    → s.semaphore.waiting ≡ waiting
    → Inv s
    → Inv (step s (finishes task))
unfolding step
finishes-Inv s task [] e v = ground (arith, e, length-drop_task task s.running)
finishes-Inv s task (next ∷ rest) e v = ground (
  arith,
  e,
  length-drop_task task s.running,
  length-append (drop_task task s.running) (next ∷ []),
)

step-Inv : (s : System) (e : Event) → Inv s → Inv (step s e)
unfolding step
step-Inv s (arrives task) v = ground (arith, length-append s.running (task ∷ []))
step-Inv s (finishes task) v = finishes-Inv s task s.semaphore.waiting refl v

steps-from_Inv : (s : System) (events : List Event) → Inv s → Inv (steps s events)
unfolding steps
steps-from_Inv s [] v = v
steps-from_Inv s (e ∷ events) v = steps-from_Inv (step s e) events (step-Inv s e v)

-- From a new semaphore on, whatever arrives and ends, no more tasks run than the limit, and a task
-- waits only while that many run.
pub steps-Inv :
    (limit : ℕ) (m : Semaphore) (events : List Event)
    → new limit ≡ some m
    → let s = steps (record { semaphore = m; running = [] }) events in Inv s
unfolding new
steps-Inv limit m events e = steps-from_Inv _ events (ground arith)
