-- ===== src/Common/KeyedQueue/Exclusion.antt =====
-- The queue at work: tasks arrive, run when their key is theirs, and give it up when they end.
use my_build.Base.{
  ℕ, ◌+◌, ◌≤◌, ◌≡◌, refl, String, Bool, true, ◌&&◌, List, [], ◌∷◌, ◌++◌, Option, none, some, arith,
  length, length-append, count, any, get, get-put, get-delete, ◌==◌, ℕ_eq, String_eq, if◌then◌else◌,
}
use text.Mathlib.TextEquality.{eq_iff}
use my_build.Common.KeyedQueue.{
  KeyedQueue, Acquired, acquire, without, expire, release, waiting_count,
}

-- The tasks that run, each with its key.
pub record System : Type 0 where
  pub queue : KeyedQueue
  pub running : List (String × ℕ)

pub data Event : Type 0 where
  arrives expires finishes : String → ℕ → Event

abbrev is_task : String → ℕ → String × ℕ → Bool
is_task key task r = r.0 == key && r.1 == task

unfoldable pub drop_task : String → ℕ → List (String × ℕ) → List (String × ℕ)
drop_task key task [] = []
drop_task key task (r ∷ running) =
    if is_task key task r then running else r ∷ drop_task key task running

start : String → System → KeyedQueue × Option ℕ → System
start key s (q, none) = record s { queue = q }
start key s (q, some task) = record { queue = q; running = s.running ++ (key, task) ∷ [] }

started : String → ℕ → System → KeyedQueue × Acquired → System
started key task s (q, Acquired.granted) = record {
  queue = q;
  running = s.running ++ (key, task) ∷ [];
}
started key task s (q, other) = record s { queue = q }

-- `run`: a task that ends, by an answer or by an exception, releases its key.
unfoldable pub step : System → Event → System
unfolding acquire expire release start started drop_task
step s (arrives key task) = started key task s (acquire s.queue key task)
step s (expires key task) = record s { queue = expire s.queue key task }
step s (finishes key task) =
    if any (is_task key task) s.running
    then start key (record s { running = drop_task key task s.running }) (release s.queue key)
    else s

unfoldable pub steps : System → List Event → System
unfolding step
steps s [] = s
steps s (e ∷ events) = steps (step s e) events

abbrev pub at_key : String → String × ℕ → Bool
at_key key r = r.0 == key

abbrev occupied {ℓ} : {A : Type ℓ} → Option A → ℕ
occupied none = 0
occupied (some a) = 1

-- A key has a lane exactly while one task of it runs, and its lane is no longer than allowed.
abbrev pub Exclusive : System → String → Type 0
Exclusive s key =
    (count (at_key key) s.running ≡ occupied (get key s.queue.lanes))
    × (waiting_count s.queue key ≤ s.queue.max_waiting)

count-append :
    (p : String × ℕ → Bool) (xs ys : List (String × ℕ))
    → count p (xs ++ ys) ≡ count p xs + count p ys
count-append p [] ys = omega arith
count-append p (x ∷ xs) ys = ground (arith, count-append p xs ys)

length-without : (task : ℕ) (lane : List ℕ) → length (without task lane) ≤ length lane
unfolding without
length-without task [] = omega arith
length-without task (w ∷ lane) = ground (arith, length-without task lane)

count-drop_task :
    (key j : String) (task : ℕ) (running : List (String × ℕ))
    → any (is_task key task) running ≡ true
    → count (at_key j) (drop_task key task running) + (if key == j then 1 else 0)
      ≡ count (at_key j) running
unfolding drop_task
count-drop_task key j task [] h = cc
count-drop_task key j task (r ∷ running) h =
    ground (arith, count-drop_task key j task running, eq_iff r.0 key, eq_iff key j, eq_iff r.0 j)

-- The three events by what the lane of their key is.
module _ (s : System) (key : String) (task : ℕ) (h : (k : String) → Exclusive s k)
    (j : String) where
  arrives-Exclusive :
      (lane : Option (List ℕ))
      → get key s.queue.lanes ≡ lane
      → Exclusive (step s (arrives key task)) j
  unfolding step acquire waiting_count
  arrives-Exclusive none e = ground (
    arith,
    h j,
    eq_iff key j,
    e,
    get-put key j [] s.queue.lanes,
    count-append (at_key j) s.running ((key, task) ∷ []),
  )
  arrives-Exclusive (some lane) e = ground (
    arith,
    h j,
    eq_iff key j,
    e,
    get-put key j (lane ++ task ∷ []) s.queue.lanes,
    length-append lane (task ∷ []),
  )

  expires-Exclusive :
      (lane : Option (List ℕ))
      → get key s.queue.lanes ≡ lane
      → Exclusive (step s (expires key task)) j
  unfolding step expire waiting_count
  expires-Exclusive none e = ground (arith, h j, e)
  expires-Exclusive (some lane) e = ground (
    arith,
    h j,
    eq_iff key j,
    e,
    get-put key j (without task lane) s.queue.lanes,
    length-without task lane,
  )

  finishes-Exclusive :
      (lane : Option (List ℕ))
      → get key s.queue.lanes ≡ lane
      → Exclusive (step s (finishes key task)) j
  unfolding step release waiting_count
  finishes-Exclusive none e =
      ground (arith, h j, e, h key, eq_iff key j, count-drop_task key j task s.running)
  finishes-Exclusive (some []) e = ground (
    arith,
    h j,
    e,
    eq_iff key j,
    get-delete key j s.queue.lanes,
    count-drop_task key j task s.running,
  )
  finishes-Exclusive (some (next ∷ lane)) e = ground (
    arith,
    h j,
    e,
    eq_iff key j,
    get-put key j lane s.queue.lanes,
    count-drop_task key j task s.running,
    count-append (at_key j) (drop_task key task s.running) ((key, next) ∷ []),
  )

step-Exclusive :
    (s : System) (e : Event)
    → ((key : String) → Exclusive s key)
    → (j : String) → Exclusive (step s e) j
step-Exclusive s (arrives key task) h j = arrives-Exclusive s key task h j _ refl
step-Exclusive s (expires key task) h j = expires-Exclusive s key task h j _ refl
step-Exclusive s (finishes key task) h j = finishes-Exclusive s key task h j _ refl

abbrev pub idle : ℕ → System
idle max_waiting = record { queue = record { max_waiting = max_waiting; lanes = [] }; running = [] }

start_Exclusive : (max_waiting : ℕ) (key : String) → Exclusive (idle max_waiting) key
unfolding get waiting_count
start_Exclusive max_waiting key = ground arith

steps-from_Exclusive :
    (s : System) (events : List Event)
    → ((key : String) → Exclusive s key)
    → (key : String) → Exclusive (steps s events) key
unfolding steps
steps-from_Exclusive s [] h key = h key
steps-from_Exclusive s (e ∷ events) h key =
    steps-from_Exclusive (step s e) events (step-Exclusive s e h) key

-- After any arrivals, timeouts and ends, in any order, at most one task of a key runs; one does
-- exactly while the key has a lane; and no lane is longer than the limit.
pub steps-Exclusive :
    (max_waiting : ℕ) (events : List Event) (key : String)
    → let s = steps (idle max_waiting) events in
      Exclusive s key × (count (at_key key) s.running ≤ 1)
steps-Exclusive max_waiting events key =
    let held = steps-from_Exclusive (idle max_waiting) events (start_Exclusive max_waiting) key in
    (held, ground (arith, held))
