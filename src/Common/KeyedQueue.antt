-- ===== src/Common/KeyedQueue.antt =====
-- backend/src/common/keyed-queue.ts: tasks of one key run one at a time. A waiter stands as the
-- number of its task; its timer is the event of its time running out.
pub mod Exclusion
pub mod Order
use my_build.Base.{
  ℕ, String, Bool, true, false, List, [], ◌∷◌, ◌++◌, Option, none, some, length, leb, get, put,
  delete, includes, ℕ_eq, ◌==◌, if◌then◌else◌,
}

pub record KeyedQueue : Type 0 where
  pub max_waiting : ℕ
  pub lanes : List (String × List ℕ)

pub data QueueRejection : Type 0 where
  full timeout : QueueRejection

-- What becomes of a task that asks for its key: it may run, it waits, or it is turned away.
pub data Acquired : Type 0 where
  granted waiting : Acquired
  rejected : QueueRejection → Acquired

join : KeyedQueue → String → ℕ → Option (List ℕ) → KeyedQueue × Acquired
join q key task none = (record q { lanes = put key [] q.lanes }, Acquired.granted)
join q key task (some lane) =
    if leb q.max_waiting (length lane)
    then (q, Acquired.rejected QueueRejection.full)
    else (record q { lanes = put key (lane ++ task ∷ []) q.lanes }, Acquired.waiting)

unfoldable pub acquire : KeyedQueue → String → ℕ → KeyedQueue × Acquired
unfolding join
acquire q key task = join q key task (get key q.lanes)

-- `splice` at the waiter's index, if it still waits.
unfoldable pub without : ℕ → List ℕ → List ℕ
without task [] = []
without task (w ∷ lane) = if w == task then lane else w ∷ without task lane

-- The waiter's timer: it leaves the lane and its promise is rejected.
give_up : KeyedQueue → String → ℕ → Option (List ℕ) → KeyedQueue
unfolding without
give_up q key task none = q
give_up q key task (some lane) = record q { lanes = put key (without task lane) q.lanes }

unfoldable pub expire : KeyedQueue → String → ℕ → KeyedQueue
unfolding give_up
expire q key task = give_up q key task (get key q.lanes)

-- The next waiter, who may run now, or nobody: then the lane goes.
pass_on : KeyedQueue → String → Option (List ℕ) → KeyedQueue × Option ℕ
pass_on q key none = (q, none)
pass_on q key (some []) = (record q { lanes = delete key q.lanes }, none)
pass_on q key (some (next ∷ lane)) = (record q { lanes = put key lane q.lanes }, some next)

unfoldable pub release : KeyedQueue → String → KeyedQueue × Option ℕ
unfolding pass_on
release q key = pass_on q key (get key q.lanes)

unfoldable pub waiting_count : KeyedQueue → String → ℕ
waiting_count q key = elim (get key q.lanes) [ none ↦ 0 | some lane ↦ length lane ]
