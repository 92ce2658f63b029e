-- ===== src/Common/KeyedQueue/Order.antt =====
-- Waiters get their key in the order in which they came.
use my_build.Base.{
  ℕ, zero, suc, ◌+◌, ◌≤◌, ◌≡◌, refl, String, List, [], ◌∷◌, ◌++◌, Option, some, arith, length,
  length-append, get, get-put, eq_refl, String_eq,
}
use mathlib.Core.List.{append_assoc, append-nil}
use my_build.Common.KeyedQueue.{KeyedQueue, acquire, release}

abbrev pub acquire_all : KeyedQueue → String → List ℕ → KeyedQueue
acquire_all q key [] = q
acquire_all q key (task ∷ tasks) = acquire_all (acquire q key task).0 key tasks

-- Who gets the key at each of `n` releases.
abbrev pub served : ℕ → KeyedQueue → String → List (Option ℕ)
served zero q key = []
served (suc n) q key = let (q', next) = release q key in next ∷ served n q' key

abbrev pub each : List ℕ → List (Option ℕ)
each [] = []
each (task ∷ tasks) = some task ∷ each tasks

lane-acquire :
    (q : KeyedQueue) (key : String) (task : ℕ) (lane : List ℕ)
    → get key q.lanes ≡ some lane
    → suc (length lane) ≤ q.max_waiting
    → (get key (acquire q key task).0.lanes ≡ some (lane ++ task ∷ []))
      × ((acquire q key task).0.max_waiting ≡ q.max_waiting)
unfolding acquire
lane-acquire q key task lane e h =
    ground (arith, e, get-put key key (lane ++ task ∷ []) q.lanes, eq_refl key)

lane-acquire_all :
    (q : KeyedQueue) (key : String) (lane tasks : List ℕ)
    → get key q.lanes ≡ some lane
    → length lane + length tasks ≤ q.max_waiting
    → get key (acquire_all q key tasks).lanes ≡ some (lane ++ tasks)
lane-acquire_all q key lane [] e h = rw append-nil e
lane-acquire_all q key lane (task ∷ tasks) e h =
    let (e', m) = lane-acquire q key task lane e (omega arith) in
    rw (← append_assoc lane (task ∷ []) tasks) (
      lane-acquire_all (acquire q key task).0 key (lane ++ task ∷ []) tasks e'
        (omega (arith, m, length-append lane (task ∷ []))))

lane-release :
    (q : KeyedQueue) (key : String) (task : ℕ) (lane : List ℕ)
    → get key q.lanes ≡ some (task ∷ lane)
    → ((release q key).1 ≡ some task) × (get key (release q key).0.lanes ≡ some lane)
unfolding release
lane-release q key task lane e = ground (arith, e, get-put key key lane q.lanes, eq_refl key)

served_lane :
    (q : KeyedQueue) (key : String) (lane : List ℕ)
    → get key q.lanes ≡ some lane
    → served (length lane) q key ≡ each lane
served_lane q key [] e = refl
served_lane q key (task ∷ lane) e =
    let (next, e') = lane-release q key task lane e in
    λ i. next i ∷ served_lane (release q key).0 key lane e' i

-- Tasks that queue up at a taken key, as many as there is room for, get it one release after the
-- other, behind those that waited before and in the order in which they came.
pub served-acquire_all :
    (q : KeyedQueue) (key : String) (lane tasks : List ℕ)
    → get key q.lanes ≡ some lane
    → length lane + length tasks ≤ q.max_waiting
    → served (length lane + length tasks) (acquire_all q key tasks) key ≡ each (lane ++ tasks)
served-acquire_all q key lane tasks e h = rw (← length-append lane tasks) (
    served_lane (acquire_all q key tasks) key (lane ++ tasks)
      (lane-acquire_all q key lane tasks e h))
