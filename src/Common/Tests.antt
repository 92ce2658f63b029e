-- ===== src/Common/Tests.antt =====
-- Runs of the shared primitives, and their theorems at them.
use my_build.Base.{
  ℕ, none, true, false, map, ◌≡◌, ◌≤◌, refl, String, some, List, [], ◌∷◌, count, get, arith,
}
use my_build.Common.KeyedQueue.{KeyedQueue}
use my_build.Common.KeyedQueue.Exclusion.{Event, steps, idle, Exclusive, at_key, steps-Exclusive}
use my_build.Common.KeyedQueue.Order.{acquire_all, served, each, served-acquire_all}
use my_build.Common.Semaphore
use my_build.Common.Pagination.{items_of_pages, paginate, items_of_pages-all}
use my_build.Common.Ownership.{RequestUser, OrderAccessMode, can_activate}
use my_build.Common.Uuid.{is_uuid}
use my_build.Errors.{is_ok}
use my_build.Shared.Enums.{Role}
use my_build.Shared.Offers.{is_executor_offer}
use my_build.Orders.Transition.Tests.{order_id, numbered, tables}
use my_build.Common.UploadSlots
use my_build.Common.RateWindow.{RateWindowOptions, RateWindows, answers, hit, hit_swept}
use my_build.Common.RateWindow.Grants.{granted_of, answers-granted}
use my_build.Common.RateWindow.Laws.{answers-hit}

-- Two tasks of one order: the second waits, and runs when the first has ended.
abbrev two_tasks : List Event
two_tasks = Event.arrives "order" 1 ∷ Event.arrives "order" 2 ∷ Event.finishes "order" 1 ∷ []

steps-Exclusive_example :
    let s = steps (idle 50) two_tasks in
    Exclusive s "order" × (count (at_key "order") s.running ≤ 1)
steps-Exclusive_example = steps-Exclusive 50 two_tasks "order"

abbrev taken : KeyedQueue
taken = record { max_waiting = 50; lanes = ("order", 2 ∷ []) ∷ [] }

served-acquire_all_example :
    served 3 (acquire_all taken "order" (3 ∷ 4 ∷ [])) "order" ≡ each (2 ∷ 3 ∷ 4 ∷ [])
unfolding get
served-acquire_all_example =
    served-acquire_all taken "order" (2 ∷ []) (3 ∷ 4 ∷ []) refl (omega arith)

abbrev per_minute : String → RateWindowOptions
per_minute key = record { limit = 2; ttl = 60000 }

abbrev requests : List (String × ℕ)
requests = ("ip", 1) ∷ ("ip", 2) ∷ ("ip", 30000) ∷ ("other", 61000) ∷ ("ip", 70000) ∷ []

abbrev fresh : RateWindows
fresh = record { windows = []; next_sweep_at = 60000 }

answers-hit_example :
    answers hit per_minute fresh requests ≡ answers hit_swept per_minute fresh requests
answers-hit_example =
    answers-hit per_minute 60000 requests
      (omega arith, (omega arith, (omega arith, (omega arith, (omega arith, tt)))))

answers-granted_example :
    map (λ r. r.allowed) (answers hit per_minute fresh requests) ≡ granted_of per_minute [] requests
answers-granted_example =
    answers-granted per_minute 60000 requests
      (omega arith, (omega arith, (omega arith, (omega arith, (omega arith, tt)))))

-- The third request within a minute is refused, and one after it is granted again.
third_refused : granted_of per_minute [] requests ≡ true ∷ true ∷ false ∷ true ∷ true ∷ []
third_refused = refl

two_slots : (s : UploadSlots.UploadSlots) × (UploadSlots.new 2 ≡ some s)
unfolding UploadSlots.new
two_slots = (_, refl)

run-Inv_example : UploadSlots.Inv (
    UploadSlots.run two_slots.0
      (UploadSlots.Call.acquires ∷ UploadSlots.Call.releases 0 ∷ UploadSlots.Call.releases 0 ∷ []))
run-Inv_example =
    UploadSlots.run-Inv 2 two_slots.0
      (UploadSlots.Call.acquires ∷ UploadSlots.Call.releases 0 ∷ UploadSlots.Call.releases 0 ∷ [])
      two_slots.1

two_permits : (m : Semaphore.Semaphore) × (Semaphore.new 2 ≡ some m)
unfolding Semaphore.new
two_permits = (_, refl)

abbrev three_tasks : List Semaphore.Event
three_tasks =
    Semaphore.Event.arrives 1
    ∷ Semaphore.Event.arrives 2
    ∷ Semaphore.Event.arrives 3
    ∷ Semaphore.Event.finishes 1
    ∷ []

steps-Inv_example :
    Semaphore.Inv (Semaphore.steps (record { semaphore = two_permits.0; running = [] }) three_tasks)
steps-Inv_example = Semaphore.steps-Inv 2 two_permits.0 three_tasks two_permits.1

abbrev five : List ℕ
five = 1 ∷ 2 ∷ 3 ∷ 4 ∷ 5 ∷ []

items_of_pages-all_example :
    items_of_pages five 2 0 (paginate five none (some 2)).total_pages ≡ five
items_of_pages-all_example = items_of_pages-all five 1

abbrev visitor : RequestUser
visitor = record { id = "company"; role = some Role.company }

turned_away :
    is_ok
      (can_activate numbered (some OrderAccessMode.executor) (some visitor) (some order_id) tables)
    ≡ false
unfolding can_activate is_uuid is_executor_offer
turned_away = refl
