-- ===== src/Files/Quota/Reservations.antt =====
-- `StorageReservations`: room promised to uploads, given back by a release that may be called again.
use my_build.Base.{
  ℕ, subst, inl, inr, Bool-cases, ◌+◌, ◌-◌, ◌≡◌, refl, String, Bool, true, false, List, [], ◌∷◌,
  Option, none, some, arith, length, sum_of, get, put, delete, get-put, get-delete, leb, ◌==◌,
  String_eq, or_else, if◌then◌else◌, nat_beq,
}
use text.Mathlib.TextEquality.{eq_iff}
use my_build.Files.Quota.{StorageUsage}

-- The promise that a release of `reserve` keeps in its closure, with its flag `released`.
pub record Promise : Type 0 where
  pub order_id : String
  pub client_id : String
  pub bytes : ℕ
  pub released : Bool

pub record StorageReservations : Type 0 where
  pub by_order : List (String × ℕ)
  pub by_client : List (String × ℕ)
  pub total : ℕ
  pub promises : List Promise

-- `adjust` with a positive or a negative difference: an entry that is not above zero goes.
unfoldable pub adjust_up : List (String × ℕ) → String → ℕ → List (String × ℕ)
adjust_up m key delta =
    let next = or_else (get key m) 0 + delta in if leb next 0 then delete key m else put key next m

unfoldable pub adjust_down : List (String × ℕ) → String → ℕ → List (String × ℕ)
adjust_down m key delta =
    let before = or_else (get key m) 0 in
    if leb before delta then delete key m else put key (before - delta) m

unfoldable pub pending : StorageReservations → String → String → StorageUsage
pending s order_id client_id = record {
  order = or_else (get order_id s.by_order) 0;
  client = or_else (get client_id s.by_client) 0;
  total = s.total;
}

-- The release of the newest promise is called by its number in the list, from its end.
unfoldable pub reserve : StorageReservations → String → String → ℕ → StorageReservations
unfolding adjust_up
reserve s order_id client_id bytes = record {
  by_order = adjust_up s.by_order order_id bytes;
  by_client = adjust_up s.by_client client_id bytes;
  total = s.total + bytes;
  promises =
      (record { order_id = order_id; client_id = client_id; bytes = bytes; released = false })
      ∷ s.promises;
}

unfoldable pub nth_promise : List Promise → ℕ → Option Promise
nth_promise [] i = none
nth_promise (p ∷ promises) i =
    let rest = nth_promise promises i in if nat_beq (length promises) i then some p else rest

unfoldable pub mark_released : List Promise → ℕ → List Promise
mark_released [] i = []
mark_released (p ∷ promises) i =
    let rest = mark_released promises i in
    if nat_beq (length promises) i then record p { released = true } ∷ promises else p ∷ rest

unfoldable pub give_back : StorageReservations → ℕ → Option Promise → StorageReservations
unfolding adjust_down mark_released
give_back s i none = s
give_back s i (some p) = if p.released then s else record {
  by_order = adjust_down s.by_order p.order_id p.bytes;
  by_client = adjust_down s.by_client p.client_id p.bytes;
  total = s.total - p.bytes;
  promises = mark_released s.promises i;
}

unfoldable pub release : StorageReservations → ℕ → StorageReservations
unfolding nth_promise give_back
release s i = give_back s i (nth_promise s.promises i)

pub data Call : Type 0 where
  reserves : String → String → ℕ → Call
  releases : ℕ → Call

unfoldable pub step : StorageReservations → Call → StorageReservations
unfolding reserve release
step s (Call.reserves order_id client_id bytes) = reserve s order_id client_id bytes
step s (Call.releases i) = release s i

unfoldable pub run : StorageReservations → List Call → StorageReservations
unfolding step
run s [] = s
run s (call ∷ calls) = run (step s call) calls

abbrev pub empty : StorageReservations
empty = record { by_order = []; by_client = []; total = 0; promises = [] }

-- What a promise that is still open holds of an order, of a client, of the whole.
abbrev pub held_of_order : String → Promise → ℕ
held_of_order order_id p = if p.released then 0 else if p.order_id == order_id then p.bytes else 0

abbrev pub held_of_client : String → Promise → ℕ
held_of_client client_id p =
    if p.released then 0 else if p.client_id == client_id then p.bytes else 0

abbrev pub held : Promise → ℕ
held p = if p.released then 0 else p.bytes

-- What is pending, by each of the three bounds, is what the open promises hold.
abbrev pub IsExact : StorageReservations → Type 0
IsExact s =
    ((order_id : String)
      → or_else (get order_id s.by_order) 0 ≡ sum_of (held_of_order order_id) s.promises)
    × ((client_id : String)
        → or_else (get client_id s.by_client) 0 ≡ sum_of (held_of_client client_id) s.promises)
    × (s.total ≡ sum_of held s.promises)

get-adjust_up :
    (m : List (String × ℕ)) (key j : String) (delta : ℕ)
    → or_else (get j (adjust_up m key delta)) 0
      ≡ (if key == j then or_else (get j m) 0 + delta else or_else (get j m) 0)
unfolding adjust_up
get-adjust_up m key j delta =
    ground
      (arith, get-put key j (or_else (get key m) 0 + delta) m, get-delete key j m, eq_iff key j)

get-adjust_down :
    (m : List (String × ℕ)) (key j : String) (delta : ℕ)
    → or_else (get j (adjust_down m key delta)) 0
      ≡ (if key == j then or_else (get j m) 0 - delta else or_else (get j m) 0)
unfolding adjust_down
get-adjust_down m key j delta =
    ground
      (arith, get-put key j (or_else (get key m) 0 - delta) m, get-delete key j m, eq_iff key j)

sum_of-mark_released :
    (f : Promise → ℕ) (promises : List Promise) (i : ℕ) (p : Promise)
    → ((r : Promise) → r.released ≡ true → f r ≡ 0)
    → nth_promise promises i ≡ some p
    → sum_of f promises ≡ f p + sum_of f (mark_released promises i)
unfolding nth_promise mark_released
sum_of-mark_released f [] i p z h = cc
sum_of-mark_released f (r ∷ promises) i p z h =
    ground (arith, sum_of-mark_released f promises i p z, z (record r { released = true }) refl)

give_back-IsExact :
    (s : StorageReservations) (i : ℕ) (found : Option Promise)
    → nth_promise s.promises i ≡ found
    → IsExact s
    → IsExact (give_back s i found)
unfolding give_back
give_back-IsExact s i none h x = x
give_back-IsExact s i (some p) h x = elim (Bool-cases p.released) [
  | inl e ↦ subst IsExact (returned_before e) x
  | inr e ↦ subst IsExact (returned_now e) (
    λ j. ground (
      arith,
      x.0 j,
      get-adjust_down s.by_order p.order_id j p.bytes,
      sum_of-mark_released (held_of_order j) s.promises i p (gone_of_order j) h,
      e,
    ),
    λ j. ground (
      arith,
      x.1 j,
      get-adjust_down s.by_client p.client_id j p.bytes,
      sum_of-mark_released (held_of_client j) s.promises i p (gone_of_client j) h,
      e,
    ),
    ground (arith, x.2, sum_of-mark_released held s.promises i p gone h, e),
  )
]
  where
    after : StorageReservations
    after = record {
      by_order = adjust_down s.by_order p.order_id p.bytes;
      by_client = adjust_down s.by_client p.client_id p.bytes;
      total = s.total - p.bytes;
      promises = mark_released s.promises i;
    }

    returned_before : p.released ≡ true → s ≡ (if p.released then s else after)
    returned_before e = ground (arith, e)

    returned_now : p.released ≡ false → after ≡ (if p.released then s else after)
    returned_now e = ground (arith, e)

    gone_of_order : (j : String) (r : Promise) → r.released ≡ true → held_of_order j r ≡ 0
    gone_of_order j r e = ground (arith, e)

    gone_of_client : (j : String) (r : Promise) → r.released ≡ true → held_of_client j r ≡ 0
    gone_of_client j r e = ground (arith, e)

    gone : (r : Promise) → r.released ≡ true → held r ≡ 0
    gone r e = ground (arith, e)

step-IsExact : (s : StorageReservations) (call : Call) → IsExact s → IsExact (step s call)
unfolding step reserve release
step-IsExact s (Call.reserves order_id client_id bytes) x = (
  λ j. ground (arith, x.0 j, get-adjust_up s.by_order order_id j bytes),
  λ j. ground (arith, x.1 j, get-adjust_up s.by_client client_id j bytes),
  ground (arith, x.2),
)
step-IsExact s (Call.releases i) x = give_back-IsExact s i (nth_promise s.promises i) refl x

run_from-IsExact : (calls : List Call) (s : StorageReservations) → IsExact s → IsExact (run s calls)
unfolding run
run_from-IsExact [] s x = x
run_from-IsExact (call ∷ calls) s x = run_from-IsExact calls (step s call) (step-IsExact s call x)

-- After any reservations and releases, with releases that are called again or never among them, what
-- is pending of an order, of a client and of the whole is what the promises that are still open hold.
pub run-IsExact : (calls : List Call) → IsExact (run empty calls)
unfolding get
run-IsExact calls = run_from-IsExact calls empty (λ j. empty_map j, λ j. empty_map j, refl)
  where
    empty_map : (j : String) → or_else (get {V = ℕ} j []) 0 ≡ 0
    empty_map j = refl
