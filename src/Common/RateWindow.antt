-- ===== src/Common/RateWindow.antt =====
-- backend/src/common/rate-window.ts: a sliding window of requests. A time is a number of
-- milliseconds; the test `stamp > now - ttl` is written with the subtraction on the other side.
pub mod Kept
pub mod Laws
pub mod Grants
use my_build.Base.{
  ℕ, ◌+◌, ◌-◌, String, Bool, true, false, not, List, [], ◌∷◌, ◌++◌, Option, none, some, length,
  keep, leb, ltb, get, put, if◌then◌else◌,
}

pub record RateWindowOptions : Type 0 where
  pub limit : ℕ
  pub ttl : ℕ

-- `retryAfterMs` is not a number where a limit of 0 refuses with no request in the window: null here.
pub record RateWindowResult : Type 0 where
  pub allowed : Bool
  pub retry_after_ms : Option ℕ

pub record Window : Type 0 where
  pub stamps : List ℕ
  pub expires_at : ℕ

pub record RateWindows : Type 0 where
  pub windows : List (String × Window)
  pub next_sweep_at : ℕ

abbrev pub sweep_interval_ms : ℕ
sweep_interval_ms = 60000

unfoldable pub sweep_windows : ℕ → List (String × Window) → List (String × Window)
sweep_windows now [] = []
sweep_windows now ((key, window) ∷ windows) =
    let rest = sweep_windows now windows in
    if leb window.expires_at now then rest else (key, window) ∷ rest

unfoldable pub sweep : RateWindows → ℕ → RateWindows
unfolding sweep_windows
sweep w now =
    if ltb now w.next_sweep_at
    then w
    else record { windows = sweep_windows now w.windows; next_sweep_at = now + sweep_interval_ms }

abbrev pub in_window : ℕ → ℕ → ℕ → Bool
in_window now ttl stamp = ltb now (stamp + ttl)

abbrev pub stamps_of : Option Window → List ℕ
stamps_of none = []
stamps_of (some window) = window.stamps

abbrev pub retry_after : List ℕ → ℕ → ℕ → Option ℕ
retry_after [] ttl now = none
retry_after (oldest ∷ stamps) ttl now = some (oldest + ttl - now)

-- `hit` behind the sweep, on the stamps that still count. A request that is refused is not recorded.
unfoldable pub answer :
    RateWindows → String → RateWindowOptions → ℕ → List ℕ → RateWindows × RateWindowResult
answer w key options now stamps =
    if leb options.limit (length stamps)
    then (w, record { allowed = false; retry_after_ms = retry_after stamps options.ttl now })
    else (
      record w {
        windows =
            put key (record { stamps = stamps ++ now ∷ []; expires_at = now + options.ttl })
              w.windows;
      },
      record { allowed = true; retry_after_ms = some 0 },
    )

unfoldable pub hit_swept :
    RateWindows → String → RateWindowOptions → ℕ → RateWindows × RateWindowResult
unfolding answer
hit_swept w key options now =
    answer w key options now (keep (in_window now options.ttl) (stamps_of (get key w.windows)))

unfoldable pub hit : RateWindows → String → RateWindowOptions → ℕ → RateWindows × RateWindowResult
unfolding sweep hit_swept
hit w key options now = hit_swept (sweep w now) key options now

-- The answers to a sequence of requests, each a key and a time.
unfoldable pub answers :
    (RateWindows → String → RateWindowOptions → ℕ → RateWindows × RateWindowResult)
    → (String → RateWindowOptions)
    → RateWindows
    → List (String × ℕ)
    → List RateWindowResult
answers step options w [] = []
answers step options w ((key, now) ∷ requests) =
    let done = step w key (options key) now in done.1 ∷ answers step options done.0 requests
