-- ===== src/Common/RateWindow/Laws.antt =====
-- What the sliding window grants, and that sweeping it is not noticed.
use my_build.Base.{
  ℕ, ◌+◌, ◌≤◌, ◌≡◌, refl, sym, ap, ◌∙◌, String, Bool, true, false, not, ◌&&◌, List, [], ◌∷◌, ◌++◌,
  arith, length, keep, leb, ltb, get-put, ◌==◌, subst, String_eq, if◌then◌else◌,
}
use my_build.Common.RateWindow.{
  RateWindowOptions, RateWindowResult, RateWindows, answer, answers, answers, sweep, in_window,
  hit_swept, hit,
}
use my_build.Common.RateWindow.Kept.{
  WindowsKept, WindowsKept-answer, WindowsKept-sweep_windows, either_kept, get-Kept, later, live,
  live-sweep,
}

-- The two keep the same requests of every key for all times to come.
abbrev Alike : (String → ℕ) → ℕ → RateWindows → RateWindows → Type 0
Alike ttl clock v w =
    (key : String) (t : ℕ) → clock ≤ t → live v key (ttl key) t ≡ live w key (ttl key) t

WindowsKept-sweep :
    (ttl : String → ℕ) (clock now : ℕ) (w : RateWindows)
    → WindowsKept ttl clock w.windows
    → WindowsKept ttl clock (sweep w now).windows
unfolding sweep
WindowsKept-sweep ttl clock now w h =
    subst (WindowsKept ttl clock) (sym (windows_of (ltb now w.next_sweep_at) _ _)) (
      either_kept ttl clock (ltb now w.next_sweep_at) w.windows _ (λ e. h)
        (λ e. WindowsKept-sweep_windows ttl clock now w.windows h))
  where
    windows_of :
        (b : Bool) (x y : RateWindows)
        → (if b then x else y).windows ≡ (if b then x.windows else y.windows)
    windows_of true x y = refl
    windows_of false x y = refl

pub live-answer :
    (ttl : String → ℕ) (clock limit t : ℕ) (key k : String) (stamps : List ℕ) (w : RateWindows)
    → live (answer w key (record { limit = limit; ttl = ttl key }) clock stamps).0 k (ttl k) t ≡ (
        if key == k && not (leb limit (length stamps))
        then keep (in_window t (ttl k)) (stamps ++ clock ∷ [])
        else live w k (ttl k) t)
unfolding answer
live-answer ttl clock limit t key k stamps w = ground (
  arith,
  get-put key k (record { stamps = stamps ++ clock ∷ []; expires_at = clock + ttl key }) w.windows,
)

answer-answer :
    (limit ttl now : ℕ) (key : String) (stamps : List ℕ) (v w : RateWindows)
    → (answer v key (record { limit = limit; ttl = ttl }) now stamps).1
      ≡ (answer w key (record { limit = limit; ttl = ttl }) now stamps).1
unfolding answer
answer-answer limit ttl now key stamps v w = ground arith

Alike-answer :
    (ttl : String → ℕ) (clock limit : ℕ) (key : String) (stamps : List ℕ) (v w : RateWindows)
    → Alike ttl clock v w
    → Alike ttl clock
        (answer v key (record { limit = limit; ttl = ttl key }) clock stamps).0
        (answer w key (record { limit = limit; ttl = ttl key }) clock stamps).0
Alike-answer ttl clock limit key stamps v w h k t le =
    live-answer ttl clock limit t key k stamps v
    ∙ ap
        (λ xs.
          if key == k && not (leb limit (length stamps))
          then keep (in_window t (ttl k)) (stamps ++ clock ∷ [])
          else xs)
        (h k t le)
    ∙ sym (live-answer ttl clock limit t key k stamps w)

-- The times of the requests do not go back.
abbrev pub Ordered : ℕ → List (String × ℕ) → Type 0
Ordered clock [] = Unit
Ordered clock ((key, now) ∷ requests) = (clock ≤ now) × Ordered now requests

module _ (options : String → RateWindowOptions) where
  abbrev ttl_of : String → ℕ
  ttl_of key = (options key).ttl

  answers-Alike :
      (clock : ℕ) (requests : List (String × ℕ)) (v w : RateWindows)
      → WindowsKept ttl_of clock v.windows
      → Alike ttl_of clock v w
      → Ordered clock requests
      → answers hit options v requests ≡ answers hit_swept options w requests
  unfolding answers hit hit_swept
  answers-Alike clock [] v w kept same order = refl
  answers-Alike clock ((key, now) ∷ requests) v w kept same order =
      let limit = (options key).limit in
      let swept = sweep v now in
      let stamps = live swept key (ttl_of key) now in
      let kept_swept = WindowsKept-sweep ttl_of clock now v kept in
      subst
        (λ xs.
          answers hit options v ((key, now) ∷ requests)
          ≡ (answer w key (options key) now xs).1
            ∷ answers hit_swept options (answer w key (options key) now xs).0 requests)
        (live-sweep ttl_of clock now now key v (omega arith) kept ∙ same key now order.0)
        (ap2 (answer-answer limit (ttl_of key) now key stamps swept w) (
          answers-Alike now requests (answer swept key (options key) now stamps).0
            (answer w key (options key) now stamps).0
            (WindowsKept-answer ttl_of now key limit stamps swept
              (later ttl_of clock now swept.windows order.0 kept_swept)
              (get-Kept ttl_of clock now key swept.windows order.0 kept_swept))
            (Alike-answer ttl_of now limit key stamps swept w (λ k t le.
              live-sweep ttl_of clock now t k v le kept ∙ same k t (omega (arith, order.0, le))))
            order.1))
    where
      ap2 :
          {x y : RateWindowResult} {xs ys : List RateWindowResult}
          → x ≡ y
          → xs ≡ ys
          → x ∷ xs ≡ y ∷ ys
      ap2 p q = cc

  -- From no windows at all, whatever the sweeps remove, requests at times that do not go back are
  -- answered as if no window were ever removed, where a key keeps the same options.
  pub answers-hit :
      (next_sweep_at : ℕ) (requests : List (String × ℕ))
      → Ordered 0 requests
      → answers hit options (record { windows = []; next_sweep_at = next_sweep_at }) requests
        ≡ answers hit_swept options
            (record { windows = []; next_sweep_at = next_sweep_at })
            requests
  answers-hit n requests order = answers-Alike 0 requests _ _ tt (λ k t le. refl) order
