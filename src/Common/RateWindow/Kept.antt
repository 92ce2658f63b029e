-- ===== src/Common/RateWindow/Kept.antt =====
-- The windows that a sweep and a request leave: what they keep, and for how long.
use my_build.Base.{
  ℕ, ◌+◌, ◌≤◌, ◌≡◌, refl, sym, String, Bool, true, false, List, [], ◌∷◌, ◌++◌, none, some, arith,
  All, length, keep, leb, get, put, get-put, Bool-cases, ◌==◌, subst, inl, inr, String_eq,
  if◌then◌else◌,
}
use text.Mathlib.TextEquality.{eq_iff}
use my_build.Common.RateWindow.{
  RateWindowResult, Window, RateWindows, answer, sweep_windows, sweep, in_window, stamps_of,
}

-- The requests of a key that count at a time.
abbrev pub live : RateWindows → String → ℕ → ℕ → List ℕ
live w key ttl now = keep (in_window now ttl) (stamps_of (get key w.windows))

-- No request of a window outlives it, and it ends one length after the clock at the latest.
abbrev Kept : ℕ → ℕ → Window → Type 0
Kept ttl clock window =
    All (λ stamp. stamp + ttl ≤ window.expires_at) window.stamps × (window.expires_at ≤ clock + ttl)

abbrev pub WindowsKept : (String → ℕ) → ℕ → List (String × Window) → Type 0
WindowsKept ttl clock [] = Unit
WindowsKept ttl clock ((key, window) ∷ windows) =
    (get key windows ≡ none) × (Kept (ttl key) clock window × WindowsKept ttl clock windows)

dead :
    (now ttl bound : ℕ) (stamps : List ℕ)
    → All (λ stamp. stamp + ttl ≤ bound) stamps
    → bound ≤ now
    → keep (in_window now ttl) stamps ≡ []
dead now ttl bound [] k h = refl
dead now ttl bound (s ∷ stamps) k h = ground (arith, dead now ttl bound stamps)

get-sweep_windows-none :
    (now : ℕ) (key : String) (windows : List (String × Window))
    → get key windows ≡ none
    → get key (sweep_windows now windows) ≡ none
unfolding get sweep_windows
get-sweep_windows-none now key [] h = refl
get-sweep_windows-none now key ((k, w) ∷ windows) h =
    ground (arith, get-sweep_windows-none now key windows)

-- A sweep takes no request that counts at that time or later.
live-sweep_windows :
    (ttl : String → ℕ) (clock now t : ℕ) (key : String) (windows : List (String × Window))
    → now ≤ t
    → WindowsKept ttl clock windows
    → keep (in_window t (ttl key)) (stamps_of (get key (sweep_windows now windows)))
      ≡ keep (in_window t (ttl key)) (stamps_of (get key windows))
unfolding get sweep_windows
live-sweep_windows ttl clock now t key [] le h = refl
live-sweep_windows ttl clock now t key ((k, w) ∷ windows) le h = ground (
  arith,
  eq_iff k key,
  live-sweep_windows ttl clock now t key windows le h.1.1,
  dead t (ttl k) w.expires_at w.stamps h.1.0.0,
  get-sweep_windows-none now k windows,
)

pub live-sweep :
    (ttl : String → ℕ) (clock now t : ℕ) (key : String) (w : RateWindows)
    → now ≤ t
    → WindowsKept ttl clock w.windows
    → live (sweep w now) key (ttl key) t ≡ live w key (ttl key) t
unfolding sweep
live-sweep ttl clock now t key w le h =
    ground (arith, live-sweep_windows ttl clock now t key w.windows le h)

pub either_kept :
    (ttl : String → ℕ) (clock : ℕ) (b : Bool) (xs ys : List (String × Window))
    → (b ≡ true → WindowsKept ttl clock xs)
    → (b ≡ false → WindowsKept ttl clock ys)
    → WindowsKept ttl clock (if b then xs else ys)
either_kept ttl clock true xs ys f g = f refl
either_kept ttl clock false xs ys f g = g refl

pub WindowsKept-sweep_windows :
    (ttl : String → ℕ) (clock now : ℕ) (windows : List (String × Window))
    → WindowsKept ttl clock windows
    → WindowsKept ttl clock (sweep_windows now windows)
unfolding sweep_windows
WindowsKept-sweep_windows ttl clock now [] h = h
WindowsKept-sweep_windows ttl clock now ((k, w) ∷ windows) h =
    let rest = WindowsKept-sweep_windows ttl clock now windows h.1.1 in
    either_kept ttl clock (leb w.expires_at now) (sweep_windows now windows)
      ((k, w) ∷ sweep_windows now windows) (λ e. rest)
      (λ e. (get-sweep_windows-none now k windows h.0, (h.1.0, rest)))

pub later :
    (ttl : String → ℕ) (clock now : ℕ) (windows : List (String × Window))
    → clock ≤ now
    → WindowsKept ttl clock windows
    → WindowsKept ttl now windows
later ttl clock now [] le h = h
later ttl clock now ((k, w) ∷ windows) le h =
    (h.0, ((h.1.0.0, omega (arith, h.1.0.1)), later ttl clock now windows le h.1.1))

WindowsKept-put :
    (ttl : String → ℕ) (clock : ℕ) (key : String) (window : Window)
    (windows : List (String × Window))
    → Kept (ttl key) clock window
    → WindowsKept ttl clock windows
    → WindowsKept ttl clock (put key window windows)
unfolding get put
WindowsKept-put ttl clock key window [] k h = (refl, (k, tt))
WindowsKept-put ttl clock key window ((j, v) ∷ windows) k h =
    either_kept ttl clock (j == key) ((key, window) ∷ windows) ((j, v) ∷ put key window windows)
      (λ e. (ground (arith, eq_iff j key), (k, h.1.1)))
      (λ e. (
        ground (arith, get-put key j window windows, eq_iff j key, eq_iff key j),
        (h.1.0, WindowsKept-put ttl clock key window windows k h.1.1),
      ))

kept_stamps :
    (ttl now bound : ℕ) (stamps : List ℕ)
    → bound ≤ now + ttl
    → All (λ stamp. stamp + ttl ≤ bound) stamps
    → All (λ stamp. stamp + ttl ≤ now + ttl) (keep (in_window now ttl) stamps ++ now ∷ [])
kept_stamps ttl now bound [] le h = (omega arith, tt)
kept_stamps ttl now bound (s ∷ stamps) le h =
    kept_cons (in_window now ttl s) s (omega (arith, h.0)) (kept_stamps ttl now bound stamps le h.1)
  where
    kept_cons :
        (b : Bool) (s : ℕ)
        → s + ttl ≤ now + ttl
        → All (λ stamp. stamp + ttl ≤ now + ttl) (keep (in_window now ttl) stamps ++ now ∷ [])
        → All
            (λ stamp. stamp + ttl ≤ now + ttl)
            ((if b then s ∷ keep (in_window now ttl) stamps else keep (in_window now ttl) stamps)
              ++ now ∷ [])
    kept_cons true s l rest = (l, rest)
    kept_cons false s l rest = rest

pub get-Kept :
    (ttl : String → ℕ) (clock now : ℕ) (key : String) (windows : List (String × Window))
    → clock ≤ now
    → WindowsKept ttl clock windows
    → All
        (λ stamp. stamp + ttl key ≤ now + ttl key)
        (keep (in_window now (ttl key)) (stamps_of (get key windows)) ++ now ∷ [])
unfolding get
get-Kept ttl clock now key [] le h = (omega arith, tt)
get-Kept ttl clock now key ((k, w) ∷ windows) le h = elim (Bool-cases (k == key)) [
  | inl e ↦
      subst
        (λ o.
          All (λ stamp. stamp + ttl key ≤ now + ttl key)
            (keep (in_window now (ttl key)) (stamps_of o) ++ now ∷ []))
        (get_yes e)
        (kept_stamps (ttl key) now w.expires_at w.stamps
          (subst (λ x. w.expires_at ≤ now + ttl x) ((eq_iff k key).0 e) (omega (arith, h.1.0.1)))
          (subst (λ x. All (λ stamp. stamp + ttl x ≤ w.expires_at) w.stamps) ((eq_iff k key).0 e)
            h.1.0.0))
  | inr e ↦
      subst
        (λ o.
          All (λ stamp. stamp + ttl key ≤ now + ttl key)
            (keep (in_window now (ttl key)) (stamps_of o) ++ now ∷ []))
        (get_no e) (get-Kept ttl clock now key windows le h.1.1)
]
  where
    get_yes : (k == key) ≡ true → some w ≡ (if k == key then some w else get key windows)
    get_yes e = ground (arith, e)

    get_no : (k == key) ≡ false → get key windows ≡ (if k == key then some w else get key windows)
    get_no e = ground (arith, e)

windows_if :
    (b : Bool) (x y : RateWindows × RateWindowResult)
    → (if b then x else y).0.windows ≡ (if b then x.0.windows else y.0.windows)
windows_if true x y = refl
windows_if false x y = refl

pub WindowsKept-answer :
    (ttl : String → ℕ) (clock : ℕ) (key : String) (limit : ℕ) (stamps : List ℕ) (w : RateWindows)
    → WindowsKept ttl clock w.windows
    → All (λ stamp. stamp + ttl key ≤ clock + ttl key) (stamps ++ clock ∷ [])
    → WindowsKept ttl clock
        (answer w key (record { limit = limit; ttl = ttl key }) clock stamps).0.windows
unfolding answer
WindowsKept-answer ttl clock key limit stamps w h a =
    subst (WindowsKept ttl clock) (sym (windows_if (leb limit (length stamps)) _ _)) (
      either_kept ttl clock (leb limit (length stamps)) w.windows _ (λ e. h)
        (λ e.
          WindowsKept-put ttl clock key
            (record { stamps = stamps ++ clock ∷ []; expires_at = clock + ttl key }) w.windows
            (a, omega arith) h))
