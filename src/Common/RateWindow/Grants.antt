-- ===== src/Common/RateWindow/Grants.antt =====
-- Which requests the sliding window grants, by all that it has granted before.
use my_build.Base.{
  ℕ, ◌+◌, ◌≤◌, ◌≡◌, refl, ap, ◌∙◌, subst, get, String, Bool, true, false, not, ◌&&◌, List, [], ◌∷◌,
  ◌++◌, map, arith, length, keep, count, leb, ltb, ◌==◌, eq_refl, String_eq, if◌then◌else◌,
  Bool-cases, inl, inr,
}
use text.Mathlib.TextEquality.{eq_iff}
use my_build.Common.RateWindow.{
  RateWindowOptions, RateWindowResult, RateWindows, answer, answers, in_window, stamps_of,
  hit_swept, hit,
}
use my_build.Common.RateWindow.Kept.{live}
use my_build.Common.RateWindow.Laws.{Ordered, answers-hit, live-answer}

-- A granted request of a key that was made within the last `ttl` milliseconds.
abbrev pub recent : (String → RateWindowOptions) → String → ℕ → String × ℕ → Bool
recent options key now granted = granted.0 == key && ltb now (granted.1 + (options key).ttl)

-- Which of a sequence of requests are to be granted, by the requests granted before, all of which are
-- remembered: one that fewer than the key's limit of recent ones precede.
abbrev pub granted_of :
    (String → RateWindowOptions) → List (String × ℕ) → List (String × ℕ) → List Bool
granted_of options log [] = []
granted_of options log ((key, now) ∷ requests) =
    let yes = granted_of options ((key, now) ∷ log) requests in
    let no = granted_of options log requests in
    if ltb (count (recent options key now) log) (options key).limit then true ∷ yes else false ∷ no

in_window-later :
    (ttl now t : ℕ) (stamps : List ℕ)
    → now ≤ t
    → keep (in_window t ttl) (keep (in_window now ttl) stamps) ≡ keep (in_window t ttl) stamps
in_window-later ttl now t [] h = refl
in_window-later ttl now t (s ∷ stamps) h = ground (arith, in_window-later ttl now t stamps)

length-keep_last :
    (p : ℕ → Bool) (xs : List ℕ) (x : ℕ)
    → length (keep p (xs ++ x ∷ [])) ≡ length (keep p xs) + (if p x then 1 else 0)
length-keep_last p [] x = ground arith
length-keep_last p (y ∷ xs) x = ground (arith, length-keep_last p xs x)

module _ (options : String → RateWindowOptions) where
  -- The windows count the recent requests of every key, from a time on.
  abbrev Counts : ℕ → RateWindows → List (String × ℕ) → Type 0
  Counts clock w log =
      (key : String) (t : ℕ)
      → clock ≤ t
      → length (live w key (options key).ttl t) ≡ count (recent options key t) log

  abbrev next_of : RateWindows → String → ℕ → RateWindows
  next_of w key now = (hit_swept w key (options key) now).0

  abbrev room : String → ℕ → List (String × ℕ) → Bool
  room key now log = ltb (count (recent options key now) log) (options key).limit

  abbrev stamps_at : RateWindows → String → ℕ → List ℕ
  stamps_at w key now = live w key (options key).ttl now

  live-next :
      (w : RateWindows) (key k : String) (now t : ℕ)
      → live (next_of w key now) k (options k).ttl t ≡ (
          if key == k && not (leb (options key).limit (length (stamps_at w key now)))
          then keep (in_window t (options k).ttl) (stamps_at w key now ++ now ∷ [])
          else live w k (options k).ttl t)
  unfolding hit_swept
  live-next w key k now t =
      live-answer (λ j. (options j).ttl) now (options key).limit t key k (stamps_at w key now) w

  own_count :
      (w : RateWindows) (log : List (String × ℕ)) (key : String) (now t : ℕ) (b : Bool)
      → now ≤ t
      → length (live w key (options key).ttl t) ≡ count (recent options key t) log
      → room key now log ≡ b
      → not (leb (options key).limit (length (stamps_at w key now))) ≡ b
      → length (live (next_of w key now) key (options key).ttl t)
        ≡ count (recent options key t) (if b then (key, now) ∷ log else log)
  own_count w log key now t true le h e f = ground (
    arith,
    live-next w key key now t,
    h,
    f,
    eq_refl key,
    length-keep_last (in_window t (options key).ttl) (stamps_at w key now) now,
    in_window-later (options key).ttl now t (stamps_of (get key w.windows)) le,
  )
  own_count w log key now t false le h e f = ground (arith, live-next w key key now t, h, f)

  other_count :
      (w : RateWindows) (log : List (String × ℕ)) (key k : String) (now t : ℕ) (b : Bool)
      → length (live w k (options k).ttl t) ≡ count (recent options k t) log
      → (key == k) ≡ false
      → length (live (next_of w key now) k (options k).ttl t)
        ≡ count (recent options k t) (if b then (key, now) ∷ log else log)
  other_count w log key k now t true h e = ground (arith, live-next w key k now t, h, e)
  other_count w log key k now t false h e = ground (arith, live-next w key k now t, h, e)

  same_test :
      (w : RateWindows) (log : List (String × ℕ)) (key : String) (now : ℕ)
      → length (stamps_at w key now) ≡ count (recent options key now) log
      → not (leb (options key).limit (length (stamps_at w key now))) ≡ room key now log
  same_test w log key now h = ground (arith, h)

  Counts-next :
      (clock : ℕ) (w : RateWindows) (log : List (String × ℕ)) (key : String) (now : ℕ)
      → clock ≤ now
      → Counts clock w log
      → Counts now (next_of w key now) (if room key now log then (key, now) ∷ log else log)
  Counts-next clock w log key now le h k t le_t = elim (Bool-cases (key == k)) [
    | inl e ↦
        subst
          (λ j.
            length (live (next_of w key now) j (options j).ttl t)
            ≡ count (recent options j t) (if room key now log then (key, now) ∷ log else log))
          ((eq_iff key k).0 e)
          (own_count w log key now t (room key now log) le_t (h key t (omega (arith, le, le_t)))
            refl (same_test w log key now (h key now le)))
    | inr e ↦ other_count w log key k now t (room key now log) (h k t (omega (arith, le, le_t))) e
  ]

  allowed_of :
      (w : RateWindows) (key : String) (now : ℕ)
      → (hit_swept w key (options key) now).1.allowed
        ≡ not (leb (options key).limit (length (stamps_at w key now)))
  unfolding hit_swept answer
  allowed_of w key now = ground arith

  abbrev allowed : List RateWindowResult → List Bool
  allowed = map (λ r. r.allowed)

  swept_granted :
      (clock : ℕ) (requests log : List (String × ℕ)) (w : RateWindows)
      → Counts clock w log
      → Ordered clock requests
      → allowed (answers hit_swept options w requests) ≡ granted_of options log requests
  unfolding answers
  swept_granted clock [] log w h order = refl
  swept_granted clock ((key, now) ∷ requests) log w h order =
      (λ i.
        (allowed_of w key now ∙ same_test w log key now (h key now order.0)) i
        ∷ swept_granted now requests (if room key now log then (key, now) ∷ log else log)
            (next_of w key now) (Counts-next clock w log key now order.0 h) order.1 i)
      ∙ by_room (room key now log)
    where
      by_room :
          (b : Bool)
          → b ∷ granted_of options (if b then (key, now) ∷ log else log) requests ≡ (
              if b
              then true ∷ granted_of options ((key, now) ∷ log) requests
              else false ∷ granted_of options log requests)
      by_room true = refl
      by_room false = refl

  -- From no windows at all, requests at times that do not go back are granted exactly where fewer than
  -- the key's limit of requests of the same key have been granted within the last `ttl`
  -- milliseconds, by a record of all that was ever granted, where a key keeps the same options;
  -- whatever the sweeps remove, and whatever other keys ask for.
  pub answers-granted :
      (next_sweep_at : ℕ) (requests : List (String × ℕ))
      → Ordered 0 requests
      → map
          (λ r. r.allowed)
          (answers hit options (record { windows = []; next_sweep_at = next_sweep_at }) requests)
        ≡ granted_of options [] requests
  unfolding get
  answers-granted n requests order =
      ap allowed (answers-hit options n requests order)
      ∙ swept_granted 0 requests [] (record { windows = []; next_sweep_at = n }) (λ key t le. refl)
          order
