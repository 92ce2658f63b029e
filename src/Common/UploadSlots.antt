-- ===== src/Common/UploadSlots.antt =====
-- backend/src/common/upload-slots.ts: how many uploads are taken at once. The release that an
-- acquisition returns has a flag of its own; acquisitions are numbered in their order.
use my_build.Base.{
  ℕ, zero, suc, ◌+◌, ◌-◌, ◌≤◌, ◌≡◌, refl, Bool, true, false, not, List, [], ◌∷◌, ◌++◌, Option, none,
  some, arith, count, length, leb, ltb, if◌then◌else◌,
}

pub record UploadSlots : Type 0 where
  pub limit : ℕ
  pub active : ℕ
  -- The flag `released` of each acquisition.
  pub released : List Bool

unfoldable pub new : ℕ → Option UploadSlots
new limit = if ltb limit 1 then none else some (record { limit = limit; active = 0; released = [] })

-- The number of the acquisition, or null.
unfoldable pub try_acquire : UploadSlots → UploadSlots × Option ℕ
try_acquire s = if leb s.limit s.active then (s, none) else (
  record s { active = s.active + 1; released = s.released ++ false ∷ [] },
  some (length s.released),
)

-- Whether the flag at a place is false; a place without a flag has no release to call.
unfoldable pub holds : List Bool → ℕ → Bool
holds [] i = false
holds (r ∷ rs) zero = not r
holds (r ∷ rs) (suc i) = holds rs i

unfoldable pub mark : List Bool → ℕ → List Bool
mark [] i = []
mark (r ∷ rs) zero = true ∷ rs
mark (r ∷ rs) (suc i) = r ∷ mark rs i

unfoldable pub release : UploadSlots → ℕ → UploadSlots
unfolding holds mark
release s i =
    if holds s.released i
    then record s { active = s.active - 1; released = mark s.released i }
    else s

pub data Call : Type 0 where
  acquires : Call
  releases : ℕ → Call

unfoldable pub step : UploadSlots → Call → UploadSlots
unfolding try_acquire release
step s acquires = (try_acquire s).0
step s (releases i) = release s i

unfoldable pub run : UploadSlots → List Call → UploadSlots
unfolding step
run s [] = s
run s (c ∷ calls) = run (step s c) calls

abbrev pub held : UploadSlots → ℕ
held s = count not s.released

pub record Inv (s : UploadSlots) : Type 0 where
  pub exact : s.active ≡ held s
  pub within : s.active ≤ s.limit

count-concat : (rs : List Bool) → count not (rs ++ false ∷ []) ≡ count not rs + 1
count-concat [] = omega arith
count-concat (r ∷ rs) = ground (arith, count-concat rs)

count-mark :
    (rs : List Bool) (i : ℕ) → holds rs i ≡ true → suc (count not (mark rs i)) ≡ count not rs
unfolding holds mark
count-mark [] i h = cc
count-mark (r ∷ rs) zero h = ground arith
count-mark (r ∷ rs) (suc i) h = ground (arith, count-mark rs i)

step-Inv : (s : UploadSlots) (c : Call) → Inv s → Inv (step s c)
unfolding step
step-Inv s acquires v = ground (arith, count-concat s.released)
step-Inv s (releases i) v = ground (arith, count-mark s.released i)

run-from_Inv : (s : UploadSlots) (calls : List Call) → Inv s → Inv (run s calls)
unfolding run
run-from_Inv s [] v = v
run-from_Inv s (c ∷ calls) v = run-from_Inv (step s c) calls (step-Inv s c v)

-- From new slots on, after any calls, releases that are called twice or never among them, the places
-- in use are those of the acquisitions that have not been released, and never more than the limit.
pub run-Inv :
    (limit : ℕ) (s : UploadSlots) (calls : List Call) → new limit ≡ some s → Inv (run s calls)
unfolding new
run-Inv limit s calls e = run-from_Inv s calls (ground arith)

holds-mark : (rs : List Bool) (i : ℕ) → holds (mark rs i) i ≡ false
unfolding holds mark
holds-mark [] i = refl
holds-mark (r ∷ rs) zero = refl
holds-mark (r ∷ rs) (suc i) = holds-mark rs i

-- A release that is called again changes nothing.
pub release_twice : (s : UploadSlots) (i : ℕ) → release (release s i) i ≡ release s i
unfolding release
release_twice s i = ground (arith, holds-mark s.released i)
