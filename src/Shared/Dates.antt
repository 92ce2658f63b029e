-- ===== src/Shared/Dates.antt =====
-- The instants of the program (`Date`) and the calendar rules of shared/src/offers.ts over them. An
-- instant is its number of milliseconds since 1970, of the years that `toISOString` prints with four
-- digits.
use Prim.Native.String.{compare, slice}
use text.Mathlib.Text.{is_lt}
use my_build.Base.{
  ℕ, zero, suc, ◌+◌, ◌-◌, ◌/◌, ◌%◌, String, ◌<>◌, Bool, ◌&&◌, ◌||◌, not, List, [], ◌∷◌, ltb,
  nat_beq, if◌then◌else◌, padded,
}

abbrev pub Date : Type 0
Date = ℕ

abbrev pub day_ms : ℕ
day_ms = 86400000

is_leap : ℕ → Bool
is_leap y = nat_beq (y % 4) 0 && (not (nat_beq (y % 100) 0) || nat_beq (y % 400) 0)

year_days : ℕ → ℕ
unfolding is_leap
year_days y = if is_leap y then 366 else 365

month_days : ℕ → List ℕ
unfolding is_leap
month_days y =
    31 ∷ (if is_leap y then 29 else 28) ∷ 31 ∷ 30 ∷ 31 ∷ 30 ∷ 31 ∷ 31 ∷ 30 ∷ 31 ∷ 30 ∷ 31 ∷ []

-- The month and the day of the month, from the lengths of the months that are left.
month_from : List ℕ → ℕ → ℕ → ℕ × ℕ
month_from [] month day = (month, day + 1)
month_from (length ∷ rest) month day =
    let later = month_from rest (month + 1) (day - length) in
    if ltb day length then (month, day + 1) else later

-- The year and the day of the year, from the days since the start of `year`; one unit of fuel for
-- each year that passes.
year_from : ℕ → ℕ → ℕ → ℕ × ℕ
unfolding year_days
year_from zero year day = (year, day)
year_from (suc fuel) year day =
    let later = year_from fuel (year + 1) (day - year_days year) in
    if ltb day (year_days year) then (year, day) else later

date_text : ℕ × ℕ → String
unfolding month_days month_from padded
date_text (year, day) =
    let (month, day_of_month) = month_from (month_days year) 1 day in
    padded 4 year <> "-" <> padded 2 month <> "-" <> padded 2 day_of_month

-- Years pass more slowly than days, so a day's number is fuel enough.
calendar_text : ℕ → String
unfolding year_from date_text
calendar_text days = date_text (year_from (suc days) 1970 days)

time_text : ℕ → String
unfolding padded
time_text ms =
    padded 2 (ms / 3600000)
    <> ":"
    <> padded 2 (ms / 60000 % 60)
    <> ":"
    <> padded 2 (ms / 1000 % 60)
    <> "."
    <> padded 3 (ms % 1000)

-- `Date.prototype.toISOString`.
unfoldable pub to_iso_string : Date → String
unfolding calendar_text time_text
to_iso_string moment = calendar_text (moment / day_ms) <> "T" <> time_text (moment % day_ms) <> "Z"

unfoldable pub utc_calendar_date : Date → String
utc_calendar_date moment = slice (to_iso_string moment) 0 10

-- Texts are compared by their characters, as `<` compares texts of ASCII.
unfoldable pub is_offer_expired : String → String → Bool
is_offer_expired proposed_deadline today = is_lt (compare (slice proposed_deadline 0 10) today)
