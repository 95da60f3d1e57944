-- ===== src/Go/Time.antt =====
-- `t.AddDate(1, 0, 0).Unix()` of package time, for a UTC time after 1970 given as its Unix seconds.
use dnsblockchain.Prelude.{ℕ, suc, ◌+◌, ◌-◌, ◌*◌, ◌/◌, ◌%◌, ◌≤◌, ◌<◌, arith}

abbrev pub day_seconds : ℕ
day_seconds = 86400

-- Years are counted from 1 March, so that a leap day is the last day of its year.
-- The days from 1 March of the year 0 to 1 March of the year `y`.
abbrev pub year_start : ℕ → ℕ
year_start y = 365 * y + y / 4 - y / 100 + y / 400

-- The days from 1 March of the year 0 to 1 January 1970.
abbrev pub epoch_days : ℕ
epoch_days = 719468

-- The year of a day: by cycles of 400 years.
unfoldable pub year_of : ℕ → ℕ
year_of z =
    let cycle = z / 146097 in
    let day = z % 146097 in 400 * cycle + (day - day / 1460 + day / 36524 - day / 146096) / 365

-- The same month and day a year later; 29 February becomes 1 March, as `Date` normalises it.
unfoldable pub next_year : ℕ → ℕ
unfolding year_of
next_year z = let y = year_of z in year_start (suc y) + (z - year_start y)

unfoldable pub add_year : ℕ → ℕ
unfolding next_year
add_year t = (next_year (t / day_seconds + epoch_days) - epoch_days) * day_seconds + t % day_seconds

-- A year of a cycle begins no later than the day that `year_of` puts in it, and ends after it.
year_of_cycle :
    (day : ℕ)
    → day < 146097
    → let y = (day - day / 1460 + day / 36524 - day / 146096) / 365 in
      (year_start y ≤ day) × (day < year_start (suc y))
year_of_cycle day h = omega arith

pub year_start-le : (z : ℕ) → year_start (year_of z) ≤ z
unfolding year_of
year_start-le z = omega arith

pub year_of_bounds : (z : ℕ) → z < year_start (suc (year_of z))
unfolding year_of
year_of_bounds z = omega arith

-- A year is 365 or 366 days long.
pub next_year_bounds : (z : ℕ) → (z + 365 ≤ next_year z) × (next_year z ≤ z + 366)
unfolding next_year
next_year_bounds z = omega (arith, year_start-le z)

pub add_year_bounds :
    (t : ℕ) → (t + 365 * day_seconds ≤ add_year t) × (add_year t ≤ t + 366 * day_seconds)
unfolding add_year
add_year_bounds t = omega (arith, next_year_bounds (t / day_seconds + epoch_days))
