-- ===== src/Time.antt =====
-- src/kernel/lib/time.c: `mktime` and `gmtime_r`. `time_t` and the fields of `struct tm` are
-- `unsigned int`, 32 bits. The clock (`get_time`) and the printing are not modelled.
pub mod Calendar
pub mod Clock
pub mod RoundTrip
mod Tests
use lizarx.Prelude.{
  ℕ, zero, suc, ◌+◌, ◌-◌, ◌*◌, ◌/◌, ◌%◌, ◌^◌, Bool, true, false, not, ◌&&◌, ◌||◌, Option, none,
  some, List, [], ◌∷◌, ltb, leb, ◌==◌, if◌then◌else◌,
}

abbrev pub secs_per_min : ℕ
secs_per_min = 60

abbrev pub secs_per_hour : ℕ
secs_per_hour = 3600

abbrev pub secs_per_day : ℕ
secs_per_day = 86400

abbrev pub secs_per_year : ℕ
secs_per_year = 31536000

abbrev pub year0_in_unix_time : ℕ
year0_in_unix_time = 70

-- `struct tm` without `tm_isdst`, which nothing here reads or writes.
pub record Tm : Type 0 where
  pub sec : ℕ
  pub min : ℕ
  pub hour : ℕ
  pub mday : ℕ
  pub mon : ℕ
  pub year : ℕ
  pub wday : ℕ
  pub yday : ℕ

abbrev pub sub_uint : ℕ → ℕ → ℕ
sub_uint a b = (a + 2 ^ 32 - b) % 2 ^ 32

-- `mktime`. Each operation on `unsigned int` wraps; below the divisions the wrap is written out, and
-- for the sum and the products one reduction at the end gives the same word.
unfoldable pub mktime : Tm → ℕ
mktime t =
    (t.sec
      + t.min * secs_per_min
      + t.hour * secs_per_hour
      + t.yday * secs_per_day
      + sub_uint t.year year0_in_unix_time * secs_per_year
      + sub_uint t.year (year0_in_unix_time - 1) / 4 * secs_per_day
      + (t.year + 299) % 2 ^ 32 / 400 * secs_per_day
      + 2 ^ 32 * secs_per_day
      - sub_uint t.year 1 / 100 * secs_per_day)
    % 2 ^ 32

-- LEAPYEAR
unfoldable pub leap_year : ℕ → Bool
leap_year year = year % 4 == 0 && (not (year % 100 == 0) || year % 400 == 0)

-- YEARSIZE
unfoldable pub year_size : ℕ → ℕ
unfolding leap_year
year_size year = if leap_year year then 366 else 365

-- _ytab
unfoldable pub ytab : Bool → List ℕ
ytab false = 31 ∷ 28 ∷ 31 ∷ 30 ∷ 31 ∷ 30 ∷ 31 ∷ 31 ∷ 30 ∷ 31 ∷ 30 ∷ 31 ∷ []
ytab true = 31 ∷ 29 ∷ 31 ∷ 30 ∷ 31 ∷ 30 ∷ 31 ∷ 31 ∷ 30 ∷ 31 ∷ 30 ∷ 31 ∷ []

-- The loop over the years: the days left and the year; `none` if the fuel runs out.
unfoldable pub years : ℕ → ℕ → ℕ → Option (ℕ × ℕ)
years zero dayno year = none
years (suc fuel) dayno year =
    let rest = years fuel (dayno - year_size year) (year + 1) in
    if leb (year_size year) dayno then rest else some (dayno, year)

-- The loop over the months of a row of the table: the days left and the month; `none` if it reads
-- past the row.
unfoldable pub months : List ℕ → ℕ → ℕ → Option (ℕ × ℕ)
months [] dayno mon = none
months (size ∷ sizes) dayno mon =
    let rest = months sizes (dayno - size) (mon + 1) in
    if leb size dayno then rest else some (dayno, mon)

-- The part of `gmtime_r` behind the loop over the years.
unfoldable pub fill_date : ℕ → ℕ → ℕ → Option Tm
fill_date time dayno year =
    let dayclock = time % secs_per_day in
    elim (months (ytab (leap_year year)) dayno 0) [
      | none ↦ none
      | some (left, mon) ↦ some (record {
        sec = dayclock % secs_per_min;
        min = dayclock % secs_per_hour / secs_per_min;
        hour = dayclock / secs_per_hour;
        mday = left + 1;
        mon = mon;
        year = year - 1900;
        wday = (time / secs_per_day + 4) % 7;
        yday = dayno + 1;
      })
    ]

-- `gmtime_r`. Every round takes at least a day off, so the days are fuel enough.
unfoldable pub gmtime_r : ℕ → Option Tm
unfolding fill_date
gmtime_r time = elim (years (time / secs_per_day + 1) (time / secs_per_day) 1970) [
  | none ↦ none
  | some (dayno, year) ↦ fill_date time dayno year
]
