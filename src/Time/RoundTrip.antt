-- ===== src/Time/RoundTrip.antt =====
-- `gmtime_r` returns for every time, and `mktime` of its result.
use lizarx.Prelude.{ℕ, ◌+◌, ◌-◌, ◌*◌, ◌/◌, ◌%◌, ◌^◌, ◌≤◌, ◌<◌, ◌≡◌, refl, some, arith}
use mathlib.Core.Path.{subst}
use lizarx.Time.{
  Tm, sub_uint, mktime, leap_year, year_size, ytab, fill_date, gmtime_r, secs_per_day,
}
use mathlib.Core.Path.{ap}
use lizarx.Time.Calendar.{days_before, YearOf, years-YearOf, MonthOf, months-year}

-- What `gmtime_r` fills in for a time: the clock, the week day, the day of the year and of the month.
pub record Civil (time : ℕ) (t : Tm) : Type 0 where
  pub clock : t.sec + 60 * t.min + 3600 * t.hour ≡ time % secs_per_day
  pub ranges : (t.sec < 60) × (t.min < 60) × (t.hour < 24) × (t.wday < 7)
  pub since_1970 : 70 ≤ t.year
  -- The days of the years before, and those of this year.
  pub days : days_before (t.year - 70) + t.yday ≡ time / secs_per_day + 1
  pub in_year : t.yday ≤ year_size (t.year + 1900)
  pub month : MonthOf (ytab (leap_year (t.year + 1900))) (t.yday - 1) (t.mday - 1) t.mon
  pub counted : (1 ≤ t.mday) × (1 ≤ t.yday)

-- What `fill_date` builds.
abbrev date : ℕ → ℕ → ℕ → ℕ → ℕ → Tm
date time d m left mon = record {
  sec = time % 86400 % 60;
  min = time % 86400 % 3600 / 60;
  hour = time % 86400 / 3600;
  mday = left + 1;
  mon = mon;
  year = 1970 + m - 1900;
  wday = (time / 86400 + 4) % 7;
  yday = d + 1;
}

date-Civil :
    (time d m left mon : ℕ)
    → YearOf 0 (time / secs_per_day) d m
    → MonthOf (ytab (leap_year (1970 + m))) d left mon
    → Civil time (date time d m left mon)
date-Civil time d m left mon y mo =
    let year : 1970 + m - 1900 + 1900 ≡ 1970 + m = omega arith in
    let day : d + 1 - 1 ≡ d = omega arith in
    let of_month : left + 1 - 1 ≡ left = omega arith in
    let since : 1970 + m - 1900 - 70 ≡ m = omega arith in
    record {
      clock = omega arith;
      ranges = (omega arith, omega arith, omega arith, omega arith);
      since_1970 = omega arith;
      days = rw since (omega (arith, y.same));
      in_year = rw year (omega (arith, y.within));
      month = rw (year, day, of_month) mo;
      counted = (omega arith, omega arith);
    }

fill_date-Civil :
    (time d m : ℕ)
    → YearOf 0 (time / secs_per_day) d m
    → (t : Tm) × (fill_date time d (1970 + m) ≡ some t) × Civil time t
unfolding fill_date
fill_date-Civil time d m y =
    let (left, mon, e, mo) = months-year (1970 + m) d y.within in
    (date time d m left mon, rw (e, fill_date), date-Civil time d m left mon y mo)

-- `gmtime_r` returns for every time: the clock is the rest of the day, the year and the day of the year count the days since
-- 1970 with the leap years, and the month and its day are those of the day of the year, counted from 1.
pub gmtime_r-Civil : (time : ℕ) → (t : Tm) × (gmtime_r time ≡ some t) × Civil time t
unfolding gmtime_r
gmtime_r-Civil time =
    let (d, m, e, y) =
      years-YearOf (time / secs_per_day + 1) (time / secs_per_day) 0 (omega arith) in
    let (t, e', c) = fill_date-Civil time d m y in
    let start : ◌≡◌ {A = ℕ} (1970 + 0) 1970 = refl in (t, rw (rw start at e, gmtime_r) e', c)

-- The sum of `mktime` in days: `q4`, `q400` and `q100` count leap days.
sum-days :
    (clock n y q4 q400 q100 days : ℕ)
    → 365 * n + q4 + q400 - q100 + y ≡ days
    → q100 ≤ 365 * n + q4 + q400
    → clock + y * 86400 + n * 31536000 + q4 * 86400 + q400 * 86400 + 2 ^ 32 * 86400 - q100 * 86400
      ≡ clock + 86400 * days + 2 ^ 32 * 86400
sum-days clock n y q4 q400 q100 days e h = omega arith

year_bound : (n y days : ℕ) → days_before n + y ≡ days → days ≤ 49711 → n ≤ 137
year_bound n y days e h = omega arith

-- The words under the divisions of `mktime` do not wrap.
year_words :
    (y : ℕ)
    → 70 ≤ y
    → y ≤ 207
    → (sub_uint y 70 ≡ y - 70)
      × (sub_uint y 69 ≡ y - 70 + 1)
      × ((y + 299) % 2 ^ 32 ≡ y - 70 + 369)
      × (sub_uint y 1 ≡ y - 70 + 69)
year_words y lo hi = omega arith

-- `mktime` of a date whose days since 1970 are `days`.
pub mktime-days :
    (t : Tm) (days : ℕ)
    → 70 ≤ t.year
    → days_before (t.year - 70) + t.yday ≡ days
    → days ≤ 49711
    → mktime t ≡ (t.sec + 60 * t.min + 3600 * t.hour + 86400 * days) % 2 ^ 32
unfolding mktime
mktime-days t days since e small =
    let n : ℕ = t.year - 70 in
    let w = year_words t.year since (omega (arith, since, year_bound n t.yday days e small)) in
    rw (w.0, w.1, w.2, w.3)
      (rw
        (sum-days (t.sec + t.min * 60 + t.hour * 3600) n t.yday ((n + 1) / 4) ((n + 369) / 400)
          ((n + 69) / 100) days e (omega arith))
        (omega arith))

mktime-Civil :
    (time : ℕ) (t : Tm) → time < 2 ^ 32 → Civil time t → mktime t ≡ (time + secs_per_day) % 2 ^ 32
mktime-Civil time t h c =
    rw (mktime-days t (time / secs_per_day + 1) c.since_1970 c.days (omega arith), c.clock)
      (ap (λ n. n % 2 ^ 32) (omega arith))

-- `mktime` of what `gmtime_r` returned is the time one day later: `gmtime_r` counts the days of the year from 1,
-- and `mktime` takes them for counted from 0.
pub mktime-gmtime_r :
    (time : ℕ) (t : Tm)
    → time < 2 ^ 32
    → gmtime_r time ≡ some t
    → mktime t ≡ (time + secs_per_day) % 2 ^ 32
mktime-gmtime_r time t h e =
    let (t', e', c) = gmtime_r-Civil time in
    let same : t' ≡ t = cc in mktime-Civil time t h (subst (Civil time) same c)
