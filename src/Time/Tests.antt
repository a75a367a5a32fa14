-- ===== src/Time/Tests.antt =====
-- Some dates, and the theorems at one of them.
use mathlib.Core.Path.{subst}
use lizarx.Time.Clock.{get_time}
use lizarx.Time.Clock.Reading.{Read, get_time-Read}
use lizarx.Prelude.{ℕ, ◌==◌, if◌then◌else◌, ◌≡◌, refl, some, arith}
use lizarx.Time.{Tm, mktime, gmtime_r, years, year_size, months, ytab}
use lizarx.Time.RoundTrip.{Civil, gmtime_r-Civil}

-- The 29th of February 2012, a Wednesday, at 13:14:15.
abbrev leap_day : Tm
leap_day = record {
  sec = 15;
  min = 14;
  hour = 13;
  mday = 29;
  mon = 1;
  year = 112;
  wday = 3;
  yday = 60;
}

gmtime_runs : gmtime_r 1330521255 ≡ some leap_day
unfolding gmtime_r years year_size months ytab
gmtime_runs = refl

mktime_runs : mktime leap_day ≡ 1330607655
unfolding mktime
mktime_runs = refl

gmtime_r-Civil_example : (t : Tm) × (gmtime_r 1330521255 ≡ some t) × Civil 1330521255 t
gmtime_r-Civil_example = gmtime_r-Civil 1330521255

-- The last day of that year, and the clock that shows it.
abbrev last_day : Tm
last_day = record {
  sec = 15;
  min = 14;
  hour = 13;
  mday = 31;
  mon = 11;
  year = 112;
  wday = 1;
  yday = 366;
}

abbrev cmos : ℕ → ℕ
cmos off =
    if off == 0x00
    then 0x15
    else if off == 0x02
    then 0x14
    else if off == 0x04
    then 0x13
    else if off == 0x07
    then 0x31
    else if off == 0x08
    then 0x12
    else if off == 0x09
    then 0x12
    else 0x20

get_time_runs : get_time cmos ≡ some (record last_day { wday = 0; yday = 108 })
unfolding get_time
get_time_runs = refl

last_day-Civil : Civil 1356959655 last_day
last_day-Civil =
    let (t, e, c) = gmtime_r-Civil 1356959655 in
    let runs : gmtime_r 1356959655 ≡ some last_day =
      unfold gmtime_r years year_size months ytab in refl in
    let same : t ≡ last_day = cc in subst (Civil 1356959655) same c

get_time-Read_example : (g : Tm) × (get_time cmos ≡ some g) × Read 1356959655 last_day g
get_time-Read_example =
    get_time-Read cmos 1356959655 last_day last_day-Civil
      (record { sec = refl; min = refl; hour = refl; mday = refl; mon = refl; year = refl })
      (omega arith)
