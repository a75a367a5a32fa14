-- ===== src/Time/Clock/Reading.antt =====
-- What `get_time` and `mktime` make of a date that the clock holds.
use lizarx.Prelude.{
  ℕ, zero, suc, ◌+◌, ◌-◌, ◌*◌, ◌/◌, ◌%◌, ◌^◌, ◌≤◌, ◌<◌, ◌≡◌, refl, ap, ◌∙◌, Bool, true, false, ◌&&◌,
  some, List, [], ◌∷◌, ltb, leb, ◌==◌, if◌then◌else◌, arith, length, get_elem?, Bool-cases, inl,
  inr,
}
use lizarx.Prelude.Bounded.{holds_below, of_holds_below}
use lizarx.Time.{Tm, mktime, ytab, leap_year, secs_per_day}
use lizarx.Time.Calendar.{month_start, days_before, year_size_bounds}
use lizarx.Time.RoundTrip.{Civil, mktime-days}
use lizarx.Time.Clock.{bcd_decode, days_per_month, add_months, get_time}

add_months-start :
    (sizes : List ℕ) (mon i yday : ℕ)
    → i ≤ mon
    → mon - i ≤ length sizes
    → mon < 2 ^ 8
    → add_months sizes mon i (yday % 2 ^ 8) ≡ some ((yday + month_start sizes (mon - i)) % 2 ^ 8)
unfolding add_months
add_months-start [] mon i yday le fit small = ground arith
add_months-start (size ∷ sizes) mon i yday le fit small = elim (Bool-cases (ltb i mon)) [
  | inl more ↦
      let e : (i + 1) % 2 ^ 8 ≡ i + 1 = ground arith in
      let f : (yday % 2 ^ 8 + size) % 2 ^ 8 ≡ (yday + size) % 2 ^ 8 = omega arith in
      let g : mon - i ≡ suc (mon - (i + 1)) = ground arith in
      rw (more, e, f, g)
        (add_months-start sizes mon (i + 1) (yday + size) (ground arith) (omega (arith, fit)) small
          ∙ ap some (omega arith))
  | inr done ↦ let g : mon - i ≡ 0 = ground arith in rw (done, g) (ap some (omega arith))
]

-- What the table of `get_time` and its byte lose of the day of the year: 256 days from October on,
-- and a leap day.
abbrev pub lost : Tm → ℕ
lost t =
    (if leb 9 t.mon then 256 else 0) + (if leap_year (t.year + 1900) && leb 2 t.mon then 1 else 0)

-- The registers of the clock hold the date `t`.
pub record Shows (cmos : ℕ → ℕ) (t : Tm) : Type 0 where
  pub sec : bcd_decode (cmos 0x00) ≡ t.sec
  pub min : bcd_decode (cmos 0x02) ≡ t.min
  pub hour : bcd_decode (cmos 0x04) ≡ t.hour
  pub mday : bcd_decode (cmos 0x07) ≡ t.mday
  pub mon : bcd_decode (cmos 0x08) ≡ t.mon + 1
  pub year : bcd_decode (cmos 0x09) + bcd_decode (cmos 0x32) * 100 ≡ t.year + 1900

month_table :
    holds_below 12 (λ k.
      (month_start (ytab true) k == month_start (ytab false) k + (if leb 2 k then 1 else 0))
      && (month_start (ytab false) k
          == month_start days_per_month k % 2 ^ 8 + (if leb 9 k then 256 else 0)))
    ≡ true
unfolding holds_below ytab
month_table = refl

month_facts :
    (k : ℕ)
    → k < 12
    → (month_start (ytab true) k ≡ month_start (ytab false) k + (if leb 2 k then 1 else 0))
      × (month_start (ytab false) k
          ≡ month_start days_per_month k % 2 ^ 8 + (if leb 9 k then 256 else 0))
month_facts k h = ground (
  arith,
  of_holds_below 12
      (λ k.
        (month_start (ytab true) k == month_start (ytab false) k + (if leb 2 k then 1 else 0))
        && (month_start (ytab false) k
            == month_start days_per_month k % 2 ^ 8 + (if leb 9 k then 256 else 0)))
      k month_table h,
)

get_elem?-lt : (xs : List ℕ) (i : ℕ) {x : ℕ} → get_elem? xs i ≡ some x → i < length xs
get_elem?-lt [] i e = absurd (ground arith)
get_elem?-lt (y ∷ ys) zero e = omega arith
get_elem?-lt (y ∷ ys) (suc i) e = omega (arith, get_elem?-lt ys i e)

length-ytab : (b : Bool) → length (ytab b) ≡ 12
unfolding ytab
length-ytab true = refl
length-ytab false = refl

-- The day of the year of a date, from the table of `get_time`.
start_of :
    (b : Bool) (k : ℕ)
    → k < 12
    → month_start (ytab b) k
      ≡ month_start days_per_month k % 2 ^ 8
        + (if leb 9 k then 256 else 0)
        + (if b && leb 2 k then 1 else 0)
start_of true k h = omega (arith, month_facts k h)
start_of false k h = omega (arith, month_facts k h)

-- What `get_time` reads of the date `t` of the time `time`.
pub record Read (time : ℕ) (t g : Tm) : Type 0 where
  pub clock : (g.sec ≡ t.sec) × (g.min ≡ t.min) × (g.hour ≡ t.hour)
  pub date : (g.mday ≡ t.mday) × (g.mon ≡ t.mon) × (g.year ≡ t.year)
  pub yday : g.yday + lost t + 1 ≡ t.yday
  pub mktime : (mktime g + lost t * secs_per_day) % 2 ^ 32 ≡ time

lost_seconds :
    (time clock days lost : ℕ)
    → time < 2 ^ 32
    → clock ≡ time % 86400
    → days + lost ≡ time / 86400
    → ((clock + 86400 * days) % 2 ^ 32 + lost * 86400) % 2 ^ 32 ≡ time
lost_seconds time clock days lost small e f = omega arith

module _ (cmos : ℕ → ℕ) (time : ℕ) (t : Tm) (c : Civil time t) (s : Shows cmos t) where
  mon_small : t.mon < 12
  mon_small =
      let (size, e, lt) = c.month.within in
      omega (
        arith,
        get_elem?-lt (ytab (leap_year (t.year + 1900))) t.mon e,
        length-ytab (leap_year (t.year + 1900)),
      )

  abbrev start : ℕ
  start = month_start days_per_month t.mon % 2 ^ 8

  yday_sum : start + lost t + t.mday ≡ t.yday
  yday_sum =
      omega (arith, start_of (leap_year (t.year + 1900)) t.mon mon_small, c.month.same, c.counted)

  -- The date as `get_time` fills it in.
  abbrev reading : Tm
  reading = record {
    sec = bcd_decode (cmos 0x00);
    min = bcd_decode (cmos 0x02);
    hour = bcd_decode (cmos 0x04);
    mday = bcd_decode (cmos 0x07);
    mon = (bcd_decode (cmos 0x08) + 2 ^ 32 - 1) % 2 ^ 32;
    year = (bcd_decode (cmos 0x09) + bcd_decode (cmos 0x32) * 100 + 2 ^ 32 - 1900) % 2 ^ 32;
    wday = 0;
    yday = (start + bcd_decode (cmos 0x07) + 2 ^ 32 - 1) % 2 ^ 32;
  }

  get_time-reading : get_time cmos ≡ some reading
  unfolding get_time
  get_time-reading =
      let mon : (bcd_decode (cmos 0x08) + 2 ^ 32 - 1) % 2 ^ 32 ≡ t.mon =
        omega (arith, s.mon, mon_small) in
      let whole : t.mon - 0 ≡ t.mon = omega arith in
      let sum : (0 + month_start days_per_month t.mon) % 2 ^ 8 ≡ start = omega arith in
      let months : add_months days_per_month ((bcd_decode (cmos 0x08) + 2 ^ 32 - 1) % 2 ^ 32) 0 0
          ≡ some start =
        rw mon (
          rw (whole, sum) at
            (add_months-start days_per_month t.mon 0 0 (omega arith) (omega (arith, mon_small))
              (omega (arith, mon_small)))) in
      rw (months, get_time)

  yday_small : t.yday ≤ 366
  yday_small = omega (arith, c.in_year, year_size_bounds (t.year + 1900))

  reading_yday : reading.yday + lost t + 1 ≡ t.yday
  reading_yday = rw s.mday (omega (arith, yday_sum, yday_small, c.counted))

  -- A date with the clock and the year of `t`, and a day of the year that has lost some days.
  mktime-lost :
      (g : Tm)
      → time < 2 ^ 32
      → (g.sec ≡ t.sec) × (g.min ≡ t.min) × (g.hour ≡ t.hour)
      → g.year ≡ t.year
      → g.yday + lost t + 1 ≡ t.yday
      → (mktime g + lost t * secs_per_day) % 2 ^ 32 ≡ time
  mktime-lost g small clock year yday =
      let days : ℕ = days_before (t.year - 70) + g.yday in
      let all : days + lost t ≡ time / 86400 = omega (arith, c.days, yday) in
      let e =
        mktime-days g days (omega (arith, year, c.since_1970)) (rw year refl)
          (omega (arith, all)) in
      rw (e, clock.0, clock.1, clock.2)
        (lost_seconds time (t.sec + 60 * t.min + 3600 * t.hour) days (lost t) small c.clock all)

  -- A clock that shows the date which `gmtime_r` makes of a time: `get_time` reads the date, but for the day of the
  -- year, which counts from 0 and lacks 256 days from October on and one after February in a leap year;
  -- `mktime` of it is the time less those days.
  pub get_time-Read : time < 2 ^ 32 → (g : Tm) × (get_time cmos ≡ some g) × Read time t g
  get_time-Read small = (
    reading,
    get_time-reading,
    record {
      clock = (s.sec, s.min, s.hour);
      date = (s.mday, omega (arith, s.mon, mon_small), year);
      yday = reading_yday;
      mktime = mktime-lost reading small (s.sec, s.min, s.hour) year reading_yday;
    },
  )
    where
      year : reading.year ≡ t.year
      year = omega (arith, s.year, c.in_year, c.days)
