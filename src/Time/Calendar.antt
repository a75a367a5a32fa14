-- ===== src/Time/Calendar.antt =====
-- The loops of `gmtime_r` end, and find the year and the month of a day.
use lizarx.Prelude.{
  ℕ, zero, suc, ◌+◌, ◌-◌, ◌*◌, ◌/◌, ◌%◌, ◌≤◌, ◌<◌, ◌≡◌, refl, not, ◌&&◌, ◌||◌, get_elem?, ap, some,
  List, [], ◌∷◌, leb, ◌==◌, arith, Bool-cases, inl, inr,
}
use lizarx.Time.{leap_year, year_size, ytab, years, months}

-- The days from the start of 1970 to the start of the year `n` years later, by the Gregorian rule.
abbrev pub days_before : ℕ → ℕ
days_before n = 365 * n + (n + 1) / 4 + (n + 369) / 400 - (n + 69) / 100

days_before-step : (n : ℕ) → days_before (n + 1) ≡ days_before n + year_size (1970 + n)
unfolding year_size
days_before-step n = ground arith

pub year_size_bounds : (y : ℕ) → (365 ≤ year_size y) × (year_size y ≤ 366)
unfolding year_size
year_size_bounds y = ground arith

-- What the loop over the years returns.
pub record YearOf (n dayno d m : ℕ) : Type 0 where
  pub same : days_before n + dayno ≡ days_before m + d
  pub within : d < year_size (1970 + m)
  pub later : n ≤ m

pub years-YearOf :
    (fuel dayno n : ℕ)
    → dayno < fuel
    → (d : ℕ) × (m : ℕ) × (years fuel dayno (1970 + n) ≡ some (d, 1970 + m)) × YearOf n dayno d m
unfolding years
years-YearOf zero dayno n h = absurd (omega arith)
years-YearOf (suc fuel) dayno n h = elim (Bool-cases (leb (year_size (1970 + n)) dayno)) [
  | inl more ↦
      let b : (365 ≤ year_size (1970 + n)) × (year_size (1970 + n) ≤ dayno) =
        ((year_size_bounds (1970 + n)).0, ground arith) in
      let (d, m, e, y) = years-YearOf fuel (dayno - year_size (1970 + n)) (n + 1) (omega arith) in
      let next : 1970 + n + 1 ≡ 1970 + (n + 1) = omega arith in
      (
        d,
        m,
        rw (more, next) e,
        record {
          same = omega (arith, y.same, days_before-step n);
          within = y.within;
          later = omega (arith, y.later);
        },
      )
  | inr done ↦
      (dayno, n, rw done, record { same = refl; within = ground arith; later = omega arith })
]

-- The days of the first `mon` months of a row.
abbrev pub month_start : List ℕ → ℕ → ℕ
month_start [] mon = 0
month_start (size ∷ sizes) zero = 0
month_start (size ∷ sizes) (suc mon) = size + month_start sizes mon

-- What the loop over the months returns: the day lies in the month.
pub record MonthOf (sizes : List ℕ) (dayno d k : ℕ) : Type 0 where
  pub same : month_start sizes k + d ≡ dayno
  pub within : (size : ℕ) × (get_elem? sizes k ≡ some size) × (d < size)

abbrev pub sum : List ℕ → ℕ
sum [] = 0
sum (x ∷ xs) = x + sum xs

pub months-MonthOf :
    (sizes : List ℕ) (dayno mon : ℕ)
    → dayno < sum sizes
    → (d : ℕ) × (k : ℕ) × (months sizes dayno mon ≡ some (d, mon + k)) × MonthOf sizes dayno d k
unfolding months
months-MonthOf [] dayno mon h = absurd (omega arith)
months-MonthOf (size ∷ sizes) dayno mon h = elim (Bool-cases (leb size dayno)) [
  | inl more ↦
      let le : size ≤ dayno = ground arith in
      let (d, k, e, m) = months-MonthOf sizes (dayno - size) (mon + 1) (omega arith) in
      let next : mon + 1 + k ≡ mon + suc k = omega arith in
      (d, suc k, rw (more, ← next) e, record { same = omega (arith, m.same); within = m.within })
  | inr done ↦ (
    dayno,
    0,
    rw done (ap (λ m. some (dayno, m)) (omega arith)),
    record { same = omega arith; within = (size, refl, ground arith) },
  )
]

sum-ytab : (y : ℕ) → sum (ytab (leap_year y)) ≡ year_size y
unfolding ytab year_size leap_year
sum-ytab y = elim (Bool-cases (y % 4 == 0 && (not (y % 100 == 0) || y % 400 == 0))) [
  | inl e ↦ rw e
  | inr e ↦ rw e
]

-- The months of the year of the day are found.
pub months-year :
    (y dayno : ℕ)
    → dayno < year_size y
    → (d : ℕ) × (k : ℕ) × (months (ytab (leap_year y)) dayno 0 ≡ some (d, k))
      × MonthOf (ytab (leap_year y)) dayno d k
months-year y dayno h =
    let (d, k, e, m) = months-MonthOf (ytab (leap_year y)) dayno 0 (rw (sum-ytab y) h) in
    let z : 0 + k ≡ k = omega arith in (d, k, rw z at e, m)
