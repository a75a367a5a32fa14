-- ===== src/Time/Clock.antt =====
-- src/kernel/drv/hwtime/hwtime.c: `get_time` reads the date from the CMOS clock. `cmos` stands for
-- `cmos_read`, which goes to ports of the machine: the byte of a register, the same in each read.
pub mod Reading
use lizarx.Prelude.{
  ℕ, zero, suc, ◌+◌, ◌-◌, ◌*◌, ◌/◌, ◌%◌, ◌^◌, false, Option, none, some, List, [], ◌∷◌, ltb,
  if◌then◌else◌,
}
use lizarx.Time.{Tm, ytab}

-- BCD_DECODE of a byte: the low half and ten times the high half.
abbrev pub bcd_decode : ℕ → ℕ
bcd_decode x = x % 16 + 10 * (x / 16 % 16)

-- `days_per_month`
abbrev pub days_per_month : List ℕ
days_per_month = 31 ∷ 28 ∷ 31 ∷ 30 ∷ 31 ∷ 30 ∷ 31 ∷ 31 ∷ 30 ∷ 31 ∷ 30 ∷ 31 ∷ []

-- The loop that adds up the months before `mon`, with `i` and `yday` of type `uint8_t`; `none` if it
-- reads past the table.
unfoldable pub add_months : List ℕ → ℕ → ℕ → ℕ → Option ℕ
add_months [] mon i yday = if ltb i mon then none else some yday
add_months (size ∷ sizes) mon i yday =
    let rest = add_months sizes mon ((i + 1) % 2 ^ 8) ((yday + size) % 2 ^ 8) in
    if ltb i mon then rest else some yday

-- `get_time`
unfoldable pub get_time : (ℕ → ℕ) → Option Tm
unfolding add_months
get_time cmos =
    let mday = bcd_decode (cmos 0x07) in
    let mon = (bcd_decode (cmos 0x08) + 2 ^ 32 - 1) % 2 ^ 32 in
    elim (add_months days_per_month mon 0 0) [
      | none ↦ none
      | some yday ↦ some (record {
        sec = bcd_decode (cmos 0x00);
        min = bcd_decode (cmos 0x02);
        hour = bcd_decode (cmos 0x04);
        mday = mday;
        mon = mon;
        year = (bcd_decode (cmos 0x09) + bcd_decode (cmos 0x32) * 100 + 2 ^ 32 - 1900) % 2 ^ 32;
        wday = 0;
        yday = (yday + mday + 2 ^ 32 - 1) % 2 ^ 32;
      })
    ]
