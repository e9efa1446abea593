-- ===== src/Common/Calendar.antt =====
-- The part of JavaScript's `Date` that the program uses, for instants from the epoch on: the
-- proleptic Gregorian calendar in UTC.
use Prim.Native.Nat.{ℕ, ◌+◌, ◌-◌, ◌*◌, ◌/◌, ◌%◌}
use mathlib.Core.List.{◌∷◌, [], ◌++◌}
use announcement_tool.Common.Tests.{ltb, leb, if◌then◌else◌}
use announcement_tool.Common.Strings.{Text}

-- String(n).padStart(2, '0'), and the same for four places
abbrev pub two_digits : ℕ → Text
two_digits n = (b'0' + n / 10 % 10) ∷ (b'0' + n % 10) ∷ []

abbrev pub four_digits : ℕ → Text
four_digits n = (b'0' + n / 1000 % 10) ∷ (b'0' + n / 100 % 10) ∷ two_digits n

pub record CivilDate : Type 0 where
  pub year : ℕ
  pub month : ℕ
  pub day : ℕ

-- The date of a number of days since 0000-03-01, in eras of 400 years.
unfoldable pub civil_from_march : ℕ → CivilDate
civil_from_march z =
    let era = z / 146097 in
    let doe = z % 146097 in
    let yoe = (doe + doe / 36524 - doe / 1460 - doe / 146096) / 365 in
    let doy = doe - (365 * yoe + yoe / 4 - yoe / 100) in
    let mp = (5 * doy + 2) / 153 in
    let month : ℕ = if ltb mp 10 then mp + 3 else mp - 9 in
    record {
      year = yoe + era * 400 + (if leb month 2 then 1 else 0);
      month = month;
      day = doy - (153 * mp + 2) / 5 + 1;
    }

-- Days since 1970-01-01
unfoldable pub civil_from_days : ℕ → CivilDate
unfolding civil_from_march
civil_from_days days = civil_from_march (days + 719468)

-- Days from 0000-03-01 to the first of a month, which is counted from 0.
unfoldable pub march_from_month : ℕ → ℕ → ℕ
march_from_month year month =
    let y : ℕ = if ltb month 2 then year - 1 else year in
    let mp = (month + 10) % 12 in 365 * y + y / 4 - y / 100 + y / 400 + (153 * mp + 2) / 5

-- date.toISOString().slice(0, 7), for a year of four digits
unfoldable pub year_month : ℕ → Text
unfolding civil_from_days
year_month ms =
    let d = civil_from_days (ms / 86_400_000) in four_digits d.year ++ b'-' ∷ two_digits d.month
