-- ===== src/Dates.antt =====
-- src/core/datetime.ts (`utcInputToIso`): a typed date and time, read as UTC.
use announcement_tool.Common.{
  ℕ, zero, suc, ◌+◌, ◌-◌, ◌*◌, ◌/◌, ◌%◌, ◌&&◌, List, [], ◌∷◌, ◌++◌, Option, none, some, Text, codes,
  trim, leb, ◌==◌, two_digits, four_digits, civil_from_march, march_from_month, if◌then◌else◌,
}

-- The items of INPUT_RE: some digits, or one unit.
pub data Item : Type 0 where
  digits unit : ℕ → Item

read_digits : ℕ → ℕ → Text → Option (ℕ × Text)
read_digits zero n s = some (n, s)
read_digits (suc k) n [] = none
read_digits (suc k) n (c ∷ s) =
    let rest = read_digits k (n * 10 + (c - b'0')) s in
    if leb b'0' c && leb c b'9' then rest else none

abbrev with_number : ℕ → Option (List ℕ × Text) → Option (List ℕ × Text)
with_number n none = none
with_number n (some (ns, s)) = some (n ∷ ns, s)

unfoldable pub read_items : List Item → Text → Option (List ℕ × Text)
unfolding read_digits
read_items [] s = some ([], s)
read_items (unit c ∷ items) [] = none
read_items (unit c ∷ items) (d ∷ s) = let rest = read_items items s in if c == d then rest else none
read_items (digits k ∷ items) s = elim (read_digits k 0 s) [
  | none ↦ none
  | some (n, t) ↦ with_number n (read_items items t)
]

abbrev pub minute_items : List Item
minute_items =
    digits 4
    ∷ unit b'-'
    ∷ digits 2
    ∷ unit b'-'
    ∷ digits 2
    ∷ unit b'T'
    ∷ digits 2
    ∷ unit b':'
    ∷ digits 2
    ∷ []

abbrev pub second_items : List Item
second_items = unit b':' ∷ digits 2 ∷ []

abbrev read_seconds : Text → Option ℕ
read_seconds [] = some 0
read_seconds (c ∷ s) = elim (read_items second_items (c ∷ s)) [
  | some (n ∷ [], []) ↦ some n
  | _ ↦ none
]

-- `Date.UTC` of the components, in seconds since 0000-03-01, read back: the same components, or none.
unfoldable pub checked_iso : ℕ → ℕ → ℕ → ℕ → ℕ → ℕ → Option Text
unfolding civil_from_march march_from_month
checked_iso year month day hour minute second =
    let months = year * 12 + month - 1 in
    let days = march_from_month (months / 12) (months % 12) + day - 1 in
    let total = days * 86_400 + hour * 3_600 + minute * 60 + second in
    let d = civil_from_march (total / 86_400) in
    if leb 100 year
      && (d.year == year)
      && (d.month == month)
      && (d.day == day)
      && (total / 3_600 % 24 == hour)
      && (total / 60 % 60 == minute)
      && (total % 60 == second)
    then some (
        four_digits year
        ++ b'-'
          ∷ (two_digits month
              ++ b'-'
                ∷ (two_digits day
                    ++ b'T'
                      ∷ (two_digits hour
                          ++ b':'
                            ∷ (two_digits minute ++ b':' ∷ (two_digits second ++ codes ".000Z"))))))
    else none

unfoldable pub utc_input_to_iso : Text → Option Text
unfolding read_items checked_iso
utc_input_to_iso value = elim (read_items minute_items (trim value)) [
  | some (year ∷ month ∷ day ∷ hour ∷ minute ∷ [], rest) ↦ elim (read_seconds rest) [
    | none ↦ none
    | some second ↦ checked_iso year month day hour minute second
  ]
  | _ ↦ none
]
