-- ===== src/Tests/Submitting.antt =====
-- Runs of the compose form: its dates, and the input that it says.
use announcement_tool.Common.{
  ◌≡◌, refl, [], ◌∷◌, none, some, codes, trim, split, to_lower_case, includes, text_eq,
  civil_from_march, march_from_month,
}
use announcement_tool.Dates.{utc_input_to_iso, read_items, checked_iso}
use announcement_tool.Forms.{parse_roles, normalize_newlines}

leap_day : utc_input_to_iso (codes " 2028-02-29T12:30") ≡ some (codes "2028-02-29T12:30:00.000Z")
unfolding utc_input_to_iso read_items checked_iso civil_from_march march_from_month trim
leap_day = refl

-- No other day is stored in the place of one that the calendar does not have.
no_leap_day : utc_input_to_iso (codes "2027-02-29T12:30:05") ≡ none
unfolding utc_input_to_iso read_items checked_iso civil_from_march march_from_month trim
no_leap_day = refl

no_month : utc_input_to_iso (codes "2027-00-10T12:30") ≡ none
unfolding utc_input_to_iso read_items checked_iso civil_from_march march_from_month trim
no_month = refl

roles : parse_roles (codes "Prover, , sequencer,prover") ≡ codes "prover" ∷ codes "sequencer" ∷ []
unfolding parse_roles split trim to_lower_case includes text_eq
roles = refl

newlines : normalize_newlines (65 ∷ 13 ∷ 10 ∷ 13 ∷ 66 ∷ 10 ∷ []) ≡ 65 ∷ 10 ∷ 10 ∷ 66 ∷ []
unfolding normalize_newlines trim
newlines = refl
