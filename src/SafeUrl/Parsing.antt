-- ===== src/SafeUrl/Parsing.antt =====
-- src/core/safe-url.ts: v6Groups, the eight groups of a textual address of version 6. It is called
-- where `isIP` answers 6, so a group that `parseInt` reads has neither a sign nor a prefix.
use announcement_tool.Common.{
  ℕ, zero, suc, ◌+◌, ◌-◌, ◌*◌, ◌/◌, ◌%◌, Bool, true, false, ◌&&◌, not, List, [], ◌∷◌, ◌++◌, Option,
  none, some, Text, codes, split, is_blank, length, ltb, leb, ◌==◌, if◌then◌else◌,
}
use announcement_tool.SafeUrl.{Groups, v4_to_int}

abbrev hex_digit : ℕ → Option ℕ
hex_digit c =
    if leb b'0' c && leb c b'9'
    then some (c - b'0')
    else if leb b'a' c && leb c b'f'
    then some (c - b'a' + 10)
    else if leb b'A' c && leb c b'F'
    then some (c - b'A' + 10)
    else none

-- The leading hexadecimal digits, read on from `n`.
unfoldable pub hex_from : ℕ → Text → ℕ
hex_from n [] = n
hex_from n (c ∷ s) = elim (hex_digit c) [ none ↦ n | some d ↦ hex_from (n * 16 + d) s ]

-- parseInt(g, 16); `none` for NaN
unfoldable pub parse_hex : Text → Option ℕ
unfolding hex_from
parse_hex [] = none
parse_hex (c ∷ s) = elim (hex_digit c) [ none ↦ none | some d ↦ some (hex_from d s) ]

hex_unit : ℕ → ℕ
hex_unit d = if ltb d 10 then b'0' + d else b'a' + (d - 10)

hex_digits : ℕ → ℕ → Text
unfolding hex_unit
hex_digits zero n = []
hex_digits (suc f) n =
    let more = hex_digits f (n / 16) ++ hex_unit (n % 16) ∷ [] in
    if ltb n 16 then hex_unit n ∷ [] else more

-- n.toString(16), for at most 16 bits
unfoldable pub to_hex : ℕ → Text
unfolding hex_digits
to_hex n = hex_digits 4 n

-- The text up to and with its last colon, and the text after it.
unfoldable pub after_last_colon : Text → Option (Text × Text)
after_last_colon [] = none
after_last_colon (c ∷ s) = elim (after_last_colon s) [
  | some (h, t) ↦ some (c ∷ h, t)
  | none ↦ if c == b':' then some (c ∷ [], s) else none
]

abbrev all_digits : Text → Bool
all_digits [] = true
all_digits (c ∷ s) = leb b'0' c && leb c b'9' && all_digits s

abbrev is_digits : Text → Bool
is_digits s = not (is_blank s) && all_digits s

-- /^\d+\.\d+\.\d+\.\d+$/
abbrev is_dotted_quad : List Text → Bool
is_dotted_quad (a ∷ b ∷ c ∷ d ∷ []) = is_digits a && is_digits b && is_digits c && is_digits d
is_dotted_quad _ = false

-- A dotted tail becomes two groups.
unfoldable pub without_dotted_tail : Text → Text
unfolding to_hex after_last_colon
without_dotted_tail ip = elim (after_last_colon ip) [
  | none ↦ ip
  | some (head, tail) ↦
      let n = v4_to_int tail in
      if is_dotted_quad (split b'.' tail)
      then head ++ to_hex (n / 65536) ++ b':' ∷ to_hex (n % 65536)
      else ip
]

prepend : ℕ → List Text → List Text
prepend c [] = (c ∷ []) ∷ []
prepend c (w ∷ ws) = (c ∷ w) ∷ ws

-- s.split('::')
unfoldable pub split_double : Text → List Text
unfolding prepend
split_double [] = [] ∷ []
split_double (c ∷ []) = (c ∷ []) ∷ []
split_double (c ∷ d ∷ s) =
    let rest = split_double s in
    let next = split_double (d ∷ s) in
    if (c == b':') && (d == b':') then [] ∷ rest else prepend c next

-- half ? half.split(':') : []
abbrev groups_of : Text → List Text
groups_of half = if is_blank half then [] else split b':' half

zeros : ℕ → List Text
zeros zero = []
zeros (suc n) = codes "0" ∷ zeros n

parse_all : List Text → Option (List ℕ)
parse_all [] = some []
parse_all (g ∷ gs) = elim (parse_hex g) [
  | none ↦ none
  | some n ↦ elim (parse_all gs) [
    | none ↦ none
    | some ns ↦ if leb n 0xffff then some (n ∷ ns) else none
  ]
]

eight : List ℕ → Option Groups
eight (a ∷ b ∷ c ∷ d ∷ e ∷ f ∷ g ∷ h ∷ []) =
    some (record { g0 = a; g1 = b; g2 = c; g3 = d; g4 = e; g5 = f; g6 = g; g7 = h })
eight _ = none

parsed : List Text → Option Groups
unfolding parse_all eight
parsed texts = elim (parse_all texts) [ none ↦ none | some ns ↦ eight ns ]

-- `none` where the source returns undefined
unfoldable pub v6_groups : Text → Option Groups
unfolding without_dotted_tail split_double parsed zeros
v6_groups ip = elim (split_double (without_dotted_tail ip)) [
  | [] ↦ none
  | whole ∷ [] ↦ if length (groups_of whole) == 8 then parsed (groups_of whole) else none
  | left ∷ right ∷ [] ↦
      let head = groups_of left in
      let tail = groups_of right in
      if ltb 8 (length head + length tail)
      then none
      else parsed (head ++ zeros (8 - length head - length tail) ++ tail)
  | left ∷ right ∷ more ∷ rest ↦ none
]
