-- ===== src/Slug.antt =====
-- src/core/slug.ts: the public path of an announcement, made from its type and title or typed by
-- the author.
pub mod Length
pub mod Shape
use announcement_tool.Common.{
  ℕ, Bool, true, false, ◌&&◌, ◌||◌, not, List, [], ◌∷◌, ◌++◌, Option, none, some, Text, codes,
  text_eq, is_blank, to_lower_case, trim, split, length, take, keep, reverse, leb, ltb, ◌==◌,
  if◌then◌else◌, year_month,
}
use announcement_tool.Types.{AnnouncementType, upgrade, governance}
use announcement_tool.Types

abbrev pub slug_max : ℕ
slug_max = 80

unfoldable pub type_text : AnnouncementType → Text
type_text upgrade = codes "upgrade"
type_text governance = codes "governance"
type_text Types.AnnouncementType.info = codes "info"

-- /[a-z0-9]/
abbrev pub is_word_unit : ℕ → Bool
is_word_unit c = leb b'a' c && leb c b'z' || leb b'0' c && leb c b'9'

-- s.replace(/[^a-z0-9]+/g, '-'), where `in_run` tells that the unit before was replaced.
unfoldable pub dash_runs : Bool → Text → Text
dash_runs in_run [] = []
dash_runs in_run (c ∷ s) =
    let word = c ∷ dash_runs false s in
    let rest = dash_runs true s in
    if is_word_unit c then word else if in_run then rest else b'-' ∷ rest

unfoldable pub drop_dashes : Text → Text
drop_dashes [] = []
drop_dashes (c ∷ s) = let rest = drop_dashes s in if c == b'-' then rest else c ∷ s

-- s.replace(/-+$/, '')
unfoldable pub drop_end_dashes : Text → Text
unfolding drop_dashes
drop_end_dashes s = reverse (drop_dashes (reverse s))

-- s.toLowerCase().replace(/[^a-z0-9]+/g, '-').replace(/^-+|-+$/g, '')
unfoldable pub dashed : Text → Text
unfolding dash_runs drop_end_dashes
dashed s = drop_end_dashes (drop_dashes (dash_runs false (to_lower_case s)))

-- words.split('-').filter(Boolean)
unfoldable pub title_words : Text → List Text
unfolding dashed
title_words title = keep (λ w. not (is_blank w)) (split b'-' (dashed title))

-- if (words[0] === type.toLowerCase()) words.shift()
unfoldable pub without_type : Text → List Text → List Text
without_type type [] = []
without_type type (w ∷ ws) = if text_eq w (to_lower_case type) then ws else w ∷ ws

-- out.join('-') with the stem before it: each word adds a hyphen and itself
unfoldable pub add_words : Text → List Text → Text
add_words slug [] = slug
add_words slug (w ∷ ws) =
    let longer = add_words (slug ++ b'-' ∷ w) ws in
    if ltb slug_max (length (slug ++ b'-' ∷ w)) then slug else longer

unfoldable pub make_slug : ℕ → AnnouncementType → Text → Text
unfolding type_text add_words without_type title_words
make_slug now type title =
    add_words (year_month now ++ b'-' ∷ type_text type)
      (take 5 (without_type (type_text type) (title_words title)))

-- The part of `s` before its last hyphen; `none` where there is no hyphen after the first place.
unfoldable pub before_last_dash : Text → Option Text
before_last_dash [] = none
before_last_dash (c ∷ s) = elim (before_last_dash s) [
  | some t ↦ some (c ∷ t)
  | none ↦ elim s [ [] ↦ none | d ∷ t ↦ if d == b'-' then some (c ∷ []) else none ]
]

unfoldable pub normalize_slug : Text → Text
unfolding dashed before_last_dash
normalize_slug raw =
    let s = dashed raw in
    let cut = take slug_max s in
    if leb (length s) slug_max
    then s
    else drop_end_dashes (elim (before_last_dash cut) [ none ↦ cut | some t ↦ t ])

pub data SlugError : Type 0 where
  required too_long bad_characters : SlugError

-- /^[a-z0-9]+(?:-[a-z0-9]+)*$/.test(s): `after_word` tells that the unit before was no hyphen.
unfoldable pub slug_shape : Bool → Text → Bool
slug_shape after_word [] = after_word
slug_shape after_word (c ∷ s) =
    let word = slug_shape true s in
    let hyphen = slug_shape false s in
    if is_word_unit c then word else if (c == b'-') && after_word then hyphen else false

unfoldable pub slug_error : Text → Option SlugError
unfolding slug_shape
slug_error raw =
    let s = trim raw in
    if is_blank s
    then some required
    else if ltb slug_max (length s)
    then some too_long
    else if slug_shape false s
    then none
    else some bad_characters
