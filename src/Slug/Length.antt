-- ===== src/Slug/Length.antt =====
-- makeSlug and normalizeSlug: the length of what they return.
use announcement_tool.Common.{
  ℕ, suc, ◌≤◌, ◌≡◌, refl, ap, ◌∙◌, inl, inr, List, [], ◌∷◌, ◌++◌, reverse, reverse-cons, none,
  none-ne-some, some_inj, some, arith, Text, length, length-append, length-take, take, ltb, leb,
  ◌==◌, Bool-cases, Option-cases, ltb-false→le, leb→le, if◌then◌else◌, year_month,
}
use announcement_tool.Types.{AnnouncementType, upgrade, governance}
use announcement_tool.Types
use announcement_tool.Slug.{
  slug_max, type_text, add_words, make_slug, normalize_slug, dashed, drop_dashes, drop_end_dashes,
  before_last_dash, without_type, title_words,
}

length-add_words :
    (slug : Text) (words : List Text)
    → length slug ≤ slug_max
    → length (add_words slug words) ≤ slug_max
unfolding add_words
length-add_words slug [] h = h
length-add_words slug (w ∷ ws) h = elim (Bool-cases (ltb slug_max (length (slug ++ b'-' ∷ w)))) [
  | inl long ↦ rw long h
  | inr short ↦ rw short (length-add_words (slug ++ b'-' ∷ w) ws (ltb-false→le _ _ short))
]

length-year_month : (now : ℕ) → length (year_month now) ≡ 7
unfolding year_month
length-year_month now = refl

length-type_text : (type : AnnouncementType) → length (type_text type) ≤ 10
unfolding type_text
length-type_text upgrade = omega arith
length-type_text governance = omega arith
length-type_text Types.AnnouncementType.info = omega arith

length-reverse : (s : Text) → length (reverse s) ≡ length s
length-reverse [] = refl
length-reverse (c ∷ s) =
    ap (λ (t : Text). length t) (reverse-cons c s)
    ∙ omega (arith, length-append (reverse s) (c ∷ []), length-reverse s)

length-drop_dashes : (s : Text) → length (drop_dashes s) ≤ length s
unfolding drop_dashes
length-drop_dashes [] = omega arith
length-drop_dashes (c ∷ s) = ground (arith, length-drop_dashes s)

length-drop_end_dashes : (s : Text) → length (drop_end_dashes s) ≤ length s
unfolding drop_end_dashes
length-drop_end_dashes s = omega (
  arith,
  length-reverse s,
  length-drop_dashes (reverse s),
  length-reverse (drop_dashes (reverse s)),
)

last_dash :
    (c : ℕ) (s t : Text)
    → (elim s [ [] ↦ none | d ∷ r ↦ if d == b'-' then some (c ∷ []) else none ]) ≡ some t
    → length t ≤ suc (length s)
last_dash c [] t e = cc
last_dash c (d ∷ s) t e = elim (Bool-cases (d == b'-')) [
  | inl h ↦ let same : c ∷ [] ≡ t = some_inj (rw h at e) in rw (← same) (omega arith)
  | inr h ↦ absurd (none-ne-some (rw h at e))
]

length-before_last_dash : (s t : Text) → before_last_dash s ≡ some t → length t ≤ length s
unfolding before_last_dash
length-before_last_dash [] t e = cc
length-before_last_dash (c ∷ s) t e = elim (Option-cases (before_last_dash s)) [
  | inr (u, h) ↦
      let same : c ∷ u ≡ t = some_inj (rw h at e) in
      rw (← same) (omega (arith, length-before_last_dash s u h))
  | inl h ↦ last_dash c s t (rw h at e)
]

-- The slug that makeSlug makes from a title has at most 80 units.
pub length-make_slug :
    (now : ℕ) (type : AnnouncementType) (title : Text)
    → length (make_slug now type title) ≤ slug_max
unfolding make_slug
length-make_slug now type title =
    length-add_words (year_month now ++ b'-' ∷ type_text type)
      (take 5 (without_type (type_text type) (title_words title)))
      (omega (
        arith,
        length-append (year_month now) (b'-' ∷ type_text type),
        length-year_month now,
        length-type_text type,
      ))

-- Text that an author types is normalised to at most 80 units.
pub length-normalize_slug : (raw : Text) → length (normalize_slug raw) ≤ slug_max
unfolding normalize_slug
length-normalize_slug raw =
    let cut = take slug_max (dashed raw) in
    let cut_length = length-take slug_max (dashed raw) in
    elim (Bool-cases (leb (length (dashed raw)) slug_max)) [
      | inl short ↦ rw short (leb→le _ _ short)
      | inr long ↦ rw long (elim (Option-cases (before_last_dash cut)) [
        | inl e ↦ rw e (omega (arith, length-drop_end_dashes cut, cut_length))
        | inr (t, e) ↦
            rw e
              (omega (arith, length-drop_end_dashes t, length-before_last_dash cut t e, cut_length))
      ])
    ]
