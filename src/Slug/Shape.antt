-- ===== src/Slug/Shape.antt =====
-- normalizeSlug: what it returns is empty or a slug that the form accepts.
use announcement_tool.Common.{
  ℕ, zero, suc, ◌≡◌, refl, sym, ap, ◌∙◌, ◌⊎◌, inl, inr, Bool, true, false, ◌&&◌, not, [], ◌∷◌, ◌++◌,
  reverse, reverse-cons, reverse-append, none, some, none-ne-some, some_inj, arith, Text, length,
  take, leb, ◌==◌, Bool-cases, Option-cases, is_blank, if◌then◌else◌, to_lower_case,
}
use announcement_tool.Slug.{
  slug_max, is_word_unit, dash_runs, drop_dashes, drop_end_dashes, dashed, before_last_dash,
  normalize_slug, slug_shape,
}

-- Word units and hyphens, no two hyphens side by side, and none first where `after_dash`.
unfoldable adjoins : Bool → Text → Bool
adjoins after_dash [] = true
adjoins after_dash (c ∷ s) =
    let word = adjoins false s in
    let dash = adjoins true s in
    if is_word_unit c then word else (c == b'-') && not after_dash && dash

-- `drop_end_dashes` by one walk.
strip : Text → Text
strip [] = []
strip (c ∷ s) = let rest = strip s in if (c == b'-') && is_blank rest then [] else c ∷ rest

-- A unit that is not a word unit is a hyphen, after none, and the rest adjoins to it.
dash_first :
    (d : Bool) (c : ℕ) (rest : Bool)
    → ((c == b'-') && not d && rest) ≡ true
    → ((c == b'-') ≡ true) × (not d ≡ true) × (rest ≡ true)
dash_first d c rest h = ground arith

dash_runs-adjoins : (in_run : Bool) (s : Text) → adjoins in_run (dash_runs in_run s) ≡ true
unfolding adjoins dash_runs
dash_runs-adjoins in_run [] = refl
dash_runs-adjoins in_run (c ∷ s) = elim (Bool-cases (is_word_unit c)) [
  | inl w ↦ rw w (rw w (dash_runs-adjoins false s))
  | inr w ↦ rw w (elim (Bool-cases in_run) [
    | inl r ↦ rw r (dash_runs-adjoins true s)
    | inr r ↦ rw r (dash_runs-adjoins true s)
  ])
]

drop_dashes-adjoins :
    (d : Bool) (s : Text) → adjoins d s ≡ true → adjoins true (drop_dashes s) ≡ true
unfolding adjoins drop_dashes
drop_dashes-adjoins d [] h = refl
drop_dashes-adjoins d (c ∷ s) h = elim (Bool-cases (is_word_unit c)) [
  | inl w ↦ let other : (c == b'-') ≡ false = ground arith in rw other (rw w (rw w at h))
  | inr w ↦
      let (dash, first, rest) = dash_first d c (adjoins true s) (rw w at h) in
      rw dash (drop_dashes-adjoins true s rest)
]

strip-adjoins : (d : Bool) (s : Text) → adjoins d s ≡ true → adjoins d (strip s) ≡ true
unfolding adjoins strip
strip-adjoins d [] h = refl
strip-adjoins d (c ∷ s) h = elim (Bool-cases ((c == b'-') && is_blank (strip s))) [
  | inl e ↦ rw e refl
  | inr e ↦ rw e (elim (Bool-cases (is_word_unit c)) [
    | inl w ↦ rw w (strip-adjoins false s (rw w at h))
    | inr w ↦
        let (dash, first, rest) = dash_first d c (adjoins true s) (rw w at h) in
        rw w (rw (dash, first, strip-adjoins true s rest) refl)
  ])
]

take-adjoins : (d : Bool) (n : ℕ) (s : Text) → adjoins d s ≡ true → adjoins d (take n s) ≡ true
unfolding adjoins
take-adjoins d zero s h = refl
take-adjoins d (suc n) [] h = refl
take-adjoins d (suc n) (c ∷ s) h = elim (Bool-cases (is_word_unit c)) [
  | inl w ↦ rw w (take-adjoins false n s (rw w at h))
  | inr w ↦
      let (dash, first, rest) = dash_first d c (adjoins true s) (rw w at h) in
      rw w (rw (dash, first, take-adjoins true n s rest) refl)
]

strip-shape :
    (d : Bool) (s : Text)
    → adjoins d s ≡ true
    → (strip s ≡ []) ⊎ (slug_shape (not d) (strip s) ≡ true)
unfolding adjoins strip slug_shape
strip-shape d [] h = inl refl
strip-shape d (c ∷ s) h = elim (Bool-cases (is_word_unit c)) [
  | inl w ↦
      let other : (c == b'-') ≡ false = ground arith in
      inr
        (rw other (rw w (elim (strip-shape false s (rw w at h)) [ inl e ↦ rw e refl | inr k ↦ k ])))
  | inr w ↦
      let (dash, first, rest) = dash_first d c (adjoins true s) (rw w at h) in
      elim (strip-shape true s rest) [
        | inl e ↦ inl (rw (dash, e) refl)
        | inr k ↦ elim (Bool-cases (is_blank (strip s))) [
          | inl e ↦ inl (rw (dash, e) refl)
          | inr e ↦ inr (rw (dash, e) (rw (w, dash, first) k))
        ]
      ]
]

-- One more unit at the end, in reverse.
drop_dashes-append :
    (c : ℕ) (s : Text)
    → drop_dashes (s ++ c ∷ [])
      ≡ (if is_blank (drop_dashes s) then drop_dashes (c ∷ []) else drop_dashes s ++ c ∷ [])
unfolding drop_dashes
drop_dashes-append c [] = refl
drop_dashes-append c (d ∷ s) = elim (Bool-cases (d == b'-')) [
  | inl e ↦ rw e (drop_dashes-append c s)
  | inr e ↦ rw e refl
]

reverse-blank : (s : Text) → is_blank (reverse s) ≡ is_blank s
reverse-blank [] = refl
reverse-blank (c ∷ s) = ap is_blank (reverse-cons c s) ∙ blank-append (reverse s) c
  where
    blank-append : (t : Text) (d : ℕ) → is_blank (t ++ d ∷ []) ≡ false
    blank-append [] d = refl
    blank-append (e ∷ t) d = refl

blank-eq : (s : Text) → is_blank s ≡ true → s ≡ []
blank-eq [] h = refl
blank-eq (c ∷ s) h = cc

drop_end_dashes-strip : (s : Text) → drop_end_dashes s ≡ strip s
unfolding drop_end_dashes strip drop_dashes
drop_end_dashes-strip [] = refl
drop_end_dashes-strip (c ∷ s) =
    let ih = drop_end_dashes-strip s in
    ap (λ (t : Text). reverse (drop_dashes t)) (reverse-cons c s)
    ∙ ap (λ (t : Text). reverse t) (drop_dashes-append c (reverse s))
    ∙ elim (Bool-cases (is_blank (drop_dashes (reverse s)))) [
      | inl e ↦
          let none_left : strip s ≡ [] =
            sym ih ∙ ap (λ (t : Text). reverse t) (blank-eq (drop_dashes (reverse s)) e) in
          rw (e, none_left)
            (elim (Bool-cases (c == b'-')) [ inl d ↦ rw d refl | inr d ↦ rw d refl ])
      | inr e ↦
          let some_left : is_blank (strip s) ≡ false =
            ap is_blank (sym ih) ∙ reverse-blank (drop_dashes (reverse s)) ∙ e in
          rw (e, some_left)
            (reverse-append (drop_dashes (reverse s)) (c ∷ []) ∙ elim (Bool-cases (c == b'-')) [
              | inl d ↦ rw d (ap (λ (t : Text). c ∷ t) ih)
              | inr d ↦ rw d (ap (λ (t : Text). c ∷ t) ih)
            ])
    ]

abbrev pub IsSlug : Text → Type 0
IsSlug s = (s ≡ []) ⊎ (slug_shape false s ≡ true)

drop_end_dashes-IsSlug : (s : Text) → adjoins true s ≡ true → IsSlug (drop_end_dashes s)
drop_end_dashes-IsSlug s h = rw (drop_end_dashes-strip s) (strip-shape true s h)

dashed-adjoins : (raw : Text) → adjoins true (dashed raw) ≡ true
unfolding dashed
dashed-adjoins raw =
    let runs = dash_runs false (to_lower_case raw) in
    rw (drop_end_dashes-strip (drop_dashes runs)) (
      strip-adjoins true (drop_dashes runs)
        (drop_dashes-adjoins false runs (dash_runs-adjoins false (to_lower_case raw))))

dashed-IsSlug : (raw : Text) → IsSlug (dashed raw)
unfolding dashed
dashed-IsSlug raw =
    let runs = dash_runs false (to_lower_case raw) in
    drop_end_dashes-IsSlug (drop_dashes runs)
      (drop_dashes-adjoins false runs (dash_runs-adjoins false (to_lower_case raw)))

one_unit : (d : Bool) (c : ℕ) (s : Text) → adjoins d (c ∷ s) ≡ true → adjoins d (c ∷ []) ≡ true
unfolding adjoins
one_unit d c s h = elim (Bool-cases (is_word_unit c)) [
  | inl w ↦ rw w refl
  | inr w ↦
      let (dash, first, rest) = dash_first d c (adjoins true s) (rw w at h) in
      rw w (rw (dash, first) refl)
]

longer :
    (d : Bool) (c : ℕ) (s t : Text)
    → adjoins d (c ∷ s) ≡ true
    → ((e : Bool) → adjoins e s ≡ true → adjoins e t ≡ true)
    → adjoins d (c ∷ t) ≡ true
unfolding adjoins
longer d c s t h k = elim (Bool-cases (is_word_unit c)) [
  | inl w ↦ rw w (k false (rw w at h))
  | inr w ↦
      let (dash, first, rest) = dash_first d c (adjoins true s) (rw w at h) in
      rw w (rw (dash, first, k true rest) refl)
]

before_last_dash-adjoins :
    (d : Bool) (s t : Text) → adjoins d s ≡ true → before_last_dash s ≡ some t → adjoins d t ≡ true
unfolding before_last_dash
before_last_dash-adjoins d [] t h e = cc
before_last_dash-adjoins d (c ∷ s) t h e = elim (Option-cases (before_last_dash s)) [
  | inr (u, f) ↦
      let same : c ∷ u ≡ t = some_inj (rw f at e) in
      rw (← same) (longer d c s u h (λ b k. before_last_dash-adjoins b s u k f))
  | inl f ↦ last_cut d c s t h (rw f at e)
]
  where
    last_cut :
        (d : Bool) (c : ℕ) (s t : Text)
        → adjoins d (c ∷ s) ≡ true
        → (elim s [ [] ↦ none | b ∷ r ↦ if b == b'-' then some (c ∷ []) else none ]) ≡ some t
        → adjoins d t ≡ true
    last_cut d c [] t h e = cc
    last_cut d c (b ∷ s) t h e = elim (Bool-cases (b == b'-')) [
      | inl k ↦ let same : c ∷ [] ≡ t = some_inj (rw k at e) in rw (← same) (one_unit d c (b ∷ s) h)
      | inr k ↦ absurd (none-ne-some (rw k at e))
    ]

-- What normalisation makes of any text is empty, or it has the form that the slug check asks for:
-- words of lowercase letters and digits, with single hyphens between them.
pub normalize_slug-IsSlug : (raw : Text) → IsSlug (normalize_slug raw)
unfolding normalize_slug
normalize_slug-IsSlug raw =
    let cut = take slug_max (dashed raw) in
    let ok = take-adjoins true slug_max (dashed raw) (dashed-adjoins raw) in
    elim (Bool-cases (leb (length (dashed raw)) slug_max)) [
      | inl short ↦ rw short (dashed-IsSlug raw)
      | inr long ↦ rw long (elim (Option-cases (before_last_dash cut)) [
        | inl e ↦ rw e (drop_end_dashes-IsSlug cut ok)
        | inr (t, e) ↦ rw e (drop_end_dashes-IsSlug t (before_last_dash-adjoins true cut t ok e))
      ])
    ]
