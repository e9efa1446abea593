-- ===== src/Announcements/Naming.antt =====
-- createDraft: the slug of a new announcement, its length and that it was free.
use announcement_tool.Common.{
  ℕ, zero, suc, ◌+◌, ◌≤◌, ◌<◌, ◌≡◌, sym, ◌∙◌, ◌⊎◌, inl, inr, Bool, true, false, List, ◌∷◌, none,
  some, some_inj, none-ne-some, arith, Text, text_eq, text_eq_iff, is_blank, decimal, length,
  length-append, length-decimal, In, some_of, some_of-In, In-some_of, ◌==◌, Bool-cases,
  Option-cases, false-ne-true, Result, ok, err, throw_if,
}
use announcement_tool.Types.{AnnouncementInput, Announcement, draft}
use announcement_tool.Store.{Row, Db, draft_created}
use announcement_tool.Slug.{slug_max}
use announcement_tool.Slug.Length.{length-make_slug}
use announcement_tool.Announcements.Error.{ApiError}
use announcement_tool.Announcements.Table.{conflicts, insert_row}
use announcement_tool.Announcements.Drafts.{
  candidate, slug_taken, free_slug, base_slug, insert_revision, create_draft, revision_row,
}

length-candidate : (base : Text) (i : ℕ) → i ≤ 20 → length (candidate base i) ≤ length base + 3
unfolding candidate
length-candidate base i h = elim (Bool-cases (i == 1)) [
  | inl e ↦ rw e (omega arith)
  | inr e ↦
      rw e (omega (arith, length-append base (b'-' ∷ decimal i), length-decimal i (omega arith)))
]

free_slug-some :
    (rounds i : ℕ) (base : Text) (rows : List Row) (slug : Text)
    → i + rounds ≤ 21
    → free_slug rounds i base rows ≡ some slug
    → (length slug ≤ length base + 3) × (slug_taken slug rows ≡ false)
unfolding free_slug
free_slug-some zero i base rows slug h e = absurd (none-ne-some e)
free_slug-some (suc rounds) i base rows slug h e =
    elim (Bool-cases (slug_taken (candidate base i) rows)) [
      | inl t ↦ free_slug-some rounds (i + 1) base rows slug (omega arith) (rw t at e)
      | inr t ↦
          let same : candidate base i ≡ slug = some_inj (rw t at e) in
          rw (← same) (length-candidate base i (omega arith), t)
    ]

free_slug-none :
    (rounds i : ℕ) (base : Text) (rows : List Row)
    → free_slug rounds i base rows ≡ none
    → (j : ℕ) → i ≤ j
    → j < i + rounds
    → slug_taken (candidate base j) rows ≡ true
unfolding free_slug
free_slug-none zero i base rows e j h k = absurd (omega arith)
free_slug-none (suc rounds) i base rows e j h k =
    elim (Bool-cases (slug_taken (candidate base i) rows)) [
      | inr t ↦ absurd (none-ne-some (sym (rw t at e)))
      | inl t ↦ elim (Bool-cases (i == j)) [
        | inl s ↦ let same : i ≡ j = ground arith in rw (← same) t
        | inr s ↦ free_slug-none rounds (i + 1) base rows (rw t at e) j (ground arith) (omega arith)
      ]
    ]

taken-In :
    (slug : Text) (rows : List Row)
    → slug_taken slug rows ≡ true
    → (r : Row) × In r rows × (r.slug ≡ slug)
unfolding slug_taken
taken-In slug rows h =
    let (r, m, e) = some_of-In (λ r. text_eq r.slug slug) rows h in
    (r, m, (text_eq_iff r.slug slug).0 e)

free_In :
    (slug : Text) (rows : List Row) (r : Row)
    → slug_taken slug rows ≡ false
    → In r rows
    → r.slug ≡ slug
    → ⊥
unfolding slug_taken
free_In slug rows r h m e =
    false-ne-true
      (sym h ∙ In-some_of (λ q. text_eq q.slug slug) rows r m ((text_eq_iff r.slug slug).1 e))

module _ (accepts : AnnouncementInput → Bool) (now : ℕ) (id : Text) (input : AnnouncementInput)
    (actor : Text) (db : Db) where
  -- What createDraft does about the name: see `create_draft-Named`.
  abbrev pub Named : Result ApiError (Announcement × Db) → Type 0
  Named (ok (a, db')) =
      (length a.slug ≤ 83) × ((r : Row) → In r db.announcements → r.slug ≡ a.slug → ⊥)
  Named (err e) =
      (accepts input ≡ false)
      ⊎ (((j : ℕ)
            → 1 ≤ j
            → j ≤ 20
            → (r : Row) × In r db.announcements × (r.slug ≡ candidate (base_slug now input) j))
          ⊎ ((r : Row) × In r db.announcements × (r.id ≡ id) × (r.revision ≡ 1)))

  length-base_slug :
      ((s : Text) → input.slug ≡ some s → length s ≤ slug_max)
      → length (base_slug now input) ≤ slug_max
  unfolding base_slug
  length-base_slug h = elim (Option-cases input.slug) [
    | inl e ↦ rw (e, base_slug) (length-make_slug now input.type input.title)
    | inr (s, e) ↦ elim (Bool-cases (is_blank s)) [
      | inl b ↦ rw (e, base_slug, b) (length-make_slug now input.type input.title)
      | inr b ↦ rw (e, base_slug, b) (h s e)
    ]
  ]

  conflict_key :
      (slug : Text) (r : Row)
      → slug_taken slug db.announcements ≡ false
      → In r db.announcements
      → conflicts (revision_row now id 1 slug input draft actor) r ≡ true
      → (r.id ≡ id) × (r.revision ≡ 1)
  conflict_key slug r free m h = elim (Bool-cases (text_eq r.slug slug)) [
    | inl e ↦ absurd (free_In slug db.announcements r free m ((text_eq_iff r.slug slug).0 e))
    | inr e ↦ ground (arith, text_eq_iff r.id id)
  ]

  insert_revision-Named :
      (slug : Text)
      → length slug ≤ 83
      → slug_taken slug db.announcements ≡ false
      → Named (insert_revision now id 1 slug input draft actor draft_created db)
  unfolding insert_revision insert_row
  insert_revision-Named slug h free =
      let new = revision_row now id 1 slug input draft actor in
      elim (Bool-cases (some_of (conflicts new) db.announcements)) [
        | inl e ↦
            let (r, m, k) = some_of-In (conflicts new) db.announcements e in
            rw (e, insert_row) (let (i, v) = conflict_key slug r free m k in inr (inr (r, m, i, v)))
        | inr e ↦ rw (e, insert_row) (h, λ r m. free_In slug db.announcements r free m)
      ]

  -- The announcement that createDraft makes has a slug of at most 83 units which no announcement had,
  -- if the slug that the input gives, where it gives one, has at most 80 units. It throws only where
  -- the schema refuses the input, where the slug and its variants with a number up to 20 are all
  -- taken, or where the identifier that was drawn is in use.
  pub create_draft-Named :
      ((s : Text) → input.slug ≡ some s → length s ≤ 80)
      → Named (create_draft accepts now id input actor db)
  unfolding create_draft throw_if
  create_draft-Named h = elim (Bool-cases (accepts input)) [
    | inr off ↦ rw (off, create_draft, throw_if) (inl off)
    | inl on ↦ elim (Option-cases (free_slug 20 1 (base_slug now input) db.announcements)) [
      | inl e ↦
          rw (on, create_draft, throw_if, e)
            (inr (
              inl λ j l u.
                taken-In (candidate (base_slug now input) j) db.announcements
                  (free_slug-none 20 1 (base_slug now input) db.announcements e j l (omega arith))))
      | inr (slug, e) ↦
          let (l, free) =
            free_slug-some 20 1 (base_slug now input) db.announcements slug (omega arith) e in
          rw (on, create_draft, throw_if, e)
            (insert_revision-Named slug (omega (arith, length-base_slug h)) free)
    ]
  ]
