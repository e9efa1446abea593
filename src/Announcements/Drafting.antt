-- ===== src/Announcements/Drafting.antt =====
-- createDraft and reviseDraft keep the invariant.
use announcement_tool.Common.{
  ℕ, ◌+◌, ◌≤◌, ◌<◌, ◌≡◌, refl, sym, ap, ◌∙◌, inl, inr, Bool, false, List, [], ◌∷◌, ◌++◌, some,
  arith, Text, text_eq_iff, In, In-append_left, In-append_right, Bool-cases, Option-cases, some_of,
  ltb, ltb→lt, ltb-false→le, false-ne-true, Result, ◌>>=◌,
}
use announcement_tool.Types.{AnnouncementInput, draft}
use announcement_tool.Store.{Row, Db}
use announcement_tool.Announcements.Error.{ApiError}
use announcement_tool.Announcements.Table.{select_latest, insert_row, conflicts}
use announcement_tool.Announcements.Keys.{Absent, Absent-In, select_latest-In}
use announcement_tool.Announcements.Updates.{UniqueKeys-eq}
use announcement_tool.Announcements.Drafts.{
  insert_revision, free_slug, base_slug, create_draft, revise_draft,
}
use announcement_tool.Announcements.Ensures.{Ensures, Ensures-select, Ensures-throw_if}
use announcement_tool.Announcements.Invariant.{IsSound}
use announcement_tool.Announcements.Rules.{IsLatest-select, insert-Inv}
use announcement_tool.Announcements.Evidence.{Grows-append, FourEyes-draft}
use announcement_tool.Announcements.Soundness.{SoundAfter, SoundState}

Absent-conflicts :
    (new : Row) (rows : List Row)
    → some_of (conflicts new) rows ≡ false
    → Absent new.id new.revision rows
Absent-conflicts new [] h = tt
Absent-conflicts new (r ∷ rows) h = (ground arith, Absent-conflicts new rows (ground arith))

-- An insert throws, or its key was free.
pub Ensures-insert :
    {A : Type 0} (P : A → Db → Type 0) (new : Row) (db : Db)
    (rest : Row × Db → Result ApiError (A × Db))
    → (Absent new.id new.revision db.announcements
        → Ensures P (rest (new, record db { announcements = db.announcements ++ new ∷ [] })))
    → Ensures P (insert_row new db >>= rest)
unfolding insert_row
Ensures-insert P new db rest h = elim (Bool-cases (some_of (conflicts new) db.announcements)) [
  | inl e ↦ rw (e, insert_row) tt
  | inr e ↦ rw (e, insert_row) (h (Absent-conflicts new db.announcements e))
]

module _ (accepts : AnnouncementInput → Bool) (now : ℕ) (id : Text) (input : AnnouncementInput)
    (actor : Text) (db : Db) (inv : IsSound db) where
  -- Where no first revision of `id` stands, no row of it does.
  unused : (s : Row) → Absent id 1 db.announcements → In s db.announcements → ¬ (s.id ≡ id)
  unused s absent m e =
      let (f, mf, i, v) = inv.first s m in
      false-ne-true (
        sym (Absent-In id 1 db.announcements f absent mf)
        ∙ ground (arith, text_eq_iff f.id id, i ∙ e))

  pub create_draft-IsSound : SoundAfter (create_draft accepts now id input actor db)
  unfolding create_draft insert_revision
  create_draft-IsSound = Ensures-throw_if SoundState _ _ _ λ accepted.
      elim (Option-cases (free_slug 20 1 (base_slug now input) db.announcements)) [
        | inl e ↦ rw e tt
        | inr (slug, e) ↦ rw e (
            Ensures-insert SoundState _ db _ λ absent.
              insert-Inv _ inv (λ s m k. absurd (unused s absent m k)) absent
                (_, In-append_right _ db.announcements _ (inl refl), refl, refl)
                (Grows-append db.audit_log _) refl (FourEyes-draft _ refl))
      ]

  -- Under the guard of `reviseDraft` every row of the announcement is an earlier draft.
  before :
      (prev s : Row)
      → select_latest id db.announcements ≡ some prev
      → prev.status ≡ draft
      → In s db.announcements
      → s.id ≡ id
      → (s.revision < prev.revision + 1) × (s.status ≡ draft)
  before prev s e d m k =
      let (mp, ip) = select_latest-In id db.announcements prev e in
      let i : s.id ≡ prev.id = k ∙ sym ip in
      let le : s.revision ≤ prev.revision = IsLatest-select id db.announcements prev e s m i in
      elim (Bool-cases (ltb s.revision prev.revision)) [
        | inl h ↦ (omega arith, inv.others s prev m mp i (ltb→lt _ _ h))
        | inr h ↦
            let ge : prev.revision ≤ s.revision = ltb-false→le _ _ h in
            let same : s ≡ prev =
              UniqueKeys-eq db.announcements prev s inv.keys mp m
                (ground (arith, text_eq_iff s.id prev.id)) in
            (omega arith, ap (λ (x : Row). x.status) same ∙ d)
      ]

  first_of :
      (prev new : Row)
      → select_latest id db.announcements ≡ some prev
      → (s : Row) × In s (db.announcements ++ new ∷ []) × (s.id ≡ id) × (s.revision ≡ 1)
  first_of prev new e =
      let (mp, ip) = select_latest-In id db.announcements prev e in
      let (f, mf, i, v) = inv.first prev mp in
      (f, In-append_left f db.announcements (new ∷ []) mf, i ∙ ip, v)

  pub revise_draft-IsSound : SoundAfter (revise_draft accepts now id input actor db)
  unfolding revise_draft insert_revision
  revise_draft-IsSound = Ensures-throw_if SoundState _ _ _ λ accepted.
      Ensures-select SoundState id db _ λ prev e. Ensures-throw_if SoundState _ _ _ λ is_draft.
        Ensures-insert SoundState _ db _ λ absent.
          insert-Inv _ inv (λ s m k. before prev s e (ground arith) m k) absent (first_of prev _ e)
            (Grows-append db.audit_log _) refl (FourEyes-draft _ refl)
