-- ===== src/Announcements/Keeping.antt =====
-- Every operation of src/core/announcements.ts keeps the log, the rows and what is settled.
use announcement_tool.Common.{
  ℕ, ◌≡◌, refl, sym, ap, ◌∙◌, ◌⊎◌, inl, inr, Bool, true, false, not, List, [], ◌∷◌, Option, none,
  some, arith, Text, In, Bool-cases, Option-cases, false-ne-true, if◌then◌else◌, trim,
}
use announcement_tool.Types.{
  AnnouncementInput, ChannelName, publish_requested, scheduled, is_critical,
}
use announcement_tool.Store.{Row, Db}
use announcement_tool.Outbox.{enqueue_deliveries}
use announcement_tool.Announcements.Table.{select_latest, is_row, row_to_announcement}
use announcement_tool.Announcements.Keys.{UniqueKeys, select_latest-In}
use announcement_tool.Announcements.Updates.{UniqueKeys-eq}
use announcement_tool.Announcements.Drafts.{
  discard_draft, set_discarded, create_draft, revise_draft, insert_revision, free_slug, base_slug,
}
use announcement_tool.Announcements.Publish.{
  perform_publish, request_publish, confirm_publish, set_published, set_requested, confirmed_by,
}
use announcement_tool.Announcements.Schedule.{
  schedule_publish, set_scheduled, confirm_schedule, set_schedule_confirmed, cancel_schedule,
  set_cancelled,
}
use announcement_tool.Announcements.Review.{
  withdraw_publish, set_withdrawn, reject_publish, set_rejected,
}
use announcement_tool.Announcements.Ensures.{
  Ensures-select, Ensures-throw_if, Ensures-if, Ensures-update, Ensures-update_latest,
}
use announcement_tool.Announcements.Drafting.{Ensures-insert}
use announcement_tool.Announcements.Keys.{Absent}
use announcement_tool.Announcements.Kept.{
  Kept, KeptAfter, KeptFrom, is_settled, Kept-latest, Kept-insert,
}
use announcement_tool.Announcements.Scheduler.{Passed, sent_row}

module _ (id actor : Text) (db : Db) (keys : UniqueKeys db.announcements) where
  pub discard_draft-Kept : KeptAfter db (discard_draft id actor db)
  unfolding discard_draft
  discard_draft-Kept = Ensures-select (KeptFrom db) id db _ λ r e.
      Ensures-throw_if (KeptFrom db) _ _ _ λ is_draft.
        Ensures-update_latest (KeptFrom db) set_discarded id db r _ keys e (
          Kept-latest id db keys set_discarded (λ _. refl) (λ _. refl) _ _ r e (ground arith) refl
            refl)

  pub cancel_schedule-Kept : KeptAfter db (cancel_schedule id actor db)
  unfolding cancel_schedule
  cancel_schedule-Kept = Ensures-select (KeptFrom db) id db _ λ r e.
      Ensures-throw_if (KeptFrom db) _ _ _ λ is_pending.
        Ensures-update_latest (KeptFrom db) set_cancelled id db r _ keys e (
          Kept-latest id db keys set_cancelled (λ _. refl) (λ _. refl) _ _ r e (ground arith) refl
            refl)

  pub withdraw_publish-Kept : KeptAfter db (withdraw_publish id actor db)
  unfolding withdraw_publish
  withdraw_publish-Kept = Ensures-select (KeptFrom db) id db _ λ r e.
      Ensures-throw_if (KeptFrom db) _ _ _ λ awaiting. Ensures-throw_if (KeptFrom db) _ _ _ λ own.
        Ensures-update_latest (KeptFrom db) set_withdrawn id db r _ keys e (
          Kept-latest id db keys set_withdrawn (λ _. refl) (λ _. refl) _ _ r e (ground arith) refl
            refl)

  pub reject_publish-Kept : (reason : Text) → KeptAfter db (reject_publish id actor reason db)
  unfolding reject_publish
  reject_publish-Kept reason = Ensures-throw_if (KeptFrom db) _ _ _ λ given.
      Ensures-select (KeptFrom db) id db _ λ r e. Ensures-throw_if (KeptFrom db) _ _ _ λ awaiting.
        Ensures-throw_if (KeptFrom db) _ _ _ λ other.
          Ensures-update_latest (KeptFrom db) (set_rejected actor (trim reason)) id db r _ keys e (
            Kept-latest id db keys (set_rejected actor (trim reason)) (λ _. refl) (λ _. refl) _ _ r
              e (ground arith) refl refl)

  pub confirm_schedule-Kept : KeptAfter db (confirm_schedule id actor db)
  unfolding confirm_schedule
  confirm_schedule-Kept = Ensures-select (KeptFrom db) id db _ λ r e.
      Ensures-throw_if (KeptFrom db) _ _ _ λ awaiting. Ensures-throw_if (KeptFrom db) _ _ _ λ due.
        Ensures-throw_if (KeptFrom db) _ _ _ λ other.
          Ensures-update_latest (KeptFrom db) (set_schedule_confirmed actor) id db r _ keys e (
            Kept-latest id db keys (set_schedule_confirmed actor) (λ _. refl) (λ _. refl) _ _ r e
              (ground arith) refl refl)

  pub schedule_publish-Kept :
      (now : ℕ) (when : Option ℕ) → KeptAfter db (schedule_publish now id when actor db)
  unfolding schedule_publish
  schedule_publish-Kept now none = tt
  schedule_publish-Kept now (some when) = Ensures-throw_if (KeptFrom db) _ _ _ λ future.
      Ensures-select (KeptFrom db) id db _ λ r e. Ensures-throw_if (KeptFrom db) _ _ _ λ is_draft.
        Ensures-update_latest (KeptFrom db) _ id db r _ keys e (
          Kept-latest id db keys
            (set_scheduled (if is_critical r.severity then publish_requested else scheduled) when
              (if is_critical r.severity then some actor else none))
            (λ _. refl) (λ _. refl) _ _ r e (ground arith) refl refl)

  publish_selected :
      (now : ℕ) (enabled : List ChannelName) (r : Row)
      → select_latest id db.announcements ≡ some r
      → is_settled r.status ≡ false
      → KeptAfter db (perform_publish now enabled false (row_to_announcement r) actor db)
  unfolding perform_publish enqueue_deliveries confirmed_by
  publish_selected now enabled r e live =
      Ensures-update (KeptFrom db) _ db r _ keys (select_latest-In id db.announcements r e).0 (
        Kept-latest id db keys (set_published now actor) (λ _. refl) (λ _. refl) _ _ r e live refl
          refl)

  pub request_publish-Kept :
      (now : ℕ) (enabled : List ChannelName)
      → KeptAfter db (request_publish now enabled id actor db)
  unfolding request_publish
  request_publish-Kept now enabled = Ensures-select (KeptFrom db) id db _ λ r e.
      Ensures-throw_if (KeptFrom db) _ _ _ λ is_draft.
        Ensures-if (KeptFrom db) (not (is_critical r.severity)) _ _
          (λ plain. publish_selected now enabled r e (ground arith))
          (λ crit. Ensures-update_latest (KeptFrom db) (set_requested actor) id db r _ keys e (
            Kept-latest id db keys (set_requested actor) (λ _. refl) (λ _. refl) _ _ r e
              (ground arith) refl refl))

  pub confirm_publish-Kept :
      (now : ℕ) (enabled : List ChannelName)
      → KeptAfter db (confirm_publish now enabled id actor db)
  unfolding confirm_publish
  confirm_publish-Kept now enabled = Ensures-select (KeptFrom db) id db _ λ r e.
      Ensures-throw_if (KeptFrom db) _ _ _ λ awaiting.
        Ensures-throw_if (KeptFrom db) _ _ _ λ not_due.
          Ensures-throw_if (KeptFrom db) _ _ _
            λ other. publish_selected now enabled r e (ground arith)

module _ (accepts : AnnouncementInput → Bool) (now : ℕ) (id : Text) (input : AnnouncementInput)
    (actor : Text) (db : Db) where
  pub create_draft-Kept : KeptAfter db (create_draft accepts now id input actor db)
  unfolding create_draft insert_revision
  create_draft-Kept = Ensures-throw_if (KeptFrom db) _ _ _ λ accepted.
      elim (Option-cases (free_slug 20 1 (base_slug now input) db.announcements)) [
        | inl e ↦ rw e tt
        | inr (slug, e) ↦
            rw e (Ensures-insert (KeptFrom db) _ db _ λ absent. Kept-insert db _ _ _ refl refl)
      ]

  pub revise_draft-Kept : KeptAfter db (revise_draft accepts now id input actor db)
  unfolding revise_draft insert_revision
  revise_draft-Kept = Ensures-throw_if (KeptFrom db) _ _ _ λ accepted.
      Ensures-select (KeptFrom db) id db _ λ prev e.
        Ensures-throw_if (KeptFrom db) _ _ _
          λ is_draft. Ensures-insert (KeptFrom db) _ db _ λ absent. Kept-insert db _ _ _ refl refl

-- The key of `s` is that of a row of `due`, or of none.
Absent-or-In :
    (s : Row) (due : List Row)
    → Absent s.id s.revision due ⊎ ((a : Row) × In a due × (is_row s.id s.revision a ≡ true))
Absent-or-In s [] = inl tt
Absent-or-In s (a ∷ due) = elim (Bool-cases (is_row s.id s.revision a)) [
  | inl e ↦ inr (a, inl refl, e)
  | inr e ↦ elim (Absent-or-In s due) [ inl h ↦ inl (e, h) | inr (b, m, h) ↦ inr (b, inr m, h) ]
]

pub Passed-Kept :
    (now : ℕ) (due : List Row) (db db' : Db)
    → UniqueKeys db.announcements
    → ((a : Row) → In a due → In a db.announcements × (is_settled a.status ≡ false))
    → Passed now due db db'
    → Kept db db'
Passed-Kept now due db db' keys live pass = record {
  log = pass.log;
  settled = λ s n h. elim (Absent-or-In s due) [
    | inl apart ↦ pass.rest s n apart
    | inr (a, m, e) ↦
        let same : a ≡ s = UniqueKeys-eq db.announcements s a keys n (live a m).0 e in
        absurd (false-ne-true (sym (live a m).1 ∙ rw (← same) at h))
  ];
  present = λ s n. elim (Absent-or-In s due) [
    | inl apart ↦ (s, pass.rest s n apart, refl, refl)
    | inr (a, m, e) ↦
        let same : a ≡ s = UniqueKeys-eq db.announcements s a keys n (live a m).0 e in
        (
          sent_row now a,
          pass.sent a m,
          ap (λ (x : Row). x.id) same,
          ap (λ (x : Row). x.revision) same,
        )
  ];
}
