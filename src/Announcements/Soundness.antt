-- ===== src/Announcements/Soundness.antt =====
-- Every operation of src/core/announcements.ts on one announcement keeps the invariant.
use announcement_tool.Common.{
  ℕ, ◌≡◌, refl, sym, inr, true, [], ◌∷◌, ◌++◌, Option, none, some, arith, Text, Result,
  if◌then◌else◌, trim,
}
use announcement_tool.Types.{publish_requested, scheduled, is_critical}
use announcement_tool.Store.{Row, Db, AuditEntry}
use announcement_tool.Announcements.Error.{ApiError}
use announcement_tool.Announcements.Table.{select_latest, update_rows}
use announcement_tool.Announcements.Keys.{select_latest-In}
use announcement_tool.Announcements.Drafts.{discard_draft, set_discarded}
use announcement_tool.Announcements.Schedule.{
  schedule_publish, set_scheduled, confirm_schedule, set_schedule_confirmed, cancel_schedule,
  set_cancelled,
}
use announcement_tool.Announcements.Review.{
  withdraw_publish, set_withdrawn, reject_publish, set_rejected,
}
use announcement_tool.Announcements.Ensures.{
  Ensures, Ensures-select, Ensures-throw_if, Ensures-update_latest,
}
use announcement_tool.Announcements.Invariant.{Inv, IsSound, FourEyes, Asked-Grows, row_fits}
use announcement_tool.Announcements.Rules.{IsLatest-select, update-Inv}
use announcement_tool.Announcements.Evidence.{
  Grows-append, Logged-new, Approved-Asked, FourEyes-draft, FourEyes-discarded, FourEyes-scheduled,
}

abbrev pub SoundAfter : {A : Type 0} → Result ApiError (A × Db) → Type 0
SoundAfter = Ensures (λ _ db'. IsSound db')

abbrev pub SoundState : {A : Type 0} → A → Db → Type 0
SoundState _ db' = IsSound db'

-- An update of the selected row, and one entry of the log.
module _ (set : Row → Row) (keep_id : (r : Row) → (set r).id ≡ r.id)
    (keep_revision : (r : Row) → (set r).revision ≡ r.revision) (id : Text) (db : Db)
    (inv : IsSound db) (r : Row) (selected : select_latest id db.announcements ≡ some r)
    (e : AuditEntry) where
  pub rewrite_latest :
      row_fits (set r) ≡ true
      → FourEyes (db.audit_log ++ e ∷ []) (set r)
      → Inv (update_rows r.id r.revision set db.announcements) (db.audit_log ++ e ∷ [])
  rewrite_latest fit eyes =
      update-Inv set keep_id keep_revision r inv (select_latest-In id db.announcements r selected).0
        (IsLatest-select id db.announcements r selected) (Grows-append db.audit_log e) fit eyes

-- What the invariant says of the selected row.
pub selected_fits :
    (id : Text) (db : Db) (r : Row)
    → IsSound db
    → select_latest id db.announcements ≡ some r
    → row_fits r ≡ true
selected_fits id db r inv e = inv.fits r (select_latest-In id db.announcements r e).0

pub selected_eyes :
    (id : Text) (db : Db) (r : Row)
    → IsSound db
    → select_latest id db.announcements ≡ some r
    → FourEyes db.audit_log r
selected_eyes id db r inv e = inv.eyes r (select_latest-In id db.announcements r e).0

pub selected_id :
    (id : Text) (db : Db) (r : Row) → select_latest id db.announcements ≡ some r → id ≡ r.id
selected_id id db r e = sym (select_latest-In id db.announcements r e).1

module _ (id actor : Text) (db : Db) (inv : IsSound db) where
  pub discard_draft-IsSound : SoundAfter (discard_draft id actor db)
  unfolding discard_draft
  discard_draft-IsSound = Ensures-select SoundState id db _ λ r e.
      Ensures-throw_if SoundState _ _ _ λ is_draft.
        Ensures-update_latest SoundState set_discarded id db r _ inv.keys e (
          rewrite_latest set_discarded (λ _. refl) (λ _. refl) id db inv r e _
            (ground (arith, selected_fits id db r inv e)) (FourEyes-discarded _ refl))

  pub cancel_schedule-IsSound : SoundAfter (cancel_schedule id actor db)
  unfolding cancel_schedule
  cancel_schedule-IsSound = Ensures-select SoundState id db _ λ r e.
      Ensures-throw_if SoundState _ _ _ λ is_pending.
        Ensures-update_latest SoundState set_cancelled id db r _ inv.keys e (
          rewrite_latest set_cancelled (λ _. refl) (λ _. refl) id db inv r e _
            (ground (arith, selected_fits id db r inv e)) (FourEyes-draft _ refl))

  pub withdraw_publish-IsSound : SoundAfter (withdraw_publish id actor db)
  unfolding withdraw_publish
  withdraw_publish-IsSound = Ensures-select SoundState id db _ λ r e.
      Ensures-throw_if SoundState _ _ _ λ awaiting. Ensures-throw_if SoundState _ _ _ λ own.
        Ensures-update_latest SoundState set_withdrawn id db r _ inv.keys e (
          rewrite_latest set_withdrawn (λ _. refl) (λ _. refl) id db inv r e _
            (ground (arith, selected_fits id db r inv e)) (FourEyes-draft _ refl))

  pub reject_publish-IsSound : (reason : Text) → SoundAfter (reject_publish id actor reason db)
  unfolding reject_publish
  reject_publish-IsSound reason = Ensures-throw_if SoundState _ _ _ λ given.
      Ensures-select SoundState id db _ λ r e. Ensures-throw_if SoundState _ _ _ λ awaiting.
        Ensures-throw_if SoundState _ _ _ λ other.
          Ensures-update_latest SoundState (set_rejected actor (trim reason)) id db r _ inv.keys e (
            rewrite_latest (set_rejected actor (trim reason)) (λ _. refl) (λ _. refl) id db inv r e
              _ (ground (arith, selected_fits id db r inv e)) (FourEyes-draft _ refl))

  pub confirm_schedule-IsSound : SoundAfter (confirm_schedule id actor db)
  unfolding confirm_schedule
  confirm_schedule-IsSound = Ensures-select SoundState id db _ λ r e.
      Ensures-throw_if SoundState _ _ _ λ awaiting. Ensures-throw_if SoundState _ _ _ λ due.
        Ensures-throw_if SoundState _ _ _ λ other.
          Ensures-update_latest SoundState (set_schedule_confirmed actor) id db r _ inv.keys e (
            rewrite_latest (set_schedule_confirmed actor) (λ _. refl) (λ _. refl) id db inv r e _
              (ground (arith, selected_fits id db r inv e))
              (FourEyes-scheduled _ refl λ c.
                Approved-Asked r _ actor refl refl refl refl (ground arith)
                  (Asked-Grows (Grows-append db.audit_log _)
                    ((selected_eyes id db r inv e).when_requested c (ground arith)))
                  (inr (Logged-new db.audit_log _ _ (selected_id id db r e) refl))))

  pub schedule_publish-IsSound :
      (now : ℕ) (when : Option ℕ) → SoundAfter (schedule_publish now id when actor db)
  unfolding schedule_publish
  schedule_publish-IsSound now none = tt
  schedule_publish-IsSound now (some when) = Ensures-throw_if SoundState _ _ _ λ future.
      Ensures-select SoundState id db _ λ r e. Ensures-throw_if SoundState _ _ _ λ is_draft.
        Ensures-update_latest SoundState _ id db r _ inv.keys e (
          rewrite_latest
            (set_scheduled (if is_critical r.severity then publish_requested else scheduled) when
              (if is_critical r.severity then some actor else none))
            (λ _. refl) (λ _. refl) id db inv r e _ (ground (arith, selected_fits id db r inv e))
            (record {
              when_requested = λ c s. record {
                requester = actor;
                recorded = ground arith;
                logged = inr (Logged-new db.audit_log _ _ (selected_id id db r e) refl);
              };
              when_scheduled = λ c s. absurd (ground arith);
              when_published = λ c s. absurd (ground arith);
            }))
