-- ===== src/Announcements/Sending.antt =====
-- The operations of src/core/announcements.ts that publish keep the invariant.
use announcement_tool.Common.{
  ℕ, ◌≡◌, refl, inl, Bool, false, not, List, [], ◌∷◌, ◌++◌, some, arith, Text, In,
}
use announcement_tool.Types.{ChannelName, is_critical}
use announcement_tool.Store.{Row, Db, AuditEntry, AuditAction, at_revision}
use announcement_tool.Outbox.{enqueue_deliveries}
use announcement_tool.Announcements.Table.{select_latest, row_to_announcement}
use announcement_tool.Announcements.Keys.{select_latest-In}
use announcement_tool.Announcements.Publish.{
  confirmed_by, perform_publish, set_published, set_requested, request_publish, confirm_publish,
}
use announcement_tool.Announcements.Ensures.{
  Ensures-select, Ensures-throw_if, Ensures-if, Ensures-update, Ensures-update_latest,
}
use announcement_tool.Announcements.Invariant.{IsSound, FourEyes, Asked-Grows}
use announcement_tool.Announcements.Rules.{IsLatest, IsLatest-select, update-Inv}
use announcement_tool.Announcements.Evidence.{
  Grows-append, Logged-new, Approved-Asked, FourEyes-requested, FourEyes-published,
}
use announcement_tool.Announcements.Soundness.{
  SoundAfter, SoundState, rewrite_latest, selected_fits, selected_eyes, selected_id,
}

-- The entry that `performPublish` writes.
abbrev pub confirmation : Row → Text → AuditEntry
confirmation r confirmer = record {
  actor = confirmer;
  action = AuditAction.publish_confirmed;
  target = r.id;
  detail = at_revision r.revision;
}

-- `performPublish` on the latest row of an announcement, given its approvals.
pub perform_publish-IsSound :
    (now : ℕ) (enabled : List ChannelName) (preserve : Bool) (r : Row) (confirmer : Text) (db : Db)
    → IsSound db
    → In r db.announcements
    → IsLatest r db.announcements
    → FourEyes
        (db.audit_log ++ confirmation r confirmer ∷ [])
        (set_published now (confirmed_by preserve r.publish_confirmed_by confirmer) r)
    → SoundAfter (perform_publish now enabled preserve (row_to_announcement r) confirmer db)
unfolding perform_publish enqueue_deliveries
perform_publish-IsSound now enabled preserve r confirmer db inv m latest eyes =
    Ensures-update SoundState _ db r _ inv.keys m (
      update-Inv (set_published now (confirmed_by preserve r.publish_confirmed_by confirmer))
        (λ _. refl) (λ _. refl) r inv m latest (Grows-append db.audit_log _) refl eyes)

module _ (now : ℕ) (enabled : List ChannelName) (id actor : Text) (db : Db) (inv : IsSound db) where
  -- The same for the selected row and a confirmer who is not preserved.
  publish_selected :
      (r : Row)
      → select_latest id db.announcements ≡ some r
      → FourEyes (db.audit_log ++ confirmation r actor ∷ []) (set_published now actor r)
      → SoundAfter (perform_publish now enabled false (row_to_announcement r) actor db)
  unfolding confirmed_by
  publish_selected r e eyes =
      perform_publish-IsSound now enabled false r actor db inv
        (select_latest-In id db.announcements r e).0 (IsLatest-select id db.announcements r e) eyes

  pub request_publish-IsSound : SoundAfter (request_publish now enabled id actor db)
  unfolding request_publish
  request_publish-IsSound = Ensures-select SoundState id db _ λ r e.
      Ensures-throw_if SoundState _ _ _ λ is_draft.
        Ensures-if SoundState (not (is_critical r.severity)) _ _
          (λ plain. publish_selected r e (FourEyes-published _ refl λ c. absurd (ground arith)))
          (λ crit. Ensures-update_latest SoundState (set_requested actor) id db r _ inv.keys e (
            rewrite_latest (set_requested actor) (λ _. refl) (λ _. refl) id db inv r e _
              (ground (arith, selected_fits id db r inv e))
              (FourEyes-requested _ refl λ c. record {
                requester = actor;
                recorded = refl;
                logged = inl (Logged-new db.audit_log _ _ (selected_id id db r e) refl);
              })))

  pub confirm_publish-IsSound : SoundAfter (confirm_publish now enabled id actor db)
  unfolding confirm_publish
  confirm_publish-IsSound = Ensures-select SoundState id db _ λ r e.
      Ensures-throw_if SoundState _ _ _ λ awaiting. Ensures-throw_if SoundState _ _ _ λ not_due.
        Ensures-throw_if SoundState _ _ _ λ other. publish_selected r e (
          FourEyes-published _ refl λ c.
            Approved-Asked r _ actor refl refl refl refl (ground arith)
              (Asked-Grows (Grows-append db.audit_log _)
                ((selected_eyes id db r inv e).when_requested c (ground arith)))
              (inl (Logged-new db.audit_log _ _ refl refl)))
