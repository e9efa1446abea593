-- ===== src/Tests/Publishing.antt =====
-- The theorems on announcements, applied to histories of one critical announcement.
use announcement_tool.Common.{
  true, false, ◌≡◌, refl, inl, In, throw_if, text_eq, to_lower_case, update_where, List, [], ◌∷◌,
  some, arith, ◌+◌, ◌≤◌, length, keep,
}
use announcement_tool.Store.{Row, Db}
use announcement_tool.Outbox.{enqueue_deliveries}
use announcement_tool.Announcements.Table.{
  select_for_update, select_latest, insert_row, update_returning, find_row, update_rows,
}
use announcement_tool.Announcements.Drafts.{
  create_draft, free_slug, slug_taken, candidate, base_slug, insert_revision,
}
use announcement_tool.Announcements.Publish.{
  request_publish, confirm_publish, perform_publish, confirmed_by, same_person,
  publish_due_scheduled, due_rows,
}
use announcement_tool.Announcements.Schedule.{schedule_publish, confirm_schedule}
use announcement_tool.Announcements.History.{
  Call, creates, schedules, confirms_schedule, discards, run, step, four_eyes, four_eyes_scheduled,
  published_once, run-IsSound, run-Kept, empty-IsSound,
}
use announcement_tool.Announcements.Invariant.{Approved, IsSound}
use announcement_tool.Announcements.Timely.{
  PublishedIn, is_scheduled, publish_due_scheduled-PublishedIn,
}
use announcement_tool.Announcements.Kept.{Kept}
use announcement_tool.Announcements.Scheduler.{Succeeds, SentAll, publish_due_scheduled-Passed}
use announcement_tool.Announcements.Schedule.{set_scheduled, set_schedule_confirmed}
use announcement_tool.Types.{Status}
use announcement_tool.Tests.Scenario.{
  start, calls, channels, published_row, noon, ann_text, upgrade_input, alice, bob, drafted,
}

history_In : In published_row (run (λ _. true) channels start calls).announcements
unfolding run step create_draft base_slug free_slug slug_taken candidate insert_revision insert_row
    request_publish select_for_update select_latest update_returning find_row update_rows
    confirm_publish same_person perform_publish confirmed_by enqueue_deliveries throw_if text_eq
    to_lower_case update_where
history_In = inl refl

four_eyes_example : Approved (run (λ _. true) channels start calls).audit_log published_row
four_eyes_example =
    four_eyes (λ _. true) channels start calls published_row refl history_In refl refl

published_once_example : published_row ≡ published_row
published_once_example =
    published_once (λ _. true) channels start calls published_row published_row refl history_In
      history_In refl refl refl

run-IsSound_example : IsSound (run (λ _. true) channels start calls)
run-IsSound_example =
    run-IsSound (λ _. true) channels start calls (empty-IsSound (λ _. true) channels start refl)

abbrev later_calls : List Call
later_calls =
    creates noon ann_text upgrade_input alice
    ∷ schedules noon ann_text (some (noon + 60_000)) alice
    ∷ confirms_schedule ann_text bob
    ∷ []

abbrev waiting_row : Row
waiting_row =
    set_schedule_confirmed bob
      (set_scheduled Status.publish_requested (noon + 60_000) (some alice) drafted)

waiting_In : In waiting_row (run (λ _. true) channels start later_calls).announcements
unfolding run step create_draft base_slug free_slug slug_taken candidate insert_revision insert_row
    schedule_publish select_for_update select_latest update_returning find_row update_rows
    confirm_schedule same_person throw_if text_eq to_lower_case update_where
waiting_In = inl refl

four_eyes_scheduled_example :
    Approved (run (λ _. true) channels start later_calls).audit_log waiting_row
four_eyes_scheduled_example =
    four_eyes_scheduled (λ _. true) channels start later_calls waiting_row refl waiting_In refl refl

abbrev pub waiting : Db
waiting = run (λ _. true) channels start later_calls

pub waiting-IsSound : IsSound waiting
waiting-IsSound =
    run-IsSound (λ _. true) channels start later_calls
      (empty-IsSound (λ _. true) channels start refl)

run-Kept_example : Kept waiting (run (λ _. true) channels waiting (discards ann_text bob ∷ []))
run-Kept_example =
    run-Kept (λ _. true) channels waiting (discards ann_text bob ∷ []) waiting-IsSound

publish_due_scheduled-Passed_example :
    Succeeds
      (SentAll (noon + 120_000) (due_rows (noon + 120_000) (λ _. false) 10 waiting) waiting)
      (publish_due_scheduled (noon + 120_000) channels (λ _. false) 10 waiting)
publish_due_scheduled-Passed_example =
    publish_due_scheduled-Passed (noon + 120_000) channels (λ _. false) 10 waiting waiting-IsSound

waiting_fits : length (keep is_scheduled waiting.announcements) ≤ 10
unfolding run step create_draft base_slug free_slug slug_taken candidate insert_revision insert_row
    schedule_publish select_for_update select_latest update_returning find_row update_rows
    confirm_schedule same_person throw_if text_eq to_lower_case update_where
waiting_fits = omega arith

publish_due_scheduled-PublishedIn_example :
    Succeeds
      (PublishedIn (noon + 120_000) waiting_row)
      (publish_due_scheduled (noon + 120_000) channels (λ _. false) 10 waiting)
publish_due_scheduled-PublishedIn_example =
    publish_due_scheduled-PublishedIn (noon + 120_000) (noon + 60_000) channels (λ _. false) 10
      waiting waiting_row waiting-IsSound waiting_fits waiting_In refl refl (omega arith) refl
