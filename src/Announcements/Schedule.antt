-- ===== src/Announcements/Schedule.antt =====
-- src/core/announcements.ts: schedulePublish, confirmSchedule, cancelSchedule. The time that
-- `new Date(whenIso)` reads is `none` where it is not a valid date.
use announcement_tool.Common.{
  ℕ, Bool, ◌&&◌, ◌||◌, not, Option, none, some, Text, leb, if◌then◌else◌, Result, ok, err, ◌>>=◌,
  ◌>>◌, throw_if,
}
use announcement_tool.Types.{
  Status, Announcement, draft, publish_requested, scheduled, status_eq, is_critical,
}
use announcement_tool.Store.{
  Row, Db, audit, publish_scheduled, schedule_confirmed, schedule_cancelled, at_schedule,
  at_schedule_status,
}
use announcement_tool.Announcements.Error.{
  ApiError, invalid_date, time_in_past, only_draft_scheduled, not_awaiting_confirmation,
  use_confirm_publish, four_eyes_error, not_scheduled,
}
use announcement_tool.Announcements.Table.{row_to_announcement, select_for_update, update_returning}
use announcement_tool.Announcements.Publish.{same_person, is_set}

abbrev pub set_scheduled : Status → ℕ → Option Text → Row → Row
set_scheduled next when requester r = record r {
  status = next;
  scheduled_for = some when;
  publish_requested_by = requester;
}

unfoldable pub schedule_publish :
    ℕ → Text → Option ℕ → Text → Db → Result ApiError (Announcement × Db)
schedule_publish now id none actor db = err invalid_date
schedule_publish now id (some when) actor db = do
  throw_if (leb when now) time_in_past
  a ← select_for_update id db
  throw_if (not (status_eq a.status draft)) (only_draft_scheduled a.status)
  let next : Status = if is_critical a.severity then publish_requested else scheduled
  let requester : Option Text = if is_critical a.severity then some actor else none
  (row, db') ← update_returning id a.revision (set_scheduled next when requester) db
  let detail = at_schedule_status a.revision when next
  ok (row_to_announcement row, audit actor publish_scheduled id detail db')

abbrev pub set_schedule_confirmed : Text → Row → Row
set_schedule_confirmed actor r = record r { status = scheduled; publish_confirmed_by = some actor }

unfoldable pub confirm_schedule : Text → Text → Db → Result ApiError (Announcement × Db)
confirm_schedule id actor db = do
  a ← select_for_update id db
  throw_if (not (status_eq a.status publish_requested)) (not_awaiting_confirmation a.status)
  throw_if (not (is_set a.scheduled_for)) use_confirm_publish
  throw_if (is_critical a.severity && same_person a.publish_requested_by actor) four_eyes_error
  (row, db') ← update_returning id a.revision (set_schedule_confirmed actor) db
  let detail = at_schedule a.revision a.scheduled_for
  ok (row_to_announcement row, audit actor schedule_confirmed id detail db')

abbrev pub set_cancelled : Row → Row
set_cancelled r = record r {
  status = draft;
  scheduled_for = none;
  publish_requested_by = none;
  publish_confirmed_by = none;
  publish_rejected_by = none;
  publish_rejected_reason = none;
}

-- a.status === 'scheduled' || (a.status === 'publish_requested' && a.scheduledFor)
abbrev pub is_pending_send : Row → Bool
is_pending_send a =
    status_eq a.status scheduled || status_eq a.status publish_requested && is_set a.scheduled_for

unfoldable pub cancel_schedule : Text → Text → Db → Result ApiError (Announcement × Db)
cancel_schedule id actor db = do
  a ← select_for_update id db
  throw_if (not (is_pending_send a)) (not_scheduled a.status)
  (row, db') ← update_returning id a.revision set_cancelled db
  let detail = at_schedule a.revision a.scheduled_for
  ok (row_to_announcement row, audit actor schedule_cancelled id detail db')
