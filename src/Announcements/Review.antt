-- ===== src/Announcements/Review.antt =====
-- src/core/announcements.ts: withdrawPublish and rejectPublish.
use announcement_tool.Common.{
  not, none, some, Text, is_blank, trim, Result, ok, ◌>>=◌, ◌>>◌, throw_if,
}
use announcement_tool.Types.{Announcement, draft, publish_requested, status_eq}
use announcement_tool.Store.{
  Row, Db, audit, publish_withdrawn, publish_rejected, at_revision, of_rejection,
}
use announcement_tool.Announcements.Error.{
  ApiError, not_awaiting_confirmation, only_requester_withdraws, reason_required,
  requester_cannot_reject,
}
use announcement_tool.Announcements.Table.{row_to_announcement, select_for_update, update_returning}
use announcement_tool.Announcements.Publish.{same_person}

abbrev pub set_withdrawn : Row → Row
set_withdrawn r = record r {
  status = draft;
  publish_requested_by = none;
  scheduled_for = none;
  publish_rejected_by = none;
  publish_rejected_reason = none;
}

unfoldable pub withdraw_publish : Text → Text → Db → Result ApiError (Announcement × Db)
withdraw_publish id actor db = do
  a ← select_for_update id db
  throw_if (not (status_eq a.status publish_requested)) (not_awaiting_confirmation a.status)
  throw_if (not (same_person a.publish_requested_by actor)) only_requester_withdraws
  (row, db') ← update_returning id a.revision set_withdrawn db
  ok (row_to_announcement row, audit actor publish_withdrawn id (at_revision a.revision) db')

abbrev pub set_rejected : Text → Text → Row → Row
set_rejected actor reason r = record r {
  status = draft;
  publish_requested_by = none;
  scheduled_for = none;
  publish_rejected_by = some actor;
  publish_rejected_reason = some reason;
}

unfoldable pub reject_publish : Text → Text → Text → Db → Result ApiError (Announcement × Db)
reject_publish id actor reason db = do
  let trimmed = trim reason
  throw_if (is_blank trimmed) reason_required
  a ← select_for_update id db
  throw_if (not (status_eq a.status publish_requested)) (not_awaiting_confirmation a.status)
  throw_if (same_person a.publish_requested_by actor) requester_cannot_reject
  (row, db') ← update_returning id a.revision (set_rejected actor trimmed) db
  let detail = of_rejection a.revision trimmed
  ok (row_to_announcement row, audit actor publish_rejected id detail db')
