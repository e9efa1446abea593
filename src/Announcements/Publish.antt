-- ===== src/Announcements/Publish.antt =====
-- src/core/announcements.ts: performPublish, publishDueScheduled, requestPublish, confirmPublish.
-- The worker's `for update skip locked` passes over the rows that `locked` tells to be held by
-- another transaction.
use announcement_tool.Common.{
  sort_by, ℕ, Bool, true, false, ◌&&◌, not, List, [], ◌∷◌, Option, none, some, Text, codes, text_eq,
  to_lower_case, take, keep, leb, if◌then◌else◌, Result, ok, ◌>>=◌, ◌>>◌, throw_if,
}
use announcement_tool.Types.{
  Announcement, ChannelName, draft, publish_requested, scheduled, published, publish, status_eq,
  is_critical,
}
use announcement_tool.Store.{
  Row, Db, audit, publish_confirmed, scheduled_publish_sent, at_revision, of_send,
}
use announcement_tool.Store
use announcement_tool.Outbox.{enqueue_deliveries}
use announcement_tool.Announcements.Error.{
  ApiError, cannot_request_publish, not_awaiting_confirmation, use_confirm_schedule,
  four_eyes_error,
}
use announcement_tool.Announcements.Table.{row_to_announcement, select_for_update, update_returning}

-- a.publishRequestedBy?.toLowerCase() === actor.toLowerCase()
unfoldable pub same_person : Option Text → Text → Bool
same_person none actor = false
same_person (some requester) actor = text_eq (to_lower_case requester) (to_lower_case actor)

-- opts.preserveConfirmer ? (a.publishConfirmedBy ?? confirmer) : confirmer
unfoldable pub confirmed_by : Bool → Option Text → Text → Text
confirmed_by true none confirmer = confirmer
confirmed_by true (some c) confirmer = c
confirmed_by false _ confirmer = confirmer

abbrev pub set_published : ℕ → Text → Row → Row
set_published now by r = record r {
  status = published;
  published_at = some now;
  publish_confirmed_by = some by;
}

unfoldable pub perform_publish :
    ℕ → List ChannelName → Bool → Announcement → Text → Db → Result ApiError (Announcement × Db)
unfolding confirmed_by
perform_publish now enabled preserve_confirmer a confirmer db = do
  let by = confirmed_by preserve_confirmer a.publish_confirmed_by confirmer
  (row, db1) ← update_returning a.id a.revision (set_published now by) db
  let sent = row_to_announcement row
  let db2 = (enqueue_deliveries now enabled sent publish db1).0
  ok (sent, audit confirmer publish_confirmed a.id (at_revision a.revision) db2)

abbrev pub scheduler : Text
scheduler = codes "scheduler"

-- status = 'scheduled' and scheduled_for <= now()
unfoldable pub is_due : ℕ → Row → Bool
is_due now r =
    status_eq r.status scheduled && elim r.scheduled_for [ none ↦ false | some t ↦ leb t now ]

-- order by scheduled_for, the nulls last
unfoldable pub sooner : Row → Row → Bool
sooner r s = elim r.scheduled_for [
  | none ↦ false
  | some t ↦ elim s.scheduled_for [ none ↦ true | some u ↦ leb t u ]
]

unfoldable pub due_rows : ℕ → (Row → Bool) → ℕ → Db → List Row
unfolding is_due sooner
due_rows now locked batch db =
    take batch (sort_by sooner (keep (λ r. is_due now r && not (locked r)) db.announcements))

unfoldable pub send_scheduled :
    ℕ → List ChannelName → Row → Db → Result ApiError (Announcement × Db)
send_scheduled now enabled a db = do
  (sent, db') ← perform_publish now enabled true (row_to_announcement a) scheduler db
  let detail = of_send a.revision a.scheduled_for a.publish_requested_by a.publish_confirmed_by
  ok (sent, audit scheduler scheduled_publish_sent a.id detail db')

unfoldable pub send_all :
    ℕ → List ChannelName → List Row → Db → Result ApiError (List Announcement × Db)
send_all now enabled [] db = ok ([], db)
send_all now enabled (a ∷ rest) db = do
  (sent, db') ← send_scheduled now enabled a db
  (more, db'') ← send_all now enabled rest db'
  ok (sent ∷ more, db'')

unfoldable pub publish_due_scheduled :
    ℕ → List ChannelName → (Row → Bool) → ℕ → Db → Result ApiError (List Announcement × Db)
publish_due_scheduled now enabled locked batch db =
    send_all now enabled (due_rows now locked batch db) db

abbrev pub set_requested : Text → Row → Row
set_requested actor r = record r { status = publish_requested; publish_requested_by = some actor }

unfoldable pub request_publish :
    ℕ → List ChannelName → Text → Text → Db → Result ApiError (Announcement × Db)
request_publish now enabled id actor db = do
  a ← select_for_update id db
  throw_if (not (status_eq a.status draft)) (cannot_request_publish a.status)
  if not (is_critical a.severity)
      then perform_publish now enabled false (row_to_announcement a) actor db
      else do
        (row, db') ← update_returning id a.revision (set_requested actor) db
        let log = audit actor Store.AuditAction.publish_requested id (at_revision a.revision) db'
        ok (row_to_announcement row, log)

-- if (a.scheduledFor)
abbrev pub is_set : Option ℕ → Bool
is_set none = false
is_set (some t) = true

unfoldable pub confirm_publish :
    ℕ → List ChannelName → Text → Text → Db → Result ApiError (Announcement × Db)
confirm_publish now enabled id actor db = do
  a ← select_for_update id db
  throw_if (not (status_eq a.status publish_requested)) (not_awaiting_confirmation a.status)
  throw_if (is_set a.scheduled_for) use_confirm_schedule
  throw_if (is_critical a.severity && same_person a.publish_requested_by actor) four_eyes_error
  perform_publish now enabled false (row_to_announcement a) actor db
