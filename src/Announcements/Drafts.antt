-- ===== src/Announcements/Drafts.antt =====
-- src/core/announcements.ts: createDraft, reviseDraft, getLatest, discardDraft.
use announcement_tool.Common.{
  ℕ, zero, suc, ◌+◌, Bool, not, List, ◌∷◌, ◌++◌, Option, none, some, Text, text_eq, is_blank,
  some_of, ◌==◌, if◌then◌else◌, decimal, Result, ok, err, ◌>>=◌, ◌>>◌, throw_if,
}
use announcement_tool.Types.{Status, AnnouncementInput, Announcement, draft, discarded, status_eq}
use announcement_tool.Store.{
  Row, Db, AuditAction, audit, draft_created, edited, draft_discarded, at_revision,
}
use announcement_tool.Slug.{make_slug}
use announcement_tool.Announcements.Error.{
  ApiError, invalid_input, no_free_slug, only_draft_edited, only_draft_discarded,
}
use announcement_tool.Announcements.Table.{
  row_to_announcement, select_latest, select_for_update, update_returning, insert_row,
}

-- The row of `insert into announcements`, its other columns by their defaults.
abbrev pub revision_row : ℕ → Text → ℕ → Text → AnnouncementInput → Status → Text → Row
revision_row now id revision slug input status actor = record {
  id = id;
  revision = revision;
  slug = slug;
  type = input.type;
  networks = input.networks;
  audiences = input.audiences;
  severity = input.severity;
  title = input.title;
  body_md = input.body_md;
  actions_required = input.actions_required;
  links = input.links;
  status = status;
  supersedes = input.supersedes;
  created_by = actor;
  publish_requested_by = none;
  publish_confirmed_by = none;
  published_at = none;
  created_at = now;
  publish_rejected_by = none;
  publish_rejected_reason = none;
  scheduled_for = none;
  mention_role_ids = input.mention_role_ids;
}

unfoldable pub insert_revision :
    ℕ
    → Text
    → ℕ
    → Text
    → AnnouncementInput
    → Status
    → Text
    → AuditAction
    → Db
    → Result ApiError (Announcement × Db)
insert_revision now id revision slug input status actor audit_action db = do
  (row, db') ← insert_row (revision_row now id revision slug input status actor) db
  ok (row_to_announcement row, audit actor audit_action id (at_revision revision) db')

-- select 1 from announcements where slug = ${candidate} limit 1
unfoldable pub slug_taken : Text → List Row → Bool
slug_taken slug = some_of (λ r. text_eq r.slug slug)

unfoldable pub candidate : Text → ℕ → Text
candidate base i = if i == 1 then base else base ++ b'-' ∷ decimal i

-- for (let i = …; i <= 20; i++), with the number of rounds that are left
unfoldable pub free_slug : ℕ → ℕ → Text → List Row → Option Text
unfolding slug_taken candidate
free_slug zero i base rows = none
free_slug (suc rounds) i base rows =
    let rest = free_slug rounds (i + 1) base rows in
    if slug_taken (candidate base i) rows then rest else some (candidate base i)

-- input.slug || makeSlug(new Date(), input.type, input.title)
unfoldable pub base_slug : ℕ → AnnouncementInput → Text
base_slug now input = elim input.slug [
  | none ↦ make_slug now input.type input.title
  | some s ↦ if is_blank s then make_slug now input.type input.title else s
]

-- `schema_accepts` tells whether `schema.parse` of src/core/validate.ts accepts the input, and `id`
-- is the fresh identifier of `newAnnouncementId`.
unfoldable pub create_draft :
    (AnnouncementInput → Bool)
    → ℕ
    → Text
    → AnnouncementInput
    → Text
    → Db
    → Result ApiError (Announcement × Db)
create_draft schema_accepts now id input actor db = do
  throw_if (not (schema_accepts input)) invalid_input
  elim (free_slug 20 1 (base_slug now input) db.announcements) [
    | none ↦ err (no_free_slug (base_slug now input))
    | some slug ↦ insert_revision now id 1 slug input draft actor draft_created db
  ]

unfoldable pub revise_draft :
    (AnnouncementInput → Bool)
    → ℕ
    → Text
    → AnnouncementInput
    → Text
    → Db
    → Result ApiError (Announcement × Db)
revise_draft schema_accepts now id input actor db = do
  throw_if (not (schema_accepts input)) invalid_input
  prev ← select_for_update id db
  throw_if (not (status_eq prev.status draft)) (only_draft_edited prev.status)
  insert_revision now id (prev.revision + 1) prev.slug input draft actor edited db

unfoldable pub get_latest : Text → Db → Option Announcement
get_latest id db = elim (select_latest id db.announcements) [
  | none ↦ none
  | some r ↦ some (row_to_announcement r)
]

abbrev pub set_discarded : Row → Row
set_discarded r = record r { status = discarded }

unfoldable pub discard_draft : Text → Text → Db → Result ApiError (Announcement × Db)
discard_draft id actor db = do
  a ← select_for_update id db
  throw_if (not (status_eq a.status draft)) (only_draft_discarded a.status)
  (row, db') ← update_returning id a.revision set_discarded db
  ok (row_to_announcement row, audit actor draft_discarded id (at_revision a.revision) db')
