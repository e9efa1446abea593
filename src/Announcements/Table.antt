-- ===== src/Announcements/Table.antt =====
-- The statements on the table `announcements`, and `rowToAnnouncement`.
use announcement_tool.Common.{
  update_where, ℕ, Bool, ◌&&◌, ◌||◌, List, [], ◌∷◌, ◌++◌, Option, none, some, Text, text_eq, ltb,
  ◌==◌, if◌then◌else◌, some_of, Result, ok, err,
}
use announcement_tool.Types.{Announcement}
use announcement_tool.Store.{Row, Db}
use announcement_tool.Announcements.Error.{
  ApiError, announcement_not_found, duplicate_key, no_row_returned,
}

abbrev pub row_to_announcement : Row → Announcement
row_to_announcement r = record {
  type = r.type;
  networks = r.networks;
  audiences = r.audiences;
  severity = r.severity;
  title = r.title;
  body_md = r.body_md;
  actions_required = r.actions_required;
  links = r.links;
  supersedes = r.supersedes;
  mention_role_ids = r.mention_role_ids;
  id = r.id;
  revision = r.revision;
  slug = r.slug;
  status = r.status;
  created_by = r.created_by;
  publish_requested_by = r.publish_requested_by;
  publish_confirmed_by = r.publish_confirmed_by;
  published_at = r.published_at;
  publish_rejected_by = r.publish_rejected_by;
  publish_rejected_reason = r.publish_rejected_reason;
  scheduled_for = r.scheduled_for;
}

unfoldable pub later : Row → Option Row → Row
later r none = r
later r (some s) = if ltb r.revision s.revision then s else r

-- select * from announcements where id = ${id} order by revision desc limit 1
unfoldable pub select_latest : Text → List Row → Option Row
unfolding later
select_latest id [] = none
select_latest id (r ∷ rs) =
    let rest = select_latest id rs in if text_eq r.id id then some (later r rest) else rest

-- The same, with the program's check that there is a row.
unfoldable pub select_for_update : Text → Db → Result ApiError Row
select_for_update id db = elim (select_latest id db.announcements) [
  | none ↦ err (announcement_not_found id)
  | some r ↦ ok r
]

-- where id = ${id} and revision = ${revision}
abbrev pub is_row : Text → ℕ → Row → Bool
is_row id revision r = text_eq r.id id && (r.revision == revision)

unfoldable pub find_row : Text → ℕ → List Row → Option Row
find_row id revision [] = none
find_row id revision (r ∷ rs) =
    let rest = find_row id revision rs in if is_row id revision r then some r else rest

-- update announcements set … where id = ${id} and revision = ${revision}
unfoldable pub update_rows : Text → ℕ → (Row → Row) → List Row → List Row
unfolding update_where
update_rows id revision set = update_where (is_row id revision) set

-- The same with `returning *`, as the first row that it returns and the database after it.
unfoldable pub update_returning : Text → ℕ → (Row → Row) → Db → Result ApiError (Row × Db)
update_returning id revision set db = elim (find_row id revision db.announcements) [
  | none ↦ err no_row_returned
  | some r ↦ ok (set r, record db { announcements = update_rows id revision set db.announcements })
]

-- The primary key, and the unique index on the slugs of first revisions.
abbrev pub conflicts : Row → Row → Bool
conflicts new r =
    is_row new.id new.revision r
    || (new.revision == 1) && ((r.revision == 1) && text_eq r.slug new.slug)

-- insert into announcements … returning *
unfoldable pub insert_row : Row → Db → Result ApiError (Row × Db)
insert_row new db =
    if some_of (conflicts new) db.announcements
    then err duplicate_key
    else ok (new, record db { announcements = db.announcements ++ new ∷ [] })
