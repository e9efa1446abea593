-- ===== src/Health.antt =====
-- src/core/health.ts and src/core/recipients.ts: what is wrong with the deliveries, and whom to tell. A
-- query that has no order gives its rows in the order of the table.
use announcement_tool.Common.{
  ℕ, ◌+◌, ◌*◌, Bool, true, false, ◌&&◌, not, List, [], ◌∷◌, ◌++◌, map, Option, none, some, Text,
  codes, text_eq, is_blank, trim, trim_start, split, includes, some_of, keep, length, ltb, ◌==◌,
  if◌then◌else◌,
}
use announcement_tool.Types.{ChannelName, published, status_eq, channel_eq}
use announcement_tool.Store.{Row, LedgerRow, DeliveryStatus, Db, delivered, exhausted}
use announcement_tool.EnabledChannels.{channel_text}
use announcement_tool.Announcements.Table.{find_row}

-- parseRecipients: split on commas, trimmed, without blanks and doubles
unfoldable pub add_recipients : List Text → List Text → List Text
add_recipients [] out = out
add_recipients (part ∷ parts) out =
    let s = trim part in
    let added = add_recipients parts (out ++ s ∷ []) in
    let skipped = add_recipients parts out in
    if not (is_blank s) && not (includes out s) then added else skipped

unfoldable pub parse_recipients : Option Text → List Text
unfolding add_recipients
parse_recipients none = []
parse_recipients (some value) = if is_blank value then [] else add_recipients (split b',' value) []

pub data IssueKind : Type 0 where
  of_exhaustion no_delivery publish_failed : IssueKind

pub record HealthIssue : Type 0 where
  pub kind : IssueKind
  pub channel : ChannelName
  pub target : Text
  pub announcement_id : Text
  pub revision : ℕ
  pub detail : Text

abbrev pub hour : ℕ
hour = 3_600_000

abbrev pub is_exhausted : DeliveryStatus → Bool
is_exhausted exhausted = true
is_exhausted _ = false

abbrev pub is_delivered : DeliveryStatus → Bool
is_delivered delivered = true
is_delivered _ = false

abbrev or_text : Option Text → Text → Text
or_text none t = t
or_text (some s) t = s

abbrev pub issue_of : IssueKind → LedgerRow → Text → HealthIssue
issue_of kind r detail = record {
  kind = kind;
  channel = r.channel;
  target = r.target;
  announcement_id = r.announcement_id;
  revision = r.revision;
  detail = detail;
}

-- What is left of `s` after `prefix`, or `none`.
abbrev after_prefix : Text → Text → Option Text
after_prefix [] s = some s
after_prefix (p ∷ ps) [] = none
after_prefix (p ∷ ps) (c ∷ s) = if p == c then after_prefix ps s else none

abbrev failed_prefix : Text
failed_prefix = codes "failed:"

abbrev pub note_failed : Option Text → Bool
note_failed none = false
note_failed (some note) = elim (after_prefix failed_prefix note) [ none ↦ false | some rest ↦ true ]

-- String(note).replace(/^failed:\s*/, '')
abbrev failure_reason : Option Text → Text
failure_reason none = []
failure_reason (some note) = elim (after_prefix failed_prefix note) [
  | none ↦ note
  | some rest ↦ trim_start rest
]

-- t > now() - make_interval(hours => …), where null is not
abbrev pub is_recent : ℕ → ℕ → Option ℕ → Bool
is_recent now hours none = false
is_recent now hours (some t) = ltb now (t + hours * hour)

module _ (now : ℕ) (since_hours : ℕ) where
  abbrev pub was_exhausted : LedgerRow → Bool
  was_exhausted r = is_exhausted r.status && is_recent now since_hours (some r.next_attempt_at)

  abbrev pub exhausted_issue : LedgerRow → HealthIssue
  exhausted_issue r = issue_of of_exhaustion r (
      codes "target "
      ++ r.target
      ++ codes " exhausted retries: "
      ++ or_text r.last_error (codes "unknown error"))

  abbrev pub was_unpublished : LedgerRow → Bool
  was_unpublished r =
      is_delivered r.status
      && note_failed r.publish_note
      && is_recent now since_hours r.delivered_at

  abbrev pub unpublished_issue : LedgerRow → HealthIssue
  unpublished_issue r = issue_of publish_failed r (
      codes "delivered to "
      ++ r.target
      ++ codes " but not published to following servers: "
      ++ failure_reason r.publish_note)

  -- The columns that the rows are grouped by.
  abbrev pub same_group : LedgerRow → LedgerRow → Bool
  same_group r q =
      text_eq r.announcement_id q.announcement_id
      && (r.revision == q.revision)
      && channel_eq r.channel q.channel
      && text_eq r.target q.target

  -- published_at > now() - … and published_at < now() - interval '30 minutes'
  abbrev pub published_since : Option Row → Bool
  published_since none = false
  published_since (some a) =
      status_eq a.status published
      && is_recent now since_hours a.published_at
      && elim a.published_at [ none ↦ false | some t ↦ ltb (t + 1_800_000) now ]

  abbrev pub is_joined : Db → LedgerRow → Bool
  is_joined db r = published_since (find_row r.announcement_id r.revision db.announcements)

  -- The first row of each group.
  unfoldable pub groups : List LedgerRow → List LedgerRow → List LedgerRow
  groups seen [] = []
  groups seen (r ∷ rows) =
      let rest = groups seen rows in
      let more = groups (r ∷ seen) rows in if some_of (same_group r) seen then rest else r ∷ more

  -- having count(*) filter (where delivered) = 0 and count(*) filter (where exhausted) < count(*)
  abbrev pub is_silent : List LedgerRow → LedgerRow → Bool
  is_silent rows r =
      let group = keep (same_group r) rows in
      (length (keep (λ q. is_delivered q.status) group) == 0)
      && ltb (length (keep (λ q. is_exhausted q.status) group)) (length group)

  abbrev pub silent_issue : LedgerRow → HealthIssue
  silent_issue r = issue_of no_delivery r (
      codes "no successful delivery on "
      ++ channel_text r.channel
      ++ codes " ("
      ++ r.target
      ++ codes ") yet")

  unfoldable pub evaluate_channel_health : Bool → Db → List HealthIssue
  unfolding groups
  evaluate_channel_health has_note db =
      let joined = keep (is_joined db) db.delivery_ledger in
      map exhausted_issue (keep was_exhausted db.delivery_ledger)
      ++ (if has_note then map unpublished_issue (keep was_unpublished db.delivery_ledger) else [])
      ++ map silent_issue (keep (is_silent joined) (groups [] joined))
