-- ===== src/Alerts.antt =====
-- src/core/alerts.ts: the mail that tells of each problem once. `alert_state` is a list of rows.
pub mod Once
pub mod History
use announcement_tool.Common.{
  ℕ, ◌+◌, ◌*◌, Bool, true, false, ◌&&◌, ◌||◌, not, List, [], ◌∷◌, ◌++◌, map, Option, none, some,
  Text, codes, text_eq, is_blank, trim, trim_start, update_where, split, includes, some_of, keep,
  length, ltb, leb, ◌==◌, decimal, if◌then◌else◌,
}
use announcement_tool.Types.{ChannelName, published, status_eq, channel_eq}
use announcement_tool.Store.{
  Row, LedgerRow, DeliveryStatus, Db, pending, delivered, failed, exhausted,
}
use announcement_tool.EnabledChannels.{channel_text}
use announcement_tool.Announcements.Table.{find_row}
use announcement_tool.Health.{
  evaluate_channel_health, add_recipients, parse_recipients, IssueKind, HealthIssue, hour,
  is_exhausted, is_delivered, issue_of, note_failed, is_recent, of_exhaustion, no_delivery,
  publish_failed,
}

unfoldable pub kind_text : IssueKind → Text
kind_text of_exhaustion = codes "exhausted"
kind_text no_delivery = codes "no_delivery"
kind_text publish_failed = codes "publish_failed"

unfoldable pub alert_key : HealthIssue → Text
unfolding kind_text
alert_key i =
    kind_text i.kind
    ++ b':'
      ∷ (channel_text i.channel
          ++ b':' ∷ (i.target ++ b':' ∷ (i.announcement_id ++ b':' ∷ decimal i.revision)))

-- A row of `alert_state`.
pub record AlertRow : Type 0 where
  pub key : Text
  pub notified_at : Option ℕ

-- new Map(issues.map(i => [alertKey(i), i])): a later issue takes the place of an earlier one.
unfoldable pub put_issue : HealthIssue → List HealthIssue → List HealthIssue
put_issue i [] = i ∷ []
put_issue i (q ∷ issues) =
    let rest = put_issue i issues in
    if text_eq (alert_key q) (alert_key i) then i ∷ issues else q ∷ rest

unfoldable pub by_key : List HealthIssue → List HealthIssue → List HealthIssue
unfolding put_issue
by_key seen [] = seen
by_key seen (i ∷ issues) = by_key (put_issue i seen) issues

abbrev pub has_alert : Text → AlertRow → Bool
has_alert k r = text_eq r.key k

-- insert into alert_state (key) values (…) on conflict do nothing, for each key
unfoldable pub insert_keys : List HealthIssue → List AlertRow → List AlertRow
insert_keys [] state = state
insert_keys (i ∷ issues) state = insert_keys issues (
    if some_of (has_alert (alert_key i)) state
    then state
    else state ++ record { key = alert_key i; notified_at = none } ∷ [])

unfoldable pub issue_at : Text → List HealthIssue → Option HealthIssue
issue_at k [] = none
issue_at k (i ∷ issues) =
    let rest = issue_at k issues in if text_eq (alert_key i) k then some i else rest

abbrev pub is_free : AlertRow → Bool
is_free r = elim r.notified_at [ none ↦ true | some t ↦ false ]

-- The issues of the rows that the select claims.
unfoldable pub claim : (AlertRow → Bool) → List HealthIssue → List AlertRow → List HealthIssue
unfolding issue_at
claim locked issues [] = []
claim locked issues (r ∷ rows) =
    let rest = claim locked issues rows in
    if is_free r && not (locked r)
    then elim (issue_at r.key issues) [ none ↦ rest | some i ↦ i ∷ rest ]
    else rest

abbrev pub in_issues : List HealthIssue → AlertRow → Bool
in_issues issues r = some_of (λ i. text_eq (alert_key i) r.key) issues

-- update alert_state set notified_at = now() where key in …
unfoldable pub set_notified : ℕ → List HealthIssue → List AlertRow → List AlertRow
set_notified now fresh = update_where (in_issues fresh) (λ r. record r { notified_at = some now })

-- The mail about the issues that were claimed, and the answer, `none` where it throws: the claim is
-- rolled back and the keys stay inserted. `sends` tells whether the mail is accepted.
unfoldable pub send_claimed :
    ℕ
    → (List HealthIssue → Bool)
    → List HealthIssue
    → List AlertRow
    → Option (List HealthIssue) × List AlertRow
send_claimed now sends [] state = (some [], state)
send_claimed now sends (i ∷ fresh) state =
    if sends (i ∷ fresh)
    then (some (i ∷ fresh), set_notified now (i ∷ fresh) state)
    else (none, state)

unfoldable pub dispatch_issues :
    ℕ
    → (AlertRow → Bool)
    → (List HealthIssue → Bool)
    → List HealthIssue
    → List AlertRow
    → Option (List HealthIssue) × List AlertRow
unfolding send_claimed
dispatch_issues now locked sends issues state =
    let known = by_key [] issues in
    let inserted = insert_keys known state in
    send_claimed now sends (claim locked known inserted) inserted

unfoldable pub dispatch_health_alerts :
    ℕ
    → (AlertRow → Bool)
    → (List Text → List HealthIssue → Bool)
    → Option Text
    → ℕ
    → Bool
    → Db
    → List AlertRow
    → Option (List HealthIssue) × List AlertRow
dispatch_health_alerts now locked sends to since_hours has_note db state =
    elim (parse_recipients to) [
      | [] ↦ (some [], state)
      | r ∷ recipients ↦ elim (evaluate_channel_health now since_hours has_note db) [
        | [] ↦ (some [], state)
        | i ∷ issues ↦ dispatch_issues now locked (sends (r ∷ recipients)) (i ∷ issues) state
      ]
    ]
