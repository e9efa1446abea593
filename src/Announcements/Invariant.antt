-- ===== src/Announcements/Invariant.antt =====
-- What every row of `announcements` satisfies beside the audit trail, and the rules by which an
-- insert and an update keep it.
use announcement_tool.Common.{
  ℕ, ◌<◌, ◌≡◌, ◌≢◌, ◌⊎◌, inl, inr, Bool, true, false, ◌&&◌, not, List, Option, none, some, Text,
  to_lower_case, In,
}
use announcement_tool.Types.{
  Status, draft, publish_requested, scheduled, published, superseded, discarded, critical,
  is_critical,
}
use announcement_tool.Store.{
  Row, Db, AuditEntry, AuditAction, Detail, at_revision, at_schedule, at_schedule_status, of_send,
  of_rejection, of_channel,
}
use announcement_tool.Announcements.Keys.{UniqueKeys}

abbrev pub is_given {ℓ} : {A : Type ℓ} → Option A → Bool
is_given none = false
is_given (some a) = true

-- Which columns are set in each status.
abbrev pub columns_fit : Status → Bool → Option Text → Option Text → Option ℕ → Option ℕ → Bool
columns_fit draft crit requested confirmed sent due =
    not (is_given requested)
    && not (is_given confirmed)
    && not (is_given sent)
    && not (is_given due)
columns_fit publish_requested crit requested confirmed sent due =
    crit && is_given requested && not (is_given confirmed) && not (is_given sent)
columns_fit scheduled crit requested confirmed sent due = not (is_given sent) && is_given due
columns_fit published crit requested confirmed sent due = is_given confirmed && is_given sent
columns_fit superseded crit requested confirmed sent due = false
columns_fit discarded crit requested confirmed sent due =
    not (is_given requested)
    && not (is_given confirmed)
    && not (is_given sent)
    && not (is_given due)

abbrev pub row_fits : Row → Bool
row_fits r =
    columns_fit r.status (is_critical r.severity) r.publish_requested_by r.publish_confirmed_by
      r.published_at r.scheduled_for

-- The revision that an entry of the audit log names.
abbrev pub detail_revision : Detail → Option ℕ
detail_revision (at_revision n) = some n
detail_revision (at_schedule n t) = some n
detail_revision (at_schedule_status n t s) = some n
detail_revision (of_send n t r c) = some n
detail_revision (of_rejection n t) = some n
detail_revision (of_channel c) = none

-- The log holds an entry of `actor` about this row.
pub record Logged (log : List AuditEntry) (r : Row) (actor : Text) (action : AuditAction)
    : Type 0 where
  pub entry : AuditEntry
  pub in_log : In entry log
  pub by_actor : entry.actor ≡ actor
  pub of_action : entry.action ≡ action
  pub about_id : entry.target ≡ r.id
  pub about_revision : detail_revision entry.detail ≡ some r.revision

-- A publisher asked to publish or to schedule this row.
pub record Asked (log : List AuditEntry) (r : Row) : Type 0 where
  pub requester : Text
  pub recorded : r.publish_requested_by ≡ some requester
  pub logged :
      Logged log r requester AuditAction.publish_requested
      ⊎ Logged log r requester AuditAction.publish_scheduled

-- Another publisher, whose name differs in more than case, confirmed it.
pub record Approved (log : List AuditEntry) (r : Row) : Type 0 where
  pub asked : Asked log r
  pub confirmer : Text
  pub recorded : r.publish_confirmed_by ≡ some confirmer
  pub logged :
      Logged log r confirmer AuditAction.publish_confirmed
      ⊎ Logged log r confirmer AuditAction.schedule_confirmed
  pub two_people : to_lower_case asked.requester ≢ to_lower_case confirmer

-- Four-eyes for one row.
pub record FourEyes (log : List AuditEntry) (r : Row) : Type 0 where
  pub when_requested : r.severity ≡ critical → r.status ≡ publish_requested → Asked log r
  pub when_scheduled : r.severity ≡ critical → r.status ≡ scheduled → Approved log r
  pub when_published : r.severity ≡ critical → r.status ≡ published → Approved log r

-- Only the latest revision of an announcement is anything but a draft.
abbrev pub OthersDraft : List Row → Type 0
OthersDraft rows =
    (r s : Row) → In r rows → In s rows → r.id ≡ s.id → r.revision < s.revision → r.status ≡ draft

-- Every announcement has its first revision.
abbrev pub HasFirst : List Row → Type 0
HasFirst rows = (r : Row) → In r rows → (s : Row) × In s rows × (s.id ≡ r.id) × (s.revision ≡ 1)

pub record Inv (rows : List Row) (log : List AuditEntry) : Type 0 where
  pub keys : UniqueKeys rows
  pub others : OthersDraft rows
  pub first : HasFirst rows
  pub fits : (r : Row) → In r rows → row_fits r ≡ true
  pub eyes : (r : Row) → In r rows → FourEyes log r

abbrev pub IsSound : Db → Type 0
IsSound db = Inv db.announcements db.audit_log

-- Every entry is kept.
abbrev pub Grows : List AuditEntry → List AuditEntry → Type 0
Grows log log' = (e : AuditEntry) → In e log → In e log'

module _ {log log' : List AuditEntry} (grows : Grows log log') {r : Row} where
  pub Logged-Grows :
      {actor : Text} {action : AuditAction} → Logged log r actor action → Logged log' r actor action
  Logged-Grows l = record {
    entry = l.entry;
    in_log = grows l.entry l.in_log;
    by_actor = l.by_actor;
    of_action = l.of_action;
    about_id = l.about_id;
    about_revision = l.about_revision;
  }

  pub Asked-Grows : Asked log r → Asked log' r
  Asked-Grows a = record {
    requester = a.requester;
    recorded = a.recorded;
    logged = elim a.logged [ inl l ↦ inl (Logged-Grows l) | inr l ↦ inr (Logged-Grows l) ];
  }

  pub Approved-Grows : Approved log r → Approved log' r
  unfolding Asked-Grows
  Approved-Grows a = record {
    asked = Asked-Grows a.asked;
    confirmer = a.confirmer;
    recorded = a.recorded;
    logged = elim a.logged [ inl l ↦ inl (Logged-Grows l) | inr l ↦ inr (Logged-Grows l) ];
    two_people = a.two_people;
  }

  pub FourEyes-Grows : FourEyes log r → FourEyes log' r
  FourEyes-Grows f = record {
    when_requested = λ c s. Asked-Grows (f.when_requested c s);
    when_scheduled = λ c s. Approved-Grows (f.when_scheduled c s);
    when_published = λ c s. Approved-Grows (f.when_published c s);
  }
