-- ===== src/Store.antt =====
-- The database of migrations/: one record of tables. A row has its table's columns, with `none` for
-- null; the primary keys and unique indexes are tested where the program inserts.
use announcement_tool.Common.{ℕ, List, [], ◌∷◌, ◌++◌, Option, Bool, Text}
use announcement_tool.Types.{
  AnnouncementType, Severity, Network, Audience, DeliveryKind, Status, ChannelName, ActionRequired,
  Link,
}

-- A row of `announcements`.
pub record Row : Type 0 where
  pub id : Text
  pub revision : ℕ
  pub slug : Text
  pub type : AnnouncementType
  pub networks : List Network
  pub audiences : List Audience
  pub severity : Severity
  pub title : Text
  pub body_md : Text
  pub actions_required : List ActionRequired
  pub links : List Link
  pub status : Status
  pub supersedes : Option Text
  pub created_by : Text
  pub publish_requested_by : Option Text
  pub publish_confirmed_by : Option Text
  pub published_at : Option ℕ
  pub created_at : ℕ
  pub publish_rejected_by : Option Text
  pub publish_rejected_reason : Option Text
  pub scheduled_for : Option ℕ
  pub mention_role_ids : Option (List Text)

pub data AuditAction : Type 0 where
  draft_created edited draft_discarded publish_confirmed scheduled_publish_sent : AuditAction
  publish_requested publish_scheduled schedule_confirmed schedule_cancelled : AuditAction
  publish_withdrawn publish_rejected subscription_deleted : AuditAction

-- The JSON objects that the program writes to `audit_log.detail`.
pub data Detail : Type 0 where
  at_revision : ℕ → Detail
  at_schedule : ℕ → Option ℕ → Detail
  at_schedule_status : ℕ → ℕ → Status → Detail
  of_send : ℕ → Option ℕ → Option Text → Option Text → Detail
  of_rejection : ℕ → Text → Detail
  of_channel : ChannelName → Detail

pub record AuditEntry : Type 0 where
  pub actor : Text
  pub action : AuditAction
  pub target : Text
  pub detail : Detail

pub data DeliveryStatus : Type 0 where
  pending delivered failed exhausted : DeliveryStatus

-- A row of `delivery_ledger`.
pub record LedgerRow : Type 0 where
  pub announcement_id : Text
  pub revision : ℕ
  pub kind : DeliveryKind
  pub channel : ChannelName
  pub target : Text
  pub status : DeliveryStatus
  pub attempts : ℕ
  pub next_attempt_at : ℕ
  pub last_error : Option Text
  pub delivered_at : Option ℕ
  pub publish_note : Option Text

-- A row of `channel_settings`, with the two keys of `config` that are read here.
pub record SettingRow : Type 0 where
  pub key : Text
  pub channel : ChannelName
  pub cfg_networks : Option (List Network)
  pub cfg_types : Option (List AnnouncementType)

pub record SubscriptionFilters : Type 0 where
  pub networks : List Network
  pub types : List AnnouncementType
  pub severities : List Severity
  pub audiences : List Audience

-- `Partial<SubscriptionFilters>`
pub record PartialFilters : Type 0 where
  pub networks : Option (List Network)
  pub types : Option (List AnnouncementType)
  pub severities : Option (List Severity)
  pub audiences : Option (List Audience)

-- A row of `subscriptions`.
pub record SubscriptionRow : Type 0 where
  pub id : Text
  pub channel : ChannelName
  pub endpoint : Text
  pub verified : Bool
  pub secret : Option Text
  pub filters : SubscriptionFilters
  pub unsubscribe_token : Text
  pub verify_token : Option Text
  pub verify_token_issued_at : Option ℕ
  pub pending_filters : Option PartialFilters
  pub pending_token : Option Text
  pub pending_token_issued_at : Option ℕ

pub record Db : Type 0 where
  pub announcements : List Row
  pub audit_log : List AuditEntry
  pub delivery_ledger : List LedgerRow
  pub channel_settings : List SettingRow
  pub subscriptions : List SubscriptionRow

abbrev pub empty : Db
empty = record {
  announcements = [];
  audit_log = [];
  delivery_ledger = [];
  channel_settings = [];
  subscriptions = [];
}

-- insert into audit_log (actor, action, target, detail)
abbrev pub audit : Text → AuditAction → Text → Detail → Db → Db
audit actor action target detail db = record db { audit_log = db.audit_log ++ entry ∷ [] }
  where
    entry : AuditEntry
    entry = record { actor = actor; action = action; target = target; detail = detail }
