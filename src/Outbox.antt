-- ===== src/Outbox.antt =====
-- src/core/outbox.ts: where an announcement goes, and the rows of the ledger that say so.
pub mod Ledger
pub mod Targets
pub mod Enqueue
use announcement_tool.Common.{
  ℕ, ◌+◌, Bool, true, false, ◌&&◌, List, [], ◌∷◌, ◌++◌, map, Option, none, some, Text, text_eq,
  keep, contains, ◌==◌, if◌then◌else◌,
}
use announcement_tool.Types.{
  AnnouncementType, Network, ChannelName, DeliveryKind, DeliveryTarget, Announcement, mainnet,
  testnet, upgrade, governance, channel_eq, kind_eq, type_has_eq, network_has_eq,
}
use announcement_tool.Types
use announcement_tool.Store.{SettingRow, SubscriptionRow, LedgerRow, Db, pending}
use announcement_tool.Subscriptions.{Subscription, row_to_sub, intersects, matches_subscription}
use announcement_tool.EnabledChannels.{is_channel_enabled}

pub record ChannelSetting : Type 0 where
  pub key : Text
  pub channel : ChannelName
  pub networks : List Network
  pub types : List AnnouncementType

-- a ?? b
abbrev or_else {ℓ} : {A : Type ℓ} → Option A → A → A
or_else none b = b
or_else (some a) b = a

abbrev pub row_to_setting : SettingRow → ChannelSetting
row_to_setting r = record {
  key = r.key;
  channel = r.channel;
  networks = or_else r.cfg_networks (mainnet ∷ testnet ∷ []);
  types = or_else r.cfg_types (upgrade ∷ governance ∷ Types.AnnouncementType.info ∷ []);
}

unfoldable pub setting_matches : Announcement → ChannelSetting → Bool
setting_matches a cs = intersects cs.networks a.networks && contains cs.types a.type

abbrev pub setting_target : ChannelSetting → DeliveryTarget
setting_target cs = record { channel = cs.channel; target = cs.key }

unfoldable pub broadcast_targets_for : Announcement → List ChannelSetting → List DeliveryTarget
unfolding setting_matches
broadcast_targets_for a settings = map setting_target (keep (setting_matches a) settings)

unfoldable pub sub_matches : Announcement → Subscription → Bool
sub_matches a s = matches_subscription a.type a.severity a.networks a.audiences s

abbrev pub sub_target : Subscription → DeliveryTarget
sub_target s = record { channel = s.channel; target = s.id }

-- select * from subscriptions where verified = true
abbrev pub verified_rows : List SubscriptionRow → List SubscriptionRow
verified_rows = keep (λ r. r.verified)

unfoldable pub subscription_targets : Announcement → List SubscriptionRow → List DeliveryTarget
unfolding sub_matches
subscription_targets a rows =
    map sub_target (keep (sub_matches a) (map row_to_sub (verified_rows rows)))

unfoldable pub count_fanout_targets : List ChannelName → Db → Announcement → List DeliveryTarget
unfolding broadcast_targets_for subscription_targets
count_fanout_targets enabled db a =
    keep (λ t. is_channel_enabled enabled t.channel)
      (broadcast_targets_for a (map row_to_setting db.channel_settings)
        ++ subscription_targets a db.subscriptions)

-- The primary key (announcement_id, revision, kind, channel, target) of the ledger.
unfoldable pub has_key : Text → ℕ → DeliveryKind → ChannelName → Text → LedgerRow → Bool
has_key id revision kind channel target r =
    text_eq r.announcement_id id
    && (r.revision == revision)
    && kind_eq r.kind kind
    && channel_eq r.channel channel
    && text_eq r.target target

unfoldable pub key_taken : Text → ℕ → DeliveryKind → DeliveryTarget → List LedgerRow → Bool
unfolding has_key
key_taken id revision kind t [] = false
key_taken id revision kind t (r ∷ rs) =
    let rest = key_taken id revision kind t rs in
    if has_key id revision kind t.channel t.target r then true else rest

-- A new row, with the defaults of the columns.
abbrev pub new_row : ℕ → Announcement → DeliveryKind → DeliveryTarget → LedgerRow
new_row now a kind t = record {
  announcement_id = a.id;
  revision = a.revision;
  kind = kind;
  channel = t.channel;
  target = t.target;
  status = pending;
  attempts = 0;
  next_attempt_at = now;
  last_error = none;
  delivered_at = none;
  publish_note = none;
}

-- One `insert into delivery_ledger … on conflict do nothing`; the second component is `inserted`.
unfoldable pub insert_target :
    ℕ → Announcement → DeliveryKind → DeliveryTarget → List LedgerRow × ℕ → List LedgerRow × ℕ
unfolding key_taken
insert_target now a kind t (ledger, inserted) =
    if key_taken a.id a.revision kind t ledger
    then (ledger, inserted)
    else (ledger ++ new_row now a kind t ∷ [], inserted + 1)

unfoldable pub insert_targets :
    ℕ → Announcement → DeliveryKind → List DeliveryTarget → List LedgerRow × ℕ → List LedgerRow × ℕ
unfolding insert_target
insert_targets now a kind [] s = s
insert_targets now a kind (t ∷ ts) s = insert_targets now a kind ts (insert_target now a kind t s)

unfoldable pub enqueue_deliveries : ℕ → List ChannelName → Announcement → DeliveryKind → Db → Db × ℕ
enqueue_deliveries now enabled a kind db =
    let (ledger, inserted) =
      insert_targets now a kind (count_fanout_targets enabled db a) (db.delivery_ledger, 0) in
    (record db { delivery_ledger = ledger }, inserted)
