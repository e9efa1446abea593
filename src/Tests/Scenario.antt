-- ===== src/Tests/Scenario.antt =====
-- The data of the runs: one announcement, two publishers, one channel and one webhook.
use announcement_tool.Common.{ℕ, List, [], ◌∷◌, none, some, Text, codes}
use announcement_tool.Types.{
  AnnouncementInput, Announcement, ChannelName, upgrade, critical, mainnet, operators, discord,
  draft, publish,
}
use announcement_tool.Store.{Row, LedgerRow, Db, empty, SettingRow}
use announcement_tool.Outbox.{new_row}
use announcement_tool.Announcements.Table.{row_to_announcement}
use announcement_tool.Announcements.Drafts.{revision_row}
use announcement_tool.Announcements.Publish.{set_requested, set_published}
use announcement_tool.Announcements.History.{Call, creates, requests, confirms}

abbrev pub noon : ℕ
noon = 1_787_918_400_000

abbrev pub ann_text : Text
ann_text = codes "ann-1"

abbrev pub alice : Text
alice = codes "Alice"

abbrev pub bob : Text
bob = codes "bob"

abbrev pub upgrade_input : AnnouncementInput
upgrade_input = record {
  type = upgrade;
  networks = mainnet ∷ [];
  audiences = operators ∷ [];
  severity = critical;
  title = codes "Upgrade to v5.2.0";
  body_md = codes "body";
  actions_required = [];
  links = [];
  supersedes = none;
  slug = some (codes "v5-2-0");
  mention_role_ids = none;
}

abbrev pub channels : List ChannelName
channels = discord ∷ []

abbrev pub main_channel : SettingRow
main_channel = record {
  key = codes "main";
  channel = discord;
  cfg_networks = none;
  cfg_types = none;
}

abbrev pub start : Db
start = record empty { channel_settings = main_channel ∷ [] }

abbrev pub calls : List Call
calls =
    creates noon ann_text upgrade_input alice
    ∷ requests noon ann_text alice
    ∷ confirms noon ann_text bob
    ∷ []

abbrev pub drafted : Row
drafted = revision_row noon ann_text 1 (codes "v5-2-0") upgrade_input draft alice

abbrev pub published_row : Row
published_row = set_published noon bob (set_requested alice drafted)

abbrev pub sent : Announcement
sent = row_to_announcement published_row

abbrev pub main_delivery : LedgerRow
main_delivery = new_row noon sent publish (record { channel = discord; target = codes "main" })

abbrev pub with_delivery : Db
with_delivery = record start {
  announcements = published_row ∷ [];
  delivery_ledger = main_delivery ∷ [];
}
