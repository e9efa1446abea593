-- ===== src/Subscriptions.antt =====
-- src/core/subscriptions.ts: the filters of a subscription, the rows, and the operations on them.
pub mod Table
pub mod Signup
pub mod Rows
pub mod Untrusted
pub mod Trust
pub mod Confirming
pub mod Unsubscribing
use announcement_tool.Common.{ℕ, Bool, ◌&&◌, List, [], ◌∷◌, Option, Text, Eq, contains, some_of}
use announcement_tool.Types.{
  AnnouncementType, Severity, Network, Audience, ChannelName, upgrade, governance, info, critical,
  recommended, mainnet, testnet, operators, channel_eq, type_has_eq, severity_has_eq,
  network_has_eq, audience_has_eq,
}
use announcement_tool.Types
use announcement_tool.Store.{SubscriptionFilters, SubscriptionRow}

pub record Subscription : Type 0 where
  pub id : Text
  pub channel : ChannelName
  pub endpoint : Text
  pub verified : Bool
  pub secret : Option Text
  pub filters : SubscriptionFilters
  pub unsubscribe_token : Text
  pub verify_token : Option Text

abbrev pub verify_token_ttl_hours : ℕ
verify_token_ttl_hours = 72

abbrev pub pending_token_ttl_hours : ℕ
pending_token_ttl_hours = 72

abbrev pub defaults : SubscriptionFilters
defaults = record {
  networks = mainnet ∷ testnet ∷ [];
  types = upgrade ∷ governance ∷ Types.AnnouncementType.info ∷ [];
  severities = critical ∷ recommended ∷ Types.Severity.info ∷ [];
  audiences = operators ∷ [];
}

abbrev pub row_to_sub : SubscriptionRow → Subscription
row_to_sub r = record {
  id = r.id;
  channel = r.channel;
  endpoint = r.endpoint;
  verified = r.verified;
  secret = r.secret;
  filters = r.filters;
  unsubscribe_token = r.unsubscribe_token;
  verify_token = r.verify_token;
}

unfoldable pub intersects {ℓ} : {A : Type ℓ} ⦃e : Eq A⦄ → List A → List A → Bool
intersects a b = some_of (contains b) a

unfoldable pub matches_subscription :
    AnnouncementType → Severity → List Network → List Audience → Subscription → Bool
matches_subscription type severity networks audiences s =
    intersects networks s.filters.networks
    && contains s.filters.types type
    && contains s.filters.severities severity
    && intersects audiences s.filters.audiences
