-- ===== src/Types.antt =====
-- The data model of src/core/types.ts. An instant (an ISO-8601 text or a `timestamptz`) is the
-- number of milliseconds since the epoch.
use announcement_tool.Common.{
  ℕ, ◌≡◌, ◌↔◌, Bool, true, false, List, Option, arith, Text, text_eq, text_eq_iff, Eq,
}

pub data AnnouncementType : Type 0 where
  upgrade governance info : AnnouncementType

pub data Severity : Type 0 where
  critical recommended info : Severity

pub data Network : Type 0 where
  mainnet testnet : Network

pub data Audience : Type 0 where
  operators ecosystem : Audience

pub data DeliveryKind : Type 0 where
  publish update reminder : DeliveryKind

pub data Status : Type 0 where
  draft publish_requested scheduled published superseded discarded : Status

pub data ChannelName : Type 0 where
  webhook discord telegram email signal : ChannelName

pub record ActionRequired : Type 0 where
  pub action : Text
  pub deadline : Option Text
  pub applies_to : List Text

pub record Link : Type 0 where
  pub label : Text
  pub url : Text

pub record AnnouncementInput : Type 0 where
  pub type : AnnouncementType
  pub networks : List Network
  pub audiences : List Audience
  pub severity : Severity
  pub title : Text
  pub body_md : Text
  pub actions_required : List ActionRequired
  pub links : List Link
  pub supersedes : Option Text
  pub slug : Option Text
  pub mention_role_ids : Option (List Text)

-- `interface Announcement extends AnnouncementInput`: its `slug` is always there.
pub record Announcement : Type 0 where
  pub type : AnnouncementType
  pub networks : List Network
  pub audiences : List Audience
  pub severity : Severity
  pub title : Text
  pub body_md : Text
  pub actions_required : List ActionRequired
  pub links : List Link
  pub supersedes : Option Text
  pub mention_role_ids : Option (List Text)
  pub id : Text
  pub revision : ℕ
  pub slug : Text
  pub status : Status
  pub created_by : Text
  pub publish_requested_by : Option Text
  pub publish_confirmed_by : Option Text
  pub published_at : Option ℕ
  pub publish_rejected_by : Option Text
  pub publish_rejected_reason : Option Text
  pub scheduled_for : Option ℕ

pub record DeliveryTarget : Type 0 where
  pub channel : ChannelName
  pub target : Text

-- The tests `===` and `!==` on the enumerations.
abbrev pub status_eq : Status → Status → Bool
status_eq draft draft = true
status_eq publish_requested publish_requested = true
status_eq scheduled scheduled = true
status_eq published published = true
status_eq superseded superseded = true
status_eq discarded discarded = true
status_eq _ _ = false

abbrev pub is_critical : Severity → Bool
is_critical critical = true
is_critical _ = false

abbrev pub type_eq : AnnouncementType → AnnouncementType → Bool
type_eq upgrade upgrade = true
type_eq governance governance = true
type_eq info info = true
type_eq _ _ = false

abbrev pub severity_eq : Severity → Severity → Bool
severity_eq critical critical = true
severity_eq recommended recommended = true
severity_eq info info = true
severity_eq _ _ = false

abbrev pub network_eq : Network → Network → Bool
network_eq mainnet mainnet = true
network_eq testnet testnet = true
network_eq _ _ = false

abbrev pub audience_eq : Audience → Audience → Bool
audience_eq operators operators = true
audience_eq ecosystem ecosystem = true
audience_eq _ _ = false

abbrev pub kind_eq : DeliveryKind → DeliveryKind → Bool
kind_eq publish publish = true
kind_eq update update = true
kind_eq reminder reminder = true
kind_eq _ _ = false

abbrev pub channel_eq : ChannelName → ChannelName → Bool
channel_eq webhook webhook = true
channel_eq discord discord = true
channel_eq telegram telegram = true
channel_eq email email = true
channel_eq signal signal = true
channel_eq _ _ = false

pub status_eq_iff : (a b : Status) → (status_eq a b ≡ true) ↔ (a ≡ b)
status_eq_iff a b = ground arith

pub type_eq_iff : (a b : AnnouncementType) → (type_eq a b ≡ true) ↔ (a ≡ b)
type_eq_iff a b = ground arith

pub severity_eq_iff : (a b : Severity) → (severity_eq a b ≡ true) ↔ (a ≡ b)
severity_eq_iff a b = ground arith

pub network_eq_iff : (a b : Network) → (network_eq a b ≡ true) ↔ (a ≡ b)
network_eq_iff a b = ground arith

pub audience_eq_iff : (a b : Audience) → (audience_eq a b ≡ true) ↔ (a ≡ b)
audience_eq_iff a b = ground arith

pub kind_eq_iff : (a b : DeliveryKind) → (kind_eq a b ≡ true) ↔ (a ≡ b)
kind_eq_iff a b = ground arith

pub channel_eq_iff : (a b : ChannelName) → (channel_eq a b ≡ true) ↔ (a ≡ b)
channel_eq_iff a b = ground arith

instance abbrev pub type_has_eq : Eq AnnouncementType
type_has_eq = record { beq = type_eq; beq_iff = type_eq_iff }

instance abbrev pub severity_has_eq : Eq Severity
severity_has_eq = record { beq = severity_eq; beq_iff = severity_eq_iff }

instance abbrev pub network_has_eq : Eq Network
network_has_eq = record { beq = network_eq; beq_iff = network_eq_iff }

instance abbrev pub audience_has_eq : Eq Audience
audience_has_eq = record { beq = audience_eq; beq_iff = audience_eq_iff }

instance abbrev pub channel_has_eq : Eq ChannelName
channel_has_eq = record { beq = channel_eq; beq_iff = channel_eq_iff }

instance abbrev pub text_has_eq : Eq Text
text_has_eq = record { beq = text_eq; beq_iff = text_eq_iff }
