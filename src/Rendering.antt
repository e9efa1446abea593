-- ===== src/Rendering.antt =====
-- src/core/render.ts: the Markdown text of an announcement, which Discord is sent, and
-- src/core/public-base-url.ts. `parse_date` is `new Date(…).getTime()`, `none` for NaN, for instants from
-- the epoch on.
use announcement_tool.Common.{
  ℕ, zero, suc, ◌/◌, ◌%◌, List, [], ◌∷◌, ◌++◌, Option, none, some, map, keep, Text, codes, join,
  decimal, contains, is_blank, two_digits, civil_from_days, if◌then◌else◌,
}
use announcement_tool.Types.{
  Announcement, AnnouncementType, Severity, Network, DeliveryKind, ActionRequired, Link, mainnet,
  testnet, publish, update, reminder, network_has_eq,
}
use announcement_tool.Delivery.{without_slashes}

abbrev pub default_public_base_url : Text
default_public_base_url = codes "https://announce.aztec.network"

-- (override ?? process.env.PUBLIC_BASE_URL ?? DEFAULT_PUBLIC_BASE_URL).replace(/\/+$/, '')
unfoldable pub public_base_url : Option Text → Option Text → Text
public_base_url (some base) env = without_slashes base
public_base_url none (some base) = without_slashes base
public_base_url none none = without_slashes default_public_base_url

unfoldable pub canonical_url : Option Text → Text → Text
unfolding public_base_url
canonical_url env slug = public_base_url none env ++ (codes "/a/" ++ slug)

abbrev pub network_order : List Network
network_order = mainnet ∷ testnet ∷ []

-- `[${t.toUpperCase()}]`
abbrev pub network_tag : Network → Text
network_tag mainnet = codes "[MAINNET]"
network_tag testnet = codes "[TESTNET]"

abbrev pub severity_tag : Severity → Text
severity_tag Severity.critical = codes "[CRITICAL]"
severity_tag Severity.recommended = codes "[RECOMMENDED]"
severity_tag Severity.info = codes "[INFO]"

abbrev pub type_tag : AnnouncementType → Text
type_tag AnnouncementType.upgrade = codes "[UPGRADE]"
type_tag AnnouncementType.governance = codes "[GOVERNANCE]"
type_tag AnnouncementType.info = codes "[INFO]"

unfoldable pub tag_line : Announcement → Text
tag_line a = join (codes " ") (
    map network_tag (keep (contains a.networks) network_order)
    ++ severity_tag a.severity ∷ type_tag a.type ∷ [])

unfoldable pub kind_prefix : DeliveryKind → Text
kind_prefix update = codes "UPDATED: "
kind_prefix reminder = codes "REMINDER: "
kind_prefix publish = []

abbrev pub months : List Text
months =
    codes "Jan"
    ∷ codes "Feb"
    ∷ codes "Mar"
    ∷ codes "Apr"
    ∷ codes "May"
    ∷ codes "Jun"
    ∷ codes "Jul"
    ∷ codes "Aug"
    ∷ codes "Sep"
    ∷ codes "Oct"
    ∷ codes "Nov"
    ∷ codes "Dec"
    ∷ []

-- MONTHS[month - 1], for a month from 1 on
abbrev month_name : List Text → ℕ → Text
month_name [] n = []
month_name (m ∷ ms) zero = []
month_name (m ∷ ms) (suc zero) = m
month_name (m ∷ ms) (suc (suc n)) = month_name ms (suc n)

unfoldable pub deadline_text : ℕ → Text
unfolding civil_from_days
deadline_text ms =
    let d = civil_from_days (ms / 86_400_000) in
    decimal d.day
    ++ b' '
      ∷ (month_name months d.month
          ++ b' '
            ∷ (decimal d.year
                ++ (codes ", "
                    ++ (two_digits (ms / 3_600_000 % 24)
                        ++ b':' ∷ (two_digits (ms / 60_000 % 60) ++ codes " UTC")))))

module _ (parse_date : Text → Option ℕ) where
  unfoldable pub format_deadline : Text → Text
  unfolding deadline_text
  format_deadline iso = elim (parse_date iso) [ none ↦ iso | some ms ↦ deadline_text ms ]

  -- if (act.deadline) parts.push(…)
  abbrev pub deadline_part : Option Text → List Text
  deadline_part none = []
  deadline_part (some iso) = if is_blank iso then [] else (codes "by " ++ format_deadline iso) ∷ []

  unfoldable pub action_line : Text → ActionRequired → Text
  unfolding format_deadline
  action_line bullet act = join (codes " ") (
      (bullet ++ act.action)
      ∷ (deadline_part act.deadline ++ elim act.applies_to [
        | [] ↦ []
        | t ∷ ts ↦ (b'(' ∷ (join (codes ", ") (t ∷ ts) ++ codes ")")) ∷ []
      ]))

  unfoldable pub action_lines : Announcement → Text → List Text
  unfolding action_line
  action_lines a bullet = elim a.actions_required [
    | [] ↦ []
    | act ∷ acts ↦ codes "Action required:" ∷ map (action_line bullet) (act ∷ acts)
  ]

  -- `[${l.label}](${l.url})`
  abbrev pub markdown_link : Link → Text
  markdown_link l = b'[' ∷ (l.label ++ (codes "](" ++ (l.url ++ codes ")")))

  -- ...(lines.length ? ['', ...lines] : [])
  abbrev pub after_blank : List Text → List Text
  after_blank [] = []
  after_blank (l ∷ ls) = [] ∷ l ∷ ls

  unfoldable pub render_markdown : Option Text → Announcement → DeliveryKind → Text
  unfolding action_lines tag_line kind_prefix canonical_url
  render_markdown env a kind = join (10 ∷ []) (
      (kind_prefix kind ++ tag_line a)
      ∷ []
      ∷ (codes "**" ++ (a.title ++ codes "**"))
      ∷ []
      ∷ a.body_md
      ∷ (after_blank (action_lines a (codes "- "))
          ++ (after_blank (map markdown_link a.links) ++ [] ∷ canonical_url env a.slug ∷ [])))
