-- ===== src/SafeUrl/Deliverable.antt =====
-- src/core/safe-url.ts: isForbiddenAddress, isForbiddenHostname and resolveDeliverableUrl.
use announcement_tool.Common.{
  ℕ, Bool, true, false, ◌&&◌, not, List, [], ◌∷◌, Option, none, some, Text, codes, text_eq,
  to_lower_case, reverse, some_of, if◌then◌else◌, Result, ok, err, ◌>>◌, throw_if, ◌==◌,
}
use announcement_tool.SafeUrl.{forbidden_v4, forbidden_groups}
use announcement_tool.SafeUrl.Parsing.{v6_groups}

unfoldable pub forbidden_v6 : Text → Bool
unfolding v6_groups forbidden_groups
forbidden_v6 ip = elim (v6_groups ip) [ none ↦ true | some g ↦ forbidden_groups g ]

pub data IpKind : Type 0 where
  no_ip version_4 version_6 : IpKind

-- What `isIP` answers: 0, 4 or 6.
abbrev pub IsIp : Type 0
IsIp = Text → IpKind

unfoldable pub forbidden_as : IpKind → Text → Bool
forbidden_as no_ip ip = true
forbidden_as version_4 ip = forbidden_v4 ip
forbidden_as version_6 ip = forbidden_v6 ip

unfoldable pub is_forbidden_address : IsIp → Text → Bool
unfolding forbidden_as
is_forbidden_address is_ip ip = forbidden_as (is_ip ip) ip

-- What is left of `s` after the prefix `p`, or `none`.
abbrev drop_prefix : Text → Text → Option Text
drop_prefix [] s = some s
drop_prefix (p ∷ ps) [] = none
drop_prefix (p ∷ ps) (c ∷ s) = if p == c then drop_prefix ps s else none

-- (^|\.)name$, on reversed texts
unfoldable pub is_domain_of : Text → Text → Bool
is_domain_of name host = elim (drop_prefix (reverse name) (reverse host)) [
  | none ↦ false
  | some [] ↦ true
  | some (c ∷ s) ↦ c == b'.'
]

abbrev pub forbidden_names : List Text
forbidden_names =
    codes "localhost"
    ∷ codes "local"
    ∷ codes "internal"
    ∷ codes "home.arpa"
    ∷ codes "localdomain"
    ∷ []

-- FORBIDDEN_NAME.test(name)
unfoldable pub forbidden_name : Text → Bool
unfolding is_domain_of
forbidden_name name = some_of (λ suffix. is_domain_of suffix (to_lower_case name)) forbidden_names

-- hostname.endsWith('.') ? hostname.slice(0, -1) : hostname, on the reversed name
abbrev drop_unit : ℕ → Text → Text
drop_unit c [] = []
drop_unit c (d ∷ s) = if d == c then s else d ∷ s

unfoldable pub without_root_dot : Text → Text
without_root_dot host = reverse (drop_unit b'.' (reverse host))

-- name.startsWith('[') && name.endsWith(']') ? name.slice(1, -1) : name
unfoldable pub without_brackets : Text → Text
without_brackets [] = []
without_brackets (c ∷ s) = elim (reverse s) [
  | [] ↦ c ∷ s
  | d ∷ inner ↦ if (c == b'[') && (d == b']') then reverse inner else c ∷ s
]

unfoldable pub forbidden_host_as : IpKind → Text → Text → Bool
unfolding forbidden_as forbidden_name
forbidden_host_as no_ip bare name = forbidden_name name
forbidden_host_as version_4 bare name = forbidden_as version_4 bare
forbidden_host_as version_6 bare name = forbidden_as version_6 bare

unfoldable pub is_forbidden_hostname : IsIp → Text → Bool
unfolding without_root_dot without_brackets forbidden_host_as
is_forbidden_hostname is_ip hostname =
    let name = without_root_dot hostname in
    let bare = without_brackets name in forbidden_host_as (is_ip bare) bare name

-- What the URL parser gives, as far as it is read.
pub record Url : Type 0 where
  pub href : Text
  pub protocol : Text
  pub hostname : Text

-- Every refusal throws URL_NOT_ALLOWED.
pub data UrlError : Type 0 where
  url_not_allowed : UrlError

module _ (is_ip : IsIp) (parse : Text → Option Url) (lookup : Text → Option (List Text)) where
  -- The answer of the resolver, `none` where it rejects, under the guards that follow it.
  unfoldable pub vet_addresses : Url → Option (List Text) → Result UrlError (Url × List Text)
  vet_addresses u none = err url_not_allowed
  vet_addresses u (some []) = err url_not_allowed
  vet_addresses u (some (a ∷ more)) =
      if some_of (is_forbidden_address is_ip) (a ∷ more)
      then err url_not_allowed
      else ok (u, a ∷ more)

  unfoldable pub resolve_deliverable_url : Bool → Text → Result UrlError (Url × List Text)
  unfolding vet_addresses
  resolve_deliverable_url allow_private_hosts url = elim (parse url) [
    | none ↦ err url_not_allowed
    | some u ↦ if allow_private_hosts then ok (u, []) else do
      throw_if (not (text_eq u.protocol (codes "https:"))) url_not_allowed
      throw_if (is_forbidden_hostname is_ip u.hostname) url_not_allowed
      vet_addresses u (lookup u.hostname)
  ]
