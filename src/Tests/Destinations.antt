-- ===== src/Tests/Destinations.antt =====
-- Addresses and URLs of webhooks: runs of the parser, and the theorems applied to them.
use announcement_tool.Common.{
  ◌/◌, ◌%◌, ◌≡◌, refl, false, [], ◌∷◌, none, some, Text, codes, text_eq, if◌then◌else◌, arith, ok,
  throw_if, to_lower_case, split, number, number_from,
}
use announcement_tool.SafeUrl.{Groups, forbidden_groups, forbidden_v4, v4_to_int}
use announcement_tool.SafeUrl.Parsing.{v6_groups, parse_hex, hex_from}
use announcement_tool.SafeUrl.Ranges.{forbidden_quad}
use announcement_tool.SafeUrl.Embedded.{forbidden_groups-Carries, mapped}
use announcement_tool.SafeUrl.Deliverable.{
  IsIp, no_ip, version_4, Url, resolve_deliverable_url, is_forbidden_address, is_forbidden_hostname,
  forbidden_as,
}
use announcement_tool.SafeUrl.Vetted.{Vetted, resolve_deliverable_url-Vetted}

abbrev loopback : Groups
loopback = record { g0 = 0; g1 = 0; g2 = 0; g3 = 0; g4 = 0; g5 = 0xffff; g6 = 0x7f00; g7 = 1 }

loopback_mapped : v6_groups (codes "::ffff:127.0.0.1") ≡ some loopback
unfolding v6_groups parse_hex hex_from v4_to_int split number number_from
loopback_mapped = refl

loopback_hex : v6_groups (codes "0:0:0:0:0:FFFF:7f00:1") ≡ some loopback
unfolding v6_groups parse_hex hex_from split
loopback_hex = refl

too_many_halves : v6_groups (codes "1::2::3") ≡ none
unfolding v6_groups split
too_many_halves = refl

forbidden_groups-Carries_example :
    forbidden_groups loopback ≡ forbidden_quad (0x7f00 / 256) (0x7f00 % 256) (1 / 256)
forbidden_groups-Carries_example =
    forbidden_groups-Carries loopback 0x7f00 1 (omega arith) (omega arith) (mapped refl refl)

abbrev pub public_address : Text
public_address = codes "93.184.216.34"

abbrev pub one_ip : IsIp
one_ip t = if text_eq t public_address then version_4 else no_ip

abbrev pub hook : Url
hook = record { href = codes "https://a.io/"; protocol = codes "https:"; hostname = codes "a.io" }

hook_resolved :
    resolve_deliverable_url one_ip
      (λ _. some hook)
      (λ _. some (public_address ∷ []))
      false
      (codes "https://a.io/")
    ≡ ok (hook, public_address ∷ [])
unfolding resolve_deliverable_url is_forbidden_address is_forbidden_hostname throw_if text_eq
    forbidden_as forbidden_v4 split number number_from to_lower_case
hook_resolved = refl

resolve_deliverable_url-Vetted_example :
    Vetted one_ip
      (λ _. some hook)
      (λ _. some (public_address ∷ []))
      (codes "https://a.io/")
      hook
      (public_address ∷ [])
resolve_deliverable_url-Vetted_example =
    resolve_deliverable_url-Vetted one_ip (λ _. some hook) (λ _. some (public_address ∷ []))
      (codes "https://a.io/") hook (public_address ∷ []) hook_resolved
