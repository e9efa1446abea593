-- ===== src/Tests/Requests.antt =====
-- The theorems on identities, applied to requests with the headers of a VM.
use announcement_tool.Common.{◌≡◌, refl, none, some, codes, text_eq, if◌then◌else◌}
use announcement_tool.Identity.{
  Headers, tailscale_login, auth0_identity_header, client_ip_from_headers,
}

abbrev claims_alice : Headers
claims_alice name = if text_eq name tailscale_login then some (codes " Alice@Example.org") else none

abbrev claims_nothing : Headers
claims_nothing name = none

no_auth0 : claims_alice auth0_identity_header ≡ none
unfolding text_eq
no_auth0 = refl

no_address : client_ip_from_headers claims_nothing ≡ codes "unknown"
unfolding client_ip_from_headers
no_address = refl
