-- ===== src/Identity.antt =====
-- src/core/identity.ts: resolveIdentity and isPublisher, and src/web/client-ip.ts:
-- clientIpFromHeaders. The headers are a function of their names; the environment is arguments.
pub mod Sources
pub mod Gate
pub mod Starting
use announcement_tool.Common.{
  Bool, true, false, not, List, [], ◌∷◌, Option, none, some, Text, codes, text_eq, is_blank, trim,
  split, to_lower_case, some_of, if◌then◌else◌,
}

pub data IdentitySource : Type 0 where
  auth0 tailscale dev : IdentitySource

pub record Identity : Type 0 where
  pub email : Text
  pub name : Option Text
  pub source : IdentitySource

abbrev pub Headers : Type 0
Headers = Text → Option Text

abbrev pub auth0_identity_header : Text
auth0_identity_header = codes "x-announce-internal-auth0-email"

-- A header that is absent or empty is falsy.
abbrev pub given : Option Text → Option Text
given none = none
given (some s) = if is_blank s then none else some s

-- s.trim().toLowerCase()
abbrev pub normal : Text → Text
normal s = to_lower_case (trim s)

abbrev pub of_dev : Option Text → Option Identity
of_dev dev_email = elim (given dev_email) [
  | none ↦ none
  | some s ↦ some (record { email = normal s; name = none; source = dev })
]

abbrev pub tailscale_login : Text
tailscale_login = codes "Tailscale-User-Login"

abbrev pub tailscale_name : Text
tailscale_name = codes "Tailscale-User-Name"

-- The sources after Auth0, in their order; `is_vm` is DEPLOY_TARGET === 'vm'.
unfoldable pub without_auth0 : Bool → Option Text → Headers → Option Identity
without_auth0 false dev_email headers = of_dev dev_email
without_auth0 true dev_email headers = elim (given (headers tailscale_login)) [
  | none ↦ of_dev dev_email
  | some user ↦
      some
        (record { email = normal user; name = given (headers tailscale_name); source = tailscale })
]

-- `dev_email` is opts.devEmail ?? process.env.ADMIN_EMAIL.
unfoldable pub resolve_identity : Bool → Option Text → Headers → Option Identity
unfolding without_auth0
resolve_identity is_vm dev_email headers = elim (given (headers auth0_identity_header)) [
  | none ↦ without_auth0 is_vm dev_email headers
  | some s ↦
      if is_blank (normal s)
      then without_auth0 is_vm dev_email headers
      else some (record { email = normal s; name = none; source = auth0 })
]

-- The rows of `publishers`; `checks_apply` is the answer of `checksApply`.
unfoldable pub is_publisher : Bool → List Text → Text → Bool
is_publisher checks_apply [] email = not checks_apply
is_publisher checks_apply (p ∷ publishers) email =
    some_of (λ q. text_eq (to_lower_case q) (to_lower_case email)) (p ∷ publishers)

-- The trimmed value of a header, unless it is blank.
abbrev trimmed : Option Text → Option Text
trimmed none = none
trimmed (some s) = given (some (trim s))

abbrev first_part : List Text → Option Text
first_part [] = none
first_part (p ∷ ps) = some p

abbrev forwarded_first : Option Text → Option Text
forwarded_first none = none
forwarded_first (some s) = trimmed (first_part (split b',' s))

unfoldable pub client_ip_from_headers : Headers → Text
client_ip_from_headers h = elim (trimmed (h (codes "x-nf-client-connection-ip"))) [
  | some ip ↦ ip
  | none ↦ elim (forwarded_first (h (codes "x-forwarded-for"))) [
    | some ip ↦ ip
    | none ↦ codes "unknown"
  ]
]
