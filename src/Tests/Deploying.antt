-- ===== src/Tests/Deploying.antt =====
-- The theorems on configurations, applied to a Netlify deployment and to its database.
use announcement_tool.Common.{
  ◌≡◌, refl, ◌↔◌, ◌⊎◌, true, false, List, [], ◌∷◌, Option, none, some, Text, codes, text_eq,
  if◌then◌else◌, ok, All, starts_with, cut, trim, split, to_lower_case, throw_if,
}
use announcement_tool.EnabledChannels.{parse_enabled_channels}
use announcement_tool.Guard.{
  guard_env_from_process, checks_apply, check_environment, check_target, check_netlify,
  check_channels, check_base_url, secret_short,
}
use announcement_tool.Guard.Safe.{IsSafe, check_environment_iff}
use announcement_tool.Identity.{Headers, Identity, auth0, auth0_identity_header, resolve_identity}
use announcement_tool.Identity.Gate.{
  budget, unreachable, allowed, list_publishers, require_publisher, register,
}
use announcement_tool.Identity.Starting.{Listed, Staffed, require_publisher_iff, register-Safe}
use announcement_tool.Database.{
  DbEnv, ConnectionOptions, Query, build_connection_options, check_url, text_sets, ssl_options,
  root_options, unescaped, normalize_pem,
}
use announcement_tool.Database.Tls.{Accepted, build_connection_options-Accepted}
use announcement_tool.Database.Lines.{IsBundle}
use announcement_tool.Database.Pem.{Piece, PlainPiece, document, bodies, normalize_pem-IsBundle}

-- The variables of the deployment, by their names.
abbrev pub variable : List (Text × Text) → Text → Option Text
variable [] name = none
variable ((k, v) ∷ rest) name = if text_eq k name then some v else variable rest name

abbrev netlify : Text → Option Text
netlify = variable (
    (codes "DEPLOY_TARGET", codes "netlify")
    ∷ (codes "NEXT_RUNTIME", codes "nodejs")
    ∷ (codes "PUBLIC_BASE_URL", codes "https://a.example")
    ∷ (codes "AUTH0_ISSUER", codes "https://t.example/")
    ∷ (codes "AUTH0_CLIENT_ID", codes "id")
    ∷ (codes "AUTH0_CLIENT_SECRET", codes "client")
    ∷ (codes "SESSION_SECRET", codes "0123456789abcdef0123456789abcdef")
    ∷ (codes "ENABLED_CHANNELS", codes "discord, email")
    ∷ (codes "DATABASE_SSL_MODE", codes "verify-full")
    ∷ [])

no_problem : check_environment (guard_env_from_process netlify) ≡ []
unfolding check_environment guard_env_from_process checks_apply check_target check_netlify
    check_channels check_base_url secret_short text_eq starts_with trim parse_enabled_channels split
    to_lower_case
no_problem = refl

check_environment_iff_example : (check_environment (guard_env_from_process netlify) ≡ []) ↔ (
    ((guard_env_from_process netlify).allow_insecure_dev ≡ some (codes "1"))
    ⊎ IsSafe (guard_env_from_process netlify))
check_environment_iff_example = check_environment_iff (guard_env_from_process netlify)

starts : register netlify budget ≡ ok (some unreachable)
unfolding register check_environment guard_env_from_process checks_apply check_target check_netlify
    check_channels check_base_url secret_short text_eq starts_with trim parse_enabled_channels split
    to_lower_case
starts = refl

register-Safe_example :
    (netlify (codes "ANNOUNCE_ALLOW_INSECURE_DEV") ≡ some (codes "1"))
    ⊎ (IsSafe (guard_env_from_process netlify) × Staffed budget)
register-Safe_example = register-Safe netlify budget unreachable starts

abbrev with_auth0 : Headers
with_auth0 name =
    if text_eq name auth0_identity_header then some (codes "bob@example.org") else none

abbrev bob_identity : Identity
bob_identity = record { email = codes "bob@example.org"; name = none; source = auth0 }

applied : checks_apply (guard_env_from_process netlify) ≡ true
unfolding checks_apply guard_env_from_process text_eq
applied = refl

abbrev table : List Text
table = codes "Bob@example.org" ∷ []

require_publisher_iff_example :
    (require_publisher
        (λ s t. true)
        (guard_env_from_process netlify)
        false
        none
        (some table)
        (some table)
        with_auth0
      ≡ allowed bob_identity (list_publishers (λ s t. true) table))
    ↔ ((resolve_identity false none with_auth0 ≡ some bob_identity)
        × Listed table (codes "bob@example.org"))
require_publisher_iff_example =
    require_publisher_iff (λ s t. true) table table bob_identity (guard_env_from_process netlify)
      false none with_auth0 applied

abbrev db_env : DbEnv
db_env = record {
  database_url = some (codes "postgres://u:p@db.example/a");
  ssl_mode = some (codes "verify-full");
  ssl_root_cert = some (codes "/etc/ca.pem");
}

abbrev no_query : Text → Option Query
no_query url = some (λ name. none)

abbrev options : ConnectionOptions
options = record {
  url = codes "postgres://u:p@db.example/a";
  ssl = some (record { ca = codes "/etc/ca.pem"; reject_unauthorized = true });
}

accepted : build_connection_options no_query db_env ≡ ok options
unfolding build_connection_options check_url throw_if text_sets cut to_lower_case ssl_options
    root_options text_eq
accepted = refl

build_connection_options-Accepted_example : Accepted no_query db_env options
build_connection_options-Accepted_example =
    build_connection_options-Accepted no_query db_env options accepted

-- Two certificates on one line.
abbrev pasted : List Piece
pasted =
    record { gap = []; body = codes " AB CD " } ∷ record { gap = codes " "; body = codes "EF" } ∷ []

same_text : unescaped (document pasted []) ≡ document pasted []
unfolding unescaped document cut
same_text = refl

plain : All PlainPiece pasted
plain = (
  (tt, (refl, (refl, (refl, (refl, (refl, (refl, (refl, tt)))))))),
  (((refl, tt), (refl, (refl, tt))), tt),
)

normalize_pem-IsBundle_example :
    (pem : Text) × (normalize_pem (document pasted []) ≡ ok pem)
    × IsBundle (bodies pasted) pem
    × (normalize_pem pem ≡ ok pem)
normalize_pem-IsBundle_example =
    normalize_pem-IsBundle (document pasted []) pasted [] same_text plain tt
