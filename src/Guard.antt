-- ===== src/Guard.antt =====
-- src/core/production-guard.ts: the checks that refuse to start. `process.env` is a function of the
-- names of its variables. A message is a constructor with the values that it shows.
pub mod Checks
pub mod Safe
use announcement_tool.Common.{
  ℕ, Bool, true, false, ◌&&◌, ◌||◌, not, List, [], ◌∷◌, ◌++◌, Option, none, some, Text, codes,
  text_eq, is_blank, trim, includes, length, ltb, if◌then◌else◌, Result, ok, err, contains,
  starts_with,
}
use announcement_tool.Types.{signal, channel_has_eq}
use announcement_tool.EnabledChannels.{ConfigError, parse_enabled_channels}

pub record GuardEnv : Type 0 where
  pub node_env : Option Text
  pub admin_email : Option Text
  pub hostname : Option Text
  pub public_base_url : Option Text
  pub allow_insecure_dev : Option Text
  pub deploy_target : Option Text
  pub auth0_issuer : Option Text
  pub auth0_audience : Option Text
  pub auth0_client_secret : Option Text
  pub session_secret : Option Text
  pub enabled_channels : Option Text
  pub database_ssl_mode : Option Text

pub data Problem : Type 0 where
  admin_email_set auth0_missing session_secret_short : Problem
  client_secret_missing channels_unset signal_enabled base_url_unset : Problem
  hostname_open deploy_target_unknown ssl_mode_weak : Option Text → Problem
  base_url_insecure : Text → Problem
  channels_invalid : ConfigError → Problem

abbrev pub loopback : List Text
loopback = codes "127.0.0.1" ∷ codes "::1" ∷ []

-- !value
abbrev pub is_missing : Option Text → Bool
is_missing none = true
is_missing (some s) = is_blank s

-- value === text
abbrev pub is_text : Text → Option Text → Bool
is_text t none = false
is_text t (some s) = text_eq s t

unfoldable pub checks_apply : GuardEnv → Bool
checks_apply env = not (is_text (codes "1") env.allow_insecure_dev)

-- if (b) problems.push(p)
abbrev pub push_if : Bool → Problem → List Problem
push_if true p = p ∷ []
push_if false p = []

unfoldable pub check_hostname : Option Text → List Problem
check_hostname none = hostname_open none ∷ []
check_hostname (some h) = push_if (is_blank h || not (includes loopback h)) (hostname_open (some h))

-- !env.sessionSecret || env.sessionSecret.length < 32
unfoldable pub secret_short : Option Text → Bool
secret_short none = true
secret_short (some s) = is_blank s || ltb (length s) 32

unfoldable pub check_channels : Option Text → List Problem
check_channels none = channels_unset ∷ []
check_channels (some raw) =
    if is_blank raw || is_blank (trim raw)
    then channels_unset ∷ []
    else elim (parse_enabled_channels (some raw)) [
      | err e ↦ channels_invalid e ∷ []
      | ok channels ↦ push_if (contains channels signal) signal_enabled
    ]

unfoldable pub check_netlify : GuardEnv → List Problem
unfolding secret_short check_channels
check_netlify env =
    push_if (is_missing env.auth0_issuer || is_missing env.auth0_audience) auth0_missing
    ++ (push_if (secret_short env.session_secret) session_secret_short
        ++ (push_if (is_missing env.auth0_client_secret) client_secret_missing
            ++ (push_if (not (is_text (codes "verify-full") env.database_ssl_mode))
                  (ssl_mode_weak env.database_ssl_mode)
                ++ check_channels env.enabled_channels)))

-- The branches on DEPLOY_TARGET.
unfoldable pub check_target : GuardEnv → List Problem
unfolding check_hostname check_netlify
check_target env =
    if is_text (codes "vm") env.deploy_target
    then check_hostname env.hostname
    else if is_text (codes "netlify") env.deploy_target
    then check_netlify env
    else deploy_target_unknown env.deploy_target ∷ []

unfoldable pub check_base_url : Option Text → List Problem
check_base_url none = base_url_unset ∷ []
check_base_url (some url) =
    if is_blank url
    then base_url_unset ∷ []
    else push_if (not (starts_with (codes "https://") url)) (base_url_insecure url)

unfoldable pub check_environment : GuardEnv → List Problem
unfolding checks_apply check_target check_base_url
check_environment env =
    if not (checks_apply env)
    then []
    else push_if (not (is_missing env.admin_email)) admin_email_set
      ++ (check_target env ++ check_base_url env.public_base_url)

-- a ?? b
abbrev pub or_else : Option Text → Option Text → Option Text
or_else none b = b
or_else (some s) b = some s

-- domain ? `https://${domain}/` : undefined
abbrev pub issuer_of : Option Text → Option Text
issuer_of none = none
issuer_of (some d) = if is_blank d then none else some (codes "https://" ++ (d ++ b'/' ∷ []))

unfoldable pub guard_env_from_process : (Text → Option Text) → GuardEnv
guard_env_from_process env = record {
  node_env = none;
  deploy_target = env (codes "DEPLOY_TARGET");
  admin_email = env (codes "ADMIN_EMAIL");
  hostname = env (codes "HOSTNAME");
  public_base_url = env (codes "PUBLIC_BASE_URL");
  allow_insecure_dev = env (codes "ANNOUNCE_ALLOW_INSECURE_DEV");
  auth0_issuer = or_else (env (codes "AUTH0_ISSUER")) (issuer_of (env (codes "AUTH0_DOMAIN")));
  auth0_audience = or_else (env (codes "AUTH0_AUDIENCE")) (env (codes "AUTH0_CLIENT_ID"));
  auth0_client_secret = env (codes "AUTH0_CLIENT_SECRET");
  session_secret = env (codes "SESSION_SECRET");
  enabled_channels = env (codes "ENABLED_CHANNELS");
  database_ssl_mode = env (codes "DATABASE_SSL_MODE");
}
