-- ===== src/Worker/Request.antt =====
-- src/core/tick-auth.ts and netlify/functions/tick-background.ts: the request that runs a pass on
-- Netlify, from its secret to the pass. `senderFromEnv` is the part of src/adapters/esp.ts that reads
-- the name of the mail service; a sender is known by its name.
use announcement_tool.Common.{
  Bool, false, ◌&&◌, not, List, [], ◌∷◌, Option, none, some, Text, codes, text_eq, is_blank,
  to_lower_case, if◌then◌else◌, Result, ok, err,
}
use announcement_tool.Types.{ChannelName}
use announcement_tool.EnabledChannels.{ConfigError, parse_enabled_channels}
use announcement_tool.Fanout.{Adapter}
use announcement_tool.Guard.{GuardEnv, Problem, check_environment, guard_env_from_process}
use announcement_tool.Identity.Gate.{Race, StartError, assert_publishers_configured}
use announcement_tool.Database.{DbEnv, DbError, Query, CaEntry, connect}
use announcement_tool.Worker.{TickResult, TickState, Moment, run_tick, build_adapters}

-- Two texts have the same bytes exactly where they are equal, as no header and no variable of the
-- process has a lone surrogate.
unfoldable pub tick_secret_matches : Option Text → Option Text → Bool
tick_secret_matches none presented = false
tick_secret_matches (some configured) none = false
tick_secret_matches (some configured) (some presented) =
    not (is_blank configured) && not (is_blank presented) && text_eq configured presented

abbrev pub db_env_from_process_env : (Text → Option Text) → DbEnv
db_env_from_process_env env = record {
  database_url = env (codes "DATABASE_URL");
  ssl_mode = env (codes "DATABASE_SSL_MODE");
  ssl_root_cert = env (codes "DATABASE_SSL_ROOT_CERT");
}

pub data Sender : Type 0 where
  resend brevo console : Sender

pub data Thrown : Type 0 where
  no_connection : DbError → Thrown
  unknown_provider : Text → Thrown
  bad_channels : ConfigError → Thrown

unfoldable pub sender_from_env : (Text → Option Text) → Result Thrown Sender
sender_from_env env =
    let provider =
      to_lower_case
        (elim (env (codes "ESP_PROVIDER")) [ none ↦ codes "console" | some name ↦ name ]) in
    if text_eq provider (codes "resend")
    then ok resend
    else if text_eq provider (codes "brevo")
    then ok brevo
    else if text_eq provider (codes "console")
    then ok console
    else err (unknown_provider provider)

-- How the function ends: the answer 404, one of its two early returns, an error that it throws, or the
-- end of its body.
pub data TickAnswer : Type 0 where
  not_found : TickAnswer
  unsafe : List Problem → TickAnswer
  not_started : StartError → TickAnswer
  threw : Thrown → TickAnswer
  ran : TickResult → TickAnswer

-- { ...guardEnvFromProcess(), deployTarget: 'netlify' as const }
abbrev pub netlify_env : (Text → Option Text) → GuardEnv
netlify_env env = record (guard_env_from_process env) { deploy_target = some (codes "netlify") }

-- What the function uses of the process and of the network: the variables, the file system and the
-- certificates and addresses that libraries read, the race of the first query with its budget, and
-- the adapter of each channel with the sender that it is given.
pub record Host (W : Type 0) : Type 0 where
  pub env : Text → Option Text
  pub x509 : Text → Option CaEntry
  pub read_file : Text → Option Text
  pub parse_url : Text → Option Query
  pub race : Race
  pub make : Sender → ChannelName → Adapter W

module _ {W : Type 0} (host : Host W) (m : Moment) where
  -- buildAdapters(sql, sender), whose default reads the channels, and runTick
  unfoldable pub tick_with_sender : Result Thrown Sender → TickState W → TickAnswer × TickState W
  unfolding run_tick build_adapters
  tick_with_sender (err e) s = (threw e, s)
  tick_with_sender (ok sender) s =
      elim (parse_enabled_channels (host.env (codes "ENABLED_CHANNELS"))) [
        | err e ↦ (threw (bad_channels e), s)
        | ok enabled ↦
            let (result, t) = run_tick m enabled (build_adapters (host.make sender) enabled) s in
            (ran result, t)
      ]

  -- From the connection on.
  unfoldable pub tick_when_safe : TickState W → TickAnswer × TickState W
  unfolding tick_with_sender connect
  tick_when_safe s =
      elim (connect host.x509 host.read_file host.parse_url (db_env_from_process_env host.env)) [
        | err e ↦ (threw (no_connection e), s)
        | ok options ↦ elim (assert_publishers_configured (netlify_env host.env) host.race) [
          | err e ↦ (not_started e, s)
          | ok started ↦ tick_with_sender (sender_from_env host.env) s
        ]
      ]

  -- `presented` is the header x-tick-secret.
  unfoldable pub tick_background : Option Text → TickState W → TickAnswer × TickState W
  unfolding tick_when_safe tick_secret_matches
  tick_background presented s =
      if not (tick_secret_matches (host.env (codes "TICK_SECRET")) presented)
      then (not_found, s)
      else elim (check_environment (netlify_env host.env)) [
        | p ∷ problems ↦ (unsafe (p ∷ problems), s)
        | [] ↦ tick_when_safe s
      ]
