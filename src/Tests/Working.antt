-- ===== src/Tests/Working.antt =====
-- The theorems on the worker, applied to one scheduled announcement and to a Netlify deployment.
use announcement_tool.Common.{
  ◌≡◌, ◌⊎◌, true, false, [], ◌∷◌, ◌++◌, Option, none, some, Text, codes, ℕ, ◌+◌,
}
use announcement_tool.Fanout.{resolves}
use announcement_tool.Database.{Query, CaEntry, pem_begin, pem_end}
use announcement_tool.Identity.Gate.{budget}
use announcement_tool.Worker.{TickState, Moment, run_tick}
use announcement_tool.Worker.Ticks.{Ticked, run_tick-Ticked}
use announcement_tool.Worker.Request.{Host, tick_background}
use announcement_tool.Worker.Served.{NoPass, Served, tick_background-Served}
use announcement_tool.Tests.Scenario.{noon, channels}
use announcement_tool.Tests.Publishing.{waiting, waiting-IsSound}
use announcement_tool.Tests.Delivering.{counting}
use announcement_tool.Tests.Deploying.{variable}

abbrev state : TickState ℕ
state = record { db = waiting; alerts = []; world = 0 }

-- The fan-out meets a database that is down after its first round.
abbrev moment : Moment
moment = record {
  scheduled_at = noon + 120_000;
  delivered_at = noon + 121_000;
  alerted_at = noon + 122_000;
  locked_row = λ _. false;
  locked_delivery = λ _. false;
  locked_alert = λ _. false;
  has_note = true;
  alert_email_to = none;
  sends = λ _ _. true;
  scheduler_fails = false;
  fanout_fails = true;
  rounds_made = 1;
  alerts_fail = false;
}

run_tick-Ticked_example :
    Ticked moment state
      (run_tick moment channels counting state).1
      (run_tick moment channels counting state).0
run_tick-Ticked_example = run_tick-Ticked moment channels counting state waiting-IsSound

abbrev tick_secret : Text
tick_secret = codes "0a1b2c3d"

abbrev worker_env : Text → Option Text
worker_env = variable (
    (codes "TICK_SECRET", tick_secret)
    ∷ (codes "PUBLIC_BASE_URL", codes "https://a.example")
    ∷ (codes "AUTH0_ISSUER", codes "https://t.example/")
    ∷ (codes "AUTH0_CLIENT_ID", codes "id")
    ∷ (codes "AUTH0_CLIENT_SECRET", codes "client")
    ∷ (codes "SESSION_SECRET", codes "0123456789abcdef0123456789abcdef")
    ∷ (codes "ENABLED_CHANNELS", codes "discord, email")
    ∷ (codes "DATABASE_SSL_MODE", codes "verify-full")
    ∷ (codes "DATABASE_SSL_ROOT_CERT", codes "/etc/ca.pem")
    ∷ [])

abbrev entry : CaEntry
entry = record {
  subject = codes "CN=ca";
  issuer = codes "CN=ca";
  valid_to = codes "2030";
  fingerprint256 = codes "AB";
}

abbrev no_query : Text → Option Query
no_query url = some (λ name. none)

abbrev host : Host ℕ
host = record {
  env = worker_env;
  x509 = λ pem. some entry;
  read_file = λ path. some (pem_begin ++ (codes "AB" ++ pem_end));
  parse_url = no_query;
  race = budget;
  make = λ sender channel a target kind n. (resolves none, n + 1);
}

tick_background-Served_example :
    (NoPass (tick_background host moment (some tick_secret) state).0
      × ((tick_background host moment (some tick_secret) state).1 ≡ state))
    ⊎ Served host moment
        (some tick_secret)
        state
        (tick_background host moment (some tick_secret) state).0
        (tick_background host moment (some tick_secret) state).1
tick_background-Served_example = tick_background-Served host moment (some tick_secret) state
