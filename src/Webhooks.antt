-- ===== src/Webhooks.antt =====
-- src/core/webhook-flow.ts: registerWebhook and sendWebhookTest. The parser of URLs, the resolver and
-- `isIP` are those of SafeUrl; `answers` tells whether the endpoint answers a request with a 2xx
-- status, and `rivals` what other requests do to the database between two statements. The text of
-- the test event and its signature are left out of a request.
pub mod Secrets
pub mod Requests
use announcement_tool.Common.{
  Bool, true, false, not, List, [], ◌∷◌, ◌++◌, Option, none, some, Text, codes, text_eq, is_blank,
  if◌then◌else◌, Result, ok, err, ℕ,
}
use announcement_tool.Types.{ChannelName, webhook, channel_eq}
use announcement_tool.Store.{PartialFilters, SubscriptionRow, Db}
use announcement_tool.Subscriptions.{Subscription}
use announcement_tool.Subscriptions.Table.{
  SubscriptionError, duplicate_key, filter_empty, Draw, at_endpoint, same_token, or_none,
  empty_filter, first_row, create_subscription, update_subscription_filters, verify_subscription,
  get_subscription_by_unsubscribe_token,
}
use announcement_tool.Subscriptions.Signup.{Moment, before_insert, before_reselect}
use announcement_tool.SafeUrl.Deliverable.{IsIp, Url, UrlError, resolve_deliverable_url}

pub data HookError : Type 0 where
  url_refused not_authorized endpoint_not_verified : HookError
  filter_refused : SubscriptionError → HookError

-- `manage_token` is the token at the end of `manageUrl`.
pub record RegisterResult : Type 0 where
  pub secret_once : Option Text
  pub manage_token : Option Text
  pub verified : Bool
  pub error : Option HookError

-- The signed POST that `runVerification` sends, and the addresses that it may connect to.
pub record Request : Type 0 where
  pub id : Text
  pub endpoint : Text
  pub secret : Text
  pub addresses : List Text

pub record HookState : Type 0 where
  pub db : Db
  pub requests : List Request

abbrev pub refused : HookError → RegisterResult
refused e = record { secret_once = none; manage_token = none; verified = false; error = some e }

abbrev pub outcome : Bool → RegisterResult
outcome true = record { secret_once = none; manage_token = none; verified = true; error = none }
outcome false = refused endpoint_not_verified

abbrev pub unverified : RegisterResult
unverified = record { secret_once = none; manage_token = none; verified = false; error = none }

-- The answer of a new registration: the secret is shown this once.
abbrev pub registered : Subscription → RegisterResult
registered sub = record {
  secret_once = sub.secret;
  manage_token = some sub.unsubscribe_token;
  verified = false;
  error = none;
}

abbrev pub HookAnswer : Type 0
HookAnswer = Result SubscriptionError RegisterResult × HookState

abbrev pub hook_db : (Db → Db) → HookState → HookState
hook_db f s = record s { db = f s.db }

-- The secret of a row, where the source's `as string` would pass a null on.
abbrev pub secret_of : Option Text → Text
secret_of none = []
secret_of (some t) = t

module _ (answers : Request → Bool) where
  unfoldable pub run_verification : Request → HookState → RegisterResult × HookState
  run_verification request s =
      let sent = record s { requests = s.requests ++ request ∷ [] } in
      if answers request
      then (outcome true, hook_db (verify_subscription request.id) sent)
      else (outcome false, sent)

-- applyFilters: `none` where it returns undefined.
unfoldable pub apply_filters :
    Text → Option PartialFilters → HookState → Option HookError × HookState
apply_filters id none s = (none, s)
apply_filters id (some f) s = elim (update_subscription_filters id f s.db) [
  | err e ↦ (some (filter_refused e), s)
  | ok db ↦ (none, record s { db = db })
]

-- emptyFilterError
abbrev pub empty_filter_error : Option PartialFilters → Option HookError
empty_filter_error filters = elim (empty_filter (or_none filters)) [
  | none ↦ none
  | some k ↦ some (filter_refused (filter_empty k))
]

abbrev pub webhook_at : Text → List SubscriptionRow → Option SubscriptionRow
webhook_at url = first_row (at_endpoint webhook url)

module _ (is_ip : IsIp) (parse : Text → Option Url) (lookup : Text → Option (List Text))
    (answers : Request → Bool) (rivals : Moment → Db → Db) (now : ℕ) (draw : Draw) where
  -- The secret of the registration is given: the filters are applied and the test event is sent.
  unfoldable pub modify_existing :
      SubscriptionRow → Text → List Text → Option PartialFilters → HookState → HookAnswer
  modify_existing r url addresses filters s =
      let (failure, s') = apply_filters r.id filters s in
      elim failure [
        | some e ↦ (ok (refused e), s')
        | none ↦
            let (result, s'') =
              run_verification answers
                (record {
                  id = r.id;
                  endpoint = url;
                  secret = secret_of r.secret;
                  addresses = addresses;
                })
                s' in
            (ok result, s'')
      ]

  -- The insert lost the race.
  unfoldable pub lost_race :
      SubscriptionError → Text → Option PartialFilters → HookState → HookAnswer
  lost_race e url filters s = elim (webhook_at url s.db.subscriptions) [
    | none ↦ (err e, s)
    | some r ↦
        let (failure, s') = apply_filters r.id filters s in
        elim failure [ some h ↦ (ok (refused h), s') | none ↦ (ok unverified, s') ]
  ]

  unfoldable pub register_new : Text → Option PartialFilters → HookState → HookAnswer
  register_new url filters s = elim (create_subscription now draw webhook url filters s.db) [
    | ok (sub, db) ↦ (ok (registered sub), record s { db = db })
    | err duplicate_key ↦ lost_race duplicate_key url filters (hook_db (rivals before_reselect) s)
    | err e ↦ (err e, s)
  ]

  -- After the destination and the filters have passed.
  unfoldable pub register_vetted :
      Text → List Text → Option PartialFilters → Option Text → HookState → HookAnswer
  register_vetted url addresses filters secret s = elim (webhook_at url s.db.subscriptions) [
    | some r ↦
        if same_token secret r.secret
        then modify_existing r url addresses filters s
        else (ok (refused not_authorized), s)
    | none ↦ elim secret [
      | some t ↦ (ok (refused not_authorized), s)
      | none ↦ register_new url filters (hook_db (rivals before_insert) s)
    ]
  ]

  unfoldable pub register_webhook :
      Text → Option PartialFilters → Option Text → HookState → HookAnswer
  register_webhook url filters secret s =
      elim (resolve_deliverable_url is_ip parse lookup false url) [
        | err e ↦ (ok (refused url_refused), s)
        | ok (u, addresses) ↦ elim (empty_filter_error filters) [
          | some e ↦ (ok (refused e), s)
          | none ↦ register_vetted url addresses filters secret s
        ]
      ]

-- `!sub.secret` is true of null and of the empty text.
abbrev pub has_secret : Option Text → Bool
has_secret none = false
has_secret (some t) = not (is_blank t)

module _ (is_ip : IsIp) (parse : Text → Option Url) (lookup : Text → Option (List Text))
    (answers : Request → Bool) where
  unfoldable pub test_vetted : Subscription → HookState → RegisterResult × HookState
  test_vetted sub s = elim (resolve_deliverable_url is_ip parse lookup false sub.endpoint) [
    | err e ↦ (outcome false, s)
    | ok (u, addresses) ↦
        run_verification answers
          (record {
            id = sub.id;
            endpoint = sub.endpoint;
            secret = secret_of sub.secret;
            addresses = addresses;
          })
          s
  ]

  unfoldable pub send_webhook_test : Text → HookState → RegisterResult × HookState
  send_webhook_test token s = elim (get_subscription_by_unsubscribe_token token s.db) [
    | none ↦ (outcome false, s)
    | some sub ↦
        if channel_eq sub.channel webhook
        then (if has_secret sub.secret then test_vetted sub s else (outcome false, s))
        else (outcome false, s)
  ]
