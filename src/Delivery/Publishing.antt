-- ===== src/Delivery/Publishing.antt =====
-- src/adapters/discord-publish.ts: the publishing of a delivered message to the servers that follow its
-- channel. The calls are recorded in the order in which they are made. `null_error` is the message of
-- the TypeError that reading a member of null throws.
use announcement_tool.Common.{
  ℕ, zero, suc, ◌+◌, ◌*◌, ◌/◌, Bool, true, false, ◌&&◌, ◌||◌, List, [], ◌∷◌, ◌++◌, Option, none,
  some, Text, codes, text_eq, take, length, leb, ◌==◌, if◌then◌else◌,
}
use announcement_tool.Mentions.{is_digit}
use announcement_tool.SafeUrl.Deliverable.{Url}
use announcement_tool.Delivery.{
  Wait, not_finite, negative, micros, Fields, Json, null_json, object, Response, Reply, fails,
  answers, is_ok, redact, without_slashes,
}
use announcement_tool.Delivery.Notes.{
  ErrorNote, Note, discord_error, published, already_published, not_announcement, no_message_id,
  insecure_base, no_channel_json, lookup_failed, crosspost_failed, rate_limited, threw,
}

pub data BotCall : Type 0 where
  looks_up : Text → Text → BotCall
  crossposts : Text → Text → Text → BotCall

-- What the two calls do: the base, the identifiers and the token in the header `authorization`.
pub record Sent : Type 0 where
  pub call : BotCall
  pub token : Text

pub record PublishState (W : Type 0) : Type 0 where
  pub world : W
  pub calls : List Sent

pub record Publish (W : Type 0) : Type 0 where
  pub bot_token : Text
  pub channel_id : Option Text
  pub message_id : Option Text
  pub api_base : Option Text
  pub fetch : Sent → W → Reply × W
  pub sleep : ℕ → W → W
  pub parse_url : Text → Option Url
  pub null_error : Text

abbrev pub discord_api_base : Text
discord_api_base = codes "https://discord.com/api/v10"

abbrev pub guild_announcement : ℕ
guild_announcement = 5

abbrev all_digits : Text → Bool
all_digits [] = true
all_digits (c ∷ s) = is_digit c && all_digits s

-- /^\d{5,25}$/
unfoldable pub snowflake : Text → Bool
snowflake s = all_digits s && leb 5 (length s) && leb (length s) 25

abbrev pub max_rate_limit_wait_seconds : ℕ
max_rate_limit_wait_seconds = 10

abbrev pub already_crossposted : Text
already_crossposted = codes "40033"

abbrev pub is_local : Url → Bool
is_local u =
    text_eq u.hostname (codes "127.0.0.1")
    || text_eq u.hostname (codes "localhost")
    || text_eq u.hostname (codes "[::1]")
    || text_eq u.hostname (codes "::1")

unfoldable pub secure_base : Option Url → Bool
secure_base none = false
secure_base (some u) = text_eq u.protocol (codes "https:") || is_local u

-- Number.isFinite(wait) && wait >= 0 && wait <= MAX_RATE_LIMIT_WAIT_SECONDS, with Math.ceil(wait * 1000)
unfoldable pub wait_of : Wait → Option ℕ
wait_of not_finite = none
wait_of (negative us) = none
wait_of (micros us) =
    if leb us (max_rate_limit_wait_seconds * 1_000_000) then some ((us + 999) / 1000) else none

abbrev pub retry_after_of : Json → Wait
retry_after_of (object f) = f.retry_after
retry_after_of _ = not_finite

abbrev pub is_null : Json → Bool
is_null null_json = true
is_null _ = false

abbrev pub has_code : Text → Option ErrorNote → Bool
has_code code none = false
has_code code (some e) = text_eq e.code code

abbrev pub is_announcement : Fields → Bool
is_announcement f = elim f.type [ none ↦ false | some n ↦ n == guild_announcement ]

abbrev pub base_of : Option Text → Text
base_of none = without_slashes discord_api_base
base_of (some base) = without_slashes base

abbrev pub snowflake_of : Option Text → Option Text
snowflake_of none = none
snowflake_of (some id) = if snowflake id then some id else none

module _ {W : Type 0} (p : Publish W) where
  abbrev pub send : BotCall → PublishState W → Reply × PublishState W
  send call s =
      let sent : Sent = record { call = call; token = p.bot_token } in
      let (reply, world) = p.fetch sent s.world in
      (reply, record { world = world; calls = s.calls ++ sent ∷ [] })

  -- The outer catch
  unfoldable pub caught : Text → Note
  caught message = threw (take 120 (redact p.bot_token message))

  -- The answers but a 2xx and a 429.
  unfoldable pub refused : Response → Note
  unfolding discord_error
  refused res =
      if (res.status == 400) && has_code already_crossposted (discord_error p.bot_token res)
      then already_published
      else crosspost_failed res.status (discord_error p.bot_token res)

  -- for (let attempt = 0; attempt < 2; attempt++), with the rounds that are left; the first of two waits
  -- and goes round again.
  unfoldable pub crosspost : ℕ → Text → Text → Text → PublishState W → Note × PublishState W
  unfolding caught refused wait_of
  crosspost zero base channel message s = (rate_limited not_finite, s)
  crosspost (suc left) base channel message s =
      let (reply, t) = send (crossposts base channel message) s in
      elim reply [
        | fails e ↦ (caught e, t)
        | answers res ↦ elim (is_ok res) [
          | true ↦ (published, t)
          | false ↦ elim (res.status == 429) [
            | false ↦ (refused res, t)
            | true ↦ elim (is_null res.body) [
              | true ↦ (caught p.null_error, t)
              | false ↦ elim (wait_of (retry_after_of res.body)) [
                | none ↦ (rate_limited (retry_after_of res.body), t)
                | some ms ↦ elim (left == 1) [
                  | false ↦ (rate_limited (retry_after_of res.body), t)
                  | true ↦
                      crosspost left base channel message (record t { world = p.sleep ms t.world })
                ]
              ]
            ]
          ]
        ]
      ]

  -- The channel that was looked up.
  unfoldable pub after_lookup :
      Text → Text → Text → Response → PublishState W → Note × PublishState W
  unfolding crosspost discord_error
  after_lookup base channel message res s = elim (is_ok res) [
    | false ↦ (lookup_failed res.status (discord_error p.bot_token res), s)
    | true ↦ elim res.body [
      | object f ↦ elim (is_announcement f) [
        | true ↦ crosspost 2 base channel message s
        | false ↦ (not_announcement, s)
      ]
      | _ ↦ (no_channel_json, s)
    ]
  ]

  unfoldable pub publish_from : Text → Text → Text → PublishState W → Note × PublishState W
  unfolding after_lookup caught secure_base
  publish_from base channel message s = elim (secure_base (p.parse_url base)) [
    | false ↦ (insecure_base, s)
    | true ↦
        let (reply, t) = send (looks_up base channel) s in
        elim reply [
          | fails e ↦ (caught e, t)
          | answers res ↦ after_lookup base channel message res t
        ]
  ]

  unfoldable pub publish_to_followers : PublishState W → Note × PublishState W
  unfolding publish_from
  publish_to_followers s = elim (snowflake_of p.channel_id) [
    | none ↦ (no_message_id, s)
    | some channel ↦ elim (snowflake_of p.message_id) [
      | none ↦ (no_message_id, s)
      | some message ↦ publish_from (base_of p.api_base) channel message s
    ]
  ]
