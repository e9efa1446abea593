-- ===== src/Delivery/Discord.antt =====
-- src/adapters/discord.ts: one delivery to a channel of Discord. `with_wait` sets the parameter `wait` of
-- a URL; an error that `fetch` rejects the post with is given as `String(err)`.
use announcement_tool.Common.{
  ℕ, Bool, true, false, not, ◌&&◌, List, [], ◌∷◌, ◌++◌, Option, none, some, Text, codes, decimal,
  is_blank, if◌then◌else◌,
}
use announcement_tool.Types.{Announcement, DeliveryKind}
use announcement_tool.Fanout.{Outcome, resolves, rejects, Adapter}
use announcement_tool.Mentions.{
  MentionConfig, compose_mention_line, mentioned_role_ids, mentions_everyone,
}
use announcement_tool.SafeUrl.Deliverable.{Url}
use announcement_tool.Rendering.{render_markdown}
use announcement_tool.Delivery.{Json, object, Reply, fails, answers, is_ok}
use announcement_tool.Delivery.Notes.{note_text}
use announcement_tool.Delivery.Publishing.{Sent, PublishState, Publish, publish_to_followers}

-- The config of a row of `channel_settings`; `auto_publish` is whether it is not literally false.
pub record DiscordConfig : Type 0 where
  pub webhook_url : Option Text
  pub username : Option Text
  pub auto_publish : Bool
  pub mentions : MentionConfig

-- The JSON body of the post, with `allowed_mentions`: whether `parse` is ['everyone'] or [], and `roles`.
pub record DiscordPost : Type 0 where
  pub url : Text
  pub content : Text
  pub username : Option Text
  pub parse_everyone : Bool
  pub roles : List Text

-- The posts that are made, the calls of the bot and the world of the service.
pub record DiscordState (W : Type 0) : Type 0 where
  pub posts : List DiscordPost
  pub bot : PublishState W

pub record Discord (W : Type 0) : Type 0 where
  pub config : Text → Option DiscordConfig
  pub bot_token : Option Text
  pub api_base : Option Text
  pub base_url : Option Text
  pub parse_date : Text → Option ℕ
  pub with_wait : Text → Option Text
  pub parse_url : Text → Option Url
  pub null_error : Text
  pub post : DiscordPost → W → Reply × W
  pub fetch : Sent → W → Reply × W
  pub sleep : ℕ → W → W

-- A variable or a member is falsy where it is missing or empty.
abbrev pub truthy : Option Text → Option Text
truthy none = none
truthy (some t) = if is_blank t then none else some t

abbrev pub is_given : Option Text → Bool
is_given none = false
is_given (some t) = true

-- prefix ? `${prefix}\n\n${…}` : …
abbrev pub above : Option Text → Text → Text
above none body = body
above (some line) body = line ++ 10 ∷ 10 ∷ body

abbrev pub message_id : Json → Option Text
message_id (object f) = f.id
message_id _ = none

abbrev pub message_channel : Json → Option Text
message_channel (object f) = f.channel_id
message_channel _ = none

module _ {W : Type 0} (d : Discord W) where
  unfoldable pub content_of : DiscordConfig → Announcement → DeliveryKind → Text
  unfolding render_markdown compose_mention_line
  content_of cfg a kind =
      above (compose_mention_line cfg.mentions a.mention_role_ids)
        (render_markdown d.parse_date d.base_url a kind)

  unfoldable pub post_of : DiscordConfig → Text → Announcement → DeliveryKind → DiscordPost
  unfolding content_of mentions_everyone mentioned_role_ids
  post_of cfg url a kind = record {
    url = url;
    content = content_of cfg a kind;
    username = truthy cfg.username;
    parse_everyone = mentions_everyone a.mention_role_ids;
    roles = mentioned_role_ids cfg.mentions a.mention_role_ids;
  }

  -- autoPublish && !!botToken
  abbrev pub will_publish : DiscordConfig → Bool
  will_publish cfg = cfg.auto_publish && is_given (truthy d.bot_token)

  abbrev pub post_url : DiscordConfig → Text → Option Text
  post_url cfg url = if will_publish cfg then d.with_wait url else some url

  abbrev pub publish_input : Text → Json → Publish W
  publish_input token body = record {
    bot_token = token;
    channel_id = message_channel body;
    message_id = message_id body;
    api_base = d.api_base;
    fetch = d.fetch;
    sleep = d.sleep;
    parse_url = d.parse_url;
    null_error = d.null_error;
  }

  -- From the line "Delivered." on.
  unfoldable pub after_delivery : DiscordConfig → Json → DiscordState W → Outcome × DiscordState W
  unfolding publish_to_followers note_text
  after_delivery cfg body s =
      if not cfg.auto_publish
      then (resolves (some (codes "skipped: auto_publish is off")), s)
      else elim (truthy d.bot_token) [
        | none ↦ (resolves (some (codes "skipped: no bot token")), s)
        | some token ↦
            let (note, bot) = publish_to_followers (publish_input token body) s.bot in
            (resolves (some (note_text note)), record s { bot = bot })
      ]

  unfoldable pub send_post : DiscordConfig → DiscordPost → DiscordState W → Outcome × DiscordState W
  unfolding after_delivery
  send_post cfg post s =
      let (reply, world) = d.post post s.bot.world in
      let t : DiscordState W = record {
        posts = s.posts ++ post ∷ [];
        bot = record { world = world; calls = s.bot.calls };
      } in
      elim reply [
        | fails e ↦ (rejects e, t)
        | answers res ↦ elim (is_ok res) [
          | true ↦ after_delivery cfg res.body t
          | false ↦
              (rejects (codes "Error: discord delivery failed: HTTP " ++ decimal res.status), t)
        ]
      ]

  -- The adapter's `deliver`
  unfoldable pub make_discord_adapter : Adapter (DiscordState W)
  unfolding send_post post_of
  make_discord_adapter a target kind s = elim (d.config target) [
    | none ↦ (rejects (codes "Error: channel setting not found: " ++ target), s)
    | some cfg ↦ elim (truthy cfg.webhook_url) [
      | none ↦
          (rejects (codes "Error: discord setting " ++ (target ++ codes " has no webhook_url")), s)
      | some url ↦ elim (post_url cfg url) [
        | none ↦ (rejects (codes "TypeError: Invalid URL"), s)
        | some u ↦ send_post cfg (post_of cfg u a kind) s
      ]
    ]
  ]
