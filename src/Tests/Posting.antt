-- ===== src/Tests/Posting.antt =====
-- The theorems on Discord, applied to a service that answers each call with one answer.
use announcement_tool.Common.{◌≡◌, refl, ◌⊎◌, true, [], Option, none, some, Text, codes, ℕ}
use announcement_tool.Types.{publish}
use announcement_tool.SafeUrl.Deliverable.{Url}
use announcement_tool.Delivery.{Reply, answers, object, not_finite}
use announcement_tool.Delivery.Redacting.{IsToken}
use announcement_tool.Delivery.Publishing.{PublishState, Publish, publish_to_followers}
use announcement_tool.Delivery.Hiding.{Hides}
use announcement_tool.Delivery.Secrecy.{Calls, publish_to_followers-Safe}
use announcement_tool.Delivery.Discord.{DiscordState, Discord, DiscordConfig, make_discord_adapter}
use announcement_tool.Delivery.Posting.{Posted, IsDelivered, make_discord_adapter-Posted}
use announcement_tool.Tests.Scenario.{sent}
use announcement_tool.Tests.Mentioning.{config}

abbrev bot_token : Text
bot_token = codes "ab.1"

-- An error whose message repeats the token.
abbrev accepted_answer : Reply
accepted_answer = answers (record {
  status = 200;
  body = object (record {
    code = some (codes "50001");
    message = some (codes "no access for ab.1");
    type = some 5;
    retry_after = not_finite;
    id = some (codes "1111111");
    channel_id = some (codes "2222222");
  });
})

abbrev discord_url : Text → Option Url
discord_url url =
    some (record { href = url; protocol = codes "https:"; hostname = codes "discord.com" })

abbrev input : Publish ℕ
input = record {
  bot_token = bot_token;
  channel_id = some (codes "2222222");
  message_id = some (codes "1111111");
  api_base = none;
  fetch = λ call n. (accepted_answer, n);
  sleep = λ ms n. n;
  parse_url = discord_url;
  null_error = codes "null";
}

abbrev bot_state : PublishState ℕ
bot_state = record { world = 0; calls = [] }

bot_token-IsToken : IsToken bot_token
bot_token-IsToken = record {
  given = refl;
  no_star = (refl, (refl, (refl, (refl, tt))));
  no_space = (refl, (refl, (refl, (refl, tt))));
}

publish_to_followers-Safe_example :
    Hides bot_token (publish_to_followers input bot_state).0
    × Calls input [] (publish_to_followers input bot_state).1.calls
publish_to_followers-Safe_example = publish_to_followers-Safe input bot_token-IsToken bot_state

abbrev discord_config : DiscordConfig
discord_config = record {
  webhook_url = some (codes "https://discord.com/api/webhooks/1/x");
  username = none;
  auto_publish = true;
  mentions = config;
}

abbrev service : Discord ℕ
service = record {
  config = λ key. some discord_config;
  bot_token = some bot_token;
  api_base = none;
  base_url = none;
  parse_date = λ iso. none;
  with_wait = λ url. some url;
  parse_url = discord_url;
  null_error = codes "null";
  post = λ post n. (accepted_answer, n);
  fetch = λ call n. (accepted_answer, n);
  sleep = λ ms n. n;
}

abbrev discord_state : DiscordState ℕ
discord_state = record { posts = []; bot = bot_state }

make_discord_adapter-Posted_example :
    ((IsDelivered (make_discord_adapter service sent (codes "main") publish discord_state).0 → ⊥)
      × ((make_discord_adapter service sent (codes "main") publish discord_state).1
          ≡ discord_state))
    ⊎ Posted service sent
        (codes "main")
        publish
        discord_state
        (make_discord_adapter service sent (codes "main") publish discord_state).0
        (make_discord_adapter service sent (codes "main") publish discord_state).1
make_discord_adapter-Posted_example =
    make_discord_adapter-Posted service sent (codes "main") publish discord_state
