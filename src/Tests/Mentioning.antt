-- ===== src/Tests/Mentioning.antt =====
-- The theorems on the line of mentions, applied to a prefix with a mention spliced in another.
use announcement_tool.Common.{
  ◌≡◌, refl, ◌↔◌, inl, inr, [], ◌∷◌, none, some, Text, codes, In, suc, length, trim, text_eq,
}
use announcement_tool.Mentions.{
  DiscordRole, MentionConfig, parse_discord_roles, parse_role, strip_round, strip_loop,
  strip_role_mentions, mentioned_role_ids,
}
use announcement_tool.Mentions.Erasing.{Clean}
use announcement_tool.Mentions.Squeezing.{strip_role_mentions-Clean}
use announcement_tool.Mentions.Line.{IsNumeral}
use announcement_tool.Mentions.Allowed.{Selected, mentioned_role_ids_iff}

abbrev spliced : Text
spliced = codes "<:a:1> <@&<@&123>456> @every@hereone"

strip_role_mentions-Clean_example :
    (strip_round (strip_loop (suc (length spliced)) spliced)
      ≡ strip_loop (suc (length spliced)) spliced)
    × Clean (strip_role_mentions spliced)
strip_role_mentions-Clean_example = strip_role_mentions-Clean spliced

abbrev node_operators : DiscordRole
node_operators = record { name = codes "operators"; id = codes "12345" }

abbrev pub config : MentionConfig
config = record {
  prefix = some spliced;
  roles = some (
      record { name = some (codes "operators"); id = some (codes " 12345") }
      ∷ record { name = some (codes "all"); id = some (codes "everyone") }
      ∷ record { name = none; id = some (codes "456") }
      ∷ []);
}

parsed : parse_discord_roles config ≡ node_operators ∷ []
unfolding parse_discord_roles parse_role trim text_eq
parsed = refl

numerals : (r : DiscordRole) → In r (parse_discord_roles config) → IsNumeral r.id
numerals r m = elim (rw parsed at m) [
  | inl e ↦ rw e (refl, (refl, (refl, (refl, (refl, (refl, tt))))))
  | inr x ↦ absurd x
]

mentioned_role_ids_iff_example :
    In (codes "12345") (mentioned_role_ids config (some (codes "12345" ∷ codes "here" ∷ [])))
    ↔ Selected config (codes "12345" ∷ codes "here" ∷ []) (codes "12345")
mentioned_role_ids_iff_example =
    mentioned_role_ids_iff config (some (codes "12345" ∷ codes "here" ∷ [])) (codes "12345")
      numerals
