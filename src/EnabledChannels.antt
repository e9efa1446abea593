-- ===== src/EnabledChannels.antt =====
-- src/core/enabled-channels.ts: which channels a deployment fans out to. The memoised value of
-- `enabledChannels` is a list that the callers pass on.
use announcement_tool.Common.{
  Bool, List, [], ◌∷◌, ◌++◌, Option, none, some, Text, codes, text_eq, is_blank, trim,
  to_lower_case, split, contains, if◌then◌else◌, Result, ok, err,
}
use announcement_tool.Types.{ChannelName, webhook, discord, telegram, email, signal, channel_has_eq}

pub data ConfigError : Type 0 where
  unknown_channel : Text → ConfigError

abbrev pub all_channels : List ChannelName
all_channels = webhook ∷ discord ∷ telegram ∷ email ∷ signal ∷ []

-- The text of a channel in `ALL`.
unfoldable pub channel_text : ChannelName → Text
channel_text webhook = codes "webhook"
channel_text discord = codes "discord"
channel_text telegram = codes "telegram"
channel_text email = codes "email"
channel_text signal = codes "signal"

-- `(ALL as string[]).includes(name)`, with the channel found.
find_channel : List ChannelName → Text → Option ChannelName
unfolding channel_text
find_channel [] name = none
find_channel (c ∷ cs) name = if text_eq (channel_text c) name then some c else find_channel cs name

parse_parts : List Text → List ChannelName → Result ConfigError (List ChannelName)
unfolding find_channel
parse_parts [] out = ok out
parse_parts (part ∷ parts) out =
    let name = to_lower_case (trim part) in
    let skipped = parse_parts parts out in
    if is_blank name then skipped else elim (find_channel all_channels name) [
      | none ↦ err (unknown_channel (trim part))
      | some c ↦ parse_parts parts (if contains out c then out else out ++ c ∷ [])
    ]

unfoldable pub parse_enabled_channels : Option Text → Result ConfigError (List ChannelName)
unfolding parse_parts
parse_enabled_channels none = ok all_channels
parse_enabled_channels (some raw) =
    if is_blank (trim raw) then ok all_channels else parse_parts (split b',' raw) []

-- `isChannelEnabled`, over the memoised list
abbrev pub is_channel_enabled : List ChannelName → ChannelName → Bool
is_channel_enabled enabled c = contains enabled c
