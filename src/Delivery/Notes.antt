-- ===== src/Delivery/Notes.antt =====
-- src/adapters/discord-publish.ts: the note about a publishing, with what it takes from an answer of
-- Discord.
use announcement_tool.Common.{
  ℕ, ◌+◌, ◌/◌, Bool, false, ◌&&◌, not, [], ◌∷◌, ◌++◌, Option, none, some, Text, codes, take, trim,
  collapse_runs, is_space, is_blank, leb, ◌==◌, decimal, if◌then◌else◌,
}
use announcement_tool.Delivery.{Wait, not_finite, negative, micros, object, Response, redact}

-- The code and the message of an error of Discord: what `discordError` returns, in two members.
pub record ErrorNote : Type 0 where
  pub code : Text
  pub message : Text

-- The note for the ledger, by its shape.
pub data Note : Type 0 where
  published already_published not_announcement no_message_id insecure_base no_channel_json : Note
  lookup_failed crosspost_failed : ℕ → Option ErrorNote → Note
  rate_limited : Wait → Note
  threw : Text → Note

-- [^\x20-\x7E]
abbrev pub not_printable : ℕ → Bool
not_printable c = not (leb 0x20 c && leb c 0x7e)

abbrev pub raw_message : Option Text → Text
raw_message none = []
raw_message (some m) = m

-- redacted.replace(…).replace(…).trim().slice(0, 80)
unfoldable pub error_message : Text → Text → Text
error_message token raw =
    take 80
      (trim (collapse_runs is_space false (collapse_runs not_printable false (redact token raw))))

unfoldable pub discord_error : Text → Response → Option ErrorNote
unfolding error_message
discord_error token res = elim res.body [
  | object f ↦ elim f.code [
    | none ↦ none
    | some code ↦
        some (record { code = code; message = error_message token (raw_message f.message) })
  ]
  | _ ↦ none
]

-- String(Math.ceil(wait)), and the question mark where it is not finite
unfoldable pub seconds_text : Wait → Text
seconds_text not_finite = codes "?"
seconds_text (micros us) = decimal ((us + 999_999) / 1_000_000)
seconds_text (negative us) =
    if us / 1_000_000 == 0 then codes "0" else b'-' ∷ decimal (us / 1_000_000)

unfoldable pub error_text : Option ErrorNote → Text
error_text none = []
error_text (some e) =
    codes " (" ++ (e.code ++ ((if is_blank e.message then [] else b' ' ∷ e.message) ++ codes ")"))

-- The text of a note.
unfoldable pub note_text : Note → Text
unfolding seconds_text error_text
note_text published = codes "published"
note_text already_published = codes "already published"
note_text not_announcement = codes "skipped: not an announcement channel"
note_text no_message_id = codes "failed: no message id"
note_text insecure_base = codes "failed: insecure api base"
note_text no_channel_json = codes "failed: channel lookup returned no JSON"
note_text (lookup_failed status e) =
    codes "failed: channel lookup HTTP " ++ (decimal status ++ error_text e)
note_text (crosspost_failed status e) =
    codes "failed: crosspost HTTP " ++ (decimal status ++ error_text e)
note_text (rate_limited wait) =
    codes "failed: rate limited (retry after " ++ (seconds_text wait ++ codes "s)")
note_text (threw message) = codes "failed: " ++ message
