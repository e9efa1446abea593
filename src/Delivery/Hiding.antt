-- ===== src/Delivery/Hiding.antt =====
-- publishToFollowers: no text of another that a note carries shows the token of the bot.
use announcement_tool.Common.{
  ℕ, inl, inr, false, ◌&&◌, Option, none, some, Text, is_space, ◌==◌, Bool-cases, Option-cases,
  Contains,
}
use announcement_tool.Delivery.{Json, not_json, null_json, other_json, object, Response}
use announcement_tool.Delivery.Redacting.{
  IsToken, occurs-redact, occurs-take, occurs-collapse_runs, occurs-trim, occurs-Contains,
}
use announcement_tool.Delivery.Publishing.{Publish, has_code, already_crossposted, caught, refused}
use announcement_tool.Delivery.Notes.{
  ErrorNote, Note, not_printable, raw_message, error_message, discord_error, lookup_failed,
  crosspost_failed, threw,
}

-- The text of another's that a note carries does not have the token as a part.
abbrev pub ErrorHides : Text → Option ErrorNote → Type 0
ErrorHides token none = Unit
ErrorHides token (some e) = Contains token e.message → ⊥

abbrev pub Hides : Text → Note → Type 0
Hides token (lookup_failed status e) = ErrorHides token e
Hides token (crosspost_failed status e) = ErrorHides token e
Hides token (threw message) = Contains token message → ⊥
Hides token _ = Unit

module _ {W : Type 0} (p : Publish W) (t : IsToken p.bot_token) where
  error_message-hides : (raw : Text) → Contains p.bot_token (error_message p.bot_token raw) → ⊥
  unfolding error_message
  error_message-hides raw = occurs-Contains p.bot_token t _ (
      occurs-take p.bot_token t 80 _ (
        occurs-trim p.bot_token t _ (
          occurs-collapse_runs p.bot_token t is_space false _ (
            occurs-collapse_runs p.bot_token t not_printable false _
              (occurs-redact p.bot_token t raw)))))

  pub caught-Hides : (message : Text) → Hides p.bot_token (caught p message)
  unfolding caught
  caught-Hides message =
      occurs-Contains p.bot_token t _
        (occurs-take p.bot_token t 120 _ (occurs-redact p.bot_token t message))

  fields-hide :
      (status : ℕ) (body : Json)
      → ErrorHides p.bot_token (discord_error p.bot_token (record { status = status; body = body }))
  unfolding discord_error
  fields-hide status not_json = tt
  fields-hide status null_json = tt
  fields-hide status other_json = tt
  fields-hide status (object f) = elim (Option-cases f.code) [
    | inl e ↦ rw (e, discord_error) tt
    | inr (code, e) ↦ rw (e, discord_error) (error_message-hides (raw_message f.message))
  ]

  pub discord_error-ErrorHides :
      (res : Response) → ErrorHides p.bot_token (discord_error p.bot_token res)
  discord_error-ErrorHides res = fields-hide res.status res.body

  pub refused-Hides : (res : Response) → Hides p.bot_token (refused p res)
  unfolding refused
  refused-Hides res =
      elim (Bool-cases
        ((res.status == 400) && has_code already_crossposted (discord_error p.bot_token res))) [
          | inl e ↦ rw (e, refused) tt
          | inr e ↦ rw (e, refused) (discord_error-ErrorHides res)
        ]
