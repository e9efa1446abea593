-- ===== src/Delivery/Secrecy.antt =====
-- publishToFollowers: what the note for the ledger and the calls show of the bot's token.
use announcement_tool.Common.{
  ℕ, zero, suc, ◌≤◌, ◌≡◌, refl, sym, ◌∙◌, inl, inr, true, List, [], ◌∷◌, ◌++◌, append_assoc,
  append-nil, Option, none, some, Text, ◌==◌, arith, Bool-cases, Option-cases, none-ne-some,
  some_inj,
}
use announcement_tool.Delivery.{
  Json, not_json, null_json, other_json, object, Response, reply_cases, is_ok,
}
use announcement_tool.Delivery.Redacting.{IsToken}
use announcement_tool.Delivery.Publishing.{
  BotCall, looks_up, crossposts, Sent, PublishState, Publish, snowflake, secure_base, wait_of,
  retry_after_of, is_null, send, caught, refused, crosspost, is_announcement, after_lookup,
  publish_from, base_of, snowflake_of, publish_to_followers,
}
use announcement_tool.Delivery.Notes.{
  Note, discord_error, published, not_announcement, no_channel_json, lookup_failed, rate_limited,
}
use announcement_tool.Delivery.Hiding.{Hides, caught-Hides, discord_error-ErrorHides, refused-Hides}

abbrev pub copies : ℕ → Sent → List Sent
copies zero c = []
copies (suc n) c = c ∷ copies n c

module _ {W : Type 0} (p : Publish W) where
  abbrev pub bot : BotCall → Sent
  bot call = record { call = call; token = p.bot_token }

  -- The calls that are made: none, or one of the channel and then at most two of the message, where the
  -- base is secure and both identifiers are snowflakes.
  pub data Calls (before after : List Sent) : Type 0 where
    no_call : after ≡ before → Calls before after
    some_calls :
        (base channel message : Text) (n : ℕ)
        → secure_base (p.parse_url base) ≡ true
        → snowflake channel ≡ true
        → snowflake message ≡ true
        → n ≤ 2
        → after
          ≡ before ++ bot (looks_up base channel) ∷ copies n (bot (crossposts base channel message))
        → Calls before after

module _ {W : Type 0} (p : Publish W) (t : IsToken p.bot_token) where
  -- What some rounds of the loop leave: at most `left` calls more, and a note that hides the token.
  record Posted (left : ℕ) (call : BotCall) (before : List Sent) (n : Note) (after : List Sent)
      : Type 0 where
    hides : Hides p.bot_token n
    count : ℕ
    bound : count ≤ left
    made : after ≡ before ++ copies count (bot p call)

  one_post :
      (left : ℕ) (call : BotCall) (before : List Sent) (n : Note)
      → Hides p.bot_token n
      → Posted (suc left) call before n (before ++ bot p call ∷ [])
  one_post left call before n h = record { hides = h; count = 1; bound = omega arith; made = refl }

  more_posts :
      (left : ℕ) (call : BotCall) (before : List Sent) (n : Note) (after : List Sent)
      → Posted left call (before ++ bot p call ∷ []) n after
      → Posted (suc left) call before n after
  more_posts left call before n after q = record {
    hides = q.hides;
    count = suc q.count;
    bound = omega (arith, q.bound);
    made = q.made ∙ append_assoc before (bot p call ∷ []) (copies q.count (bot p call));
  }

  crosspost-Posted :
      (left : ℕ) (base channel message : Text) (s : PublishState W)
      → Posted left
          (crossposts base channel message)
          s.calls
          (crosspost p left base channel message s).0
          (crosspost p left base channel message s).1.calls
  unfolding crosspost
  crosspost-Posted zero base channel message s = record {
    hides = tt;
    count = 0;
    bound = omega arith;
    made = sym (append-nil s.calls);
  }
  crosspost-Posted (suc left) base channel message s =
      let call = crossposts base channel message in
      let (reply, u) = send p call s in
      elim (reply_cases reply) [
        | inl (x, e) ↦
            rw (e, crosspost) (one_post left call s.calls (caught p x) (caught-Hides p t x))
        | inr (res, e) ↦ elim (Bool-cases (is_ok res)) [
          | inl ok ↦ rw (e, ok, crosspost) (one_post left call s.calls published tt)
          | inr ok ↦ elim (Bool-cases (res.status == 429)) [
            | inr r ↦
                rw (e, ok, r, crosspost)
                  (one_post left call s.calls (refused p res) (refused-Hides p t res))
            | inl r ↦ elim (Bool-cases (is_null res.body)) [
              | inl n ↦
                  rw (e, ok, r, n, crosspost)
                    (one_post left call s.calls (caught p p.null_error)
                      (caught-Hides p t p.null_error))
              | inr n ↦ elim (Option-cases (wait_of (retry_after_of res.body))) [
                | inl w ↦
                    rw (e, ok, r, n, w, crosspost)
                      (one_post left call s.calls (rate_limited (retry_after_of res.body)) tt)
                | inr (ms, w) ↦ elim (Bool-cases (left == 1)) [
                  | inr l ↦
                      rw (e, ok, r, n, w, l, crosspost)
                        (one_post left call s.calls (rate_limited (retry_after_of res.body)) tt)
                  | inl l ↦
                      rw (e, ok, r, n, w, l, crosspost)
                        (more_posts left call s.calls _ _ (
                          crosspost-Posted left base channel message
                            (record u { world = p.sleep ms u.world })))
                ]
              ]
            ]
          ]
        ]
      ]

  no_post :
      (left : ℕ) (call : BotCall) (before : List Sent) (n : Note)
      → Hides p.bot_token n
      → Posted left call before n before
  no_post left call before n h = record {
    hides = h;
    count = 0;
    bound = omega arith;
    made = sym (append-nil before);
  }

  body-Posted :
      (base channel message : Text) (status : ℕ) (body : Json) (s : PublishState W)
      → is_ok (record { status = status; body = body }) ≡ true
      → Posted 2
          (crossposts base channel message)
          s.calls
          (after_lookup p base channel message (record { status = status; body = body }) s).0
          (after_lookup p base channel message (record { status = status; body = body }) s).1.calls
  unfolding after_lookup
  body-Posted base channel message status not_json s ok =
      rw (ok, after_lookup) (no_post 2 _ s.calls no_channel_json tt)
  body-Posted base channel message status null_json s ok =
      rw (ok, after_lookup) (no_post 2 _ s.calls no_channel_json tt)
  body-Posted base channel message status other_json s ok =
      rw (ok, after_lookup) (no_post 2 _ s.calls no_channel_json tt)
  body-Posted base channel message status (object f) s ok = elim (Bool-cases (is_announcement f)) [
    | inl e ↦ rw (ok, e, after_lookup) (crosspost-Posted 2 base channel message s)
    | inr e ↦ rw (ok, e, after_lookup) (no_post 2 _ s.calls not_announcement tt)
  ]

  after_lookup-Posted :
      (base channel message : Text) (res : Response) (s : PublishState W)
      → Posted 2
          (crossposts base channel message)
          s.calls
          (after_lookup p base channel message res s).0
          (after_lookup p base channel message res s).1.calls
  unfolding after_lookup
  after_lookup-Posted base channel message res s = elim (Bool-cases (is_ok res)) [
    | inl ok ↦ body-Posted base channel message res.status res.body s ok
    | inr ok ↦
        rw (ok, after_lookup)
          (no_post 2 (crossposts base channel message) s.calls
            (lookup_failed res.status (discord_error p.bot_token res))
            (discord_error-ErrorHides p t res))
  ]

  -- What a run leaves.
  abbrev Safe : PublishState W → Note × PublishState W → Type 0
  Safe s (n, u) = Hides p.bot_token n × Calls p s.calls u.calls

  publish_from-Safe :
      (base channel message : Text) (s : PublishState W)
      → snowflake channel ≡ true
      → snowflake message ≡ true
      → Safe s (publish_from p base channel message s)
  unfolding publish_from
  publish_from-Safe base channel message s c m =
      elim (Bool-cases (secure_base (p.parse_url base))) [
        | inr e ↦ rw (e, publish_from) (tt, no_call refl)
        | inl e ↦
            let (reply, u) = send p (looks_up base channel) s in
            elim (reply_cases reply) [
              | inl (x, f) ↦
                  rw (e, f, publish_from)
                    (caught-Hides p t x, some_calls base channel message 0 e c m (omega arith) refl)
              | inr (res, f) ↦
                  let q = after_lookup-Posted base channel message res u in
                  rw (e, f, publish_from)
                    (
                      q.hides,
                      some_calls base channel message q.count e c m q.bound (
                          q.made
                          ∙ append_assoc s.calls (bot p (looks_up base channel) ∷ [])
                              (copies q.count (bot p (crossposts base channel message)))),
                    )
            ]
      ]

  snowflake_of-some : (o : Option Text) (id : Text) → snowflake_of o ≡ some id → snowflake id ≡ true
  snowflake_of-some none id h = absurd (none-ne-some h)
  snowflake_of-some (some x) id h = elim (Bool-cases (snowflake x)) [
    | inl e ↦ rw (← some_inj (rw e at h)) e
    | inr e ↦ absurd (none-ne-some (rw e at h))
  ]

  -- Publishing to the followers always ends with a note. Whatever Discord answers, or the error of a
  -- failed call says, the text of theirs that the note carries does not have the bot's token as a part,
  -- if the token is not empty and has no star and no space. The token is sent only to a base that is
  -- https or local, in at most three calls: one of the channel, and then at most two of the message,
  -- with identifiers that are digits only.
  pub publish_to_followers-Safe :
      (s : PublishState W)
      → Hides p.bot_token (publish_to_followers p s).0
        × Calls p s.calls (publish_to_followers p s).1.calls
  unfolding publish_to_followers
  publish_to_followers-Safe s = elim (Option-cases (snowflake_of p.channel_id)) [
    | inl e ↦ rw (e, publish_to_followers) (tt, no_call refl)
    | inr (channel, e) ↦ elim (Option-cases (snowflake_of p.message_id)) [
      | inl f ↦ rw (e, f, publish_to_followers) (tt, no_call refl)
      | inr (message, f) ↦
          rw (e, f, publish_to_followers)
            (publish_from-Safe (base_of p.api_base) channel message s
              (snowflake_of-some p.channel_id channel e) (snowflake_of-some p.message_id message f))
    ]
  ]
