-- ===== src/Delivery/Posting.antt =====
-- makeDiscordAdapter: what a delivery posts, and when it counts as delivered.
use announcement_tool.Common.{
  ◌≡◌, refl, ◌⊎◌, ◌↔◌, inl, inr, true, [], ◌∷◌, ◌++◌, some, Text, false-ne-true, Bool-cases,
  Option-cases,
}
use announcement_tool.Types.{Announcement, DeliveryKind}
use announcement_tool.Fanout.{Outcome, resolves, rejects}
use announcement_tool.Mentions.{mentioned_role_ids, mentions_everyone}
use announcement_tool.Delivery.{Json, Reply, fails, answers, reply_cases, is_ok}
use announcement_tool.Delivery.Discord.{
  DiscordConfig, DiscordPost, DiscordState, Discord, truthy, post_of, post_url, after_delivery,
  send_post, make_discord_adapter,
}

-- Discord answered the post with a 2xx status.
abbrev pub Taken : Reply → Type 0
Taken (fails e) = ⊥
Taken (answers res) = is_ok res ≡ true

abbrev pub IsDelivered : Outcome → Type 0
IsDelivered (resolves reported) = Unit
IsDelivered (rejects e) = ⊥

module _ {W : Type 0} (d : Discord W) where
  -- A delivery that posted: once, with the mentions that the author selected and no others allowed.
  pub record Posted (a : Announcement) (target : Text) (kind : DeliveryKind) (s : DiscordState W)
      (outcome : Outcome) (t : DiscordState W) : Type 0 where
    pub cfg : DiscordConfig
    pub configured : d.config target ≡ some cfg
    pub post : DiscordPost
    pub once : t.posts ≡ s.posts ++ post ∷ []
    pub roles : post.roles ≡ mentioned_role_ids cfg.mentions a.mention_role_ids
    pub everyone : post.parse_everyone ≡ mentions_everyone a.mention_role_ids
    pub delivered : IsDelivered outcome ↔ Taken (d.post post s.bot.world).0

  after_delivery-IsDelivered :
      (cfg : DiscordConfig) (body : Json) (s : DiscordState W)
      → IsDelivered (after_delivery d cfg body s).0
        × ((after_delivery d cfg body s).1.posts ≡ s.posts)
  unfolding after_delivery
  after_delivery-IsDelivered cfg body s = elim (Bool-cases cfg.auto_publish) [
    | inr e ↦ rw (e, after_delivery) (tt, refl)
    | inl e ↦ elim (Option-cases (truthy d.bot_token)) [
      | inl f ↦ rw (e, f, after_delivery) (tt, refl)
      | inr (token, f) ↦ rw (e, f, after_delivery) (tt, refl)
    ]
  ]

  abbrev Sends : DiscordPost → DiscordState W → Outcome × DiscordState W → Type 0
  Sends post s (outcome, t) =
      (t.posts ≡ s.posts ++ post ∷ []) × (IsDelivered outcome ↔ Taken (d.post post s.bot.world).0)

  send_post-Sends :
      (cfg : DiscordConfig) (post : DiscordPost) (s : DiscordState W)
      → Sends post s (send_post d cfg post s)
  unfolding send_post
  send_post-Sends cfg post s =
      let (reply, world) = d.post post s.bot.world in
      let t : DiscordState W = record {
        posts = s.posts ++ post ∷ [];
        bot = record { world = world; calls = s.bot.calls };
      } in
      elim (reply_cases reply) [
        | inl (x, e) ↦ rw (e, send_post) (refl, (λ h. h, λ h. h))
        | inr (res, e) ↦ elim (Bool-cases (is_ok res)) [
          | inr f ↦ rw (e, f, send_post) (refl, (λ h. absurd h, λ h. absurd (false-ne-true h)))
          | inl f ↦
              let (delivered, posts) = after_delivery-IsDelivered cfg res.body t in
              rw (e, f, send_post) (posts, (λ _. refl, λ _. delivered))
        ]
      ]

  -- A delivery to Discord either makes no post and fails, leaving everything as it is, or makes one post.
  -- The post is allowed to ping the roles that its line mentions and no other, and everyone only if the
  -- author selected that. It counts as delivered exactly when Discord took the post: whatever happens to
  -- the publishing after that, the delivery is not tried again.
  pub make_discord_adapter-Posted :
      (a : Announcement) (target : Text) (kind : DeliveryKind) (s : DiscordState W)
      → ((IsDelivered (make_discord_adapter d a target kind s).0 → ⊥)
          × ((make_discord_adapter d a target kind s).1 ≡ s))
        ⊎ Posted a target kind s
            (make_discord_adapter d a target kind s).0
            (make_discord_adapter d a target kind s).1
  unfolding make_discord_adapter post_of
  make_discord_adapter-Posted a target kind s = elim (Option-cases (d.config target)) [
    | inl e ↦ rw (e, make_discord_adapter) (inl (λ h. h, refl))
    | inr (cfg, e) ↦ elim (Option-cases (truthy cfg.webhook_url)) [
      | inl f ↦ rw (e, f, make_discord_adapter) (inl (λ h. h, refl))
      | inr (url, f) ↦ elim (Option-cases (post_url d cfg url)) [
        | inl g ↦ rw (e, f, g, make_discord_adapter) (inl (λ h. h, refl))
        | inr (u, g) ↦
            let (once, delivered) = send_post-Sends cfg (post_of d cfg u a kind) s in
            rw (e, f, g, make_discord_adapter)
              (inr (record {
                cfg = cfg;
                configured = e;
                post = post_of d cfg u a kind;
                once = once;
                roles = refl;
                everyone = refl;
                delivered = delivered;
              }))
      ]
    ]
  ]
