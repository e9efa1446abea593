-- ===== src/Webhooks/Secrets.antt =====
-- registerWebhook without the secret of the registration.
use announcement_tool.Common.{
  ◌≡◌, refl, inl, inr, Bool, false, List, Option, some, Text, ℕ, Option-cases, ok, Result-cases,
}
use announcement_tool.Store.{PartialFilters, SubscriptionRow, Db}
use announcement_tool.Subscriptions.Table.{Draw, same_token}
use announcement_tool.Subscriptions.Signup.{Moment}
use announcement_tool.SafeUrl.Deliverable.{IsIp, Url, resolve_deliverable_url}
use announcement_tool.Webhooks.{
  Request, HookState, refused, not_authorized, webhook_at, register_vetted, register_webhook,
  empty_filter_error,
}

-- No row of the URL has the secret that is given.
abbrev pub WrongSecret : Text → Text → Db → Type 0
WrongSecret url t db =
    (r : SubscriptionRow)
    → webhook_at url db.subscriptions ≡ some r
    → same_token (some t) r.secret ≡ false

module _ (is_ip : IsIp) (parse : Text → Option Url) (lookup : Text → Option (List Text))
    (answers : Request → Bool) (rivals : Moment → Db → Db) (now : ℕ) (draw : Draw) where
  vetted-WrongSecret :
      (url t : Text) (addresses : List Text) (filters : Option PartialFilters) (s : HookState)
      → WrongSecret url t s.db
      → register_vetted is_ip parse lookup answers rivals now draw url addresses filters (some t) s
        ≡ (ok (refused not_authorized), s)
  unfolding register_vetted
  vetted-WrongSecret url t addresses filters s wrong =
      elim (Option-cases (webhook_at url s.db.subscriptions)) [
        | inl e ↦ rw (e, register_vetted)
        | inr (r, e) ↦ rw (e, register_vetted, wrong r e)
      ]

  -- With a secret that is not that of the registration, or for a URL that is not registered, a call
  -- changes nothing and sends nothing. Whether the URL is registered cannot be told from the answer:
  -- it is the same in both cases, and depends on the URL and the filters alone.
  pub register_webhook-WrongSecret :
      (url t : Text) (filters : Option PartialFilters) (s s' : HookState)
      → WrongSecret url t s.db
      → WrongSecret url t s'.db
      → ((register_webhook is_ip parse lookup answers rivals now draw url filters (some t) s).1 ≡ s)
        × ((register_webhook is_ip parse lookup answers rivals now draw url filters (some t) s).0
            ≡ (register_webhook is_ip parse lookup answers rivals now draw url filters
                (some t)
                s').0)
  unfolding register_webhook
  register_webhook-WrongSecret url t filters s s' wrong wrong' =
      elim (Result-cases (resolve_deliverable_url is_ip parse lookup false url)) [
        | inl (e, h) ↦ rw (h, register_webhook) (refl, refl)
        | inr ((u, addresses), h) ↦ elim (Option-cases (empty_filter_error filters)) [
          | inr (e, g) ↦ rw (h, g, register_webhook) (refl, refl)
          | inl g ↦
              rw
                (
                  h,
                  g,
                  register_webhook,
                  vetted-WrongSecret url t addresses filters s wrong,
                  vetted-WrongSecret url t addresses filters s' wrong',
                )
                (refl, refl)
        ]
      ]
