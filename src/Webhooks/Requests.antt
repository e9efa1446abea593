-- ===== src/Webhooks/Requests.antt =====
-- The requests that registerWebhook and sendWebhookTest send.
use announcement_tool.Common.{
  ◌≡◌, refl, ◌⊎◌, inl, inr, Bool, false, List, [], ◌∷◌, ◌++◌, Option, none, some, Text, ℕ, In,
  In-append_cases, Bool-cases, Option-cases, Result-cases,
}
use announcement_tool.Types.{webhook, channel_eq}
use announcement_tool.Store.{PartialFilters, SubscriptionRow, Db}
use announcement_tool.Subscriptions.{Subscription}
use announcement_tool.Subscriptions.Table.{
  SubscriptionError, duplicate_key, filter_empty, email_not_lowercase, mail_failed, null_filters,
  Draw, same_token, create_subscription, update_subscription_filters,
  get_subscription_by_unsubscribe_token,
}
use announcement_tool.Subscriptions.Signup.{Moment, before_insert, before_reselect}
use announcement_tool.SafeUrl.Deliverable.{IsIp, Url, resolve_deliverable_url}
use announcement_tool.SafeUrl.Vetted.{Vetted, resolve_deliverable_url-Vetted}
use announcement_tool.Webhooks.{
  Request, HookState, webhook_at, register_vetted, register_webhook, run_verification,
  apply_filters, modify_existing, lost_race, register_new, test_vetted, send_webhook_test,
  has_secret, empty_filter_error, secret_of, hook_db,
}

apply_filters-requests :
    (id : Text) (filters : Option PartialFilters) (s : HookState)
    → (apply_filters id filters s).1.requests ≡ s.requests
unfolding apply_filters
apply_filters-requests id none s = refl
apply_filters-requests id (some f) s = elim (Result-cases (update_subscription_filters id f s.db)) [
  | inl (e, h) ↦ rw (h, apply_filters)
  | inr (db, h) ↦ rw (h, apply_filters)
]

module _ (is_ip : IsIp) (parse : Text → Option Url) (lookup : Text → Option (List Text)) where
  abbrev pub VettedRequest : Request → Type 0
  VettedRequest q = (u : Url) × Vetted is_ip parse lookup q.endpoint u q.addresses

  -- Each request is an old one, or its destination was vetted.
  abbrev pub OnlyVetted : List Request → List Request → Type 0
  OnlyVetted before after = (q : Request) → In q after → In q before ⊎ VettedRequest q

  same-OnlyVetted : (before after : List Request) → after ≡ before → OnlyVetted before after
  same-OnlyVetted before after e q m = inl (rw e at m)

  module _ (answers : Request → Bool) where
    run_verification-OnlyVetted :
        (request : Request) (s : HookState)
        → VettedRequest request
        → OnlyVetted s.requests (run_verification answers request s).1.requests
    unfolding run_verification
    run_verification-OnlyVetted request s v q m =
        let sent : (run_verification answers request s).1.requests ≡ s.requests ++ request ∷ [] =
          elim (Bool-cases (answers request)) [
            | inl e ↦ rw (e, run_verification)
            | inr e ↦ rw (e, run_verification)
          ] in
        elim (In-append_cases q s.requests (request ∷ []) (rw sent at m)) [
          | inl o ↦ inl o
          | inr n ↦ elim n [ inl i ↦ inr (rw i v) | inr x ↦ absurd x ]
        ]

    test_vetted-OnlyVetted :
        (sub : Subscription) (s : HookState)
        → OnlyVetted s.requests (test_vetted is_ip parse lookup answers sub s).1.requests
    unfolding test_vetted
    test_vetted-OnlyVetted sub s =
        elim (Result-cases (resolve_deliverable_url is_ip parse lookup false sub.endpoint)) [
          | inl (e, h) ↦ rw (h, test_vetted) (λ q m. inl m)
          | inr ((u, addresses), h) ↦
              rw (h, test_vetted)
                (run_verification-OnlyVetted _ s
                  (u, resolve_deliverable_url-Vetted is_ip parse lookup sub.endpoint u addresses h))
        ]

    -- A test event is sent to a destination that was vetted just before, and to no other.
    pub send_webhook_test-OnlyVetted :
        (token : Text) (s : HookState)
        → OnlyVetted s.requests (send_webhook_test is_ip parse lookup answers token s).1.requests
    unfolding send_webhook_test
    send_webhook_test-OnlyVetted token s =
        elim (Option-cases (get_subscription_by_unsubscribe_token token s.db)) [
          | inl e ↦ rw (e, send_webhook_test) (λ q m. inl m)
          | inr (sub, e) ↦ elim (Bool-cases (channel_eq sub.channel webhook)) [
            | inr c ↦ rw (e, send_webhook_test, c) (λ q m. inl m)
            | inl c ↦ elim (Bool-cases (has_secret sub.secret)) [
              | inr k ↦ rw (e, send_webhook_test, c, k) (λ q m. inl m)
              | inl k ↦ rw (e, send_webhook_test, c, k) (test_vetted-OnlyVetted sub s)
            ]
          ]
        ]

    module _ (rivals : Moment → Db → Db) (now : ℕ) (draw : Draw) where
      modify-OnlyVetted :
          (r : SubscriptionRow) (url : Text) (addresses : List Text)
          (filters : Option PartialFilters) (s : HookState) (u : Url)
          → Vetted is_ip parse lookup url u addresses
          → OnlyVetted s.requests
              (modify_existing is_ip parse lookup answers rivals now draw r url addresses filters
                s).1.requests
      unfolding modify_existing
      modify-OnlyVetted r url addresses filters s u v =
          let same = apply_filters-requests r.id filters s in
          elim (Option-cases (apply_filters r.id filters s).0) [
            | inr (e, h) ↦ rw (h, modify_existing) (same-OnlyVetted s.requests _ same)
            | inl h ↦
                rw (h, modify_existing)
                  (λ q m.
                    elim (run_verification-OnlyVetted
                      (record {
                        id = r.id;
                        endpoint = url;
                        secret = secret_of r.secret;
                        addresses = addresses;
                      })
                      (apply_filters r.id filters s).1 (u, v) q m) [
                        | inl o ↦ inl (rw same at o)
                        | inr w ↦ inr w
                      ])
          ]

      lost_race-requests :
          (e : SubscriptionError) (url : Text) (filters : Option PartialFilters) (s : HookState)
          → (lost_race is_ip parse lookup answers rivals now draw e url filters s).1.requests
            ≡ s.requests
      unfolding lost_race
      lost_race-requests e url filters s = elim (Option-cases (webhook_at url s.db.subscriptions)) [
        | inl h ↦ rw (h, lost_race)
        | inr (r, h) ↦
            let same = apply_filters-requests r.id filters s in
            elim (Option-cases (apply_filters r.id filters s).0) [
              | inr (k, g) ↦ rw (h, lost_race, g) same
              | inl g ↦ rw (h, lost_race, g) same
            ]
      ]

      register_new-requests :
          (url : Text) (filters : Option PartialFilters) (s : HookState)
          → (register_new is_ip parse lookup answers rivals now draw url filters s).1.requests
            ≡ s.requests
      unfolding register_new
      register_new-requests url filters s =
          elim (Result-cases (create_subscription now draw webhook url filters s.db)) [
            | inr ((sub, db), h) ↦ rw (h, register_new)
            | inl (duplicate_key, h) ↦
                rw (h, register_new)
                  (lost_race-requests duplicate_key url filters
                    (hook_db (rivals before_reselect) s))
            | inl (filter_empty key, h) ↦ rw (h, register_new)
            | inl (email_not_lowercase, h) ↦ rw (h, register_new)
            | inl (mail_failed, h) ↦ rw (h, register_new)
            | inl (null_filters, h) ↦ rw (h, register_new)
          ]

      unknown-OnlyVetted :
          (url : Text) (addresses : List Text) (filters : Option PartialFilters)
          (secret : Option Text) (s : HookState)
          → webhook_at url s.db.subscriptions ≡ none
          → OnlyVetted s.requests
              (register_vetted is_ip parse lookup answers rivals now draw url addresses filters
                secret s).1.requests
      unfolding register_vetted
      unknown-OnlyVetted url addresses filters (some t) s h = rw (h, register_vetted) (λ q m. inl m)
      unknown-OnlyVetted url addresses filters none s h =
          rw (h, register_vetted)
            (same-OnlyVetted s.requests _
              (register_new-requests url filters (hook_db (rivals before_insert) s)))

      register_vetted-OnlyVetted :
          (url : Text) (addresses : List Text) (filters : Option PartialFilters)
          (secret : Option Text) (s : HookState) (u : Url)
          → Vetted is_ip parse lookup url u addresses
          → OnlyVetted s.requests
              (register_vetted is_ip parse lookup answers rivals now draw url addresses filters
                secret s).1.requests
      unfolding register_vetted
      register_vetted-OnlyVetted url addresses filters secret s u v =
          elim (Option-cases (webhook_at url s.db.subscriptions)) [
            | inr (r, h) ↦ elim (Bool-cases (same_token secret r.secret)) [
              | inl k ↦ rw (h, register_vetted, k) (modify-OnlyVetted r url addresses filters s u v)
              | inr k ↦ rw (h, register_vetted, k) (λ q m. inl m)
            ]
            | inl h ↦ unknown-OnlyVetted url addresses filters secret s h
          ]

      -- A registration sends no request but to a destination that was vetted: an https URL whose name
      -- resolves to no forbidden address, with the connection pinned to the addresses it resolved to.
      pub register_webhook-OnlyVetted :
          (url : Text) (filters : Option PartialFilters) (secret : Option Text) (s : HookState)
          → OnlyVetted s.requests
              (register_webhook is_ip parse lookup answers rivals now draw url filters secret
                s).1.requests
      unfolding register_webhook
      register_webhook-OnlyVetted url filters secret s =
          elim (Result-cases (resolve_deliverable_url is_ip parse lookup false url)) [
            | inl (e, h) ↦ rw (h, register_webhook) (λ q m. inl m)
            | inr ((u, addresses), h) ↦ elim (Option-cases (empty_filter_error filters)) [
              | inr (e, g) ↦ rw (h, g, register_webhook) (λ q m. inl m)
              | inl g ↦
                  rw (h, g, register_webhook)
                    (register_vetted-OnlyVetted url addresses filters secret s u
                      (resolve_deliverable_url-Vetted is_ip parse lookup url u addresses h))
            ]
          ]
