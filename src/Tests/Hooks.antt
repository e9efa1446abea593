-- ===== src/Tests/Hooks.antt =====
-- The theorems on webhooks, applied to one registration.
use announcement_tool.Common.{
  ◌≡◌, refl, sym, subst, true, false, [], ◌∷◌, none, some, Text, codes, text_eq, some_inj,
  none-ne-some, ◌∙◌,
}
use announcement_tool.Types.{webhook}
use announcement_tool.Store.{SubscriptionRow}
use announcement_tool.Subscriptions.Table.{
  Draw, no_filters, new_subscription, first_row, same_token,
}
use announcement_tool.Webhooks.{HookState, webhook_at, register_webhook}
use announcement_tool.Webhooks.Secrets.{WrongSecret, register_webhook-WrongSecret}
use announcement_tool.Webhooks.Requests.{OnlyVetted, register_webhook-OnlyVetted}
use announcement_tool.Tests.Scenario.{start, noon}
use announcement_tool.Tests.Destinations.{one_ip, hook, public_address}

abbrev url : Text
url = codes "https://a.io/"

abbrev draw : Draw
draw = record {
  id = codes "sub-1";
  secret = codes "whsec";
  unsubscribe_token = codes "leave";
  verify_token = codes "confirm";
}

abbrev registration : SubscriptionRow
registration = new_subscription noon draw webhook url no_filters

abbrev known : HookState
known = record { db = record start { subscriptions = registration ∷ [] }; requests = [] }

abbrev unknown : HookState
unknown = record { db = start; requests = [] }

found : webhook_at url known.db.subscriptions ≡ some registration
unfolding first_row text_eq
found = refl

wrong_known : WrongSecret url (codes "guess") known.db
unfolding same_token text_eq
wrong_known r e =
    subst (λ (q : SubscriptionRow). same_token (some (codes "guess")) q.secret ≡ false)
      (some_inj (sym found ∙ e)) refl

wrong_unknown : WrongSecret url (codes "guess") unknown.db
unfolding first_row
wrong_unknown r e = absurd (none-ne-some e)

register_webhook-WrongSecret_example :
    ((register_webhook one_ip
        (λ _. some hook)
        (λ _. some (public_address ∷ []))
        (λ _. true)
        (λ _ db. db)
        noon
        draw
        url
        none
        (some (codes "guess"))
        known).1
      ≡ known)
    × ((register_webhook one_ip
          (λ _. some hook)
          (λ _. some (public_address ∷ []))
          (λ _. true)
          (λ _ db. db)
          noon
          draw
          url
          none
          (some (codes "guess"))
          known).0
        ≡ (register_webhook one_ip
            (λ _. some hook)
            (λ _. some (public_address ∷ []))
            (λ _. true)
            (λ _ db. db)
            noon
            draw
            url
            none
            (some (codes "guess"))
            unknown).0)
register_webhook-WrongSecret_example =
    register_webhook-WrongSecret one_ip (λ _. some hook) (λ _. some (public_address ∷ []))
      (λ _. true) (λ _ db. db) noon draw url (codes "guess") none known unknown wrong_known
      wrong_unknown

register_webhook-OnlyVetted_example :
    OnlyVetted one_ip
      (λ _. some hook)
      (λ _. some (public_address ∷ []))
      []
      (register_webhook one_ip
        (λ _. some hook)
        (λ _. some (public_address ∷ []))
        (λ _. true)
        (λ _ db. db)
        noon
        draw
        url
        none
        (some (codes "whsec"))
        known).1.requests
register_webhook-OnlyVetted_example =
    register_webhook-OnlyVetted one_ip (λ _. some hook) (λ _. some (public_address ∷ []))
      (λ _. true) (λ _ db. db) noon draw url none (some (codes "whsec")) known
