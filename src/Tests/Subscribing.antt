-- ===== src/Tests/Subscribing.antt =====
-- The theorems on subscriptions and on the rate limits, applied to one address.
use announcement_tool.Common.{
  ℕ, true, false, ◌≡◌, ◌⊎◌, refl, In, List, [], ◌∷◌, some, none, codes, arith, ◌+◌, Text, min,
  text_eq,
}
use announcement_tool.Types.{email}
use announcement_tool.Store.{Db, SubscriptionRow}
use announcement_tool.Subscriptions.{row_to_sub}
use announcement_tool.Subscriptions.Table.{
  Draw, no_filters, first_row, same_token, still_valid, get_subscription_by_verify_token,
  new_subscription,
}
use announcement_tool.Subscriptions.Signup.{Moment, Draws, start_email_subscription}
use announcement_tool.Subscriptions.Untrusted.{UntrustedDb}
use announcement_tool.Subscriptions.Trust.{start_email_subscription-Untrusted}
use announcement_tool.Subscriptions.Confirming.{confirm_subscription}
use announcement_tool.Subscriptions.Confirming.Links.{confirm_subscription_once}
use announcement_tool.Subscriptions.Confirming.Opening.{
  IsFresh, Opened, confirm_subscription-Opened,
}
use announcement_tool.Subscriptions.Unsubscribing.{unsubscribe_by_token}
use announcement_tool.Subscriptions.Unsubscribing.Leaving.{Left, unsubscribe_by_token-Left}
use announcement_tool.RateLimit.{email_per_address}
use announcement_tool.RateLimit.Windows.{allowed_calls, calls_of, count_of, allowed_calls-min}
use announcement_tool.Tests.Scenario.{start, noon}

abbrev draw : Draw
draw = record {
  id = codes "sub-1";
  secret = codes "whsec";
  unsubscribe_token = codes "leave";
  verify_token = codes "confirm";
}

abbrev draws : ℕ → Draws
draws _ = record { row = draw; fresh_row = draw; token = codes "token" }

abbrev subscribed : SubscriptionRow
subscribed = new_subscription noon draw email (codes "ann@example.org") no_filters

abbrev with_subscriber : Db
with_subscriber = record start { subscriptions = subscribed ∷ [] }

undisturbed : (attempt : ℕ) (moment : Moment) (db : Db) → UntrustedDb db db
undisturbed attempt moment db = record { unique = λ u. u; same_verified = λ u. refl }

start_email_subscription-Untrusted_example :
    UntrustedDb with_subscriber
      (start_email_subscription noon
        (λ _. true)
        (λ _ _ db. db)
        draws
        (codes " Ann@example.org")
        (some no_filters)
        (record { db = with_subscriber; mails = [] })).1.db
start_email_subscription-Untrusted_example =
    start_email_subscription-Untrusted noon (λ _. true) (λ _ _ db. db) draws undisturbed
      (codes " Ann@example.org") (some no_filters) (record { db = with_subscriber; mails = [] })

confirm_subscription-Opened_example :
    (((r : SubscriptionRow)
        → In r with_subscriber.subscriptions
        → IsFresh noon (codes "confirm") r
        → ⊥)
      × (confirm_subscription noon (codes "confirm") with_subscriber ≡ (none, with_subscriber)))
    ⊎ ((r : SubscriptionRow) × In r with_subscriber.subscriptions
        × IsFresh noon (codes "confirm") r
        × Opened r with_subscriber
            (confirm_subscription noon (codes "confirm") with_subscriber).0
            (confirm_subscription noon (codes "confirm") with_subscriber).1)
confirm_subscription-Opened_example =
    confirm_subscription-Opened noon (codes "confirm") with_subscriber (tt, tt)

confirmed_answer :
    (confirm_subscription noon (codes "confirm") with_subscriber).0
    ≡ some (record (row_to_sub subscribed) { verified = true })
unfolding confirm_subscription get_subscription_by_verify_token first_row same_token still_valid
    text_eq
confirmed_answer = refl

confirm_subscription_once_example :
    confirm_subscription
      (noon + 1)
      (codes "confirm")
      (confirm_subscription noon (codes "confirm") with_subscriber).1
    ≡ (none, (confirm_subscription noon (codes "confirm") with_subscriber).1)
confirm_subscription_once_example =
    confirm_subscription_once noon (noon + 1) (codes "confirm") with_subscriber
      (record (row_to_sub subscribed) { verified = true }) (tt, tt) confirmed_answer

unsubscribe_by_token-Left_example :
    (((r : SubscriptionRow)
        → In r with_subscriber.subscriptions
        → r.unsubscribe_token ≡ codes "leave"
        → ⊥)
      × (unsubscribe_by_token (codes "leave") with_subscriber ≡ (false, with_subscriber)))
    ⊎ ((r : SubscriptionRow) × In r with_subscriber.subscriptions
        × (r.unsubscribe_token ≡ codes "leave")
        × ((unsubscribe_by_token (codes "leave") with_subscriber).0 ≡ true)
        × Left r with_subscriber (unsubscribe_by_token (codes "leave") with_subscriber).1)
unsubscribe_by_token-Left_example = unsubscribe_by_token-Left (codes "leave") with_subscriber

abbrev five_calls : List (Text × ℕ)
five_calls =
    (codes "k", 1) ∷ (codes "k", 2) ∷ (codes "other", 2) ∷ (codes "k", 3) ∷ (codes "k", 4) ∷ []

allowed_calls-min_example :
    min (count_of (codes "k") 0 []) 3 + allowed_calls (codes "k") email_per_address five_calls []
    ≡ min (count_of (codes "k") 0 [] + calls_of (codes "k") five_calls) 3
allowed_calls-min_example =
    allowed_calls-min (codes "k") email_per_address 0 (omega arith) (omega arith) five_calls []
      (refl, (refl, (refl, (refl, (refl, tt)))))
