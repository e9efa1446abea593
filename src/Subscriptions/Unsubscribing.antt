-- ===== src/Subscriptions/Unsubscribing.antt =====
-- src/core/tokens-flow.ts: unsubscribeByToken and updateFiltersByToken, the links in each mail.
pub mod Leaving
use announcement_tool.Common.{
  Bool, true, false, not, Option, none, some, Text, codes, keep, Result, ok, err, ◌>>=◌, ◌>>◌,
}
use announcement_tool.Store.{PartialFilters, Db, audit, subscription_deleted, of_channel}
use announcement_tool.Subscriptions.{Subscription}
use announcement_tool.Subscriptions.Table.{
  SubscriptionError, has_id, check_filters, get_subscription_by_unsubscribe_token,
  update_subscription_filters, set_subscriptions,
}

unfoldable pub unsubscribe_by_token : Text → Db → Bool × Db
unsubscribe_by_token token db = elim (get_subscription_by_unsubscribe_token token db) [
  | none ↦ (false, db)
  | some sub ↦
      let rest = set_subscriptions (keep (λ r. not (has_id sub.id r))) db in
      (true, audit (codes "subscriber") subscription_deleted sub.id (of_channel sub.channel) rest)
]

unfoldable pub update_filters_by_token :
    Text → PartialFilters → Db → Result SubscriptionError (Bool × Db)
update_filters_by_token token f db = do
  check_filters f
  elim (get_subscription_by_unsubscribe_token token db) [
    | none ↦ ok (false, db)
    | some sub ↦ do db' ← update_subscription_filters sub.id f db; ok (true, db')
  ]
