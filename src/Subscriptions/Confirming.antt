-- ===== src/Subscriptions/Confirming.antt =====
-- src/core/subscribe-flow.ts: confirmSubscription and confirmFilterChange, the links that a
-- subscriber opens.
pub mod Links
pub mod Opening
use announcement_tool.Common.{
  ℕ, Bool, true, false, ◌&&◌, Option, none, some, Text, update_where, Result, ok, err, ◌>>=◌,
}
use announcement_tool.Store.{PartialFilters, SubscriptionRow, Db}
use announcement_tool.Subscriptions.{Subscription, pending_token_ttl_hours}
use announcement_tool.Subscriptions.Table.{
  SubscriptionError, null_filters, same_token, still_valid, first_row, has_id,
  get_subscription_by_verify_token, verify_subscription, update_subscription_filters,
  set_subscriptions,
}

unfoldable pub confirm_subscription : ℕ → Text → Db → Option Subscription × Db
confirm_subscription now token db = elim (get_subscription_by_verify_token now token db) [
  | none ↦ (none, db)
  | some sub ↦ (some (record sub { verified = true }), verify_subscription sub.id db)
]

abbrev pub has_pending_token : ℕ → Text → SubscriptionRow → Bool
has_pending_token now token r =
    same_token r.pending_token (some token)
    && still_valid now pending_token_ttl_hours r.pending_token_issued_at

abbrev pub clear_pending : SubscriptionRow → SubscriptionRow
clear_pending r = record r {
  pending_filters = none;
  pending_token = none;
  pending_token_issued_at = none;
}

-- `Object.entries` of null throws.
abbrev pub given_filters : Option PartialFilters → Result SubscriptionError PartialFilters
given_filters none = err null_filters
given_filters (some f) = ok f

unfoldable pub confirm_filter_change : ℕ → Text → Db → Result SubscriptionError (Bool × Db)
confirm_filter_change now token db =
    elim (first_row (has_pending_token now token) db.subscriptions) [
      | none ↦ ok (false, db)
      | some r ↦ do
        f ← given_filters r.pending_filters
        db' ← update_subscription_filters r.id f db
        ok (true, set_subscriptions (update_where (has_id r.id) clear_pending) db')
    ]
