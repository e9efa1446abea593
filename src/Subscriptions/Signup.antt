-- ===== src/Subscriptions/Signup.antt =====
-- src/core/subscribe-flow.ts: updateExistingAndNotify and startEmailSubscription. What other
-- requests do to the database between two statements is `rivals`, a function of the place; what is
-- drawn at random is `draws`, of the attempt; and the sender of mail is `accepts`, which tells
-- whether `send` resolves. Nothing is rolled back here, so an error comes with the state.
use announcement_tool.Common.{
  ℕ, Bool, List, [], ◌∷◌, ◌++◌, Option, none, some, Text, trim, to_lower_case, update_where,
  if◌then◌else◌, Result, ok, err,
}
use announcement_tool.Types.{email}
use announcement_tool.Store.{PartialFilters, SubscriptionRow, Db}
use announcement_tool.Subscriptions.Table.{
  SubscriptionError, duplicate_key, mail_failed, Draw, at_endpoint, has_id, or_none, first_row,
  create_subscription, update_subscription_filters, set_subscriptions,
}

pub data Mail : Type 0 where
  confirmation : Text → Text → Mail
  confirm_change : Text → Text → Mail
  preferences_updated : Text → Mail

pub data Reply : Type 0 where
  confirmation_sent updated change_pending : Reply

pub record State : Type 0 where
  pub db : Db
  pub mails : List Mail

abbrev pub Answer : Type 0
Answer = Result SubscriptionError Reply × State

-- Where another request may come in between.
pub data Moment : Type 0 where
  before_insert before_reselect : Moment

pub record Draws : Type 0 where
  pub row : Draw
  pub fresh_row : Draw
  pub token : Text

abbrev pub set_pending : ℕ → PartialFilters → Text → SubscriptionRow → SubscriptionRow
set_pending now f token r = record r {
  pending_filters = some f;
  pending_token = some token;
  pending_token_issued_at = some now;
}

abbrev pub set_verify_token : ℕ → Text → SubscriptionRow → SubscriptionRow
set_verify_token now token r = record r {
  verify_token = some token;
  verify_token_issued_at = some now;
}

unfoldable pub interfere : (Db → Db) → State → State
interfere rival s = record s { db = rival s.db }

abbrev pub with_db : Db → State → State
with_db db s = record s { db = db }

module _ (now : ℕ) (accepts : Mail → Bool) (rivals : ℕ → Moment → Db → Db) (draws : ℕ → Draws) where
  unfoldable pub send : Mail → Reply → State → Answer
  send mail reply s =
      if accepts mail
      then (ok reply, record s { mails = s.mails ++ mail ∷ [] })
      else (err mail_failed, s)

  -- createSubscription, and the confirmation to the new address
  unfoldable pub create_fresh : Draw → Text → Option PartialFilters → State → Answer
  create_fresh draw address filters s =
      elim (create_subscription now draw email address filters s.db) [
        | err e ↦ (err e, s)
        | ok (sub, db) ↦
            send (confirmation address draw.verify_token) confirmation_sent (with_db db s)
      ]

  -- The branch of a verified address.
  unfoldable pub notify_verified :
      ℕ → Text → Option PartialFilters → SubscriptionRow → State → Answer
  notify_verified attempt address none r s = send (preferences_updated address) updated s
  notify_verified attempt address (some f) r s =
      let token = (draws attempt).token in
      send (confirm_change address token) change_pending
        (with_db (set_subscriptions (update_where (has_id r.id) (set_pending now f token)) s.db) s)

  -- The branch of an address that is not verified yet.
  unfoldable pub notify_unverified :
      ℕ → Text → Option PartialFilters → SubscriptionRow → State → Answer
  notify_unverified attempt address filters r s =
      let token = (draws attempt).token in
      elim (update_subscription_filters r.id (or_none filters) s.db) [
        | err e ↦ (err e, s)
        | ok db ↦ send (confirmation address token) confirmation_sent (
            with_db (set_subscriptions (update_where (has_id r.id) (set_verify_token now token)) db)
              s)
      ]

  -- `vanished` is what follows where the row is gone.
  unfoldable pub update_existing_and_notify :
      (State → Answer) → ℕ → Text → Option PartialFilters → State → Answer
  update_existing_and_notify vanished attempt address filters s =
      elim (first_row (at_endpoint email address) s.db.subscriptions) [
        | none ↦ vanished s
        | some r ↦
            if r.verified
            then notify_verified attempt address filters r s
            else notify_unverified attempt address filters r s
      ]

  unfoldable pub signup_round : (State → Answer) → ℕ → Text → Option PartialFilters → State → Answer
  signup_round vanished attempt address filters s =
      elim (first_row (at_endpoint email address) s.db.subscriptions) [
        | some r ↦
            update_existing_and_notify vanished attempt address filters
              (interfere (rivals attempt before_reselect) s)
        | none ↦
            let s' = interfere (rivals attempt before_insert) s in
            elim (create_subscription now (draws attempt).row email address filters s'.db) [
              | ok (sub, db) ↦
                  send (confirmation address (draws attempt).row.verify_token) confirmation_sent
                    (with_db db s')
              | err duplicate_key ↦
                  update_existing_and_notify vanished attempt address filters
                    (interfere (rivals attempt before_reselect) s')
              | err e ↦ (err e, s')
            ]
      ]

  -- rawInput.email.trim().toLowerCase(); a row that vanishes on the first attempt leads to a second,
  -- and one that vanishes then to a fresh row.
  unfoldable pub start_email_subscription : Text → Option PartialFilters → State → Answer
  start_email_subscription raw filters =
      let address = to_lower_case (trim raw) in
      signup_round
        (signup_round (create_fresh (draws 1).fresh_row address filters) 1 address filters) 0
        address filters
