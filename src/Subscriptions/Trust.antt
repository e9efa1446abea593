-- ===== src/Subscriptions/Trust.antt =====
-- startEmailSubscription: what anyone who knows an address can do to the subscriptions.
use announcement_tool.Common.{
  ℕ, ◌≡◌, refl, inl, inr, Bool, true, false, List, Option, none, some, Text, trim, to_lower_case,
  In, some_of, update_where, update_where-In_self, text_eq_refl, Bool-cases, Option-cases,
  if◌then◌else◌, ok, Result-cases, Fulfils, Fulfils-ok, Fulfils-bind, Fulfils-throw_if,
}
use announcement_tool.Types.{email}
use announcement_tool.Store.{SubscriptionRow, PartialFilters, Db}
use announcement_tool.Subscriptions.{Subscription}
use announcement_tool.Subscriptions.Table.{
  duplicate_key, filter_empty, email_not_lowercase, mail_failed, null_filters, Draw, at_endpoint,
  has_id, or_none, first_row, create_subscription, update_subscription_filters, set_filters,
  check_filters, clashes, new_subscription, breaks_lowercase,
}
use announcement_tool.Subscriptions.Rows.{first_row-In}
use announcement_tool.Subscriptions.Signup.{
  State, Answer, Mail, Reply, Moment, before_insert, before_reselect, Draws, send, create_fresh,
  notify_verified, notify_unverified, update_existing_and_notify, signup_round,
  start_email_subscription, set_pending, set_verify_token, interfere, with_db,
}
use announcement_tool.Subscriptions.Untrusted.{
  Untrusted, UntrustedDb, Untrusted-refl, Untrusted-trans, Untrusted-append, Untrusted-update,
}

abbrev pub Leaves : Db → Answer → Type 0
Leaves db (result, s) = UntrustedDb db s.db

Leaves-if :
    (db : Db) (b : Bool) (x y : Answer)
    → (b ≡ true → Leaves db x)
    → (b ≡ false → Leaves db y)
    → Leaves db (if b then x else y)
Leaves-if db true x y p q = p refl
Leaves-if db false x y p q = q refl

module _ (now : ℕ) (accepts : Mail → Bool) (rivals : ℕ → Moment → Db → Db) (draws : ℕ → Draws) where
  send-Leaves :
      (mail : Mail) (reply : Reply) (db : Db) (s : State)
      → UntrustedDb db s.db
      → Leaves db (send now accepts rivals draws mail reply s)
  unfolding send
  send-Leaves mail reply db s k = elim (Bool-cases (accepts mail)) [
    | inl e ↦ rw (e, send) k
    | inr e ↦ rw (e, send) k
  ]

  Created : Db → Subscription × Db → Type 0
  Created db (sub, db') = UntrustedDb db db'

  create-Created :
      (draw : Draw) (address : Text) (filters : Option PartialFilters) (db : Db)
      → Fulfils (Created db) (create_subscription now draw email address filters db)
  unfolding Created create_subscription
  create-Created draw address filters db =
      let new = new_subscription now draw email address (or_none filters) in
      Fulfils-bind (Created db) (check_filters (or_none filters)) _ λ u _.
        Fulfils-throw_if (Created db) (breaks_lowercase email address) _ _ λ lower.
          Fulfils-throw_if (Created db) (some_of (clashes new) db.subscriptions) _ _
            λ free. Untrusted-append db.subscriptions new free refl

  create-Untrusted :
      (draw : Draw) (address : Text) (filters : Option PartialFilters) (db db' : Db)
      (sub : Subscription)
      → create_subscription now draw email address filters db ≡ ok (sub, db')
      → UntrustedDb db db'
  unfolding Created
  create-Untrusted draw address filters db db' sub e =
      Fulfils-ok (Created db) (create_subscription now draw email address filters db) (sub, db')
        (create-Created draw address filters db) e

  create_fresh-Leaves :
      (draw : Draw) (address : Text) (filters : Option PartialFilters) (db : Db) (s : State)
      → UntrustedDb db s.db
      → Leaves db (create_fresh now accepts rivals draws draw address filters s)
  unfolding create_fresh
  create_fresh-Leaves draw address filters db s k =
      elim (Result-cases (create_subscription now draw email address filters s.db)) [
        | inl (e, h) ↦ rw (h, create_fresh) k
        | inr ((sub, db'), h) ↦
            rw (h, create_fresh)
              (send-Leaves _ _ db (with_db db' s)
                (Untrusted-trans k (create-Untrusted draw address filters s.db db' sub h)))
      ]

  notify_verified-Leaves :
      (attempt : ℕ) (address : Text) (filters : Option PartialFilters) (r : SubscriptionRow)
      (db : Db) (s : State)
      → In r s.db.subscriptions
      → UntrustedDb db s.db
      → Leaves db (notify_verified now accepts rivals draws attempt address filters r s)
  unfolding notify_verified
  notify_verified-Leaves attempt address none r db s m k = send-Leaves _ _ db s k
  notify_verified-Leaves attempt address (some f) r db s m k = send-Leaves _ _ db _ (
      Untrusted-trans k (
        Untrusted-update s.db.subscriptions r (set_pending now f (draws attempt).token) m
          (λ t. refl) refl (inr refl)))

  -- Both updates of an unverified row, one after the other.
  two_updates :
      (rows : List SubscriptionRow) (r : SubscriptionRow) (f : PartialFilters) (token : Text)
      → In r rows
      → r.verified ≡ false
      → Untrusted rows (
          update_where
            (has_id r.id)
            (set_verify_token now token)
            (update_where (has_id r.id) (set_filters f) rows))
  two_updates rows r f token m v =
      let n = update_where-In_self (has_id r.id) (set_filters f) rows r m (text_eq_refl r.id) in
      Untrusted-trans (Untrusted-update rows r (set_filters f) m (λ t. refl) refl (inl v)) (
        Untrusted-update (update_where (has_id r.id) (set_filters f) rows) (set_filters f r)
          (set_verify_token now token) n (λ t. refl) refl (inl v))

  notify_unverified-Leaves :
      (attempt : ℕ) (address : Text) (filters : Option PartialFilters) (r : SubscriptionRow)
      (db : Db) (s : State)
      → In r s.db.subscriptions
      → r.verified ≡ false
      → UntrustedDb db s.db
      → Leaves db (notify_unverified now accepts rivals draws attempt address filters r s)
  unfolding notify_unverified update_subscription_filters
  notify_unverified-Leaves attempt address filters r db s m v k =
      elim (Result-cases (check_filters (or_none filters))) [
        | inl (e, h) ↦ rw (h, notify_unverified, update_subscription_filters) k
        | inr (u, h) ↦
            rw (h, notify_unverified, update_subscription_filters)
              (send-Leaves _ _ db _ (
                Untrusted-trans k
                  (two_updates s.db.subscriptions r (or_none filters) (draws attempt).token m v)))
      ]

  module _
      (rival_ok : (attempt : ℕ) (moment : Moment) (db : Db)
        → UntrustedDb db (rivals attempt moment db)) where
    update_existing-Leaves :
        (vanished : State → Answer) (attempt : ℕ) (address : Text) (filters : Option PartialFilters)
        (db : Db) (s : State)
        → ((t : State) → UntrustedDb db t.db → Leaves db (vanished t))
        → UntrustedDb db s.db
        → Leaves db
            (update_existing_and_notify now accepts rivals draws vanished attempt address filters s)
    unfolding update_existing_and_notify
    update_existing-Leaves vanished attempt address filters db s next k =
        elim (Option-cases (first_row (at_endpoint email address) s.db.subscriptions)) [
          | inl h ↦ rw (h, update_existing_and_notify) (next s k)
          | inr (r, h) ↦
              let (m, _) = first_row-In (at_endpoint email address) s.db.subscriptions r h in
              rw (h, update_existing_and_notify)
                (Leaves-if db r.verified _ _
                  (λ v. notify_verified-Leaves attempt address filters r db s m k)
                  (λ v. notify_unverified-Leaves attempt address filters r db s m v k))
        ]

    signup_round-Leaves :
        (vanished : State → Answer) (attempt : ℕ) (address : Text) (filters : Option PartialFilters)
        (db : Db) (s : State)
        → ((t : State) → UntrustedDb db t.db → Leaves db (vanished t))
        → UntrustedDb db s.db
        → Leaves db (signup_round now accepts rivals draws vanished attempt address filters s)
    unfolding signup_round interfere
    signup_round-Leaves vanished attempt address filters db s next k =
        let late = Untrusted-trans k (rival_ok attempt before_insert s.db) in
        let s' = interfere (rivals attempt before_insert) s in
        elim (Option-cases (first_row (at_endpoint email address) s.db.subscriptions)) [
          | inr (r, h) ↦
              rw (h, signup_round)
                (update_existing-Leaves vanished attempt address filters db _ next
                  (Untrusted-trans k (rival_ok attempt before_reselect s.db)))
          | inl h ↦
              elim (Result-cases
                (create_subscription now (draws attempt).row email address filters s'.db)) [
                  | inr ((sub, db'), g) ↦
                      rw (h, g, signup_round)
                        (send-Leaves _ _ db (with_db db' s') (
                          Untrusted-trans late
                            (create-Untrusted _ address filters s'.db db' sub g)))
                  | inl (duplicate_key, g) ↦
                      rw (h, g, signup_round)
                        (update_existing-Leaves vanished attempt address filters db _ next
                          (Untrusted-trans late (rival_ok attempt before_reselect s'.db)))
                  | inl (filter_empty key, g) ↦ rw (h, g, signup_round) late
                  | inl (email_not_lowercase, g) ↦ rw (h, g, signup_round) late
                  | inl (mail_failed, g) ↦ rw (h, g, signup_round) late
                  | inl (null_filters, g) ↦ rw (h, g, signup_round) late
                ]
        ]

    -- A sign-up for any address and filters, with any sender of mail, between requests that are
    -- themselves of this kind, verifies no subscription and changes nothing of a verified one but
    -- the change that waits for its confirmation; the primary key still holds.
    pub start_email_subscription-Untrusted :
        (raw : Text) (filters : Option PartialFilters) (s : State)
        → UntrustedDb s.db (start_email_subscription now accepts rivals draws raw filters s).1.db
    unfolding start_email_subscription
    start_email_subscription-Untrusted raw filters s =
        let address = to_lower_case (trim raw) in
        signup_round-Leaves _ 0 address filters s.db s
          (λ t k.
            signup_round-Leaves _ 1 address filters s.db t
              (λ q j. create_fresh-Leaves (draws 1).fresh_row address filters s.db q j) k)
          (Untrusted-refl s.db.subscriptions)
