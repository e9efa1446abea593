-- ===== src/Subscriptions/Unsubscribing/Leaving.antt =====
-- unsubscribeByToken: what is left of a subscription.
use announcement_tool.Common.{
  ◌≡◌, refl, ◌⊎◌, inl, inr, true, false, not, [], ◌∷◌, ◌++◌, arith, Text, codes, In, keep-In,
  In-keep, Option-cases, text_eq_iff,
}
use announcement_tool.Store.{SubscriptionRow, Db, AuditEntry, subscription_deleted, of_channel}
use announcement_tool.Subscriptions.Table.{
  has_id, has_unsubscribe_token, first_row, get_subscription_by_unsubscribe_token,
}
use announcement_tool.Subscriptions.Rows.{first_row-In, first_row-absent}
use announcement_tool.Subscriptions.Unsubscribing.{unsubscribe_by_token}

abbrev pub deletion : SubscriptionRow → AuditEntry
deletion r = record {
  actor = codes "subscriber";
  action = subscription_deleted;
  target = r.id;
  detail = of_channel r.channel;
}

-- The subscription `r` is deleted, and nothing else.
pub record Left (r : SubscriptionRow) (before after : Db) : Type 0 where
  pub gone : (s : SubscriptionRow) → In s after.subscriptions → s.id ≡ r.id → ⊥
  pub old : (s : SubscriptionRow) → In s after.subscriptions → In s before.subscriptions
  pub rest :
      (s : SubscriptionRow)
      → In s before.subscriptions
      → has_id r.id s ≡ false
      → In s after.subscriptions
  pub logged : after.audit_log ≡ before.audit_log ++ deletion r ∷ []
  pub same_announcements : after.announcements ≡ before.announcements
  pub same_ledger : after.delivery_ledger ≡ before.delivery_ledger

kept_id : (id : Text) (s : SubscriptionRow) → not (has_id id s) ≡ true → s.id ≡ id → ⊥
kept_id id s k e = ground (arith, text_eq_iff s.id id)

-- An unsubscription by a token that some subscription has deletes a subscription that has it and
-- nothing else, answers true, and enters that in the audit log; by a token that no subscription has
-- it answers false and changes nothing.
pub unsubscribe_by_token-Left :
    (token : Text) (db : Db)
    → (((r : SubscriptionRow) → In r db.subscriptions → r.unsubscribe_token ≡ token → ⊥)
        × (unsubscribe_by_token token db ≡ (false, db)))
      ⊎ ((r : SubscriptionRow) × In r db.subscriptions
          × (r.unsubscribe_token ≡ token)
          × ((unsubscribe_by_token token db).0 ≡ true)
          × Left r db (unsubscribe_by_token token db).1)
unfolding unsubscribe_by_token get_subscription_by_unsubscribe_token
unsubscribe_by_token-Left token db =
    elim (Option-cases (first_row (has_unsubscribe_token token) db.subscriptions)) [
      | inl h ↦ inl (
        λ r m e.
            first_row-absent (has_unsubscribe_token token) db.subscriptions h r m
              ((text_eq_iff r.unsubscribe_token token).1 e),
        rw (h, unsubscribe_by_token, get_subscription_by_unsubscribe_token),
      )
      | inr (r, h) ↦
          let (m, t) = first_row-In (has_unsubscribe_token token) db.subscriptions r h in
          inr (
            rw (h, unsubscribe_by_token, get_subscription_by_unsubscribe_token)
              (
                r,
                m,
                (text_eq_iff r.unsubscribe_token token).0 t,
                refl,
                record {
                  gone = λ s n e.
                      kept_id r.id s (In-keep (λ q. not (has_id r.id q)) s db.subscriptions n).1 e;
                  old = λ s n. (In-keep (λ q. not (has_id r.id q)) s db.subscriptions n).0;
                  rest =
                      λ s n k. keep-In (λ q. not (has_id r.id q)) s db.subscriptions n (rw k refl);
                  logged = refl;
                  same_announcements = refl;
                  same_ledger = refl;
                },
              ))
    ]
