-- ===== src/Subscriptions/Confirming/Opening.antt =====
-- The links of confirmSubscription: which subscription they verify, and what that changes.
use announcement_tool.Common.{
  ℕ, ◌≡◌, refl, sym, ap, ◌∙◌, ◌⊎◌, inl, inr, true, false, Option, none, some, none-ne-some, arith,
  Text, In, In-update_where, update_where-In_self, update_where-In_other, ◌↔◌, ◌<◌, ◌+◌, ◌*◌,
  some_inj, text_eq_iff, text_eq_refl, Bool-cases, false-ne-true, and-eq-true,
}
use announcement_tool.Store.{SubscriptionRow, Db}
use announcement_tool.Subscriptions.{Subscription, row_to_sub}
use announcement_tool.Subscriptions.Table.{
  has_id, has_verify_token, same_token, still_valid, set_verified, verify_subscription,
}
use announcement_tool.Subscriptions.Rows.{UniqueIds, has_id-eq}
use announcement_tool.Subscriptions.Confirming.{confirm_subscription}
use announcement_tool.Subscriptions.Confirming.Links.{confirm_cases, same_token-eq}

-- The token was given to the row, less than 72 hours ago.
abbrev pub IsFresh : ℕ → Text → SubscriptionRow → Type 0
IsFresh now token r =
    (r.verify_token ≡ some token)
    × ((issued : ℕ) × (r.verify_token_issued_at ≡ some issued) × (now < issued + 72 * 3_600_000))

still_valid-some :
    (now : ℕ) (o : Option ℕ)
    → (still_valid now 72 o ≡ true)
      ↔ ((issued : ℕ) × (o ≡ some issued) × (now < issued + 72 * 3_600_000))
unfolding still_valid
still_valid-some now none = (λ h. absurd (false-ne-true h), λ (t, e, h). absurd (none-ne-some e))
still_valid-some now (some t) =
    (λ h. (t, refl, ground arith), λ (u, e, h). let i : t ≡ u = some_inj e in ground (arith, i))

young_token :
    (now : ℕ) (token : Text) (r : SubscriptionRow)
    → (has_verify_token now token r ≡ true) ↔ IsFresh now token r
unfolding same_token
young_token now token r = (
  λ h.
      let (held, valid) = and-eq-true _ _ h in
      (
        same_token-eq r.verify_token token held,
        (still_valid-some now r.verify_token_issued_at).0 valid,
      ),
  λ (held, valid).
      rw (held, text_eq_refl token) ((still_valid-some now r.verify_token_issued_at).1 valid),
)

-- The row is verified and has no token, and its other columns are those of the row `r`.
pub record Confirmed (r s : SubscriptionRow) : Type 0 where
  pub verified : s.verified ≡ true
  pub token : s.verify_token ≡ none
  pub issued_at : s.verify_token_issued_at ≡ none
  pub others :
      record s {
        verified = r.verified;
        verify_token = r.verify_token;
        verify_token_issued_at = r.verify_token_issued_at;
      }
      ≡ r

-- The subscription of the row `r` is confirmed, and nothing else happens.
pub record Opened (r : SubscriptionRow) (before : Db) (answer : Option Subscription) (after : Db)
    : Type 0 where
  pub row : SubscriptionRow
  pub confirmed : Confirmed r row
  pub stored : In row after.subscriptions
  pub answered : answer ≡ some (record (row_to_sub r) { verified = true })
  pub rest :
      (q : SubscriptionRow)
      → In q before.subscriptions
      → (q.id ≡ r.id → ⊥)
      → In q after.subscriptions
  pub only :
      (q : SubscriptionRow)
      → In q after.subscriptions
      → (q ≡ row) ⊎ (In q before.subscriptions × (q.id ≡ r.id → ⊥))
  pub same_announcements : after.announcements ≡ before.announcements
  pub same_ledger : after.delivery_ledger ≡ before.delivery_ledger

other_id : (id : Text) (q : SubscriptionRow) → (q.id ≡ id → ⊥) → has_id id q ≡ false
other_id id q h = elim (Bool-cases (has_id id q)) [
  | inl e ↦ absurd (h ((text_eq_iff q.id id).0 e))
  | inr e ↦ e
]

same_id-false : (id : Text) (q : SubscriptionRow) → has_id id q ≡ false → q.id ≡ id → ⊥
same_id-false id q h e = false-ne-true (sym h ∙ (text_eq_iff q.id id).1 e)

verify_subscription-Opened :
    (r : SubscriptionRow) (db : Db)
    → UniqueIds db.subscriptions
    → In r db.subscriptions
    → Opened r db (some (record (row_to_sub r) { verified = true })) (verify_subscription r.id db)
unfolding verify_subscription
verify_subscription-Opened r db u m = record {
  row = set_verified r;
  confirmed = record { verified = refl; token = refl; issued_at = refl; others = refl };
  stored = update_where-In_self (has_id r.id) set_verified db.subscriptions r m (text_eq_refl r.id);
  answered = refl;
  rest = λ q n h.
      update_where-In_other (has_id r.id) set_verified db.subscriptions q n (other_id r.id q h);
  only = λ q n. elim (In-update_where (has_id r.id) set_verified db.subscriptions q n) [
    | inl (o, h) ↦ inr (o, λ e. same_id-false r.id q h e)
    | inr (p, o, h, i) ↦ inl (i ∙ ap set_verified (has_id-eq db.subscriptions r p u m o h))
  ];
  same_announcements = refl;
  same_ledger = refl;
}

-- A link confirms one subscription, if some subscription was given its token less than 72 hours ago:
-- that one becomes verified and loses the token, and its other columns, every other subscription,
-- the announcements and the ledger stay as they were. If there is none, the link answers nothing
-- and changes nothing.
pub confirm_subscription-Opened :
    (now : ℕ) (token : Text) (db : Db)
    → UniqueIds db.subscriptions
    → (((r : SubscriptionRow) → In r db.subscriptions → IsFresh now token r → ⊥)
        × (confirm_subscription now token db ≡ (none, db)))
      ⊎ ((r : SubscriptionRow) × In r db.subscriptions
          × IsFresh now token r
          × Opened r db (confirm_subscription now token db).0 (confirm_subscription now token db).1)
confirm_subscription-Opened now token db u = elim (confirm_cases now token db) [
  | inl (absent, e) ↦ inl (λ r m f. absent r m ((young_token now token r).1 f), e)
  | inr (r, n, t, e) ↦
      inr (r, n, (young_token now token r).0 t, rw e (verify_subscription-Opened r db u n))
]
