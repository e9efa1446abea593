-- ===== src/Subscriptions/Confirming/Links.antt =====
-- The links of confirmSubscription: what a call comes to, and that a link is used once.
use announcement_tool.Common.{
  ℕ, ◌≡◌, refl, sym, ap, ◌∙◌, ◌⊎◌, inl, inr, Bool, true, false, List, [], ◌∷◌, Option, none, some,
  none-ne-some, arith, Text, In, In-update_where, update_where, Option-cases, text_eq_iff,
  text_eq_refl, Bool-cases, false-ne-true, Distinct, Distinct-eq, and-eq-true,
}
use announcement_tool.Store.{SubscriptionRow, Db}
use announcement_tool.Subscriptions.{Subscription, row_to_sub}
use announcement_tool.Subscriptions.Table.{
  has_id, has_verify_token, first_row, same_token, set_verified, verify_subscription,
  get_subscription_by_verify_token,
}
use announcement_tool.Subscriptions.Rows.{first_row-In, first_row-absent}
use announcement_tool.Subscriptions.Confirming.{confirm_subscription}

-- The unique column `verify_token`, in which null occurs any number of times.
abbrev pub same_verify_token : SubscriptionRow → SubscriptionRow → Bool
same_verify_token r s = same_token r.verify_token s.verify_token

abbrev pub UniqueVerifyTokens : List SubscriptionRow → Type 0
UniqueVerifyTokens = Distinct same_verify_token

same_token_sym : (o p : Option Text) → same_token o p ≡ false → same_token p o ≡ false
unfolding same_token
same_token_sym none none h = refl
same_token_sym none (some t) h = refl
same_token_sym (some s) none h = refl
same_token_sym (some s) (some t) h = ground (arith, text_eq_iff s t, text_eq_iff t s)

pub same_token-eq : (o : Option Text) (t : Text) → same_token o (some t) ≡ true → o ≡ some t
unfolding same_token
same_token-eq none t h = cc
same_token-eq (some s) t h = ap (λ (q : Text). some q) ((text_eq_iff s t).0 h)

same_token_both :
    (o p : Option Text) (t : Text)
    → o ≡ some t
    → same_token p (some t) ≡ true
    → same_token o p ≡ true
unfolding same_token
same_token_both o p t e h = rw (e, same_token-eq p t h) (text_eq_refl t)

first_row-none :
    (p : SubscriptionRow → Bool) (rows : List SubscriptionRow)
    → ((r : SubscriptionRow) → In r rows → p r ≡ false)
    → first_row p rows ≡ none
unfolding first_row
first_row-none p [] h = refl
first_row-none p (r ∷ rows) h = rw (h r (inl refl)) (first_row-none p rows (λ s m. h s (inr m)))

pub confirm_cases :
    (now : ℕ) (token : Text) (db : Db)
    → (((r : SubscriptionRow) → In r db.subscriptions → has_verify_token now token r ≡ true → ⊥)
        × (confirm_subscription now token db ≡ (none, db)))
      ⊎ ((r : SubscriptionRow) × In r db.subscriptions
          × (has_verify_token now token r ≡ true)
          × (confirm_subscription now token db
              ≡ (some (record (row_to_sub r) { verified = true }), verify_subscription r.id db)))
unfolding confirm_subscription get_subscription_by_verify_token
confirm_cases now token db =
    elim (Option-cases (first_row (has_verify_token now token) db.subscriptions)) [
      | inl h ↦ inl (
        first_row-absent (has_verify_token now token) db.subscriptions h,
        rw (h, confirm_subscription, get_subscription_by_verify_token),
      )
      | inr (r, h) ↦
          let (m, t) = first_row-In (has_verify_token now token) db.subscriptions r h in
          inr (r, m, t, rw (h, confirm_subscription, get_subscription_by_verify_token))
    ]

set_token :
    (token : Text) (q : SubscriptionRow)
    → same_token (set_verified q).verify_token (some token) ≡ false
unfolding same_token
set_token token q = refl

no_token :
    (later : ℕ) (token : Text) (s : SubscriptionRow)
    → same_token s.verify_token (some token) ≡ false
    → has_verify_token later token s ≡ false
no_token later token s h = rw h refl

unverified_token :
    (token : Text) (rows : List SubscriptionRow) (r s : SubscriptionRow)
    → UniqueVerifyTokens rows
    → In r rows
    → r.verify_token ≡ some token
    → In s rows
    → has_id r.id s ≡ false
    → same_token s.verify_token (some token) ≡ false
unverified_token token rows r s u m t n h =
    elim (Bool-cases (same_token s.verify_token (some token))) [
      | inr k ↦ k
      | inl k ↦
          let same = same_token_both r.verify_token s.verify_token token t k in
          let i =
            Distinct-eq same_verify_token (λ a b. same_token_sym a.verify_token b.verify_token) rows
              r s u m n same in
          absurd (false-ne-true (sym h ∙ rw i (text_eq_refl r.id)))
    ]

spent :
    (now later : ℕ) (token : Text) (r : SubscriptionRow) (db : Db)
    → UniqueVerifyTokens db.subscriptions
    → In r db.subscriptions
    → has_verify_token now token r ≡ true
    → confirm_subscription later token (verify_subscription r.id db)
      ≡ (none, verify_subscription r.id db)
unfolding confirm_subscription get_subscription_by_verify_token verify_subscription
spent now later token r db u m t =
    let held = same_token-eq r.verify_token token (and-eq-true _ _ t).0 in
    let none_has =
      first_row-none (has_verify_token later token)
        (update_where (has_id r.id) set_verified db.subscriptions)
        λ s n.
          no_token later token s
            (elim (In-update_where (has_id r.id) set_verified db.subscriptions s n) [
              | inl (o, h) ↦ unverified_token token db.subscriptions r s u m held o h
              | inr (q, o, h, i) ↦ rw i (set_token token q)
            ]) in
    rw (none_has, confirm_subscription, get_subscription_by_verify_token)

-- A link that confirmed a subscription confirms nothing again, at any time: the second call returns
-- nothing and leaves the database as it is.
pub confirm_subscription_once :
    (now later : ℕ) (token : Text) (db : Db) (sub : Subscription)
    → UniqueVerifyTokens db.subscriptions
    → (confirm_subscription now token db).0 ≡ some sub
    → confirm_subscription later token (confirm_subscription now token db).1
      ≡ (none, (confirm_subscription now token db).1)
unfolding verify_subscription
confirm_subscription_once now later token db sub u e = elim (confirm_cases now token db) [
  | inl (_, h) ↦ absurd (none-ne-some (rw h at e))
  | inr (r, m, t, h) ↦ rw h (spent now later token r db u m t)
]
