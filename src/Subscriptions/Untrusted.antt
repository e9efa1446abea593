-- ===== src/Subscriptions/Untrusted.antt =====
-- startEmailSubscription: what the updates by anyone who knows an address may change of the rows.
use announcement_tool.Common.{
  ◌≡◌, refl, ◌∙◌, ◌⊎◌, false, List, [], ◌∷◌, ◌++◌, In, some_of, update_where, Distinct-append,
  Distinct-update_where,
}
use announcement_tool.Store.{SubscriptionRow, Db}
use announcement_tool.Subscriptions.Table.{has_id, clashes}
use announcement_tool.Subscriptions.Rows.{
  same_id, same_id_sym, UniqueIds, clashes-Apart, settled_part, verified_part, verified_part-append,
  verified_part-update_where, has_id-eq,
}

-- From `before` to `after` the primary key still holds, no subscription has become verified or has
-- gone, and each verified one has the endpoint, the filters, the secret and the tokens that it had:
-- the verified rows, without a change that waits for its confirmation, are the same list.
pub record Untrusted (before after : List SubscriptionRow) : Type 0 where
  pub unique : UniqueIds before → UniqueIds after
  pub same_verified : UniqueIds before → verified_part after ≡ verified_part before

abbrev pub UntrustedDb : Db → Db → Type 0
UntrustedDb before after = Untrusted before.subscriptions after.subscriptions

pub Untrusted-refl : (rows : List SubscriptionRow) → Untrusted rows rows
Untrusted-refl rows = record { unique = λ u. u; same_verified = λ u. refl }

pub Untrusted-trans : {a b c : List SubscriptionRow} → Untrusted a b → Untrusted b c → Untrusted a c
Untrusted-trans p q = record {
  unique = λ u. q.unique (p.unique u);
  same_verified = λ u. q.same_verified (p.unique u) ∙ p.same_verified u;
}

pub Untrusted-append :
    (rows : List SubscriptionRow) (r : SubscriptionRow)
    → some_of (clashes r) rows ≡ false
    → r.verified ≡ false
    → Untrusted rows (rows ++ r ∷ [])
Untrusted-append rows r free v = record {
  unique = λ u. Distinct-append same_id same_id_sym rows r u (clashes-Apart r rows free);
  same_verified = λ u. verified_part-append rows r v;
}

-- An update by the primary key of `r`, which keeps the key.
pub Untrusted-update :
    (rows : List SubscriptionRow) (r : SubscriptionRow) (set : SubscriptionRow → SubscriptionRow)
    → In r rows
    → ((s : SubscriptionRow) → (set s).id ≡ s.id)
    → (set r).verified ≡ r.verified
    → (r.verified ≡ false) ⊎ (settled_part (set r) ≡ settled_part r)
    → Untrusted rows (update_where (has_id r.id) set rows)
Untrusted-update rows r set m key v kept = record {
  unique =
      Distinct-update_where (has_id r.id) set same_id (λ s t. rw (key s) refl)
        (λ s t. rw (key t) refl) rows;
  same_verified = λ u.
      verified_part-update_where (has_id r.id) set rows
        λ s n h. rw (has_id-eq rows r s u m n h) (v, kept);
}

-- The database of the state that an answer comes with.
