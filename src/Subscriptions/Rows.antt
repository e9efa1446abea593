-- ===== src/Subscriptions/Rows.antt =====
-- The rows of `subscriptions` as a table: the primary key, and the verified rows.
use announcement_tool.Common.{
  ◌≡◌, refl, sym, ap, ◌∙◌, ◌⊎◌, inl, inr, Bool, true, false, List, [], ◌∷◌, ◌++◌, none, some, arith,
  text_eq_iff, In, some_of, update_where, Bool-cases, some_inj, none-ne-some, false-ne-true,
  Distinct, Apart, Distinct-eq,
}
use announcement_tool.Store.{SubscriptionRow}
use announcement_tool.Subscriptions.Table.{has_id, clashes, first_row}

abbrev pub same_id : SubscriptionRow → SubscriptionRow → Bool
same_id r = has_id r.id

-- The primary key of `subscriptions`.
abbrev pub UniqueIds : List SubscriptionRow → Type 0
UniqueIds = Distinct same_id

pub same_id_sym : (r s : SubscriptionRow) → same_id r s ≡ false → same_id s r ≡ false
same_id_sym r s h = ground (arith, text_eq_iff r.id s.id, text_eq_iff s.id r.id)

pub clashes-Apart :
    (r : SubscriptionRow) (rows : List SubscriptionRow)
    → some_of (clashes r) rows ≡ false
    → Apart same_id r rows
unfolding clashes
clashes-Apart r [] h = tt
clashes-Apart r (s ∷ rows) h = (ground arith, clashes-Apart r rows (ground arith))

pub first_row-In :
    (p : SubscriptionRow → Bool) (rows : List SubscriptionRow) (r : SubscriptionRow)
    → first_row p rows ≡ some r
    → In r rows × (p r ≡ true)
unfolding first_row
first_row-In p [] r e = cc
first_row-In p (s ∷ rows) r e = elim (Bool-cases (p s)) [
  | inl h ↦ let i : s ≡ r = some_inj (rw h at e) in (inl (sym i), rw (← i) h)
  | inr h ↦ let (m, k) = first_row-In p rows r (rw h at e) in (inr m, k)
]

-- No row answers a select that returns none.
pub first_row-absent :
    (p : SubscriptionRow → Bool) (rows : List SubscriptionRow)
    → first_row p rows ≡ none
    → (r : SubscriptionRow) → In r rows
    → p r ≡ true
    → ⊥
unfolding first_row
first_row-absent p [] e r m h = m
first_row-absent p (s ∷ rows) e r m h = elim (Bool-cases (p s)) [
  | inl k ↦ none-ne-some (sym (rw k at e))
  | inr k ↦ elim m [
    | inl i ↦ false-ne-true (sym k ∙ rw i at h)
    | inr n ↦ first_row-absent p rows (rw k at e) r n h
  ]
]

-- A verified row without the columns of a change that waits for its confirmation.
abbrev pub settled_part : SubscriptionRow → SubscriptionRow
settled_part r = record r {
  pending_filters = none;
  pending_token = none;
  pending_token_issued_at = none;
}

-- The row, if the subscription is verified, and the rest.
abbrev add_verified : Bool → SubscriptionRow → List SubscriptionRow → List SubscriptionRow
add_verified true r rest = settled_part r ∷ rest
add_verified false r rest = rest

-- The verified rows of a table, as `settled_part` shows them.
abbrev pub verified_part : List SubscriptionRow → List SubscriptionRow
verified_part [] = []
verified_part (r ∷ rows) = add_verified r.verified r (verified_part rows)

add_verified-eq :
    (b : Bool) (r s : SubscriptionRow) (xs ys : List SubscriptionRow)
    → settled_part r ≡ settled_part s
    → xs ≡ ys
    → add_verified b r xs ≡ add_verified b s ys
add_verified-eq true r s xs ys e h = cc
add_verified-eq false r s xs ys e h = h

add_verified-false :
    (r : SubscriptionRow) (b : Bool) (rest : List SubscriptionRow)
    → b ≡ false
    → add_verified b r rest ≡ rest
add_verified-false r b rest e = rw e

pub verified_part-append :
    (rows : List SubscriptionRow) (r : SubscriptionRow)
    → r.verified ≡ false
    → verified_part (rows ++ r ∷ []) ≡ verified_part rows
verified_part-append [] r e = add_verified-false r r.verified [] e
verified_part-append (s ∷ rows) r e = ap (add_verified s.verified s) (verified_part-append rows r e)

-- An update that leaves the verified part of each row that it chooses.
pub verified_part-update_where :
    (chosen : SubscriptionRow → Bool) (set : SubscriptionRow → SubscriptionRow)
    (rows : List SubscriptionRow)
    → ((r : SubscriptionRow)
        → In r rows
        → chosen r ≡ true
        → ((set r).verified ≡ r.verified)
          × ((r.verified ≡ false) ⊎ (settled_part (set r) ≡ settled_part r)))
    → verified_part (update_where chosen set rows) ≡ verified_part rows
unfolding update_where
verified_part-update_where chosen set [] h = refl
verified_part-update_where chosen set (s ∷ rows) h =
    let rest = verified_part-update_where chosen set rows (λ r m. h r (inr m)) in
    elim (Bool-cases (chosen s)) [
      | inr off ↦ rw off (ap (add_verified s.verified s) rest)
      | inl on ↦
          let (same, kept) = h s (inl refl) on in
          rw on (elim kept [
            | inl n ↦
                add_verified-false (set s) (set s).verified _ (same ∙ n)
                ∙ rest
                ∙ sym (add_verified-false s s.verified _ n)
            | inr e ↦
                ap
                  (λ (b : Bool).
                    add_verified b (set s) (verified_part (update_where chosen set rows)))
                  same
                ∙ add_verified-eq s.verified (set s) s _ _ e rest
          ])
    ]

-- A row with the primary key of `r` is `r`.
pub has_id-eq :
    (rows : List SubscriptionRow) (r s : SubscriptionRow)
    → UniqueIds rows
    → In r rows
    → In s rows
    → has_id r.id s ≡ true
    → s ≡ r
has_id-eq rows r s u m n h = Distinct-eq same_id same_id_sym rows r s u m n h
