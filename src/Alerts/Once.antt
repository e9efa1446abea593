-- ===== src/Alerts/Once.antt =====
-- dispatchHealthAlerts: a problem that was mailed is never mailed again.
use announcement_tool.Common.{
  ℕ, ◌≡◌, refl, sym, ap, ◌∙◌, inl, inr, Bool, true, false, ◌&&◌, not, List, [], ◌∷◌, some, arith,
  Text, text_eq, text_eq_iff, In, In-append_left, In-append_cases, some_of, update_where,
  In-update_where, update_where-In_other, update_where-In_self, Bool-cases, Option-cases,
  false-ne-true, and-eq-true, some_inj,
}
use announcement_tool.Health.{HealthIssue}
use announcement_tool.Alerts.{
  AlertRow, alert_key, has_alert, insert_keys, issue_at, is_free, claim, in_issues, set_notified,
}

some_of-In :
    {A : Type 0} (p : A → Bool) (xs : List A) (a : A) → In a xs → p a ≡ true → some_of p xs ≡ true
some_of-In p [] a m h = absurd m
some_of-In p (x ∷ xs) a (inl e) h = rw (← e, h) refl
some_of-In p (x ∷ xs) a (inr m) h = ground (arith, some_of-In p xs a m h)

-- The key has its row, and every row with it tells that the mail was sent.
pub record Noted (k : Text) (state : List AlertRow) : Type 0 where
  pub row : AlertRow
  pub listed : In row state
  pub keyed : has_alert k row ≡ true
  pub told : (r : AlertRow) → In r state → has_alert k r ≡ true → is_free r ≡ false

pub insert_keys-Noted :
    (k : Text) (issues : List HealthIssue) (state : List AlertRow)
    → Noted k state
    → Noted k (insert_keys issues state)
unfolding insert_keys
insert_keys-Noted k [] state n = n
insert_keys-Noted k (i ∷ issues) state n =
    elim (Bool-cases (some_of (has_alert (alert_key i)) state)) [
      | inl e ↦ rw e (insert_keys-Noted k issues state n)
      | inr e ↦ rw e (
          insert_keys-Noted k issues _ (record {
            row = n.row;
            listed = In-append_left n.row state _ n.listed;
            keyed = n.keyed;
            told = λ r m h. elim (In-append_cases r state _ m) [
              | inl o ↦ n.told r o h
              | inr o ↦ elim o [
                | inr x ↦ absurd x
                | inl q ↦
                    let same : alert_key i ≡ k = (text_eq_iff (alert_key i) k).0 (rw q at h) in
                    absurd (
                      false-ne-true (
                        sym e
                        ∙ some_of-In (has_alert (alert_key i)) state n.row n.listed
                            (rw same n.keyed)))
              ]
            ];
          }))
    ]

pub set_notified-Noted :
    (k : Text) (now : ℕ) (fresh : List HealthIssue) (state : List AlertRow)
    → Noted k state
    → Noted k (set_notified now fresh state)
unfolding set_notified
set_notified-Noted k now fresh state n =
    let set : AlertRow → AlertRow = λ r. record r { notified_at = some now } in
    let told : (r : AlertRow)
        → In r (update_where (in_issues fresh) set state)
        → has_alert k r ≡ true
        → is_free r ≡ false =
      λ r m h. elim (In-update_where (in_issues fresh) set state r m) [
        | inl (o, _) ↦ n.told r o h
        | inr (q, o, _, e) ↦ rw e refl
      ] in
    elim (Bool-cases (in_issues fresh n.row)) [
      | inl e ↦ record {
        row = set n.row;
        listed = update_where-In_self (in_issues fresh) set state n.row n.listed e;
        keyed = n.keyed;
        told = told;
      }
      | inr e ↦ record {
        row = n.row;
        listed = update_where-In_other (in_issues fresh) set state n.row n.listed e;
        keyed = n.keyed;
        told = told;
      }
    ]

issue_at-key :
    (k : Text) (issues : List HealthIssue) (i : HealthIssue)
    → issue_at k issues ≡ some i
    → alert_key i ≡ k
unfolding issue_at
issue_at-key k [] i e = cc
issue_at-key k (q ∷ issues) i e = elim (Bool-cases (text_eq (alert_key q) k)) [
  | inl h ↦
      let same : q ≡ i = some_inj (rw h at e) in
      ap alert_key (sym same) ∙ (text_eq_iff (alert_key q) k).0 h
  | inr h ↦ issue_at-key k issues i (rw h at e)
]

pub claim-free :
    (locked : AlertRow → Bool) (issues : List HealthIssue) (rows : List AlertRow) (i : HealthIssue)
    → In i (claim locked issues rows)
    → (r : AlertRow) × In r rows × (is_free r ≡ true) × (alert_key i ≡ r.key)
unfolding claim
claim-free locked issues [] i m = absurd m
claim-free locked issues (q ∷ rows) i m = elim (Bool-cases (is_free q && not (locked q))) [
  | inr h ↦ let (r, n, f, k) = claim-free locked issues rows i (rw h at m) in (r, inr n, f, k)
  | inl h ↦ elim (Option-cases (issue_at q.key issues)) [
    | inl e ↦
        let (r, n, f, k) = claim-free locked issues rows i (rw (h, e) at m) in (r, inr n, f, k)
    | inr (j, e) ↦ elim (rw (h, e) at m) [
      | inl o ↦ (q, inl refl, (and-eq-true _ _ h).0, ap alert_key o ∙ issue_at-key q.key issues j e)
      | inr o ↦ let (r, n, f, k) = claim-free locked issues rows i o in (r, inr n, f, k)
    ]
  ]
]

pub fresh-Noted :
    (now : ℕ) (locked : AlertRow → Bool) (issues : List HealthIssue) (rows : List AlertRow)
    (i : HealthIssue)
    → In i (claim locked issues rows)
    → Noted (alert_key i) (set_notified now (claim locked issues rows) rows)
unfolding set_notified
fresh-Noted now locked issues rows i m =
    let fresh = claim locked issues rows in
    let set : AlertRow → AlertRow = λ r. record r { notified_at = some now } in
    let (r, n, f, k) = claim-free locked issues rows i m in
    let chosen : (q : AlertRow) → alert_key i ≡ q.key → in_issues fresh q ≡ true = λ q e.
      some_of-In (λ j. text_eq (alert_key j) q.key) fresh i m
        ((text_eq_iff (alert_key i) q.key).1 e) in
    record {
      row = set r;
      listed = update_where-In_self (in_issues fresh) set rows r n (chosen r k);
      keyed = (text_eq_iff r.key (alert_key i)).1 (sym k);
      told = λ q o h. elim (In-update_where (in_issues fresh) set rows q o) [
        | inl (p, g) ↦
            absurd (false-ne-true (sym g ∙ chosen q (sym ((text_eq_iff q.key (alert_key i)).0 h))))
        | inr (p, o', g, e) ↦ rw e refl
      ];
    }
