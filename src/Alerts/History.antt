-- ===== src/Alerts/History.antt =====
-- dispatchHealthAlerts: any sequence of calls on one `alert_state`.
use announcement_tool.Common.{
  ℕ, ◌≡◌, refl, sym, ◌∙◌, ◌⊎◌, inl, inr, Bool, false, List, [], ◌∷◌, ◌++◌, Option, none, some, In,
  In-append_cases, Bool-cases, false-ne-true, text_eq, text_eq_iff,
}
use announcement_tool.Health.{HealthIssue}
use announcement_tool.Alerts.{
  AlertRow, alert_key, insert_keys, claim, set_notified, by_key, dispatch_issues, send_claimed,
}
use announcement_tool.Alerts.Once.{
  Noted, insert_keys-Noted, set_notified-Noted, claim-free, fresh-Noted,
}

-- One call: its time, the rows that another worker holds, whether the mail is accepted, and the
-- issues that were found.
pub record Dispatch : Type 0 where
  pub now : ℕ
  pub locked : AlertRow → Bool
  pub sends : List HealthIssue → Bool
  pub issues : List HealthIssue

-- The issues that were mailed: none where the call throws.
abbrev pub mailed : Option (List HealthIssue) → List HealthIssue
mailed none = []
mailed (some fresh) = fresh

unfoldable pub dispatch : Dispatch → List AlertRow → Option (List HealthIssue) × List AlertRow
dispatch d state = dispatch_issues d.now d.locked d.sends d.issues state

unfoldable pub run_dispatches : List Dispatch → List AlertRow → List HealthIssue × List AlertRow
unfolding dispatch
run_dispatches [] state = ([], state)
run_dispatches (d ∷ ds) state =
    let (result, state') = dispatch d state in
    let (more, last) = run_dispatches ds state' in (mailed result ++ more, last)

abbrev claimed : Dispatch → List AlertRow → List HealthIssue
claimed d state = let known = by_key [] d.issues in claim d.locked known (insert_keys known state)

send_cases :
    (now : ℕ) (sends : List HealthIssue → Bool) (fresh : List HealthIssue) (state : List AlertRow)
    → ((mailed (send_claimed now sends fresh state).0 ≡ [])
        × ((send_claimed now sends fresh state).1 ≡ state))
      ⊎ ((mailed (send_claimed now sends fresh state).0 ≡ fresh)
          × ((send_claimed now sends fresh state).1 ≡ set_notified now fresh state))
unfolding send_claimed
send_cases now sends [] state = inl (refl, refl)
send_cases now sends (i ∷ fresh) state = elim (Bool-cases (sends (i ∷ fresh))) [
  | inl e ↦ inr (rw (e, send_claimed) (refl, refl))
  | inr e ↦ inl (rw (e, send_claimed) (refl, refl))
]

-- What a call leaves, by its outcome.
dispatch_cases :
    (d : Dispatch) (state : List AlertRow)
    → ((mailed (dispatch d state).0 ≡ [])
        × ((dispatch d state).1 ≡ insert_keys (by_key [] d.issues) state))
      ⊎ ((mailed (dispatch d state).0 ≡ claimed d state)
          × ((dispatch d state).1
              ≡ set_notified d.now (claimed d state) (insert_keys (by_key [] d.issues) state)))
unfolding dispatch dispatch_issues
dispatch_cases d state =
    send_cases d.now d.sends (claimed d state) (insert_keys (by_key [] d.issues) state)

AllNoted : List HealthIssue → List AlertRow → Type 0
AllNoted issues state = (i : HealthIssue) → In i issues → Noted (alert_key i) state

dispatch-Noted :
    (d : Dispatch) (state : List AlertRow) (issues : List HealthIssue)
    → AllNoted issues state
    → AllNoted issues (dispatch d state).1
unfolding AllNoted
dispatch-Noted d state issues n i m =
    let kept = insert_keys-Noted (alert_key i) (by_key [] d.issues) state (n i m) in
    elim (dispatch_cases d state) [
      | inl (_, e) ↦ rw e kept
      | inr (_, e) ↦ rw e (set_notified-Noted (alert_key i) d.now (claimed d state) _ kept)
    ]

dispatch-mailed :
    (d : Dispatch) (state : List AlertRow)
    → AllNoted (mailed (dispatch d state).0) (dispatch d state).1
unfolding AllNoted
dispatch-mailed d state i m = elim (dispatch_cases d state) [
  | inl (f, e) ↦ absurd (rw f at m)
  | inr (f, e) ↦ rw e (fresh-Noted d.now d.locked (by_key [] d.issues) _ i (rw f at m))
]

run_dispatches-Noted :
    (ds : List Dispatch) (state : List AlertRow) (issues : List HealthIssue)
    → AllNoted issues state
    → AllNoted issues (run_dispatches ds state).1
      × AllNoted (run_dispatches ds state).0 (run_dispatches ds state).1
unfolding run_dispatches AllNoted
run_dispatches-Noted [] state issues n = (n, λ i m. absurd m)
run_dispatches-Noted (d ∷ ds) state issues n =
    let (result, state') = dispatch d state in
    let (old, more) = run_dispatches-Noted ds state' issues (dispatch-Noted d state issues n) in
    let (this, _) = run_dispatches-Noted ds state' (mailed result) (dispatch-mailed d state) in
    (
      old,
      λ i m. elim (In-append_cases i (mailed result) _ m) [ inl o ↦ this i o | inr o ↦ more i o ],
    )

not_again :
    (d : Dispatch) (state : List AlertRow) (i j : HealthIssue)
    → Noted (alert_key j) state
    → In i (mailed (dispatch d state).0)
    → text_eq (alert_key i) (alert_key j) ≡ false
not_again d state i j n m = elim (dispatch_cases d state) [
  | inl (f, _) ↦ absurd (rw f at m)
  | inr (f, _) ↦ elim (Bool-cases (text_eq (alert_key i) (alert_key j))) [
    | inr h ↦ h
    | inl h ↦
        let (r, o, free, k) = claim-free d.locked (by_key [] d.issues) _ i (rw f at m) in
        let kept = insert_keys-Noted (alert_key j) (by_key [] d.issues) state n in
        let same : r.key ≡ alert_key j = sym k ∙ (text_eq_iff (alert_key i) (alert_key j)).0 h in
        absurd
          (false-ne-true (sym (kept.told r o ((text_eq_iff r.key (alert_key j)).1 same)) ∙ free))
  ]
]

-- Whatever calls have been made, with any failures of the mail, on any table of alerts: an issue
-- that a further call mails has another key than every issue that was mailed before. A problem is
-- reported once.
pub dispatch_once :
    (ds : List Dispatch) (d : Dispatch) (state : List AlertRow) (i j : HealthIssue)
    → In j (run_dispatches ds state).0
    → In i (mailed (dispatch d (run_dispatches ds state).1).0)
    → text_eq (alert_key i) (alert_key j) ≡ false
unfolding AllNoted
dispatch_once ds d state i j m n =
    let (_, noted) = run_dispatches-Noted ds state [] (λ q x. absurd x) in
    not_again d (run_dispatches ds state).1 i j (noted j m) n
