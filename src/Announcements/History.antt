-- ===== src/Announcements/History.antt =====
-- Histories: the calls of the admin pages and of the worker, in any order, on one database.
use announcement_tool.Common.{
  text_eq_iff, ◌≤◌, ℕ, ◌≡◌, sym, ap, Bool, List, [], ◌∷◌, Option, Text, In, arith, Result, ok, err,
}
use announcement_tool.Types.{
  Announcement, AnnouncementInput, ChannelName, critical, published, scheduled,
}
use announcement_tool.Store.{Row, Db}
use announcement_tool.Announcements.Error.{ApiError}
use announcement_tool.Announcements.Drafts.{create_draft, revise_draft, discard_draft}
use announcement_tool.Announcements.Publish.{
  request_publish, confirm_publish, publish_due_scheduled, due_rows,
}
use announcement_tool.Announcements.Schedule.{schedule_publish, confirm_schedule, cancel_schedule}
use announcement_tool.Announcements.Review.{withdraw_publish, reject_publish}
use announcement_tool.Announcements.Invariant.{IsSound, Approved}
use announcement_tool.Announcements.Soundness.{
  SoundAfter, discard_draft-IsSound, schedule_publish-IsSound, confirm_schedule-IsSound,
  cancel_schedule-IsSound, withdraw_publish-IsSound, reject_publish-IsSound,
}
use announcement_tool.Announcements.Sending.{request_publish-IsSound, confirm_publish-IsSound}
use announcement_tool.Announcements.Drafting.{create_draft-IsSound, revise_draft-IsSound}
use announcement_tool.Announcements.Updates.{UniqueKeys-eq}
use announcement_tool.Announcements.Rules.{IsLatest-OthersDraft}
use announcement_tool.Announcements.Due.{In-due_rows}
use announcement_tool.Announcements.Kept.{Kept, KeptAfter, Kept-refl, Kept-trans, is_settled}
use announcement_tool.Announcements.Keeping.{
  discard_draft-Kept, cancel_schedule-Kept, withdraw_publish-Kept, reject_publish-Kept,
  confirm_schedule-Kept, schedule_publish-Kept, request_publish-Kept, confirm_publish-Kept,
  create_draft-Kept, revise_draft-Kept, Passed-Kept,
}
use announcement_tool.Announcements.Scheduler.{
  is_due-scheduled, Succeeds, SentAll, publish_due_scheduled-Passed,
}

pub data Call : Type 0 where
  creates : ℕ → Text → AnnouncementInput → Text → Call
  revises : ℕ → Text → AnnouncementInput → Text → Call
  discards : Text → Text → Call
  requests : ℕ → Text → Text → Call
  confirms : ℕ → Text → Text → Call
  schedules : ℕ → Text → Option ℕ → Text → Call
  confirms_schedule : Text → Text → Call
  cancels : Text → Text → Call
  withdraws : Text → Text → Call
  rejects : Text → Text → Text → Call
  ticks : ℕ → (Row → Bool) → ℕ → Call

-- A call that throws is rolled back.
abbrev pub after : {A : Type 0} → Db → Result ApiError (A × Db) → Db
after db (ok (a, db')) = db'
after db (err e) = db

module _ (accepts : AnnouncementInput → Bool) (enabled : List ChannelName) where
  unfoldable pub step : Db → Call → Db
  step db (creates now id input actor) = after db (create_draft accepts now id input actor db)
  step db (revises now id input actor) = after db (revise_draft accepts now id input actor db)
  step db (discards id actor) = after db (discard_draft id actor db)
  step db (requests now id actor) = after db (request_publish now enabled id actor db)
  step db (confirms now id actor) = after db (confirm_publish now enabled id actor db)
  step db (schedules now id when actor) = after db (schedule_publish now id when actor db)
  step db (confirms_schedule id actor) = after db (confirm_schedule id actor db)
  step db (cancels id actor) = after db (cancel_schedule id actor db)
  step db (withdraws id actor) = after db (withdraw_publish id actor db)
  step db (rejects id actor reason) = after db (reject_publish id actor reason db)
  step db (ticks now locked batch) = after db (publish_due_scheduled now enabled locked batch db)

  unfoldable pub run : Db → List Call → Db
  unfolding step
  run db [] = db
  run db (c ∷ cs) = run (step db c) cs

  after-IsSound :
      {A : Type 0} (db : Db) (r : Result ApiError (A × Db))
      → IsSound db
      → SoundAfter r
      → IsSound (after db r)
  after-IsSound db (ok (a, db')) inv s = s
  after-IsSound db (err e) inv s = inv

  Passed-IsSound :
      (now : ℕ) (due : List Row) (db : Db) (r : Result ApiError (List _ × Db))
      → Succeeds (SentAll now due db) r
      → IsSound (after db r)
  Passed-IsSound now due db (ok (a, db')) s = s.1.sound
  Passed-IsSound now due db (err e) s = absurd s

  pub step-IsSound : (db : Db) (c : Call) → IsSound db → IsSound (step db c)
  unfolding step
  step-IsSound db (creates now id input actor) inv =
      after-IsSound db _ inv (create_draft-IsSound accepts now id input actor db inv)
  step-IsSound db (revises now id input actor) inv =
      after-IsSound db _ inv (revise_draft-IsSound accepts now id input actor db inv)
  step-IsSound db (discards id actor) inv =
      after-IsSound db _ inv (discard_draft-IsSound id actor db inv)
  step-IsSound db (requests now id actor) inv =
      after-IsSound db _ inv (request_publish-IsSound now enabled id actor db inv)
  step-IsSound db (confirms now id actor) inv =
      after-IsSound db _ inv (confirm_publish-IsSound now enabled id actor db inv)
  step-IsSound db (schedules now id when actor) inv =
      after-IsSound db _ inv (schedule_publish-IsSound id actor db inv now when)
  step-IsSound db (confirms_schedule id actor) inv =
      after-IsSound db _ inv (confirm_schedule-IsSound id actor db inv)
  step-IsSound db (cancels id actor) inv =
      after-IsSound db _ inv (cancel_schedule-IsSound id actor db inv)
  step-IsSound db (withdraws id actor) inv =
      after-IsSound db _ inv (withdraw_publish-IsSound id actor db inv)
  step-IsSound db (rejects id actor reason) inv =
      after-IsSound db _ inv (reject_publish-IsSound id actor db inv reason)
  step-IsSound db (ticks now locked batch) inv =
      Passed-IsSound now (due_rows now locked batch db) db _
        (publish_due_scheduled-Passed now enabled locked batch db inv)

  -- The invariant holds after any history that starts where it holds: the primary key, one row at
  -- most of an announcement that is no draft, the columns that each status sets, and four-eyes.
  pub run-IsSound : (db : Db) (calls : List Call) → IsSound db → IsSound (run db calls)
  unfolding run
  run-IsSound db [] inv = inv
  run-IsSound db (c ∷ cs) inv = run-IsSound (step db c) cs (step-IsSound db c inv)

  pub empty-IsSound : (db : Db) → db.announcements ≡ [] → IsSound db
  empty-IsSound db e = rw e (record {
    keys = tt;
    others = λ r s m n i lt. absurd m;
    first = λ r m. absurd m;
    fits = λ r m. absurd m;
    eyes = λ r m. absurd m;
  })

  after-Kept :
      {A : Type 0} (db : Db) (r : Result ApiError (A × Db)) → KeptAfter db r → Kept db (after db r)
  after-Kept db (ok (a, db')) k = k
  after-Kept db (err e) k = Kept-refl db

  after-Passed :
      (now : ℕ) (locked : Row → Bool) (batch : ℕ) (db : Db)
      (r : Result ApiError (List Announcement × Db))
      → IsSound db
      → Succeeds (SentAll now (due_rows now locked batch db) db) r
      → Kept db (after db r)
  after-Passed now locked batch db (ok (a, db')) inv s =
      Passed-Kept now (due_rows now locked batch db) db db' inv.keys
        (λ b m.
          let (n, due, free) = In-due_rows now locked batch db b m in
          (n, ap is_settled (is_due-scheduled now b due)))
        s.1
  after-Passed now locked batch db (err e) inv s = absurd s

  pub step-Kept : (db : Db) (c : Call) → IsSound db → Kept db (step db c)
  unfolding step
  step-Kept db (creates now id input actor) inv =
      after-Kept db _ (create_draft-Kept accepts now id input actor db)
  step-Kept db (revises now id input actor) inv =
      after-Kept db _ (revise_draft-Kept accepts now id input actor db)
  step-Kept db (discards id actor) inv = after-Kept db _ (discard_draft-Kept id actor db inv.keys)
  step-Kept db (requests now id actor) inv =
      after-Kept db _ (request_publish-Kept id actor db inv.keys now enabled)
  step-Kept db (confirms now id actor) inv =
      after-Kept db _ (confirm_publish-Kept id actor db inv.keys now enabled)
  step-Kept db (schedules now id when actor) inv =
      after-Kept db _ (schedule_publish-Kept id actor db inv.keys now when)
  step-Kept db (confirms_schedule id actor) inv =
      after-Kept db _ (confirm_schedule-Kept id actor db inv.keys)
  step-Kept db (cancels id actor) inv = after-Kept db _ (cancel_schedule-Kept id actor db inv.keys)
  step-Kept db (withdraws id actor) inv =
      after-Kept db _ (withdraw_publish-Kept id actor db inv.keys)
  step-Kept db (rejects id actor reason) inv =
      after-Kept db _ (reject_publish-Kept id actor db inv.keys reason)
  step-Kept db (ticks now locked batch) inv =
      after-Passed now locked batch db _ inv
        (publish_due_scheduled-Passed now enabled locked batch db inv)

  -- No history takes an entry from the audit log or deletes a row, and a row that is published or
  -- discarded keeps every column through it.
  pub run-Kept : (db : Db) (calls : List Call) → IsSound db → Kept db (run db calls)
  unfolding run
  run-Kept db [] inv = Kept-refl db
  run-Kept db (c ∷ cs) inv =
      Kept-trans (step-Kept db c inv) (run-Kept (step db c) cs (step-IsSound db c inv))

  -- After any history from an empty table, an announcement has one published revision at most: two
  -- published rows with one id are one row.
  pub published_once :
      (db : Db) (calls : List Call) (r s : Row)
      → db.announcements ≡ []
      → In r (run db calls).announcements
      → In s (run db calls).announcements
      → r.status ≡ published
      → s.status ≡ published
      → r.id ≡ s.id
      → r ≡ s
  published_once db calls r s e m n p q i =
      let inv = run-IsSound db calls (empty-IsSound db e) in
      let rows = (run db calls).announcements in
      let up : s.revision ≤ r.revision =
        IsLatest-OthersDraft rows r inv.others m (λ d. cc) s n (sym i) in
      let down : r.revision ≤ s.revision =
        IsLatest-OthersDraft rows s inv.others n (λ d. cc) r m i in
      UniqueKeys-eq rows s r inv.keys n m (ground (arith, text_eq_iff r.id s.id))

  -- Whatever calls have been made since the table was empty, a critical announcement that is
  -- published was requested by one publisher and confirmed by another, whose names differ in more
  -- than case; both names stand in its row, and the audit log has both entries about its revision.
  pub four_eyes :
      (db : Db) (calls : List Call) (r : Row)
      → db.announcements ≡ []
      → In r (run db calls).announcements
      → r.severity ≡ critical
      → r.status ≡ published
      → Approved (run db calls).audit_log r
  four_eyes db calls r e m c p =
      ((run-IsSound db calls (empty-IsSound db e)).eyes r m).when_published c p

  -- Whatever calls have been made since the table was empty, a critical announcement that waits for
  -- its send time was scheduled by one publisher and confirmed by another, whose names differ in
  -- more than case, and the audit log has both entries: the scheduler finds only what two approved.
  pub four_eyes_scheduled :
      (db : Db) (calls : List Call) (r : Row)
      → db.announcements ≡ []
      → In r (run db calls).announcements
      → r.severity ≡ critical
      → r.status ≡ scheduled
      → Approved (run db calls).audit_log r
  four_eyes_scheduled db calls r e m c p =
      ((run-IsSound db calls (empty-IsSound db e)).eyes r m).when_scheduled c p
