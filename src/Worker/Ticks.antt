-- ===== src/Worker/Ticks.antt =====
-- runTick: what one pass does to the announcements, whichever of its parts fail.
use announcement_tool.Common.{
  ◌≡◌, refl, sym, ◌∙◌, ◌≤◌, ◌+◌, arith, inl, inr, Bool, true, false, if◌then◌else◌, false-ne-true,
  List, [], map, In, Result, ok, err, Bool-cases,
}
use announcement_tool.Types.{Announcement, ChannelName}
use announcement_tool.Store.{Row, Db}
use announcement_tool.Announcements.Error.{ApiError}
use announcement_tool.Announcements.Publish.{due_rows, publish_due_scheduled}
use announcement_tool.Announcements.Invariant.{IsSound}
use announcement_tool.Announcements.Kept.{Kept, Kept-refl, Kept-trans}
use announcement_tool.Announcements.History.{after, ticks, step, step-IsSound, step-Kept}
use announcement_tool.Announcements.Scheduler.{
  sent_row, announced, Succeeds, SentAll, publish_due_scheduled-Passed,
}
use announcement_tool.Fanout.{Adapters, run_fanout_once}
use announcement_tool.Fanout.Batch.{run_fanout_once-batch}
use announcement_tool.Fanout.Tables.{
  SameTables, SameTables-refl, SameTables-IsSound, SameTables-Kept, run_fanout_once-SameTables,
}
use announcement_tool.Worker.{
  Published, published_of, TickResult, TickState, Moment, default_batch, keep_published,
  schedule_part, alert_part, fanout_part, run_tick,
}

-- The rows that the scheduler takes.
abbrev pub due_at : {W : Type 0} → Moment → TickState W → List Row
due_at m s = due_rows m.scheduled_at m.locked_row default_batch s.db

-- What a pass leaves of the state `s`.
pub record Ticked {W : Type 0} (m : Moment) (s t : TickState W) (result : TickResult) : Type 0 where
  pub sound : IsSound t.db
  pub kept : Kept s.db t.db
  pub bounded : result.delivered + result.failed ≤ default_batch
  pub published :
      m.scheduler_fails ≡ false
      → result.published ≡ map published_of (announced m.scheduled_at (due_at m s))
  pub sent :
      m.scheduler_fails ≡ false
      → (r : Row) → In r (due_at m s)
      → In (sent_row m.scheduled_at r) t.db.announcements
  pub idle : m.scheduler_fails ≡ true → (result.published ≡ []) × SameTables s.db t.db

module _ {W : Type 0} (m : Moment) (enabled : List ChannelName) where
  -- The part of the scheduler.
  record Scheduled (s t : TickState W) (out : List Published) : Type 0 where
    sound : IsSound t.db
    kept : Kept s.db t.db
    published :
        m.scheduler_fails ≡ false → out ≡ map published_of (announced m.scheduled_at (due_at m s))
    sent :
        m.scheduler_fails ≡ false
        → (r : Row) → In r (due_at m s)
        → In (sent_row m.scheduled_at r) t.db.announcements
    idle : m.scheduler_fails ≡ true → (out ≡ []) × SameTables s.db t.db

  keep_published-Scheduled :
      (s : TickState W) (r : Result ApiError (List Announcement × Db))
      → m.scheduler_fails ≡ false
      → IsSound (after s.db r)
      → Kept s.db (after s.db r)
      → Succeeds (SentAll m.scheduled_at (due_at m s) s.db) r
      → Scheduled s (keep_published s r).1 (keep_published s r).0
  keep_published-Scheduled s (ok (due, db)) works inv kept (e, passed) = record {
    sound = inv;
    kept = kept;
    published = λ _. rw e refl;
    sent = λ _ r n. passed.sent r n;
    idle = λ fails. absurd (false-ne-true (sym works ∙ fails));
  }
  keep_published-Scheduled s (err x) works inv kept h = absurd h

  Scheduled-if :
      (s : TickState W) (fails : Bool)
      → m.scheduler_fails ≡ fails
      → IsSound s.db
      → Scheduled s
          (if fails
            then ([], s)
            else keep_published s
                (publish_due_scheduled m.scheduled_at enabled m.locked_row default_batch s.db)).1
          (if fails
            then ([], s)
            else keep_published s
                (publish_due_scheduled m.scheduled_at enabled m.locked_row default_batch s.db)).0
  unfolding step
  Scheduled-if s true e inv = record {
    sound = inv;
    kept = Kept-refl s.db;
    published = λ works. absurd (false-ne-true (sym works ∙ e));
    sent = λ works. absurd (false-ne-true (sym works ∙ e));
    idle = λ _. (refl, SameTables-refl s.db);
  }
  Scheduled-if s false e inv =
      let call = ticks m.scheduled_at m.locked_row default_batch in
      keep_published-Scheduled s
        (publish_due_scheduled m.scheduled_at enabled m.locked_row default_batch s.db) e
        (step-IsSound (λ _. true) enabled s.db call inv)
        (step-Kept (λ _. true) enabled s.db call inv)
        (publish_due_scheduled-Passed m.scheduled_at enabled m.locked_row default_batch s.db inv)

  schedule_part-Scheduled :
      (s : TickState W)
      → IsSound s.db
      → Scheduled s (schedule_part m enabled s).1 (schedule_part m enabled s).0
  unfolding schedule_part
  schedule_part-Scheduled s inv = Scheduled-if s m.scheduler_fails refl inv

module _ {W : Type 0} (m : Moment) where
  alert_part-db : (s : TickState W) → (alert_part m s).1.db ≡ s.db
  unfolding alert_part
  alert_part-db s = elim (Bool-cases m.alerts_fail) [
    | inl e ↦ rw (e, alert_part) refl
    | inr e ↦ rw (e, alert_part) refl
  ]

  -- The part of the fan-out, which reports what the scheduler published.
  record Delivered (s t : TickState W) (out : List Published) (result : TickResult) : Type 0 where
    same : SameTables s.db t.db
    bounded : result.delivered + result.failed ≤ default_batch
    reported : result.published ≡ out

  fanout_part-Delivered :
      (adapters : Adapters W) (out : List Published) (s : TickState W)
      → Delivered s (fanout_part m adapters out s).1 out (fanout_part m adapters out s).0
  unfolding fanout_part
  fanout_part-Delivered adapters out s = elim (Bool-cases m.fanout_fails) [
    | inl e ↦
        rw (e, fanout_part)
          (record { same = SameTables-refl s.db; bounded = omega arith; reported = refl })
    | inr e ↦
        let res =
          run_fanout_once m.delivered_at m.has_note adapters m.locked_delivery default_batch s.db
            s.world in
        let then_alerts = alert_part-db (record s { db = res.db; world = res.world }) in
        rw (e, fanout_part)
          (record {
            same = rw then_alerts (
                run_fanout_once-SameTables m.delivered_at m.has_note adapters m.locked_delivery
                  default_batch s.db s.world);
            bounded =
                run_fanout_once-batch m.delivered_at m.has_note adapters m.locked_delivery
                  default_batch s.db s.world;
            reported = refl;
          })
  ]

-- One pass of the worker, whichever of its parts meet a failing database and whatever the adapters do:
-- the invariant of the announcements holds after it, no published or discarded row changes, and the
-- deliveries and failures that it reports are together at most the batch. Where the scheduler works,
-- exactly the rows that it took are reported as published, and each stands published in the table,
-- even if the fan-out or the alerts fail then; where it fails, no announcement changes.
pub run_tick-Ticked :
    {W : Type 0} (m : Moment) (enabled : List ChannelName) (adapters : Adapters W) (s : TickState W)
    → IsSound s.db
    → Ticked m s (run_tick m enabled adapters s).1 (run_tick m enabled adapters s).0
unfolding run_tick
run_tick-Ticked m enabled adapters s inv =
    let (out, t) = schedule_part m enabled s in
    let first = schedule_part-Scheduled m enabled s inv in
    let second = fanout_part-Delivered m adapters out t in
    record {
      sound = SameTables-IsSound t.db (fanout_part m adapters out t).1.db second.same first.sound;
      kept =
          Kept-trans first.kept
            (SameTables-Kept t.db (fanout_part m adapters out t).1.db second.same);
      bounded = second.bounded;
      published = λ works. second.reported ∙ first.published works;
      sent = λ works r n. rw second.same.0 (first.sent works r n);
      idle = λ fails.
          let (none_out, same) = first.idle fails in
          (second.reported ∙ none_out, (second.same.0 ∙ same.0, second.same.1 ∙ same.1));
    }
