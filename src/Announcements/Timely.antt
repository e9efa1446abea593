-- ===== src/Announcements/Timely.antt =====
-- publishDueScheduled: a scheduled row whose time has come is published by the next pass.
use announcement_tool.Common.{
  ℕ, ◌≤◌, ◌≡◌, refl, inl, inr, Bool, true, false, ◌&&◌, not, List, [], ◌∷◌, some, arith, In, keep,
  length, Result, ok, err, Bool-cases,
}
use announcement_tool.Types.{
  Announcement, ChannelName, scheduled, published, status_eq, status_eq_iff,
}
use announcement_tool.Store.{Row, Db}
use announcement_tool.Announcements.Table.{row_to_announcement}
use announcement_tool.Announcements.Error.{ApiError}
use announcement_tool.Announcements.Invariant.{IsSound}
use announcement_tool.Announcements.Publish.{is_due, due_rows, publish_due_scheduled}
use announcement_tool.Announcements.Due.{due_rows-In}
use announcement_tool.Announcements.Scheduler.{
  Succeeds, SentAll, sent_row, announced, publish_due_scheduled-Passed, is_due-scheduled,
}

-- The row `a` is published at `now`, and stands in what the pass returns.
pub record PublishedIn (now : ℕ) (a : Row) (out : List Announcement) (db : Db) : Type 0 where
  pub row : Row
  pub stored : In row db.announcements
  pub same_id : row.id ≡ a.id
  pub same_revision : row.revision ≡ a.revision
  pub status : row.status ≡ published
  pub published_at : row.published_at ≡ some now
  pub returned : In (row_to_announcement row) out

announced-In :
    (now : ℕ) (due : List Row) (a : Row)
    → In a due
    → In (row_to_announcement (sent_row now a)) (announced now due)
announced-In now [] a m = absurd m
announced-In now (r ∷ due) a (inl e) = inl (rw e refl)
announced-In now (r ∷ due) a (inr m) = inr (announced-In now due a m)

SentAll-PublishedIn :
    (now : ℕ) (due : List Row) (db : Db) (a : Row) (r : Result ApiError (List Announcement × Db))
    → In a due
    → Succeeds (SentAll now due db) r
    → Succeeds (PublishedIn now a) r
SentAll-PublishedIn now due db a (ok (out, db')) m (e, passed) = record {
  row = sent_row now a;
  stored = passed.sent a m;
  same_id = refl;
  same_revision = refl;
  status = refl;
  published_at = refl;
  returned = rw e (announced-In now due a m);
}
SentAll-PublishedIn now due db a (err x) m h = absurd h

abbrev pub is_scheduled : Row → Bool
is_scheduled r = status_eq r.status scheduled

waiting_length :
    (now : ℕ) (locked : Row → Bool) (rows : List Row)
    → length (keep (λ r. is_due now r && not (locked r)) rows) ≤ length (keep is_scheduled rows)
waiting_length now locked [] = omega arith
waiting_length now locked (r ∷ rows) =
    let ih = waiting_length now locked rows in
    elim (Bool-cases (is_due now r && not (locked r))) [
      | inl e ↦
          let s : status_eq r.status scheduled ≡ true =
            (status_eq_iff r.status scheduled).1 (is_due-scheduled now r (ground arith)) in
          rw (e, s) (omega arith)
      | inr e ↦ elim (Bool-cases (is_scheduled r)) [
        | inl s ↦ rw (e, s) (omega arith)
        | inr s ↦ rw (e, s) ih
      ]
    ]

has_come :
    (now t : ℕ) (a : Row)
    → a.status ≡ scheduled
    → a.scheduled_for ≡ some t
    → t ≤ now
    → is_due now a ≡ true
unfolding is_due
has_come now t a s e h = rw (s, e, is_due) (ground arith)

-- A scheduled row whose time has come is published by the next pass of the scheduler, at the time of
-- the pass, and is among the announcements that the pass returns, if no other transaction holds the
-- row and no more rows are scheduled than fit in the batch. The pass does not throw.
pub publish_due_scheduled-PublishedIn :
    (now t : ℕ) (enabled : List ChannelName) (locked : Row → Bool) (batch : ℕ) (db : Db) (a : Row)
    → IsSound db
    → length (keep is_scheduled db.announcements) ≤ batch
    → In a db.announcements
    → a.status ≡ scheduled
    → a.scheduled_for ≡ some t
    → t ≤ now
    → locked a ≡ false
    → Succeeds (PublishedIn now a) (publish_due_scheduled now enabled locked batch db)
publish_due_scheduled-PublishedIn now t enabled locked batch db a inv fits m s e h free =
    SentAll-PublishedIn now (due_rows now locked batch db) db a _
      (due_rows-In now locked batch db a (omega (arith, waiting_length now locked db.announcements))
        m (has_come now t a s e h) free)
      (publish_due_scheduled-Passed now enabled locked batch db inv)
