-- ===== src/Announcements/Scheduler.antt =====
-- publishDueScheduled: the worker's pass sends every row that it takes, leaves the others alone and
-- keeps the invariant.
use announcement_tool.Common.{
  ℕ, ◌≡◌, refl, inl, inr, Bool, true, false, List, [], ◌∷◌, ◌++◌, Option, none, some, arith, Text,
  In, In-append_left, Result, ok, err, ◌>>=◌,
}
use announcement_tool.Types.{ChannelName, Announcement, scheduled}
use announcement_tool.Store.{Row, Db, AuditEntry}
use announcement_tool.Outbox.{enqueue_deliveries}
use announcement_tool.Announcements.Error.{ApiError}
use announcement_tool.Announcements.Table.{row_to_announcement, is_row}
use announcement_tool.Announcements.Keys.{Absent, UniqueKeys, is_row_self, is_row_sym, Absent-In}
use announcement_tool.Announcements.Updates.{
  update_returning-In, update_rows-In_self, update_rows-In_other,
}
use announcement_tool.Announcements.Publish.{
  scheduler, confirmed_by, set_published, perform_publish, send_scheduled, send_all, due_rows,
  publish_due_scheduled, is_due,
}
use announcement_tool.Announcements.Invariant.{IsSound, FourEyes, Approved-Grows, Grows}
use announcement_tool.Announcements.Rules.{IsLatest-OthersDraft, update-Inv}
use announcement_tool.Announcements.Evidence.{FourEyes-published, Approved-move}
use announcement_tool.Announcements.Due.{due_rows-UniqueKeys, In-due_rows}

-- The result is returned, and satisfies `P`.
abbrev pub Succeeds : {A : Type 0} → (A → Db → Type 0) → Result ApiError (A × Db) → Type 0
Succeeds P (ok (a, db)) = P a db
Succeeds P (err e) = ⊥

-- The row that a scheduled row becomes: the publisher who confirmed the schedule stays on it.
abbrev set_sent : ℕ → Row → Row → Row
set_sent now r = set_published now (confirmed_by true r.publish_confirmed_by scheduler)

abbrev pub sent_row : ℕ → Row → Row
sent_row now r = set_sent now r r

confirmed_by-some :
    (o : Option Text) (who : Text) → o ≡ some who → some (confirmed_by true o scheduler) ≡ some who
unfolding confirmed_by
confirmed_by-some none who e = cc
confirmed_by-some (some c) who e = e

Grows-append_twice :
    (log : List AuditEntry) (e f : AuditEntry) → Grows log ((log ++ e ∷ []) ++ f ∷ [])
Grows-append_twice log e f x m =
    In-append_left x (log ++ e ∷ []) (f ∷ []) (In-append_left x log (e ∷ []) m)

pub is_due-scheduled : (now : ℕ) (r : Row) → is_due now r ≡ true → r.status ≡ scheduled
unfolding is_due
is_due-scheduled now r h = ground arith

pub record Sent (now : ℕ) (r : Row) (db db' : Db) : Type 0 where
  sound : IsSound db'
  log : Grows db.audit_log db'.audit_log
  sent : In (sent_row now r) db'.announcements
  rest :
      (s : Row) → In s db.announcements → is_row r.id r.revision s ≡ false → In s db'.announcements

Succeeds-bind :
    {A B : Type 0} (P : A → Db → Type 0) (Q : B → Db → Type 0) (m : Result ApiError (A × Db))
    (f : A × Db → Result ApiError (B × Db))
    → Succeeds P m
    → ((a : A) (db : Db) → P a db → Succeeds Q (f (a, db)))
    → Succeeds Q (m >>= f)
Succeeds-bind P Q (ok (a, db)) f p h = h a db p
Succeeds-bind P Q (err e) f p h = absurd p

-- What a pass over `due` leaves: the rows of `due` sent, and every other row as it was.
pub record Passed (now : ℕ) (due : List Row) (db db' : Db) : Type 0 where
  pub sound : IsSound db'
  pub log : Grows db.audit_log db'.audit_log
  pub sent : (a : Row) → In a due → In (sent_row now a) db'.announcements
  pub rest : (s : Row) → In s db.announcements → Absent s.id s.revision due → In s db'.announcements

abbrev pub announced : ℕ → List Row → List Announcement
announced now [] = []
announced now (r ∷ due) = row_to_announcement (sent_row now r) ∷ announced now due

abbrev pub SentOne : ℕ → Row → Db → Announcement → Db → Type 0
SentOne now r db a db' = (a ≡ row_to_announcement (sent_row now r)) × Sent now r db db'

abbrev pub SentAll : ℕ → List Row → Db → List Announcement → Db → Type 0
SentAll now due db out db' = (out ≡ announced now due) × Passed now due db db'

-- The first row sent, and then the others.
Passed-cons :
    (now : ℕ) (r : Row) (due : List Row) (db db1 db2 : Db)
    → Absent r.id r.revision due
    → Sent now r db db1
    → Passed now due db1 db2
    → Passed now (r ∷ due) db db2
Passed-cons now r due db db1 db2 absent step pass = record {
  sound = pass.sound;
  log = λ e n. pass.log e (step.log e n);
  sent = λ a m. elim m [
    | inl e ↦ rw e (pass.rest (sent_row now r) step.sent absent)
    | inr n ↦ pass.sent a n
  ];
  rest = λ s n apart. pass.rest s (step.rest s n (is_row_sym s r apart.0)) apart.1;
}

module _ (now : ℕ) (enabled : List ChannelName) where
  sent-FourEyes :
      (r : Row) (log log' : List AuditEntry)
      → Grows log log'
      → r.status ≡ scheduled
      → FourEyes log r
      → FourEyes log' (sent_row now r)
  sent-FourEyes r log log' grows s eyes = FourEyes-published _ refl λ c.
      Approved-move r _ refl refl refl (confirmed_by-some r.publish_confirmed_by)
        (Approved-Grows grows (eyes.when_scheduled c s))

  send_scheduled-Sent :
      (r : Row) (db : Db)
      → IsSound db
      → In r db.announcements
      → r.status ≡ scheduled
      → Succeeds (SentOne now r db) (send_scheduled now enabled r db)
  unfolding send_scheduled perform_publish enqueue_deliveries
  send_scheduled-Sent r db inv m s = rw (update_returning-In (set_sent now r) db r inv.keys m) (
    refl,
    record {
      sound =
          update-Inv (set_sent now r) (λ _. refl) (λ _. refl) r inv m
            (IsLatest-OthersDraft db.announcements r inv.others m (λ e. cc))
            (Grows-append_twice db.audit_log _ _) refl
            (sent-FourEyes r _ _ (Grows-append_twice db.audit_log _ _) s (inv.eyes r m));
      log = Grows-append_twice db.audit_log _ _;
      sent =
          update_rows-In_self (set_sent now r) r.id r.revision db.announcements r m (is_row_self r);
      rest = update_rows-In_other (set_sent now r) r.id r.revision db.announcements;
    },
  )

  send_all-Passed :
      (due : List Row) (db : Db)
      → IsSound db
      → UniqueKeys due
      → ((a : Row) → In a due → In a db.announcements × (a.status ≡ scheduled))
      → Succeeds
          (λ out db'. (out ≡ announced now due) × Passed now due db db')
          (send_all now enabled due db)
  unfolding send_all
  send_all-Passed [] db inv u m =
      (refl, record { sound = inv; log = λ e n. n; sent = λ a x. absurd x; rest = λ s n _. n })
  send_all-Passed (r ∷ due) db inv u m =
      Succeeds-bind (SentOne now r db) (SentAll now (r ∷ due) db) (send_scheduled now enabled r db)
        _ (send_scheduled-Sent r db inv (m r (inl refl)).0 (m r (inl refl)).1)
        λ a db1 (e, step).
          Succeeds-bind (SentAll now due db1) (SentAll now (r ∷ due) db)
            (send_all now enabled due db1) _
            (send_all-Passed due db1 step.sound u.1 λ b n. (
              step.rest b (m b (inr n)).0 (Absent-In r.id r.revision due b u.0 n),
              (m b (inr n)).1,
            ))
            λ more db2 (e', pass). (rw (e, e'), Passed-cons now r due db db1 db2 u.0 step pass)

-- One pass of the scheduler never throws. It returns exactly the rows that it took, each published
-- with the publisher who confirmed its schedule; every other row stays as it was, and the invariant
-- holds after it.
pub publish_due_scheduled-Passed :
    (now : ℕ) (enabled : List ChannelName) (locked : Row → Bool) (batch : ℕ) (db : Db)
    → IsSound db
    → Succeeds
        (SentAll now (due_rows now locked batch db) db)
        (publish_due_scheduled now enabled locked batch db)
unfolding publish_due_scheduled
publish_due_scheduled-Passed now enabled locked batch db inv =
    send_all-Passed now enabled (due_rows now locked batch db) db inv
      (due_rows-UniqueKeys now locked batch db inv.keys)
      λ a m.
        let (n, due, free) = In-due_rows now locked batch db a m in (n, is_due-scheduled now a due)
