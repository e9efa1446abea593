-- ===== src/Fanout/Tables.antt =====
-- runFanoutOnce: the tables that a pass leaves as they were.
use announcement_tool.Common.{
  ℕ, ◌≡◌, refl, ◌∙◌, inl, inr, Bool, List, [], ◌∷◌, Option-cases, List-cases,
}
use announcement_tool.Store.{LedgerRow, Db}
use announcement_tool.Announcements.Table.{find_row}
use announcement_tool.Announcements.Invariant.{IsSound}
use announcement_tool.Announcements.Kept.{Kept}
use announcement_tool.Fanout.{
  Adapters, Pass, set_ledger, attempt, process_row, process_all, run_fanout_once, due_rows,
}

-- The announcements and the audit log are the same.
abbrev pub SameTables : Db → Db → Type 0
SameTables db db' = (db'.announcements ≡ db.announcements) × (db'.audit_log ≡ db.audit_log)

pub SameTables-refl : (db : Db) → SameTables db db
SameTables-refl db = (refl, refl)

SameTables-trans : (a b c : Db) → SameTables a b → SameTables b c → SameTables a c
SameTables-trans a b c (e, f) (g, h) = (g ∙ e, h ∙ f)

pub SameTables-IsSound : (db db' : Db) → SameTables db db' → IsSound db → IsSound db'
SameTables-IsSound db db' (e, f) inv = rw (e, f) inv

pub SameTables-Kept : (db db' : Db) → SameTables db db' → Kept db db'
SameTables-Kept db db' (e, f) = record {
  log = λ x n. rw f n;
  settled = λ r n h. rw e n;
  present = λ r n. (r, rw e n, refl, refl);
}

module _ {W : Type 0} (now : ℕ) (has_note : Bool) (adapters : Adapters W) where
  process_row-SameTables :
      (r : LedgerRow) (s : Pass W) → SameTables s.db (process_row now has_note adapters r s).db
  unfolding process_row set_ledger attempt
  process_row-SameTables r s =
      elim (Option-cases (find_row r.announcement_id r.revision s.db.announcements)) [
        | inl e ↦ rw (e, process_row) (refl, refl)
        | inr (row, e) ↦ elim (Option-cases (adapters.at r.channel)) [
          | inl f ↦ rw (e, f, process_row) (refl, refl)
          | inr (deliver, f) ↦ rw (e, f, process_row) (refl, refl)
        ]
      ]

  process_all-SameTables :
      (due : List LedgerRow) (s : Pass W)
      → SameTables s.db (process_all now has_note adapters due s).db
  unfolding process_all
  process_all-SameTables [] s = SameTables-refl s.db
  process_all-SameTables (r ∷ due) s =
      SameTables-trans s.db (process_row now has_note adapters r s).db
        (process_all now has_note adapters due (process_row now has_note adapters r s)).db
        (process_row-SameTables r s)
        (process_all-SameTables due (process_row now has_note adapters r s))

  pub run_fanout_once-SameTables :
      (locked : LedgerRow → Bool) (batch : ℕ) (db : Db) (world : W)
      → SameTables db (run_fanout_once now has_note adapters locked batch db world).db
  unfolding run_fanout_once
  run_fanout_once-SameTables locked batch db world = elim (List-cases adapters.known) [
    | inl e ↦ rw (e, run_fanout_once) (SameTables-refl db)
    | inr (c, cs, e) ↦
        rw (e, run_fanout_once)
          (process_all-SameTables (due_rows now has_note adapters locked batch db) _)
  ]
