-- ===== src/Announcements/Due.antt =====
-- The rows that one pass of publishDueScheduled takes.
use announcement_tool.Common.{
  Distinct-keep, Distinct-take, Distinct-sort_by, In-sort_by, sort_by-In, sort_by, length-sort_by,
  ℕ, ◌≤◌, ◌≡◌, Bool, true, false, ◌&&◌, not, arith, In, In-take, In-keep, keep, length, length-take,
  keep-In, take_all,
}
use announcement_tool.Store.{Row, Db}
use announcement_tool.Announcements.Keys.{same_row, UniqueKeys, is_row_sym}
use announcement_tool.Announcements.Publish.{is_due, sooner, due_rows}

module _ (now : ℕ) (locked : Row → Bool) (batch : ℕ) (db : Db) where
  abbrev eligible : Row → Bool
  eligible r = is_due now r && not (locked r)

  pub due_rows-UniqueKeys : UniqueKeys db.announcements → UniqueKeys (due_rows now locked batch db)
  unfolding due_rows
  due_rows-UniqueKeys u = Distinct-take same_row batch _ (
      Distinct-sort_by same_row is_row_sym sooner _
        (Distinct-keep same_row eligible db.announcements u))

  -- A pass takes rows that are due and that no other transaction holds.
  pub In-due_rows :
      (a : Row)
      → In a (due_rows now locked batch db)
      → In a db.announcements × (is_due now a ≡ true) × (locked a ≡ false)
  unfolding due_rows
  In-due_rows a m =
      let (n, e) =
        In-keep eligible a db.announcements (In-sort_by sooner a _ (In-take a batch _ m)) in
      (n, ground arith, ground arith)

  -- A pass takes every row that is due and that no other transaction holds, if all such rows fit in
  -- the batch.
  pub due_rows-In :
      (a : Row)
      → length (keep eligible db.announcements) ≤ batch
      → In a db.announcements
      → is_due now a ≡ true
      → locked a ≡ false
      → In a (due_rows now locked batch db)
  unfolding due_rows
  due_rows-In a fits m due free =
      rw
        (take_all batch (sort_by sooner (keep eligible db.announcements))
          (omega (arith, length-sort_by sooner (keep eligible db.announcements))))
        (sort_by-In sooner a _ (keep-In eligible a db.announcements m (ground arith)))

  pub length-due_rows : length (due_rows now locked batch db) ≤ batch
  unfolding due_rows
  length-due_rows =
      omega (arith, length-take batch (sort_by sooner (keep eligible db.announcements)))
