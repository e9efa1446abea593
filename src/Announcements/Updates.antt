-- ===== src/Announcements/Updates.antt =====
-- What `update … returning *` and the insert do to a table whose primary key holds.
use announcement_tool.Common.{
  In-update_where, update_where-In_other, update_where-In_self, Distinct-update_where, Distinct-eq,
  Distinct-append, ℕ, ◌≡◌, refl, sym, ap, ◌∙◌, ◌⊎◌, inl, inr, true, false, List, [], ◌∷◌, ◌++◌,
  some, Text, In, Bool-cases, false-ne-true, ok,
}
use announcement_tool.Store.{Row, Db}
use announcement_tool.Announcements.Table.{is_row, find_row, update_rows, update_returning}
use announcement_tool.Announcements.Keys.{Absent, same_row, UniqueKeys, is_row_self, is_row_sym}

-- Two rows with one key are one row.
pub UniqueKeys-eq :
    (rows : List Row) (r s : Row)
    → UniqueKeys rows
    → In r rows
    → In s rows
    → is_row r.id r.revision s ≡ true
    → s ≡ r
UniqueKeys-eq = Distinct-eq same_row is_row_sym

-- A row is found again under its key.
pub find_row_self :
    (rows : List Row) (r : Row)
    → UniqueKeys rows
    → In r rows
    → find_row r.id r.revision rows ≡ some r
unfolding find_row
find_row_self [] r u m = absurd m
find_row_self (q ∷ rest) r u m = elim (Bool-cases (is_row r.id r.revision q)) [
  | inl e ↦ rw e (ap some (UniqueKeys-eq (q ∷ rest) r q u m (inl refl) e))
  | inr e ↦ elim m [
    | inl i ↦ absurd (false-ne-true (sym (rw (← i) at e) ∙ is_row_self r))
    | inr n ↦ rw e (find_row_self rest r u.1 n)
  ]
]

module _ (set : Row → Row) where
  -- The row of an update is rewritten, and every other is left as it is.
  pub In-update_rows :
      (id : Text) (revision : ℕ) (rows : List Row) (s : Row)
      → In s (update_rows id revision set rows)
      → (In s rows × (is_row id revision s ≡ false))
        ⊎ ((r : Row) × In r rows × (is_row id revision r ≡ true) × (s ≡ set r))
  unfolding update_rows
  In-update_rows id revision = In-update_where (is_row id revision) set

  pub update_rows-In_other :
      (id : Text) (revision : ℕ) (rows : List Row) (s : Row)
      → In s rows
      → is_row id revision s ≡ false
      → In s (update_rows id revision set rows)
  unfolding update_rows
  update_rows-In_other id revision = update_where-In_other (is_row id revision) set

  pub update_rows-In_self :
      (id : Text) (revision : ℕ) (rows : List Row) (s : Row)
      → In s rows
      → is_row id revision s ≡ true
      → In (set s) (update_rows id revision set rows)
  unfolding update_rows
  update_rows-In_self id revision = update_where-In_self (is_row id revision) set

  -- With the primary key, the update of the selected row succeeds and returns that row's new form.
  pub update_returning-In :
      (db : Db) (r : Row)
      → UniqueKeys db.announcements
      → In r db.announcements
      → update_returning r.id r.revision set db
        ≡ ok (set r, record db { announcements = update_rows r.id r.revision set db.announcements })
  unfolding update_returning
  update_returning-In db r u m = rw (find_row_self db.announcements r u m, update_returning)

  module _ (keep_id : (r : Row) → (set r).id ≡ r.id)
      (keep_revision : (r : Row) → (set r).revision ≡ r.revision) where
    -- An update that keeps the key columns keeps the primary key.
    pub update_rows-UniqueKeys :
        (id : Text) (revision : ℕ) (rows : List Row)
        → UniqueKeys rows
        → UniqueKeys (update_rows id revision set rows)
    unfolding update_rows
    update_rows-UniqueKeys id revision =
        Distinct-update_where (is_row id revision) set same_row
          (λ r s. rw (keep_id r, keep_revision r)) (λ r s. rw (keep_id s, keep_revision s))

pub UniqueKeys-append :
    (rows : List Row) (r : Row)
    → UniqueKeys rows
    → Absent r.id r.revision rows
    → UniqueKeys (rows ++ r ∷ [])
UniqueKeys-append = Distinct-append same_row is_row_sym
