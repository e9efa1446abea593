-- ===== src/Announcements/Ensures.antt =====
-- Postconditions of the operations, one rule for each statement that they are made of.
use announcement_tool.Common.{
  ◌≡◌, refl, subst, inl, inr, Bool, true, false, some, Text, In, Option-cases, if◌then◌else◌,
  Result, ok, err, ◌>>=◌, ◌>>◌, throw_if,
}
use announcement_tool.Store.{Row, Db}
use announcement_tool.Announcements.Error.{ApiError}
use announcement_tool.Announcements.Table.{
  select_latest, select_for_update, update_returning, update_rows,
}
use announcement_tool.Announcements.Keys.{UniqueKeys, select_latest-In}
use announcement_tool.Announcements.Updates.{update_returning-In}

-- A result that is returned satisfies `P`; one that throws leaves the database as it was.
abbrev pub Ensures : {A : Type 0} → (A → Db → Type 0) → Result ApiError (A × Db) → Type 0
Ensures P (ok (a, db)) = P a db
Ensures P (err e) = Unit {0}

module _ {A : Type 0} (P : A → Db → Type 0) where
  pub Ensures-select :
      (id : Text) (db : Db) (rest : Row → Result ApiError (A × Db))
      → ((r : Row) → select_latest id db.announcements ≡ some r → Ensures P (rest r))
      → Ensures P (select_for_update id db >>= rest)
  unfolding select_for_update
  Ensures-select id db rest h = elim (Option-cases (select_latest id db.announcements)) [
    | inl e ↦ rw (e, select_for_update) tt
    | inr (r, e) ↦ rw (e, select_for_update) (h r e)
  ]

  pub Ensures-throw_if :
      (b : Bool) (e : ApiError) (rest : Result ApiError (A × Db))
      → (b ≡ false → Ensures P rest)
      → Ensures P (throw_if b e >> rest)
  unfolding throw_if
  Ensures-throw_if true e rest h = tt
  Ensures-throw_if false e rest h = h refl

  pub Ensures-if :
      (b : Bool) (m n : Result ApiError (A × Db))
      → (b ≡ true → Ensures P m)
      → (b ≡ false → Ensures P n)
      → Ensures P (if b then m else n)
  Ensures-if true m n hm hn = hm refl
  Ensures-if false m n hm hn = hn refl

  pub Ensures-update :
      (set : Row → Row) (db : Db) (r : Row) (rest : Row × Db → Result ApiError (A × Db))
      → UniqueKeys db.announcements
      → In r db.announcements
      → Ensures P (
          rest
            (set r, record db { announcements = update_rows r.id r.revision set db.announcements }))
      → Ensures P (update_returning r.id r.revision set db >>= rest)
  Ensures-update set db r rest u m h = rw (update_returning-In set db r u m) h

  -- The same for the row that was selected by `id`.
  pub Ensures-update_latest :
      (set : Row → Row) (id : Text) (db : Db) (r : Row) (rest : Row × Db → Result ApiError (A × Db))
      → UniqueKeys db.announcements
      → select_latest id db.announcements ≡ some r
      → Ensures P (
          rest
            (set r, record db { announcements = update_rows r.id r.revision set db.announcements }))
      → Ensures P (update_returning id r.revision set db >>= rest)
  Ensures-update_latest set id db r rest u e h =
      let (m, i) = select_latest-In id db.announcements r e in
      subst (λ (x : Text). Ensures P (update_returning x r.revision set db >>= rest)) i
        (Ensures-update set db r rest u m h)
