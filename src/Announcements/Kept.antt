-- ===== src/Announcements/Kept.antt =====
-- What no operation of src/core/announcements.ts takes away: the entries of the audit log, the rows,
-- and everything about a row that is published or discarded.
use announcement_tool.Common.{
  ◌≡◌, refl, sym, ◌∙◌, inl, inr, Bool, true, false, List, [], ◌∷◌, ◌++◌, some, Text, In,
  In-append_left, Bool-cases, false-ne-true, Result,
}
use announcement_tool.Types.{Status, published, discarded}
use announcement_tool.Store.{Row, Db, AuditEntry}
use announcement_tool.Announcements.Error.{ApiError}
use announcement_tool.Announcements.Table.{select_latest, update_rows, is_row}
use announcement_tool.Announcements.Keys.{UniqueKeys, select_latest-In}
use announcement_tool.Announcements.Updates.{
  UniqueKeys-eq, update_rows-In_other, update_rows-In_self,
}
use announcement_tool.Announcements.Ensures.{Ensures}
use announcement_tool.Announcements.Invariant.{Grows}
use announcement_tool.Announcements.Evidence.{Grows-append}

-- The statuses that no operation leaves.
abbrev pub is_settled : Status → Bool
is_settled published = true
is_settled discarded = true
is_settled _ = false

pub record Kept (db db' : Db) : Type 0 where
  pub log : Grows db.audit_log db'.audit_log
  pub settled :
      (s : Row) → In s db.announcements → is_settled s.status ≡ true → In s db'.announcements
  pub present :
      (s : Row)
      → In s db.announcements
      → (t : Row) × In t db'.announcements × (t.id ≡ s.id) × (t.revision ≡ s.revision)

pub Kept-refl : (db : Db) → Kept db db
Kept-refl db = record { log = λ e n. n; settled = λ s n h. n; present = λ s n. (s, n, refl, refl) }

pub Kept-trans : {a b c : Db} → Kept a b → Kept b c → Kept a c
Kept-trans k l = record {
  log = λ e n. l.log e (k.log e n);
  settled = λ s n h. l.settled s (k.settled s n h) h;
  present = λ s n.
      let (t, m, i, v) = k.present s n in let (u, o, j, w) = l.present t m in (u, o, j ∙ i, w ∙ v);
}

module _ (set : Row → Row) (keep_id : (r : Row) → (set r).id ≡ r.id)
    (keep_revision : (r : Row) → (set r).revision ≡ r.revision) (rows : List Row) (r : Row)
    (keys : UniqueKeys rows) (m : In r rows) (live : is_settled r.status ≡ false) where
  pub update-settled :
      (s : Row)
      → In s rows
      → is_settled s.status ≡ true
      → In s (update_rows r.id r.revision set rows)
  update-settled s n h = elim (Bool-cases (is_row r.id r.revision s)) [
    | inl e ↦
        let same : s ≡ r = UniqueKeys-eq rows r s keys m n e in
        absurd (false-ne-true (sym live ∙ rw same at h))
    | inr e ↦ update_rows-In_other set r.id r.revision rows s n e
  ]

  pub update-present :
      (s : Row)
      → In s rows
      → (t : Row) × In t (update_rows r.id r.revision set rows)
        × (t.id ≡ s.id)
        × (t.revision ≡ s.revision)
  update-present s n = elim (Bool-cases (is_row r.id r.revision s)) [
    | inl e ↦
        (set s, update_rows-In_self set r.id r.revision rows s n e, keep_id s, keep_revision s)
    | inr e ↦ (s, update_rows-In_other set r.id r.revision rows s n e, refl, refl)
  ]

abbrev pub KeptFrom : Db → {A : Type 0} → A → Db → Type 0
KeptFrom db _ db' = Kept db db'

abbrev pub KeptAfter : Db → {A : Type 0} → Result ApiError (A × Db) → Type 0
KeptAfter db = Ensures (λ _ db'. Kept db db')

module _ (id : Text) (db : Db) (keys : UniqueKeys db.announcements) where
  -- An update of the selected row, which is not settled, and one entry of the log.
  pub Kept-latest :
      (set : Row → Row)
      → ((r : Row) → (set r).id ≡ r.id)
      → ((r : Row) → (set r).revision ≡ r.revision)
      → (db' : Db) (e : AuditEntry) (r : Row) → select_latest id db.announcements ≡ some r
      → is_settled r.status ≡ false
      → db'.announcements ≡ update_rows r.id r.revision set db.announcements
      → db'.audit_log ≡ db.audit_log ++ e ∷ []
      → Kept db db'
  Kept-latest set ki kv db' e r s live rows_eq log_eq =
      let m = (select_latest-In id db.announcements r s).0 in
      record {
        log = λ x n. rw log_eq (Grows-append db.audit_log e x n);
        settled =
            λ x n h. rw rows_eq (update-settled set ki kv db.announcements r keys m live x n h);
        present = λ x n. rw rows_eq (update-present set ki kv db.announcements r keys m live x n);
      }

-- An inserted row stands beside the old ones.
pub Kept-insert :
    (db db' : Db) (new : Row) (e : AuditEntry)
    → db'.announcements ≡ db.announcements ++ new ∷ []
    → db'.audit_log ≡ db.audit_log ++ e ∷ []
    → Kept db db'
Kept-insert db db' new e rows_eq log_eq = record {
  log = λ x n. rw log_eq (Grows-append db.audit_log e x n);
  settled = λ s n h. rw rows_eq (In-append_left s db.announcements (new ∷ []) n);
  present = λ s n. (s, rw rows_eq (In-append_left s db.announcements (new ∷ []) n), refl, refl);
}
