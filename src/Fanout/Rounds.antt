-- ===== src/Fanout/Rounds.antt =====
-- runFanoutOnce as a whole: what a pass does to the ledger.
use announcement_tool.Common.{
  ℕ, ◌≡◌, refl, sym, ap, ◌∙◌, ◌⊎◌, inl, inr, Bool, false, List, [], ◌∷◌, none, some, In, Apart,
  Apart-In, Distinct, Distinct-eq, Distinct-update_where, In-update_where, update_where-In_other,
  update_where-In_self, update_where, Bool-cases, Option-cases,
}
use announcement_tool.Store.{Row, LedgerRow}
use announcement_tool.Outbox.Ledger.{same_key, same_key_sym, same_key_self, UniqueLedger}
use announcement_tool.Announcements.Table.{row_to_announcement, find_row}
use announcement_tool.Fanout.{
  Adapters, Adapter, Outcome, resolves, rejects, set_missing, set_attempted, key_of, set_ledger,
  Pass, attempt, process_row, process_all,
}
use announcement_tool.Fanout.Tried.{
  Tried, Visits, KeepsKey, set_missing-KeepsKey, set_attempted-KeepsKey, set_attempted-Ends,
  untouched, missing, attempted,
}

module _ {W : Type 0} (now : ℕ) (has_note : Bool) (adapters : Adapters W) (rows : List Row) where
  -- What one round over the row `r` does to the ledger `before` and the world `w`.
  record Round (r : LedgerRow) (w w' : W) (before after : List LedgerRow) : Type 0 where
    unique : UniqueLedger after
    rest : (s : LedgerRow) → In s before → same_key s r ≡ false → In s after
    row : LedgerRow
    tried : Tried now has_note adapters rows r w row w'
    stored : In row after
    only : (s : LedgerRow) → In s after → (In s before × (same_key s r ≡ false)) ⊎ (s ≡ row)

  -- What the rounds over `due` do to them.
  pub record Rounds (due : List LedgerRow) (w w' : W) (before after : List LedgerRow) : Type 0 where
    pub unique : UniqueLedger after
    pub rest : (s : LedgerRow) → In s before → Apart same_key s due → In s after
    pub written : List LedgerRow
    pub visits : Visits now has_note adapters rows due w written w'
    pub stored : (s : LedgerRow) → In s written → In s after
    pub only : (s : LedgerRow) → In s after → (In s before × Apart same_key s due) ⊎ In s written

  Rounds-none :
      (w : W) (ledger : List LedgerRow) → UniqueLedger ledger → Rounds [] w w ledger ledger
  Rounds-none w ledger u = record {
    unique = u;
    rest = λ s m a. m;
    written = [];
    visits = refl;
    stored = λ s m. absurd m;
    only = λ s m. inl (m, tt);
  }

  -- One update by the key of a row that the ledger has.
  Round-update :
      (r : LedgerRow) (w w' : W) (set : LedgerRow → LedgerRow) (ledger : List LedgerRow)
      → KeepsKey set
      → Tried now has_note adapters rows r w (set r) w'
      → UniqueLedger ledger
      → In r ledger
      → Round r w w' ledger (update_where (key_of r) set ledger)
  Round-update r w w' set ledger keeps t u m = record {
    unique =
        Distinct-update_where (key_of r) set same_key (λ a b. (keeps a b).0) (λ a b. (keeps a b).1)
          ledger u;
    rest = λ s n a. update_where-In_other (key_of r) set ledger s n (same_key_sym s r a);
    row = set r;
    tried = t;
    stored = update_where-In_self (key_of r) set ledger r m (same_key_self r);
    only = λ s n. elim (In-update_where (key_of r) set ledger s n) [
      | inl (o, h) ↦ inl (o, same_key_sym r s h)
      | inr (q, o, h, e) ↦
          let i = Distinct-eq same_key same_key_sym ledger r q u m o h in inr (e ∙ ap set i)
    ];
  }

  Rounds-cons :
      (r : LedgerRow) (due : List LedgerRow) (w v w' : W) (before middle after : List LedgerRow)
      → Apart same_key r due
      → ((s : LedgerRow) → Tried now has_note adapters rows r w s v → Apart same_key s due)
      → Round r w v before middle
      → Rounds due v w' middle after
      → Rounds (r ∷ due) w w' before after
  Rounds-cons r due w v w' before middle after apart stays one more = record {
    unique = more.unique;
    rest = λ s n a. more.rest s (one.rest s n a.0) a.1;
    written = one.row ∷ more.written;
    visits = (v, one.tried, more.visits);
    stored = λ s n. elim n [
      | inl e ↦ rw e (more.rest one.row one.stored (stays one.row one.tried))
      | inr n' ↦ more.stored s n'
    ];
    only = λ s n. elim (more.only s n) [
      | inl (o, a) ↦ elim (one.only s o) [ inl (p, b) ↦ inl (p, (b, a)) | inr e ↦ inr (inl e) ]
      | inr o ↦ inr (inr o)
    ];
  }

  Apart-attempted :
      (r s : LedgerRow) (outcome : Outcome) (due : List LedgerRow)
      → s ≡ set_attempted now has_note r outcome r
      → Apart same_key r due
      → Apart same_key s due
  unfolding set_attempted
  Apart-attempted r s (resolves reported) due e a = rw e a
  Apart-attempted r s (rejects error) due e a = rw e a

  Tried-Apart :
      (r s : LedgerRow) (w v : W) (due : List LedgerRow)
      → Tried now has_note adapters rows r w s v
      → Apart same_key r due
      → Apart same_key s due
  unfolding set_missing
  Tried-Apart r s w v due (untouched row f g e i) a = rw e a
  Tried-Apart r s w v due (missing f e x i) a = rw e a
  Tried-Apart r s w v due (attempted row deliver f g e x i) a = Apart-attempted r s _ due e a

  process_row-announcements :
      (r : LedgerRow) (s : Pass W)
      → (process_row now has_note adapters r s).db.announcements ≡ s.db.announcements
  unfolding process_row set_ledger attempt
  process_row-announcements r s =
      elim (Option-cases (find_row r.announcement_id r.revision s.db.announcements)) [
        | inl e ↦ rw (e, process_row)
        | inr (row, e) ↦ elim (Option-cases (adapters.at r.channel)) [
          | inl f ↦ rw (e, f, process_row)
          | inr (deliver, f) ↦ rw (e, f, process_row) refl
        ]
      ]

  attempt-Round :
      (r : LedgerRow) (row : Row) (deliver : Adapter W) (s : Pass W)
      → find_row r.announcement_id r.revision rows ≡ some row
      → adapters.at r.channel ≡ some deliver
      → UniqueLedger s.db.delivery_ledger
      → In r s.db.delivery_ledger
      → Round r s.world
          (attempt now has_note adapters r deliver (row_to_announcement row) s).world
          s.db.delivery_ledger
          (attempt now has_note adapters r deliver (row_to_announcement row) s).db.delivery_ledger
  unfolding attempt set_ledger
  attempt-Round r row deliver s f g u m =
      let (outcome, world) = deliver (row_to_announcement row) r.target r.kind s.world in
      Round-update r s.world world (set_attempted now has_note r outcome) s.db.delivery_ledger
        (set_attempted-KeepsKey now has_note r outcome)
        (attempted row deliver f g refl (set_attempted-Ends now has_note r outcome) refl) u m

  idle-Round :
      (r : LedgerRow) (row : Row) (s : Pass W)
      → find_row r.announcement_id r.revision rows ≡ some row
      → adapters.at r.channel ≡ none
      → UniqueLedger s.db.delivery_ledger
      → In r s.db.delivery_ledger
      → Round r s.world s.world s.db.delivery_ledger s.db.delivery_ledger
  idle-Round r row s f g u m = record {
    unique = u;
    rest = λ q n a. n;
    row = r;
    tried = untouched row f g refl refl;
    stored = m;
    only = λ q n. elim (Bool-cases (same_key q r)) [
      | inl h ↦ inr (sym (Distinct-eq same_key same_key_sym _ q r u n m h))
      | inr h ↦ inl (n, h)
    ];
  }

  process_row-Round :
      (r : LedgerRow) (s : Pass W)
      → s.db.announcements ≡ rows
      → UniqueLedger s.db.delivery_ledger
      → In r s.db.delivery_ledger
      → Round r s.world
          (process_row now has_note adapters r s).world
          s.db.delivery_ledger
          (process_row now has_note adapters r s).db.delivery_ledger
  unfolding process_row set_ledger set_missing
  process_row-Round r s a u m = elim (Option-cases (find_row r.announcement_id r.revision rows)) [
    | inl e ↦
        rw (a, e, process_row)
          (Round-update r s.world s.world (set_missing now) s.db.delivery_ledger
            (set_missing-KeepsKey now) (missing e refl refl refl) u m)
    | inr (row, e) ↦ elim (Option-cases (adapters.at r.channel)) [
      | inl f ↦ rw (a, e, f, process_row) (idle-Round r row s e f u m)
      | inr (deliver, f) ↦ rw (a, e, f, process_row) (attempt-Round r row deliver s e f u m)
    ]
  ]

  pub process_all-Rounds :
      (due : List LedgerRow) (s : Pass W)
      → s.db.announcements ≡ rows
      → UniqueLedger s.db.delivery_ledger
      → Distinct same_key due
      → ((r : LedgerRow) → In r due → In r s.db.delivery_ledger)
      → Rounds due s.world
          (process_all now has_note adapters due s).world
          s.db.delivery_ledger
          (process_all now has_note adapters due s).db.delivery_ledger
  unfolding process_all
  process_all-Rounds [] s a u d m = Rounds-none s.world s.db.delivery_ledger u
  process_all-Rounds (r ∷ due) s a u d m =
      let one = process_row-Round r s a u (m r (inl refl)) in
      let more =
        process_all-Rounds due (process_row now has_note adapters r s)
          (process_row-announcements r s ∙ a) one.unique d.1
          (λ q n. one.rest q (m q (inr n)) (same_key_sym r q (Apart-In same_key r q due d.0 n))) in
      Rounds-cons r due _ _ _ _ _ _ d.0 (λ q t. Tried-Apart r q _ _ due t d.0) one more
