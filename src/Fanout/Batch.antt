-- ===== src/Fanout/Batch.antt =====
-- runFanoutOnce: the rows of one batch, and the properties of a whole pass.
use announcement_tool.Common.{
  ℕ, ◌+◌, ◌≤◌, ◌<◌, contains, ◌≡◌, ◌≢◌, subst, refl, sym, ◌∙◌, ◌⊎◌, inl, inr, Bool, true, false,
  List, [], ◌∷◌, arith, In, In-take, In-keep, In-sort_by, Apart, All-In, Distinct, Distinct-take,
  Distinct-keep, Distinct-sort_by, Distinct-eq, length, length-take, Bool-cases, Option-cases,
  false-ne-true, keep, sort_by,
}
use announcement_tool.Types.{ChannelName, channel_eq, channel_eq_iff, channel_has_eq}
use announcement_tool.Store.{Row, LedgerRow, Db, delivered, exhausted}
use announcement_tool.Outbox.Ledger.{same_key, same_key_sym, UniqueLedger}
use announcement_tool.Announcements.Table.{row_to_announcement, find_row}
use announcement_tool.Fanout.{
  Adapters, Outcome, resolves, rejects, Pass, attempt, process_row, process_all, is_due, is_open,
  due_rows, run_fanout_once, count_delivered, count_failed,
}
use announcement_tool.Fanout.Machine.{RowOk, set_missing-RowOk, set_attempted-RowOk}
use announcement_tool.Fanout.Tried.{Tried, Visits-In, untouched, missing, attempted}
use announcement_tool.Fanout.Rounds.{Rounds, process_all-Rounds}

module _ {W : Type 0} (now : ℕ) (has_note : Bool) (adapters : Adapters W)
    (locked : LedgerRow → Bool) (batch : ℕ) where
  abbrev after : Db → W → Pass W
  after = run_fanout_once now has_note adapters locked batch

  abbrev due : Db → List LedgerRow
  due = due_rows now has_note adapters locked batch

  In-due :
      (db : Db) (r : LedgerRow)
      → In r (due db)
      → In r db.delivery_ledger × (is_due now has_note adapters r ≡ true)
  unfolding due_rows
  In-due db r m =
      let (n, e) = In-keep _ r db.delivery_ledger (In-sort_by _ r _ (In-take r batch _ m)) in
      (n, ground arith)

  Distinct-due : (db : Db) → UniqueLedger db.delivery_ledger → Distinct same_key (due db)
  unfolding due_rows
  Distinct-due db u =
      Distinct-take same_key batch _
        (Distinct-sort_by same_key same_key_sym _ _ (Distinct-keep same_key _ db.delivery_ledger u))

  is_due-is_open : (r : LedgerRow) → is_due now has_note adapters r ≡ true → is_open r.status ≡ true
  is_due-is_open r h = ground arith

  busy :
      (known : List ChannelName)
      → known ≢ []
      → (x y : Pass W) → (elim known [ [] ↦ x | c ∷ cs ↦ y ]) ≡ y
  busy [] h x y = absurd (h refl)
  busy (c ∷ cs) h x y = refl

  -- With at least one adapter, a pass tries the rows of the batch one after the other, each once:
  -- where it has an announcement and an adapter, by one call of the adapter with that announcement
  -- and the row's target and kind, after which it has one attempt more and is delivered, or it keeps
  -- the error and is failed and tried later, or exhausted from the fifth attempt on; it is exhausted
  -- where its announcement is missing, and untouched where its adapter is absent. The world passes
  -- through those calls and through nothing else. Every row outside the batch stays as it was, no
  -- other row appears, and the primary key of the ledger still holds. This is for any outcome of the
  -- adapters.
  pub run_fanout_once-Rounds :
      (db : Db) (world : W)
      → adapters.known ≢ []
      → UniqueLedger db.delivery_ledger
      → Rounds now has_note adapters db.announcements
          (due_rows now has_note adapters locked batch db)
          world
          (run_fanout_once now has_note adapters locked batch db world).world
          db.delivery_ledger
          (run_fanout_once now has_note adapters locked batch db world).db.delivery_ledger
  unfolding run_fanout_once
  run_fanout_once-Rounds db world h u =
      subst
        (λ (p : Pass W).
          Rounds now has_note adapters db.announcements (due db) world p.world db.delivery_ledger
            p.db.delivery_ledger)
        (sym (busy adapters.known h _ _))
        (process_all-Rounds now has_note adapters db.announcements (due db) _ refl u
          (Distinct-due db u) λ r m. (In-due db r m).0)

  idle : (db : Db) (world : W) → adapters.known ≡ [] → (after db world).db ≡ db
  unfolding run_fanout_once
  idle db world e = rw (e, run_fanout_once)

  row_in_order :
      (rows : List Row) (r s : LedgerRow) (w v : W)
      → is_open r.status ≡ true
      → RowOk r
      → Tried now has_note adapters rows r w s v
      → RowOk s
  row_in_order rows r s w v o ok (untouched row f g e i) = rw e ok
  row_in_order rows r s w v o ok (missing f e x i) = rw e (set_missing-RowOk now r o ok)
  row_in_order rows r s w v o ok (attempted row deliver f g e x i) =
      rw e (set_attempted-RowOk now has_note r _ o ok)

  nil-cases : (known : List ChannelName) → (known ≡ []) ⊎ (known ≢ [])
  nil-cases [] = inl refl
  nil-cases (c ∷ cs) = inr λ e. cc

  -- A pass keeps the ledger in order: a pending row has no attempts, a failed one between one and
  -- four, a delivered one between one and five and a time of delivery, and an exhausted one at most
  -- five and no time of delivery.
  pub run_fanout_once-RowOk :
      (db : Db) (world : W)
      → UniqueLedger db.delivery_ledger
      → ((r : LedgerRow) → In r db.delivery_ledger → RowOk r)
      → (s : LedgerRow)
      → In s (run_fanout_once now has_note adapters locked batch db world).db.delivery_ledger
      → RowOk s
  run_fanout_once-RowOk db world u ok s m = elim (nil-cases adapters.known) [
    | inl e ↦ ok s (rw (idle db world e) at m)
    | inr h ↦
        let rounds = run_fanout_once-Rounds db world h u in
        elim (rounds.only s m) [
          | inl (n, a) ↦ ok s n
          | inr n ↦
              let (r, w, v, o, t) =
                Visits-In now has_note adapters db.announcements (due db) _ rounds.written _ s
                  rounds.visits n in
              let (p, d) = In-due db r o in
              row_in_order db.announcements r s w v (is_due-is_open r d) (ok r p) t
        ]
  ]

  not_due-Apart :
      (rows due : List LedgerRow) (s : LedgerRow)
      → UniqueLedger rows
      → ((r : LedgerRow) → In r due → In r rows × (is_due now has_note adapters r ≡ true))
      → In s rows
      → is_due now has_note adapters s ≡ false
      → Apart same_key s due
  not_due-Apart rows due s u h m n =
      All-In (λ r. same_key s r ≡ false) due
        λ r o. elim (Bool-cases (same_key s r)) [
          | inl e ↦
              let (p, d) = h r o in
              let same = Distinct-eq same_key same_key_sym rows s r u m p e in
              absurd (false-ne-true (sym n ∙ rw same at d))
          | inr e ↦ e
        ]

  -- What keeps a row from a pass.
  pub data Waits (s : LedgerRow) : Type 0 where
    was_delivered : s.status ≡ delivered → Waits s
    is_exhausted : s.status ≡ exhausted → Waits s
    comes_later : now < s.next_attempt_at → Waits s
    is_off : (In s.channel adapters.known → ⊥) → Waits s

  contains-In : (cs : List ChannelName) (c : ChannelName) → contains cs c ≡ true → In c cs
  contains-In [] c h = cc
  contains-In (d ∷ cs) c h = elim (Bool-cases (channel_eq d c)) [
    | inl e ↦ inl (sym ((channel_eq_iff d c).0 e))
    | inr e ↦ inr (contains-In cs c (rw e at h))
  ]

  Waits-not_due : (s : LedgerRow) → Waits s → is_due now has_note adapters s ≡ false
  Waits-not_due s (was_delivered e) = rw e refl
  Waits-not_due s (is_exhausted e) = rw e refl
  Waits-not_due s (comes_later h) = ground arith
  Waits-not_due s (is_off h) = elim (Bool-cases (contains adapters.known s.channel)) [
    | inl e ↦ absurd (h (contains-In adapters.known s.channel e))
    | inr e ↦ ground arith
  ]

  -- A pass leaves as it was every row that is delivered or exhausted, whose next attempt lies in the
  -- future, or whose channel has no adapter.
  pub run_fanout_once-rest :
      (db : Db) (world : W) (s : LedgerRow)
      → UniqueLedger db.delivery_ledger
      → In s db.delivery_ledger
      → Waits s
      → In s (run_fanout_once now has_note adapters locked batch db world).db.delivery_ledger
  run_fanout_once-rest db world s u m waits = elim (nil-cases adapters.known) [
    | inl e ↦ rw (idle db world e) m
    | inr h ↦
        (run_fanout_once-Rounds db world h u).rest s m
          (not_due-Apart db.delivery_ledger (due db) s u (In-due db) m (Waits-not_due s waits))
  ]

  count_one :
      (outcome : Outcome) (d f : ℕ) → count_delivered outcome d + count_failed outcome f ≡ d + f + 1
  count_one (resolves reported) d f = omega arith
  count_one (rejects error) d f = omega arith

  process_row_count :
      (r : LedgerRow) (s : Pass W)
      → (process_row now has_note adapters r s).delivered
          + (process_row now has_note adapters r s).failed
        ≤ s.delivered + s.failed + 1
  unfolding process_row attempt
  process_row_count r s =
      elim (Option-cases (find_row r.announcement_id r.revision s.db.announcements)) [
        | inl e ↦ rw (e, process_row) (omega arith)
        | inr (row, e) ↦ elim (Option-cases (adapters.at r.channel)) [
          | inl f ↦ rw (e, f, process_row) (omega arith)
          | inr (deliver, f) ↦
              rw (e, f, process_row)
                (let (outcome, world) = deliver (row_to_announcement row) r.target r.kind s.world in
                  omega (arith, count_one outcome s.delivered s.failed))
        ]
      ]

  process_all_count :
      (rows : List LedgerRow) (s : Pass W)
      → (process_all now has_note adapters rows s).delivered
          + (process_all now has_note adapters rows s).failed
        ≤ s.delivered + s.failed + length rows
  unfolding process_all
  process_all_count [] s = omega arith
  process_all_count (r ∷ rows) s =
      omega (
        arith,
        process_row_count r s,
        process_all_count rows (process_row now has_note adapters r s),
      )

  length-due : (db : Db) → length (due db) ≤ batch
  unfolding due_rows
  length-due db = omega (arith, length-take batch (sort_by _ (keep _ db.delivery_ledger)))

  -- The deliveries and the failures that a pass reports are together at most the batch.
  pub run_fanout_once-batch :
      (db : Db) (world : W)
      → (run_fanout_once now has_note adapters locked batch db world).delivered
          + (run_fanout_once now has_note adapters locked batch db world).failed
        ≤ batch
  unfolding run_fanout_once
  run_fanout_once-batch db world = elim (nil-cases adapters.known) [
    | inl e ↦ rw (e, run_fanout_once) (omega arith)
    | inr h ↦
        subst (λ (p : Pass W). p.delivered + p.failed ≤ batch) (sym (busy adapters.known h _ _))
          (omega (arith, process_all_count (due db) _, length-due db))
  ]
