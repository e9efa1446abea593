-- ===== src/Outbox/Enqueue.antt =====
-- enqueueDeliveries as a whole: one row for each target, none touched, none doubled.
use announcement_tool.Common.{
  Distinct-append, ℕ, ◌+◌, ◌≡◌, refl, sym, ◌∙◌, ◌⊎◌, inl, inr, Bool, true, false, List, [], ◌∷◌,
  arith, In, In-append_left, In-append_right, In-append_cases, length, length-append, Bool-cases,
  false-ne-true,
}
use native.Mathlib.Nat.{zero-add}
use announcement_tool.Types.{Announcement, ChannelName, DeliveryKind, DeliveryTarget}
use announcement_tool.Store.{LedgerRow, Db}
use announcement_tool.Outbox.{
  key_taken, new_row, insert_target, insert_targets, count_fanout_targets, enqueue_deliveries,
}
use announcement_tool.Outbox.Ledger.{
  UniqueLedger, same_key, same_key_sym, same_key_self, key_taken-Free, In-key_taken, key_taken-In,
}

-- What inserting `targets` does to the ledger `before`.
pub record Enqueued (now : ℕ) (a : Announcement) (kind : DeliveryKind)
    (targets : List DeliveryTarget) (before after : List LedgerRow) (inserted : ℕ) : Type 0 where
  pub kept : (r : LedgerRow) → In r before → In r after
  pub reached : (t : DeliveryTarget) → In t targets → key_taken a.id a.revision kind t after ≡ true
  pub fresh :
      (r : LedgerRow)
      → In r after
      → In r before
        ⊎ ((t : DeliveryTarget) × In t targets
            × (r ≡ new_row now a kind t)
            × (key_taken a.id a.revision kind t before ≡ false))
  pub counted : length after ≡ length before + inserted
  pub unique : UniqueLedger before → UniqueLedger after

module _ (now : ℕ) (a : Announcement) (kind : DeliveryKind) where
  abbrev taken : DeliveryTarget → List LedgerRow → Bool
  taken t ledger = key_taken a.id a.revision kind t ledger

  taken_mono :
      (t : DeliveryTarget) (before after : List LedgerRow)
      → ((r : LedgerRow) → In r before → In r after)
      → taken t before ≡ true
      → taken t after ≡ true
  taken_mono t before after sub h =
      let (r, m, k) = key_taken-In now a kind t before h in
      In-key_taken now a kind t after r (sub r m) k

  insert_target-Enqueued :
      (t : DeliveryTarget) (ledger : List LedgerRow) (n : ℕ)
      → (i : ℕ) × ((insert_target now a kind t (ledger, n)).1 ≡ n + i)
        × Enqueued now a kind (t ∷ []) ledger (insert_target now a kind t (ledger, n)).0 i
  unfolding insert_target
  insert_target-Enqueued t ledger n = elim (Bool-cases (taken t ledger)) [
    | inl e ↦ rw e (
      0,
      omega arith,
      record {
        kept = λ r m. m;
        reached = λ u m. elim m [ inl i ↦ rw i e | inr x ↦ absurd x ];
        fresh = λ r m. inl m;
        counted = omega arith;
        unique = λ u. u;
      },
    )
    | inr e ↦ rw e (
      1,
      refl,
      record {
        kept = λ r m. In-append_left r ledger _ m;
        reached = λ u m. elim m [
          | inl i ↦ rw i (
              In-key_taken now a kind t _ (new_row now a kind t)
                (In-append_right _ ledger _ (inl refl)) (same_key_self (new_row now a kind t)))
          | inr x ↦ absurd x
        ];
        fresh = λ r m. elim (In-append_cases r ledger _ m) [
          | inl n ↦ inl n
          | inr n ↦ elim n [ inl i ↦ inr (t, inl refl, i, e) | inr x ↦ absurd x ]
        ];
        counted = length-append ledger (new_row now a kind t ∷ []);
        unique = λ u.
            Distinct-append same_key same_key_sym ledger _ u (key_taken-Free now a kind t ledger e);
      },
    )
  ]

  pub insert_targets-Enqueued :
      (ts : List DeliveryTarget) (ledger : List LedgerRow) (n : ℕ)
      → (i : ℕ) × ((insert_targets now a kind ts (ledger, n)).1 ≡ n + i)
        × Enqueued now a kind ts ledger (insert_targets now a kind ts (ledger, n)).0 i
  unfolding insert_targets
  insert_targets-Enqueued [] ledger n = (
    0,
    omega arith,
    record {
      kept = λ r m. m;
      reached = λ u m. absurd m;
      fresh = λ r m. inl m;
      counted = omega arith;
      unique = λ u. u;
    },
  )
  insert_targets-Enqueued (t ∷ ts) ledger n =
      let (ledger1, n1) = insert_target now a kind t (ledger, n) in
      let (i, e, one) = insert_target-Enqueued t ledger n in
      let (j, k, more) = insert_targets-Enqueued ts ledger1 n1 in
      (
        i + j,
        omega arith,
        record {
          kept = λ r m. more.kept r (one.kept r m);
          reached = λ u m. elim m [
            | inl h ↦ taken_mono u ledger1 _ more.kept (one.reached u (inl h))
            | inr h ↦ more.reached u h
          ];
          fresh = λ r m. elim (more.fresh r m) [
            | inl h ↦ elim (one.fresh r h) [
              | inl g ↦ inl g
              | inr (u, o, p, q) ↦ inr (u, (elim o [ inl i ↦ inl i | inr x ↦ absurd x ]), p, q)
            ]
            | inr (u, o, p, q) ↦ inr (
              u,
              inr o,
              p,
              (elim (Bool-cases (taken u ledger)) [
                | inl h ↦ absurd (false-ne-true (sym q ∙ taken_mono u ledger ledger1 one.kept h))
                | inr h ↦ h
              ]),
            )
          ];
          counted = omega (arith, one.counted, more.counted);
          unique = λ u. more.unique (one.unique u);
        },
      )

  -- Where every target has its row, nothing is inserted.
  insert_targets-taken :
      (ts : List DeliveryTarget) (ledger : List LedgerRow) (n : ℕ)
      → ((t : DeliveryTarget) → In t ts → taken t ledger ≡ true)
      → insert_targets now a kind ts (ledger, n) ≡ (ledger, n)
  unfolding insert_targets insert_target
  insert_targets-taken [] ledger n h = refl
  insert_targets-taken (t ∷ ts) ledger n h =
      rw (h t (inl refl)) (insert_targets-taken ts ledger n (λ u m. h u (inr m)))

  -- An enqueue keeps every row of the ledger as it is, gives each target of the announcement a row,
  -- adds nothing but pending rows of targets that had none, counts what it added, and keeps the
  -- primary key.
  pub enqueue_deliveries-Enqueued :
      (enabled : List ChannelName) (db : Db)
      → Enqueued now a kind
          (count_fanout_targets enabled db a)
          db.delivery_ledger
          (enqueue_deliveries now enabled a kind db).0.delivery_ledger
          (enqueue_deliveries now enabled a kind db).1
  unfolding enqueue_deliveries
  enqueue_deliveries-Enqueued enabled db =
      let (i, e, all) =
        insert_targets-Enqueued (count_fanout_targets enabled db a) db.delivery_ledger 0 in
      rw (e, zero-add) all

-- The targets do not depend on the ledger.
same_targets :
    (now : ℕ) (a : Announcement) (kind : DeliveryKind) (enabled : List ChannelName) (db : Db)
    (t : DeliveryTarget)
    → In t (count_fanout_targets enabled (enqueue_deliveries now enabled a kind db).0 a)
    → In t (count_fanout_targets enabled db a)
unfolding enqueue_deliveries count_fanout_targets
same_targets now a kind enabled db t m = m

enqueue_again :
    (now : ℕ) (a : Announcement) (kind : DeliveryKind) (enabled : List ChannelName) (db : Db)
    → ((t : DeliveryTarget)
        → In t (count_fanout_targets enabled db a)
        → key_taken a.id a.revision kind t db.delivery_ledger ≡ true)
    → enqueue_deliveries now enabled a kind db ≡ (db, 0)
unfolding enqueue_deliveries
enqueue_again now a kind enabled db h =
    rw (insert_targets-taken now a kind (count_fanout_targets enabled db a) db.delivery_ledger 0 h)

-- A second enqueue of the same announcement, at any later time, inserts no row and leaves the
-- database as the first left it: no destination is served twice.
pub enqueue_deliveries_twice :
    (now later : ℕ) (a : Announcement) (kind : DeliveryKind) (enabled : List ChannelName) (db : Db)
    → enqueue_deliveries later enabled a kind (enqueue_deliveries now enabled a kind db).0
      ≡ ((enqueue_deliveries now enabled a kind db).0, 0)
enqueue_deliveries_twice now later a kind enabled db =
    enqueue_again later a kind enabled (enqueue_deliveries now enabled a kind db).0 (λ t m.
      (enqueue_deliveries-Enqueued now a kind enabled db).reached t
        (same_targets now a kind enabled db t m))
