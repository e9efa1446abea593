-- ===== src/Announcements/Rules.antt =====
-- The rules by which an insert and an update keep the invariant.
use announcement_tool.Common.{
  Bool-cases, leb, leb→le, leb-false→lt, ◌≤◌, ◌<◌, ◌≡◌, ◌≢◌, refl, sym, ap, ◌∙◌, ◌⊎◌, inl, inr,
  true, List, [], ◌∷◌, ◌++◌, some, arith, Text, In, In-append_left, In-append_cases,
}
use announcement_tool.Types.{draft}
use announcement_tool.Store.{Row, AuditEntry}
use announcement_tool.Announcements.Table.{is_row, select_latest, update_rows}
use announcement_tool.Announcements.Keys.{Absent, select_latest-In, select_latest-max}
use announcement_tool.Announcements.Updates.{
  UniqueKeys-eq, In-update_rows, update_rows-In_other, update_rows-In_self, update_rows-UniqueKeys,
  UniqueKeys-append,
}
use announcement_tool.Announcements.Invariant.{
  Inv, FourEyes, FourEyes-Grows, Grows, OthersDraft, HasFirst, row_fits,
}

-- No row of the same announcement is later.
abbrev pub IsLatest : Row → List Row → Type 0
IsLatest r rows = (t : Row) → In t rows → t.id ≡ r.id → t.revision ≤ r.revision

pub IsLatest-select :
    (id : Text) (rows : List Row) (r : Row) → select_latest id rows ≡ some r → IsLatest r rows
IsLatest-select id rows r e t m k =
    select_latest-max id rows r t e m (k ∙ (select_latest-In id rows r e).1)

-- A row that is no draft is the latest of its announcement.
pub IsLatest-OthersDraft :
    (rows : List Row) (r : Row) → OthersDraft rows → In r rows → r.status ≢ draft → IsLatest r rows
IsLatest-OthersDraft rows r o m d t n k = elim (Bool-cases (leb t.revision r.revision)) [
  | inl h ↦ leb→le _ _ h
  | inr h ↦ absurd (d (o r t m n (sym k) (leb-false→lt _ _ h)))
]

module _ (set : Row → Row) (keep_id : (r : Row) → (set r).id ≡ r.id)
    (keep_revision : (r : Row) → (set r).revision ≡ r.revision) {rows : List Row}
    {log : List AuditEntry} (r : Row) (inv : Inv rows log) (m : In r rows) where
  -- A row after the update stood there before, with the same key; it is old or the new form of `r`.
  origin :
      (s : Row)
      → In s (update_rows r.id r.revision set rows)
      → (p : Row) × In p rows
        × (s.id ≡ p.id)
        × (s.revision ≡ p.revision)
        × ((s ≡ p) ⊎ ((p ≡ r) × (s ≡ set r)))
  origin s n = elim (In-update_rows set r.id r.revision rows s n) [
    | inl (o, h) ↦ (s, o, refl, refl, inl refl)
    | inr (p, o, h, e) ↦
        let same : p ≡ r = UniqueKeys-eq rows r p inv.keys m o h in
        (
          p,
          o,
          ap (λ (x : Row). x.id) e ∙ keep_id p,
          ap (λ (x : Row). x.revision) e ∙ keep_revision p,
          inr (same, e ∙ ap set same),
        )
  ]

  update-others : IsLatest r rows → OthersDraft (update_rows r.id r.revision set rows)
  update-others latest s t n o i lt =
      let (p, mp, ip, vp, cp) = origin s n in
      let (q, mq, iq, vq, cq) = origin t o in
      let i' : p.id ≡ q.id = sym ip ∙ (i ∙ iq) in
      let lt' : p.revision < q.revision = omega arith in
      elim cp [
        | inl e ↦ ap (λ (x : Row). x.status) e ∙ inv.others p q mp mq i' lt'
        | inr (e, k) ↦ absurd (
            omega (
              arith,
              latest q mq (sym i' ∙ ap (λ (x : Row). x.id) e),
              ap (λ (x : Row). x.revision) e,
            ))
      ]

  image :
      (q : Row)
      → In q rows
      → (q' : Row) × In q' (update_rows r.id r.revision set rows)
        × (q'.id ≡ q.id)
        × (q'.revision ≡ q.revision)
  image q n = elim (Bool-cases (is_row r.id r.revision q)) [
    | inl h ↦
        (set q, update_rows-In_self set r.id r.revision rows q n h, keep_id q, keep_revision q)
    | inr h ↦ (q, update_rows-In_other set r.id r.revision rows q n h, refl, refl)
  ]

  update-first : HasFirst (update_rows r.id r.revision set rows)
  update-first s n =
      let (p, mp, ip, vp, cp) = origin s n in
      let (f, mf, jf, vf) = inv.first p mp in
      let (f', mf', jf', vf') = image f mf in (f', mf', jf' ∙ (jf ∙ sym ip), vf' ∙ vf)

  -- Rewriting the latest row of an announcement keeps the invariant, if the new row fits and has
  -- its approvals.
  pub update-Inv :
      {log' : List AuditEntry}
      → IsLatest r rows
      → Grows log log'
      → row_fits (set r) ≡ true
      → FourEyes log' (set r)
      → Inv (update_rows r.id r.revision set rows) log'
  update-Inv latest grows fit eyes = record {
    keys = update_rows-UniqueKeys set keep_id keep_revision r.id r.revision rows inv.keys;
    others = update-others latest;
    first = update-first;
    fits = λ s n.
        let (p, mp, ip, vp, cp) = origin s n in
        elim cp [ inl e ↦ rw e (inv.fits p mp) | inr (e, k) ↦ rw k fit ];
    eyes = λ s n.
        let (p, mp, ip, vp, cp) = origin s n in
        elim cp [ inl e ↦ rw e (FourEyes-Grows grows (inv.eyes p mp)) | inr (e, k) ↦ rw k eyes ];
  }

module _ {rows : List Row} {log : List AuditEntry} (new : Row) (inv : Inv rows log) where
  In-new : (s : Row) → In s (rows ++ new ∷ []) → In s rows ⊎ (s ≡ new)
  In-new s m = elim (In-append_cases s rows (new ∷ []) m) [
    | inl n ↦ inl n
    | inr n ↦ elim n [ inl e ↦ inr e | inr x ↦ absurd x ]
  ]

  -- A row after the inserted one in order is the inserted row or an old one.
  insert-others :
      ((s : Row) → In s rows → s.id ≡ new.id → (s.revision < new.revision) × (s.status ≡ draft))
      → OthersDraft (rows ++ new ∷ [])
  insert-others before s t ms mt i lt = elim (In-new s ms) [
    | inl ns ↦ elim (In-new t mt) [
      | inl nt ↦ inv.others s t ns nt i lt
      | inr et ↦ (before s ns (i ∙ ap (λ (x : Row). x.id) et)).1
    ]
    | inr es ↦ elim (In-new t mt) [
      | inl nt ↦ absurd (
          omega (
            arith,
            (before t nt (sym i ∙ ap (λ (x : Row). x.id) es)).0,
            ap (λ (x : Row). x.revision) es,
          ))
      | inr et ↦
          absurd (omega (arith, ap (λ (x : Row). x.revision) es, ap (λ (x : Row). x.revision) et))
    ]
  ]

  -- A new revision of an announcement whose other rows are drafts before it keeps the invariant.
  pub insert-Inv :
      {log' : List AuditEntry}
      → ((s : Row) → In s rows → s.id ≡ new.id → (s.revision < new.revision) × (s.status ≡ draft))
      → Absent new.id new.revision rows
      → ((s : Row) × In s (rows ++ new ∷ []) × (s.id ≡ new.id) × (s.revision ≡ 1))
      → Grows log log'
      → row_fits new ≡ true
      → FourEyes log' new
      → Inv (rows ++ new ∷ []) log'
  insert-Inv before absent first grows fit eyes = record {
    keys = UniqueKeys-append rows new inv.keys absent;
    others = insert-others before;
    first = λ s m. elim (In-new s m) [
      | inl n ↦ let (f, mf, i, v) = inv.first s n in (f, In-append_left f rows (new ∷ []) mf, i, v)
      | inr e ↦ rw e first
    ];
    fits = λ s m. elim (In-new s m) [ inl n ↦ inv.fits s n | inr e ↦ rw e fit ];
    eyes = λ s m. elim (In-new s m) [
      | inl n ↦ FourEyes-Grows grows (inv.eyes s n)
      | inr e ↦ rw e eyes
    ];
  }
