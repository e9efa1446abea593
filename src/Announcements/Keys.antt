-- ===== src/Announcements/Keys.antt =====
-- The table `announcements` under its primary key: what a select and an update touch.
use announcement_tool.Common.{
  Distinct, some_inj, none-ne-some, false-ne-true, ltb-false→le, ◌∙◌, ◌≢◌, ltb, ltb→lt,
  if◌then◌else◌, ap, ℕ, ◌≤◌, ◌≡◌, refl, sym, ◌⊎◌, inl, inr, Bool, true, false, List, [], ◌∷◌,
  Option, none, some, arith, Text, text_eq, text_eq_iff, text_eq_refl, In, All, Bool-cases,
  Option-cases,
}
use announcement_tool.Store.{Row}
use announcement_tool.Announcements.Table.{later, select_latest, is_row}

-- No row of `rows` has the key.
abbrev pub Absent : Text → ℕ → List Row → Type 0
Absent id revision = All (λ s. is_row id revision s ≡ false)

-- The primary key (id, revision).
abbrev pub same_row : Row → Row → Bool
same_row r s = is_row r.id r.revision s

abbrev pub UniqueKeys : List Row → Type 0
UniqueKeys = Distinct same_row

pub is_row_self : (r : Row) → is_row r.id r.revision r ≡ true
is_row_self r = ground (arith, text_eq_refl r.id)

pub is_row-eq :
    (id : Text) (revision : ℕ) (r : Row)
    → is_row id revision r ≡ true
    → (r.id ≡ id) × (r.revision ≡ revision)
is_row-eq id revision r h = ground (arith, text_eq_iff r.id id)

pub is_row_sym : (r s : Row) → is_row r.id r.revision s ≡ false → is_row s.id s.revision r ≡ false
is_row_sym r s h = ground (arith, text_eq_iff r.id s.id, text_eq_iff s.id r.id)

pub Absent-In :
    (id : Text) (revision : ℕ) (rows : List Row) (s : Row)
    → Absent id revision rows
    → In s rows
    → is_row id revision s ≡ false
Absent-In id revision [] s a m = absurd m
Absent-In id revision (r ∷ rs) s a (inl e) = ground arith
Absent-In id revision (r ∷ rs) s a (inr m) = Absent-In id revision rs s a.1 m

-- Where the row that a select returns comes from.
select_cases :
    (hit : Bool) (o : Option Row) (s r : Row)
    → (if hit then some (later s o) else o) ≡ some r
    → ((hit ≡ true) × (r ≡ s)) ⊎ (o ≡ some r)
unfolding later
select_cases true none s r h = inl (refl, sym (some_inj h))
select_cases true (some q) s r h = elim (Bool-cases (ltb s.revision q.revision)) [
  | inl e ↦ inr (rw e at h)
  | inr e ↦ inl (refl, sym (some_inj (rw e at h)))
]
select_cases false o s r h = inr h

-- What the select returns is a row of the announcement.
pub select_latest-In :
    (id : Text) (rows : List Row) (r : Row)
    → select_latest id rows ≡ some r
    → In r rows × (r.id ≡ id)
unfolding select_latest
select_latest-In id [] r h = cc
select_latest-In id (s ∷ rest) r h =
    elim (select_cases (text_eq s.id id) (select_latest id rest) s r h) [
      | inl (hit, e) ↦ (inl e, rw e ((text_eq_iff s.id id).0 hit))
      | inr below ↦ let (m, e) = select_latest-In id rest r below in (inr m, e)
    ]

abbrev revision_of : {s r : Row} → s ≡ r → s.revision ≡ r.revision
revision_of e = ap (λ (x : Row). x.revision) e

-- It is no earlier than the row at the head, nor than the one selected from the tail.
later_bound :
    (hit : Bool) (o : Option Row) (s r : Row)
    → (if hit then some (later s o) else o) ≡ some r
    → (hit ≡ true → s.revision ≤ r.revision) × ((q : Row) → o ≡ some q → q.revision ≤ r.revision)
unfolding later
later_bound true none s r h = (λ t. omega (arith, revision_of (some_inj h)), λ q e. cc)
later_bound true (some p) s r h = elim (Bool-cases (ltb s.revision p.revision)) [
  | inl e ↦
      let i : p ≡ r = some_inj (rw e at h) in
      (
        λ t. omega (arith, revision_of i, ltb→lt s.revision p.revision e),
        λ q k. omega (arith, revision_of i, revision_of (some_inj k)),
      )
  | inr e ↦
      let i : s ≡ r = some_inj (rw e at h) in
      (
        λ t. omega (arith, revision_of i),
        λ q k. omega (arith, revision_of i, revision_of (some_inj k), ltb-false→le _ _ e),
      )
]
later_bound false o s r h = (λ t. cc, λ q e. omega (arith, revision_of (some_inj (sym e ∙ h))))

-- A select that returns nothing finds no row of the announcement.
pub select_latest-none :
    (id : Text) (rows : List Row) (s : Row) → select_latest id rows ≡ none → In s rows → s.id ≢ id
unfolding select_latest
select_latest-none id [] s h m = absurd m
select_latest-none id (q ∷ rest) s h m = elim (Bool-cases (text_eq q.id id)) [
  | inl e ↦ absurd (none-ne-some (sym (rw e at h)))
  | inr e ↦
      let below : select_latest id rest ≡ none = rw e at h in
      elim m [
        | inl i ↦ λ k.
            false-ne-true (sym e ∙ (text_eq_iff q.id id).1 (ap (λ (x : Row). x.id) (sym i) ∙ k))
        | inr n ↦ select_latest-none id rest s below n
      ]
]

-- No row of the announcement has a later revision.
pub select_latest-max :
    (id : Text) (rows : List Row) (r s : Row)
    → select_latest id rows ≡ some r
    → In s rows
    → s.id ≡ id
    → s.revision ≤ r.revision
unfolding select_latest
select_latest-max id [] r s h m e = absurd m
select_latest-max id (q ∷ rest) r s h m e =
    let bound = later_bound (text_eq q.id id) (select_latest id rest) q r h in
    elim m [
      | inl i ↦
          let t = (text_eq_iff q.id id).1 (ap (λ (x : Row). x.id) (sym i) ∙ e) in
          omega (arith, revision_of i, bound.0 t)
      | inr n ↦ elim (Option-cases (select_latest id rest)) [
        | inl k ↦ absurd (select_latest-none id rest s k n e)
        | inr (p, k) ↦ omega (arith, bound.1 p k, select_latest-max id rest p s k n e)
      ]
    ]
