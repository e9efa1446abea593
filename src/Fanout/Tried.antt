-- ===== src/Fanout/Tried.antt =====
-- process_row of a pass: what one round writes in the place of a row, and that it keeps the key.
use announcement_tool.Common.{
  ℕ, ◌+◌, ◌≤◌, ◌<◌, ◌⊎◌, arith, take, leb, Bool-cases, ◌≡◌, refl, inl, inr, Bool, List, [], ◌∷◌,
  none, some, In,
}
use announcement_tool.Store.{Row, LedgerRow, delivered, failed, exhausted}
use announcement_tool.Outbox.{has_key}
use announcement_tool.Outbox.Ledger.{same_key}
use announcement_tool.Announcements.Table.{row_to_announcement, find_row}
use announcement_tool.Fanout.Machine.{retry_delay}
use announcement_tool.Fanout.{
  Adapters, Adapter, Outcome, resolves, rejects, set_missing, set_attempted,
}

-- An update of the columns that are no part of the primary key.
abbrev pub KeepsKey : (LedgerRow → LedgerRow) → Type 0
KeepsKey set =
    (r s : LedgerRow) → (same_key (set r) s ≡ same_key r s) × (same_key r (set s) ≡ same_key r s)

pub set_missing-KeepsKey : (now : ℕ) → KeepsKey (set_missing now)
unfolding set_missing has_key
set_missing-KeepsKey now r s = (refl, refl)

pub set_attempted-KeepsKey :
    (now : ℕ) (has_note : Bool) (row : LedgerRow) (outcome : Outcome)
    → KeepsKey (set_attempted now has_note row outcome)
unfolding set_attempted has_key
set_attempted-KeepsKey now has_note row (resolves reported) r s = (refl, refl)
set_attempted-KeepsKey now has_note row (rejects error) r s = (refl, refl)

-- What becomes of a row after a call of its adapter: it is delivered, or it keeps the error and is
-- exhausted from the fifth attempt on, and tried later before.
abbrev pub Ends : ℕ → LedgerRow → Outcome → LedgerRow → Type 0
Ends now r (resolves reported) s =
    (s.status ≡ delivered) × (s.attempts ≡ r.attempts + 1) × (s.delivered_at ≡ some now)
Ends now r (rejects error) s =
    (s.attempts ≡ r.attempts + 1)
    × (s.last_error ≡ some (take 500 error))
    × ((4 < s.attempts × (s.status ≡ exhausted))
        ⊎ (s.attempts ≤ 4 × (s.status ≡ failed) × (now < s.next_attempt_at)))

pub set_attempted-Ends :
    (now : ℕ) (has_note : Bool) (r : LedgerRow) (outcome : Outcome)
    → Ends now r outcome (set_attempted now has_note r outcome r)
unfolding set_attempted
set_attempted-Ends now has_note r (resolves reported) = (refl, refl, refl)
set_attempted-Ends now has_note r (rejects error) = (
  refl,
  refl,
  elim (Bool-cases (leb 5 (r.attempts + 1))) [
    | inl e ↦ inl (ground arith, rw e refl)
    | inr e ↦ inr (
      ground arith,
      rw e refl,
      (let (early, late) = retry_delay now has_note r error in omega arith),
    )
  ],
)

-- What the round on the row `r` writes in its place, `rows` being the announcements, and the world
-- that it leaves of the world `w`: nothing where the adapter is absent, the missing announcement
-- where there is none, and otherwise the outcome of one call of the adapter.
pub data Tried {W : Type 0} (now : ℕ) (has_note : Bool) (adapters : Adapters W) (rows : List Row)
    (r : LedgerRow) (w : W) (s : LedgerRow) (w' : W) : Type 0 where
  untouched :
      (row : Row)
      → find_row r.announcement_id r.revision rows ≡ some row
      → adapters.at r.channel ≡ none
      → s ≡ r
      → w' ≡ w
      → Tried now has_note adapters rows r w s w'
  missing :
      find_row r.announcement_id r.revision rows ≡ none
      → s ≡ set_missing now r
      → s.status ≡ exhausted
      → w' ≡ w
      → Tried now has_note adapters rows r w s w'
  attempted :
      (row : Row) (deliver : Adapter W)
      → find_row r.announcement_id r.revision rows ≡ some row
      → adapters.at r.channel ≡ some deliver
      → s ≡ set_attempted now has_note r (deliver (row_to_announcement row) r.target r.kind w).0 r
      → Ends now r (deliver (row_to_announcement row) r.target r.kind w).0 s
      → w' ≡ (deliver (row_to_announcement row) r.target r.kind w).1
      → Tried now has_note adapters rows r w s w'

module _ {W : Type 0} (now : ℕ) (has_note : Bool) (adapters : Adapters W) (rows : List Row) where
  -- The rounds over `due`, one for each row, in order: each starts from the world that the one before
  -- it left.
  abbrev pub Visits : List LedgerRow → W → List LedgerRow → W → Type 0
  Visits [] w [] w' = w' ≡ w
  Visits [] w (s ∷ written) w' = ⊥
  Visits (r ∷ due) w [] w' = ⊥
  Visits (r ∷ due) w (s ∷ written) w' =
      (v : W) × Tried now has_note adapters rows r w s v × Visits due v written w'

  pub Visits-In :
      (due : List LedgerRow) (w : W) (written : List LedgerRow) (w' : W) (s : LedgerRow)
      → Visits due w written w'
      → In s written
      → (r : LedgerRow) × (u : W) × (v : W) × In r due × Tried now has_note adapters rows r u s v
  Visits-In [] w [] w' s h m = absurd m
  Visits-In [] w (q ∷ written) w' s h m = absurd h
  Visits-In (r ∷ due) w [] w' s h m = absurd h
  Visits-In (r ∷ due) w (q ∷ written) w' s (v, t, more) m = elim m [
    | inl e ↦ (r, w, v, inl refl, rw e t)
    | inr n ↦ let (p, x, y, o, t') = Visits-In due v written w' s more n in (p, x, y, inr o, t')
  ]
