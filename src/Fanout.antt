-- ===== src/Fanout.antt =====
-- src/worker/fanout.ts: one pass over the due rows of the ledger. An adapter is a function of the
-- announcement, the target and the kind that acts on a world of its own; `next_attempt_at` and the
-- other times are in milliseconds. `for update skip locked` passes over the rows that `locked` tells
-- to be held by another worker.
pub mod Machine
pub mod Batch
pub mod Tried
pub mod Rounds
pub mod Tables
use announcement_tool.Common.{
  ℕ, zero, suc, ◌+◌, ◌-◌, ◌*◌, Bool, true, false, ◌&&◌, not, List, [], ◌∷◌, Option, none, some,
  Text, codes, take, keep, contains, sort_by, update_where, leb, min, is_blank, if◌then◌else◌,
}
use announcement_tool.Types.{Announcement, ChannelName, DeliveryKind, channel_has_eq}
use announcement_tool.Store.{LedgerRow, DeliveryStatus, Db, pending, delivered, failed, exhausted}
use announcement_tool.Outbox.{has_key}
use announcement_tool.Announcements.Table.{row_to_announcement, find_row}

abbrev pub backoff_minutes : List ℕ
backoff_minutes = 2 ∷ 5 ∷ 10 ∷ 20 ∷ 30 ∷ []

abbrev pub max_attempts : ℕ
max_attempts = 5

abbrev pub minute : ℕ
minute = 60_000

-- How `deliver` ends: it resolves, with the `publishNote` that it reports if that is a text, or it
-- rejects with an error, given as `String(err)`.
pub data Outcome : Type 0 where
  resolves : Option Text → Outcome
  rejects : Text → Outcome

abbrev pub Adapter : Type 0 → Type 0
Adapter W = Announcement → Text → DeliveryKind → W → Outcome × W

-- `Record<string, ChannelAdapter>`: its keys, and what stands under each.
pub record Adapters (W : Type 0) : Type 0 where
  pub known : List ChannelName
  pub at : ChannelName → Option (Adapter W)

-- BACKOFF_MINUTES[Math.min(attempts - 1, BACKOFF_MINUTES.length - 1)]
abbrev pub nth_minutes : List ℕ → ℕ → ℕ
nth_minutes [] i = 0
nth_minutes (m ∷ ms) zero = m
nth_minutes (m ∷ ms) (suc i) = nth_minutes ms i

unfoldable pub backoff : ℕ → ℕ
backoff attempts = nth_minutes backoff_minutes (min (attempts - 1) 4)

-- typeof rawNote === 'string' && rawNote ? rawNote.slice(0, 200) : null
unfoldable pub publish_note : Option Text → Option Text
publish_note none = none
publish_note (some note) = if is_blank note then none else some (take 200 note)

abbrev pub announcement_missing : Text
announcement_missing = codes "announcement missing"

unfoldable pub set_missing : ℕ → LedgerRow → LedgerRow
set_missing now r = record r {
  status = exhausted;
  last_error = some announcement_missing;
  next_attempt_at = now;
}

-- The update after an attempt on `row`, the row that the select returned.
unfoldable pub set_attempted : ℕ → Bool → LedgerRow → Outcome → LedgerRow → LedgerRow
unfolding publish_note backoff
set_attempted now has_note row (resolves note) r = record r {
  status = delivered;
  attempts = row.attempts + 1;
  delivered_at = some now;
  publish_note = if has_note then publish_note note else r.publish_note;
}
set_attempted now has_note row (rejects error) r = record r {
  status = if leb max_attempts (row.attempts + 1) then exhausted else failed;
  attempts = row.attempts + 1;
  last_error = some (take 500 error);
  next_attempt_at = now + backoff (row.attempts + 1) * minute;
}

-- where announcement_id = … and revision = … and kind = … and channel = … and target = …
abbrev pub key_of : LedgerRow → LedgerRow → Bool
key_of row = has_key row.announcement_id row.revision row.kind row.channel row.target

pub record Pass (W : Type 0) : Type 0 where
  pub db : Db
  pub world : W
  pub delivered : ℕ
  pub failed : ℕ

-- status in ('pending','failed')
abbrev pub is_open : DeliveryStatus → Bool
is_open pending = true
is_open failed = true
is_open _ = false

abbrev pub count_delivered : Outcome → ℕ → ℕ
count_delivered (resolves reported) n = n + 1
count_delivered (rejects error) n = n

abbrev pub count_failed : Outcome → ℕ → ℕ
count_failed (resolves reported) n = n
count_failed (rejects error) n = n + 1

unfoldable pub set_ledger : LedgerRow → (LedgerRow → LedgerRow) → Db → Db
set_ledger row set db = record db {
  delivery_ledger = update_where (key_of row) set db.delivery_ledger;
}

module _ {W : Type 0} (now : ℕ) (has_note : Bool) (adapters : Adapters W) where
  -- try { … } catch (err) { … } around one call of an adapter
  unfoldable pub attempt : LedgerRow → Adapter W → Announcement → Pass W → Pass W
  attempt row deliver a s =
      let (outcome, world) = deliver a row.target row.kind s.world in
      record {
        db = set_ledger row (set_attempted now has_note row outcome) s.db;
        world = world;
        delivered = count_delivered outcome s.delivered;
        failed = count_failed outcome s.failed;
      }

  -- One round of the loop.
  unfoldable pub process_row : LedgerRow → Pass W → Pass W
  process_row row s = elim (find_row row.announcement_id row.revision s.db.announcements) [
    | none ↦ record s { db = set_ledger row (set_missing now) s.db }
    | some r ↦ elim (adapters.at row.channel) [
      | none ↦ s
      | some deliver ↦ attempt row deliver (row_to_announcement r) s
    ]
  ]

  unfoldable pub process_all : List LedgerRow → Pass W → Pass W
  process_all [] s = s
  process_all (row ∷ due) s = process_all due (process_row row s)

  -- status in ('pending','failed') and next_attempt_at <= now() and channel in ${known}
  abbrev pub is_due : LedgerRow → Bool
  is_due r = is_open r.status && leb r.next_attempt_at now && contains adapters.known r.channel

  unfoldable pub due_rows : (LedgerRow → Bool) → ℕ → Db → List LedgerRow
  due_rows locked batch db = take batch (
      sort_by (λ r s. leb r.next_attempt_at s.next_attempt_at)
        (keep (λ r. is_due r && not (locked r)) db.delivery_ledger))

  -- if (known.length === 0) return
  unfoldable pub run_fanout_once : (LedgerRow → Bool) → ℕ → Db → W → Pass W
  run_fanout_once locked batch db world =
      let start : Pass W = record { db = db; world = world; delivered = 0; failed = 0 } in
      elim adapters.known [ [] ↦ start | c ∷ cs ↦ process_all (due_rows locked batch db) start ]
