-- ===== src/Fanout/Machine.antt =====
-- The life of one row of the ledger under runFanoutOnce: which statuses go with which numbers of
-- attempts, and when a failed row is tried again.
use announcement_tool.Common.{
  ℕ, ◌+◌, ◌-◌, ◌*◌, ◌≤◌, ◌≡◌, ◌≢◌, refl, Bool, true, false, Option, none, some, arith, Text, leb,
  min, if◌then◌else◌, suc, zero, ◌<◌, List, [], ◌∷◌, length, ◌∙◌,
}
use announcement_tool.Store.{LedgerRow, DeliveryStatus, pending, delivered, failed, exhausted}
use announcement_tool.Fanout.{
  Outcome, resolves, rejects, backoff, max_attempts, minute, set_missing, set_attempted, is_open,
}

-- What the columns of a row say, for each status.
abbrev pub StatusOk : DeliveryStatus → ℕ → Option ℕ → Type 0
StatusOk pending attempts at = (attempts ≡ 0) × (at ≡ none)
StatusOk failed attempts at = (1 ≤ attempts) × (attempts < max_attempts) × (at ≡ none)
StatusOk delivered attempts at = (1 ≤ attempts) × (attempts ≤ max_attempts) × (at ≢ none)
StatusOk exhausted attempts at = (attempts ≤ max_attempts) × (at ≡ none)

abbrev pub RowOk : LedgerRow → Type 0
RowOk r = StatusOk r.status r.attempts r.delivered_at

some-ne-none : {A : Type 0} (a : A) → some a ≢ none
some-ne-none a h = cc

open-StatusOk :
    (status : DeliveryStatus) (attempts : ℕ) (at : Option ℕ)
    → is_open status ≡ true
    → StatusOk status attempts at
    → (attempts < max_attempts) × (at ≡ none)
open-StatusOk pending attempts at o ok = (omega (arith, ok.0), ok.1)
open-StatusOk failed attempts at o ok = let (one, more, e) = ok in (more, e)
open-StatusOk delivered attempts at o ok = cc
open-StatusOk exhausted attempts at o ok = cc

-- An open row, the number of attempts on which is below the limit, and that was not delivered.
pub open-RowOk :
    (r : LedgerRow)
    → is_open r.status ≡ true
    → RowOk r
    → (r.attempts < max_attempts) × (r.delivered_at ≡ none)
open-RowOk r o ok = open-StatusOk r.status r.attempts r.delivered_at o ok

pub set_missing-RowOk :
    (now : ℕ) (r : LedgerRow) → is_open r.status ≡ true → RowOk r → RowOk (set_missing now r)
unfolding set_missing
set_missing-RowOk now r o ok = let (n, e) = open-RowOk r o ok in (omega arith, e)

failure-StatusOk :
    (n : ℕ) (at : Option ℕ) (spent : Bool)
    → leb max_attempts (n + 1) ≡ spent
    → n < max_attempts
    → at ≡ none
    → StatusOk (if spent then exhausted else failed) (n + 1) at
failure-StatusOk n at true h lt e = (omega arith, e)
failure-StatusOk n at false h lt e = (omega arith, ground arith, e)

-- The outcome of an attempt on an open row leaves a row that is in order: a delivered one with the
-- time, a failed one with attempts left, or an exhausted one at the limit.
pub set_attempted-RowOk :
    (now : ℕ) (has_note : Bool) (r : LedgerRow) (outcome : Outcome)
    → is_open r.status ≡ true
    → RowOk r
    → RowOk (set_attempted now has_note r outcome r)
unfolding set_attempted
set_attempted-RowOk now has_note r (resolves reported) o ok =
    let (n, e) = open-RowOk r o ok in (omega arith, omega arith, some-ne-none now)
set_attempted-RowOk now has_note r (rejects error) o ok =
    let (n, e) = open-RowOk r o ok in
    failure-StatusOk r.attempts r.delivered_at (leb max_attempts (r.attempts + 1)) refl n e

backoff_bounds : (n : ℕ) → (2 ≤ backoff (n + 1)) × (backoff (n + 1) ≤ 30)
unfolding backoff
backoff_bounds zero = (omega arith, omega arith)
backoff_bounds (suc zero) = (omega arith, omega arith)
backoff_bounds (suc (suc zero)) = (omega arith, omega arith)
backoff_bounds (suc (suc (suc zero))) = (omega arith, omega arith)
backoff_bounds (suc (suc (suc (suc n)))) =
    let last : min (suc (suc (suc (suc n))) + 1 - 1) 4 ≡ 4 = omega arith in
    rw (last, backoff) (omega arith, omega arith)

-- After a failed attempt the next one is due between two and thirty minutes later.
pub retry_delay :
    (now : ℕ) (has_note : Bool) (r : LedgerRow) (error : Text)
    → (now + 2 * minute ≤ (set_attempted now has_note r (rejects error) r).next_attempt_at)
      × ((set_attempted now has_note r (rejects error) r).next_attempt_at ≤ now + 30 * minute)
unfolding set_attempted
retry_delay now has_note r error =
    let (low, high) = backoff_bounds r.attempts in (omega arith, omega arith)

-- One failed attempt after another, the time and the error of each given.
unfoldable pub fail_all : Bool → List (ℕ × Text) → LedgerRow → LedgerRow
fail_all has_note [] r = r
fail_all has_note ((now, error) ∷ tries) r =
    fail_all has_note tries (set_attempted now has_note r (rejects error) r)

last_failure :
    (has_note : Bool) (try : ℕ × Text) (tries : List (ℕ × Text)) (r : LedgerRow)
    → ((fail_all has_note (try ∷ tries) r).attempts ≡ r.attempts + suc (length tries))
      × ((fail_all has_note (try ∷ tries) r).status
          ≡ (if leb max_attempts (r.attempts + suc (length tries)) then exhausted else failed))
unfolding fail_all set_attempted
last_failure has_note (now, error) [] r = (refl, refl)
last_failure has_note (now, error) (next ∷ tries) r =
    let failure = set_attempted now has_note r (rejects error) r in
    let (n, s) = last_failure has_note next tries failure in
    let sum : r.attempts + 1 + suc (length tries) ≡ r.attempts + suc (suc (length tries)) =
      omega arith in
    (n ∙ sum, rw sum at s)

-- A row that no attempt was made on is failed after one to four failed attempts in a row, and
-- exhausted after the fifth.
pub exhausted_after_five :
    (has_note : Bool) (tries : List (ℕ × Text)) (r : LedgerRow)
    → r.attempts ≡ 0
    → 1 ≤ length tries
    → length tries ≤ 5
    → ((fail_all has_note tries r).attempts ≡ length tries)
      × ((fail_all has_note tries r).status ≡ (if leb 5 (length tries) then exhausted else failed))
exhausted_after_five has_note [] r none_yet some_try h = absurd (omega arith)
exhausted_after_five has_note (try ∷ tries) r none_yet some_try h =
    let (n, s) = last_failure has_note try tries r in
    let sum : r.attempts + suc (length tries) ≡ suc (length tries) = omega arith in
    (n ∙ sum, rw sum at s)
