-- ===== src/Identity/Gate.antt =====
-- src/core/identity.ts (listPublishers, assertPublishersConfigured), src/web/admin-gate.ts and
-- instrumentation.ts: who may read the admin pages, and when the server starts. A query that fails
-- answers `none`; `before` is the order of the database on texts.
use announcement_tool.Common.{
  ℕ, zero, suc, Bool, false, not, List, [], ◌∷◌, Option, none, some, Text, codes, includes, sort_by,
  if◌then◌else◌, Result, ok, err, ◌>>=◌, ◌>>◌,
}
use announcement_tool.Guard.{
  GuardEnv, Problem, is_text, checks_apply, check_environment, guard_env_from_process,
}
use announcement_tool.Identity.{Identity, Headers, resolve_identity, is_publisher}

unfoldable pub list_publishers : (Text → Text → Bool) → List Text → List Text
list_publishers before publishers = sort_by before publishers

pub data Reason : Type 0 where
  no_identity not_publisher unavailable : Reason

pub data AdminGate : Type 0 where
  allowed : Identity → List Text → AdminGate
  refused : Reason → AdminGate

-- The answers of the queries of `isPublisher` and of `listPublishers`.
unfoldable pub gate_for :
    (Text → Text → Bool) → Bool → Option (List Text) → Option (List Text) → Identity → AdminGate
unfolding list_publishers
gate_for before checks none listed identity = refused unavailable
gate_for before checks (some publishers) listed identity =
    if not (is_publisher checks publishers identity.email)
    then refused not_publisher
    else elim listed [
      | none ↦ refused unavailable
      | some emails ↦ allowed identity (list_publishers before emails)
    ]

unfoldable pub require_publisher :
    (Text → Text → Bool)
    → GuardEnv
    → Bool
    → Option Text
    → Option (List Text)
    → Option (List Text)
    → Headers
    → AdminGate
unfolding gate_for
require_publisher before env is_vm dev_email publishers listed headers =
    elim (resolve_identity is_vm dev_email headers) [
      | none ↦ refused no_identity
      | some identity ↦ gate_for before (checks_apply env) publishers listed identity
    ]

abbrev pub unreachable_codes : List Text
unreachable_codes =
    codes "CONNECT_TIMEOUT"
    ∷ codes "CONNECTION_CLOSED"
    ∷ codes "CONNECTION_ENDED"
    ∷ codes "CONNECTION_DESTROYED"
    ∷ codes "ECONNREFUSED"
    ∷ codes "ECONNRESET"
    ∷ codes "ETIMEDOUT"
    ∷ codes "EHOSTUNREACH"
    ∷ codes "ENETUNREACH"
    ∷ codes "ENOTFOUND"
    ∷ codes "EAI_AGAIN"
    ∷ codes "57P03"
    ∷ codes "53300"
    ∷ []

pub data StartCheckResult : Type 0 where
  healthy unreachable : StartCheckResult

-- How the race of the query with the budget ends: the query answers rows, whose count is `none` if it
-- is no number, or it fails, with a code if the error has one, or the budget is over.
pub data Race : Type 0 where
  answers : List (Option ℕ) → Race
  fails : Option Text → Race
  budget : Race

pub data StartError : Type 0 where
  unsafe_configuration : List Problem → StartError
  query_failed : Option Text → StartError
  publishers_empty unexpected_answer : StartError

-- typeof code === 'string' && UNREACHABLE.has(code)
unfoldable pub is_unreachable : Option Text → Bool
is_unreachable none = false
is_unreachable (some code) = includes unreachable_codes code

unfoldable pub check_rows : List (Option ℕ) → Result StartError StartCheckResult
check_rows (some zero ∷ rows) = err publishers_empty
check_rows (some (suc n) ∷ rows) = ok healthy
check_rows (none ∷ rows) = err unexpected_answer
check_rows [] = err unexpected_answer

unfoldable pub check_race : Race → Result StartError StartCheckResult
unfolding is_unreachable check_rows
check_race (answers rows) = check_rows rows
check_race (fails code) = if is_unreachable code then ok unreachable else err (query_failed code)
check_race budget = ok unreachable

unfoldable pub assert_publishers_configured : GuardEnv → Race → Result StartError StartCheckResult
unfolding check_race
assert_publishers_configured env race =
    if not (checks_apply env) then ok healthy else check_race race

abbrev pub refuse_on : List Problem → Result StartError (Unit {0})
refuse_on [] = ok tt
refuse_on (p ∷ problems) = err (unsafe_configuration (p ∷ problems))

-- `register` of instrumentation.ts, with `none` where it is not the server that starts.
unfoldable pub register : (Text → Option Text) → Race → Result StartError (Option StartCheckResult)
unfolding assert_publishers_configured
register env race =
    if not (is_text (codes "nodejs") (env (codes "NEXT_RUNTIME"))) then ok none else do
      refuse_on (check_environment (guard_env_from_process env))
      started ← assert_publishers_configured (guard_env_from_process env) race
      ok (some started)
