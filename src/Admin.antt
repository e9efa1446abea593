-- ===== src/Admin.antt =====
-- app/admin/actions.ts: the actions of the admin pages on announcements, and
-- app/admin/safe-error-message.ts. A site is what an action reads besides the request: the shape of the
-- deployment, the developer's address, whether the checks apply, the publishers, the channels and the
-- schema of src/core/validate.ts. An identifier that the program draws is an argument.
pub mod Acting
pub mod Authorized
use announcement_tool.Common.{
  ℕ, Bool, List, Option, none, some, Text, if◌then◌else◌, Result, ok, err,
}
use announcement_tool.Types.{Announcement, AnnouncementInput, ChannelName}
use announcement_tool.Slug.{SlugError}
use announcement_tool.Forms.{Form, RawInput, input_from_form, typed}
use announcement_tool.Store.{Db}
use announcement_tool.Identity.{Headers, resolve_identity, is_publisher}
use announcement_tool.Announcements.Error.{ApiError, duplicate_key, no_row_returned, invalid_input}
use announcement_tool.Announcements.Drafts.{create_draft, revise_draft, discard_draft}
use announcement_tool.Announcements.Publish.{request_publish, confirm_publish}
use announcement_tool.Announcements.Schedule.{schedule_publish, confirm_schedule, cancel_schedule}
use announcement_tool.Announcements.Review.{withdraw_publish, reject_publish}

pub record Site : Type 0 where
  pub is_vm : Bool
  pub dev_email : Option Text
  pub checks_apply : Bool
  pub publishers : List Text
  pub enabled : List ChannelName
  pub accepts : AnnouncementInput → Bool

-- What the browser is shown of an error: its message, or the generic one.
pub data Shown : Type 0 where
  message : ApiError → Shown
  slug_message : SlugError → Shown
  generic : Shown

-- An error of the database driver, or of a row that is not there, is not of the class `Error` itself.
unfoldable pub safe_error_message : ApiError → Shown
safe_error_message duplicate_key = generic
safe_error_message no_row_returned = generic
safe_error_message e = message e

pub data PublishResult : Type 0 where
  announcement : Announcement → PublishResult
  failure : Shown → PublishResult
  not_authorized : PublishResult
  -- redirect(`/admin/review/${id}`)
  redirected : Text → PublishResult

-- if (!identity || !(await isPublisher(db, identity.email))) return { error: 'not authorized' }
unfoldable pub authorize : Site → Headers → Option Text
authorize site headers = elim (resolve_identity site.is_vm site.dev_email headers) [
  | none ↦ none
  | some identity ↦
      if is_publisher site.checks_apply site.publishers identity.email
      then some identity.email
      else none
]

-- try { … return { announcement } } catch (err) { return { error: safeErrorMessage(err) } }
unfoldable pub answer : Db → Result ApiError (Announcement × Db) → PublishResult × Db
unfolding safe_error_message
answer db (ok (a, db')) = (announcement a, db')
answer db (err e) = (failure (safe_error_message e), db)

abbrev pub redirect : PublishResult × Db → PublishResult × Db
redirect (announcement a, db) = (redirected a.id, db)
redirect (r, db) = (r, db)

module _ (site : Site) (headers : Headers) where
  unfoldable pub authorized : Db → (Text → Result ApiError (Announcement × Db)) → PublishResult × Db
  unfolding answer
  authorized db op = elim (authorize site headers) [
    | none ↦ (not_authorized, db)
    | some email ↦ answer db (op email)
  ]

  unfoldable pub request_publish_action : ℕ → Text → Db → PublishResult × Db
  request_publish_action now id db =
      authorized db (λ email. request_publish now site.enabled id email db)

  unfoldable pub confirm_publish_action : ℕ → Text → Db → PublishResult × Db
  confirm_publish_action now id db =
      authorized db (λ email. confirm_publish now site.enabled id email db)

  unfoldable pub withdraw_publish_action : Text → Db → PublishResult × Db
  withdraw_publish_action id db = authorized db (λ email. withdraw_publish id email db)

  unfoldable pub discard_draft_action : Text → Db → PublishResult × Db
  discard_draft_action id db = authorized db (λ email. discard_draft id email db)

  unfoldable pub reject_publish_action : Text → Text → Db → PublishResult × Db
  reject_publish_action id reason db = authorized db (λ email. reject_publish id email reason db)

  -- `when` is the instant of `new Date(whenIso)`, if it is one.
  unfoldable pub schedule_publish_action : ℕ → Text → Option ℕ → Db → PublishResult × Db
  schedule_publish_action now id when db =
      authorized db (λ email. schedule_publish now id when email db)

  unfoldable pub confirm_schedule_action : Text → Db → PublishResult × Db
  confirm_schedule_action id db = authorized db (λ email. confirm_schedule id email db)

  unfoldable pub cancel_schedule_action : Text → Db → PublishResult × Db
  cancel_schedule_action id db = authorized db (λ email. cancel_schedule id email db)

abbrev pub FormOp : Type 0
FormOp = AnnouncementInput → Text → Result ApiError (Announcement × Db)

-- The operation on what the form says: the schema refuses what is not typed.
unfoldable pub submit : Db → FormOp → Text → Result SlugError RawInput → PublishResult × Db
unfolding answer typed safe_error_message
submit db op email (err e) = (failure (slug_message e), db)
submit db op email (ok raw) = elim (typed raw) [
  | none ↦ (failure (safe_error_message invalid_input), db)
  | some input ↦ redirect (answer db (op input email))
]

module _ (site : Site) (headers : Headers) where
  unfoldable pub submitted : Db → Form → FormOp → PublishResult × Db
  unfolding submit input_from_form
  submitted db form op = elim (authorize site headers) [
    | none ↦ (not_authorized, db)
    | some email ↦ submit db op email (input_from_form form)
  ]

  unfoldable pub create_draft_action : ℕ → Text → Form → Db → PublishResult × Db
  unfolding submitted
  create_draft_action now id form db =
      submitted db form (λ input email. create_draft site.accepts now id input email db)

  unfoldable pub save_revision_action : ℕ → Text → Form → Db → PublishResult × Db
  unfolding submitted
  save_revision_action now id form db =
      submitted db form (λ input email. revise_draft site.accepts now id input email db)

-- A call of an action by a browser, with the headers that the middleware forwards.
pub data Action : Type 0 where
  create_of : ℕ → Text → Form → Action
  revise_of : ℕ → Text → Form → Action
  request_of : ℕ → Text → Action
  confirm_of : ℕ → Text → Action
  withdraw_of : Text → Action
  discard_of : Text → Action
  reject_of : Text → Text → Action
  schedule_of : ℕ → Text → Option ℕ → Action
  confirm_schedule_of : Text → Action
  cancel_of : Text → Action

unfoldable pub act : Site → Headers → Action → Db → PublishResult × Db
act site headers (create_of now id form) = create_draft_action site headers now id form
act site headers (revise_of now id form) = save_revision_action site headers now id form
act site headers (request_of now id) = request_publish_action site headers now id
act site headers (confirm_of now id) = confirm_publish_action site headers now id
act site headers (withdraw_of id) = withdraw_publish_action site headers id
act site headers (discard_of id) = discard_draft_action site headers id
act site headers (reject_of id reason) = reject_publish_action site headers id reason
act site headers (schedule_of now id when) = schedule_publish_action site headers now id when
act site headers (confirm_schedule_of id) = confirm_schedule_action site headers id
act site headers (cancel_of id) = cancel_schedule_action site headers id
