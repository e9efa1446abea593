-- ===== src/Admin/Acting.antt =====
-- What an action does to the database: the step of the operation that it calls, or nothing.
use announcement_tool.Common.{
  ◌≡◌, refl, ◌∙◌, inl, inr, Option, none, some, Text, Result, ok, err, Option-cases,
}
use announcement_tool.Types.{Announcement, AnnouncementInput}
use announcement_tool.Store.{Db}
use announcement_tool.Identity.{Headers}
use announcement_tool.Announcements.Error.{ApiError}
use announcement_tool.Announcements.History.{
  Call, creates, revises, requests, confirms, withdraws, discards, rejects, schedules,
  confirms_schedule, cancels, after, step,
}
use announcement_tool.Slug.{SlugError}
use announcement_tool.Forms.{Form, RawInput, input_from_form, typed}
use announcement_tool.Announcements.Drafts.{create_draft, revise_draft}
use announcement_tool.Admin.{
  PublishResult, announcement, failure, not_authorized, redirected, redirect, FormOp, submit,
  submitted, create_draft_action, save_revision_action, create_of, revise_of, Site, authorize,
  answer, authorized, Action, request_of, confirm_of, withdraw_of, discard_of, reject_of,
  schedule_of, confirm_schedule_of, cancel_of, act, request_publish_action, confirm_publish_action,
  withdraw_publish_action, discard_draft_action, reject_publish_action, schedule_publish_action,
  confirm_schedule_action, cancel_schedule_action,
}

-- The call that a form leads to, if it says an input that is typed.
abbrev input_call : (AnnouncementInput → Call) → Result SlugError RawInput → Option Call
input_call f (err e) = none
input_call f (ok raw) = elim (typed raw) [ none ↦ none | some input ↦ some (f input) ]

-- The operation that an action calls for a publisher, if it comes to that.
unfoldable pub call_of : Action → Text → Option Call
unfolding typed input_from_form
call_of (create_of now id form) email =
    input_call (λ input. creates now id input email) (input_from_form form)
call_of (revise_of now id form) email =
    input_call (λ input. revises now id input email) (input_from_form form)
call_of (request_of now id) email = some (requests now id email)
call_of (confirm_of now id) email = some (confirms now id email)
call_of (withdraw_of id) email = some (withdraws id email)
call_of (discard_of id) email = some (discards id email)
call_of (reject_of id reason) email = some (rejects id email reason)
call_of (schedule_of now id when) email = some (schedules now id when email)
call_of (confirm_schedule_of id) email = some (confirms_schedule id email)
call_of (cancel_of id) email = some (cancels id email)

-- The state after a call, if there is one.
abbrev pub step_maybe : Site → Db → Option Call → Db
step_maybe site db none = db
step_maybe site db (some c) = step site.accepts site.enabled db c

answer-after : (db : Db) (r : Result ApiError (Announcement × Db)) → (answer db r).1 ≡ after db r
unfolding answer
answer-after db (ok (a, db')) = refl
answer-after db (err e) = refl

redirect-db : (x : PublishResult × Db) → (redirect x).1 ≡ x.1
redirect-db (announcement a, db) = refl
redirect-db (failure e, db) = refl
redirect-db (not_authorized, db) = refl
redirect-db (redirected id, db) = refl

module _ (site : Site) (headers : Headers) (db : Db) where
  submit-step :
      (op : FormOp) (f : AnnouncementInput → Call) (email : Text)
      → ((input : AnnouncementInput)
          → after db (op input email) ≡ step site.accepts site.enabled db (f input))
      → (r : Result SlugError RawInput)
      → (submit db op email r).1 ≡ step_maybe site db (input_call f r)
  unfolding submit
  submit-step op f email h (err e) = refl
  submit-step op f email h (ok raw) = elim (Option-cases (typed raw)) [
    | inl e ↦ rw (e, submit, input_call) refl
    | inr (input, e) ↦
        rw (e, submit, input_call)
          (redirect-db (answer db (op input email)) ∙ answer-after db (op input email) ∙ h input)
  ]

  submitted-none :
      (form : Form) (op : FormOp)
      → authorize site headers ≡ none
      → (submitted site headers db form op).1 ≡ db
  unfolding submitted
  submitted-none form op e = rw (e, submitted) refl

  submitted-some :
      (form : Form) (op : FormOp) (f : AnnouncementInput → Call) (email : Text)
      → authorize site headers ≡ some email
      → ((input : AnnouncementInput)
          → after db (op input email) ≡ step site.accepts site.enabled db (f input))
      → (submitted site headers db form op).1
        ≡ step_maybe site db (input_call f (input_from_form form))
  unfolding submitted
  submitted-some form op f email e h =
      rw (e, submitted) (submit-step op f email h (input_from_form form))

  authorized-none :
      (op : Text → Result ApiError (Announcement × Db))
      → authorize site headers ≡ none
      → (authorized site headers db op).1 ≡ db
  unfolding authorized
  authorized-none op e = rw (e, authorized) refl

  authorized-some :
      (op : Text → Result ApiError (Announcement × Db)) (email : Text)
      → authorize site headers ≡ some email
      → (authorized site headers db op).1 ≡ after db (op email)
  unfolding authorized
  authorized-some op email e = rw (e, authorized) (answer-after db (op email))

  pub act-none : (a : Action) → authorize site headers ≡ none → (act site headers a db).1 ≡ db
  unfolding act create_draft_action save_revision_action request_publish_action
      confirm_publish_action withdraw_publish_action discard_draft_action reject_publish_action
      schedule_publish_action confirm_schedule_action cancel_schedule_action
  act-none (create_of now id form) e = submitted-none form _ e
  act-none (revise_of now id form) e = submitted-none form _ e
  act-none (request_of now id) e = authorized-none _ e
  act-none (confirm_of now id) e = authorized-none _ e
  act-none (withdraw_of id) e = authorized-none _ e
  act-none (discard_of id) e = authorized-none _ e
  act-none (reject_of id reason) e = authorized-none _ e
  act-none (schedule_of now id when) e = authorized-none _ e
  act-none (confirm_schedule_of id) e = authorized-none _ e
  act-none (cancel_of id) e = authorized-none _ e

  pub act-some :
      (a : Action) (email : Text)
      → authorize site headers ≡ some email
      → (act site headers a db).1 ≡ step_maybe site db (call_of a email)
  unfolding act step call_of create_draft_action save_revision_action request_publish_action
      confirm_publish_action withdraw_publish_action discard_draft_action reject_publish_action
      schedule_publish_action confirm_schedule_action cancel_schedule_action
  act-some (create_of now id form) email e =
      submitted-some form (λ input who. create_draft site.accepts now id input who db)
        (λ input. creates now id input email) email e (λ input. refl)
  act-some (revise_of now id form) email e =
      submitted-some form (λ input who. revise_draft site.accepts now id input who db)
        (λ input. revises now id input email) email e (λ input. refl)
  act-some (request_of now id) email e = authorized-some _ email e
  act-some (confirm_of now id) email e = authorized-some _ email e
  act-some (withdraw_of id) email e = authorized-some _ email e
  act-some (discard_of id) email e = authorized-some _ email e
  act-some (reject_of id reason) email e = authorized-some _ email e
  act-some (schedule_of now id when) email e = authorized-some _ email e
  act-some (confirm_schedule_of id) email e = authorized-some _ email e
  act-some (cancel_of id) email e = authorized-some _ email e
