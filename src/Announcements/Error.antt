-- ===== src/Announcements/Error.antt =====
-- The errors that src/core/announcements.ts throws, one constructor for each message.
use announcement_tool.Common.{Text}
use announcement_tool.Types.{Status}

pub data ApiError : Type 0 where
  invalid_input : ApiError
  no_free_slug : Text → ApiError
  duplicate_key : ApiError
  announcement_not_found : Text → ApiError
  only_draft_edited : Status → ApiError
  only_draft_discarded : Status → ApiError
  only_draft_scheduled : Status → ApiError
  cannot_request_publish : Status → ApiError
  not_awaiting_confirmation : Status → ApiError
  use_confirm_schedule : ApiError
  use_confirm_publish : ApiError
  four_eyes_error : ApiError
  invalid_date : ApiError
  time_in_past : ApiError
  not_scheduled : Status → ApiError
  only_requester_withdraws : ApiError
  reason_required : ApiError
  requester_cannot_reject : ApiError
  -- `rowToAnnouncement(undefined)`: an update that returned no row
  no_row_returned : ApiError
