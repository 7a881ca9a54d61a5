-- ===== src/Shared/Errors.antt =====
-- app/shared/errors.py and the codes of app/shared/response.py.
use dating_backend.Prelude.{ℕ}

-- `ErrorCodes`: the codes that the modelled handlers raise, by name.
pub data ErrorCode : Type 0 where
  auth_rate_limit auth_unauthorized auth_token_invalid auth_banned : ErrorCode
  user_not_found user_not_completed user_limited : ErrorCode
  validation_error chat_forbidden chat_not_found chat_invalid : ErrorCode
  friend_invalid friend_not_found friend_already : ErrorCode
  community_not_found community_forbidden community_invalid media_forbidden : ErrorCode
  moderation_invalid moderation_not_found : ErrorCode
  match_invalid match_limit match_not_found swipe_duplicate : ErrorCode
  report_invalid report_duplicate block_invalid block_not_found : ErrorCode
  activity_invalid activity_not_found activity_forbidden activity_full : ErrorCode
  activity_already_joined : ErrorCode
  order_invalid order_not_found order_expired : ErrorCode
  payment_invalid payment_not_found wallet_insufficient : ErrorCode
  refund_invalid refund_not_found credential_not_found : ErrorCode
  companion_invalid companion_not_found companion_forbidden companion_unavailable : ErrorCode
  booking_invalid booking_not_found booking_conflict : ErrorCode
  club_invalid club_not_found club_forbidden guild_not_found : ErrorCode
  auth_invalid auth_code_expired auth_code_invalid : ErrorCode
  admin_unauthorized admin_forbidden admin_disabled : ErrorCode
  idempotency_required idempotency_conflict idempotency_in_progress : ErrorCode

-- The exceptions that leave a handler: `AppError(code, message, status_code)`, the `ValueError` of a
-- lookup by an unknown name, and SQLAlchemy's `MultipleResultsFound` of `scalar_one_or_none`
-- and `IntegrityError` of a flush.
pub data Failure : Type 0 where
  app_error : ErrorCode → ℕ → Failure
  value_error : Failure
  multiple_results_found : Failure
  integrity_error : Failure
