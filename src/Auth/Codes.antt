-- ===== src/Auth/Codes.antt =====
-- `send_sms`, and the part of `login` that checks the code, of `AuthService`. Redis takes no part in the database's
-- transaction, so that what is written there stays when the handler raises.
use dating_backend.Prelude.{
  ℕ, ◌+◌, String, Bool, false, Option, none, some, [], ◌∷◌, ◌++◌, ◌&&◌, not, ltb, leb,
  if◌then◌else◌,
}
use text.Mathlib.Text.{◌==◌ as str_eq}
use dating_backend.Shared.Errors.{
  Failure, app_error, auth_invalid, auth_rate_limit, auth_code_expired, auth_code_invalid,
}
use dating_backend.Shared.Action.{Result, ok, err}
use dating_backend.Shared.Table.{lookup, insert, erase}
use dating_backend.Shared.Pairs.{get, put}
use dating_backend.Auth.Data.{SmsStore, SmsSendLog, AuthState, AuthEnv, Delivery, delivered, broken}

unfoldable pub alive_code : ℕ → Option (String × ℕ) → Option String
alive_code now none = none
alive_code now (some (code, expires)) = if ltb now expires then some code else none

unfoldable pub is_alive : ℕ → Option ℕ → Bool
is_alive now none = false
is_alive now (some expires) = ltb now expires

unfoldable pub or_zero : Option ℕ → ℕ
or_zero none = 0
or_zero (some n) = n

pub record SmsAnswer : Type 0 where
  pub expires_in : ℕ
  pub dev_code : Option String

module _ (env : AuthEnv) where
  -- The code that a login would find for a phone.
  unfoldable pub stored_code : ℕ → SmsStore → Option String
  unfolding alive_code
  stored_code phone sms = alive_code env.now (lookup phone sms.codes)

  unfoldable pub sms_refusal : ℕ → SmsStore → Option Failure
  unfolding is_alive or_zero
  sms_refusal phone sms =
      if ltb (env.phone_length phone) 11
      then some (app_error auth_invalid 400)
      else if is_alive env.now (lookup phone sms.intervals)
      then some (app_error auth_rate_limit 429)
      else if leb env.sms_daily_limit (or_zero (get phone env.today sms.daily))
      then some (app_error auth_rate_limit 429)
      else none

  unfoldable pub new_code : ℕ → String
  new_code phone = if env.dev_code_allowed phone then env.sms_dev_code else env.random_code

  unfoldable pub code_sent : ℕ → SmsStore → SmsStore
  unfolding new_code
  code_sent phone sms = record {
    codes = insert phone (new_code phone, env.now + env.sms_code_ttl_seconds) sms.codes;
    intervals = insert phone (env.now + env.sms_send_interval_seconds) sms.intervals;
    daily = put phone env.today (or_zero (get phone env.today sms.daily) + 1) sms.daily;
  }

  unfoldable pub delivery_log : ℕ → Option String → Delivery → SmsSendLog
  delivery_log phone ip (delivered status error_code) = record {
    phone = phone;
    status = if str_eq status "" then "sent" else status;
    error_code = error_code;
    ip = ip;
    created_at = env.now;
  }
  delivery_log phone ip (broken exception) = record {
    phone = phone;
    status = "failed";
    error_code = some exception;
    ip = ip;
    created_at = env.now;
  }

  unfoldable pub sms_answer : ℕ → Delivery → Result SmsAnswer
  unfolding new_code
  sms_answer phone (delivered _ _) = ok (record {
    expires_in = env.sms_code_ttl_seconds;
    dev_code = if env.dev_code_allowed phone then some (new_code phone) else none;
  })
  sms_answer phone (broken _) = err (app_error auth_invalid 400)

  unfoldable pub send_unless :
      Option Failure → ℕ → Option String → AuthState → Result SmsAnswer × AuthState
  unfolding code_sent delivery_log sms_answer
  send_unless (some e) phone ip s = (err e, s)
  send_unless none phone ip s = (
    sms_answer phone env.delivery,
    record s {
      sms = code_sent phone s.sms;
      logs = s.logs ++ (delivery_log phone ip env.delivery ∷ []);
    },
  )

  unfoldable pub send_sms : ℕ → Option String → AuthState → Result SmsAnswer × AuthState
  unfolding send_unless sms_refusal
  send_sms phone ip s = send_unless (sms_refusal phone s.sms) phone ip s

  unfoldable pub is_bypass : ℕ → String → Bool
  is_bypass phone code = env.dev_code_allowed phone && str_eq code env.sms_dev_code

  unfoldable pub check_stored : ℕ → String → Option String → SmsStore → Result SmsStore
  unfolding is_bypass
  check_stored phone code none sms =
      if is_bypass phone code then ok sms else err (app_error auth_code_expired 400)
  check_stored phone code (some stored) sms =
      if not (str_eq stored code) && not (is_bypass phone code)
      then err (app_error auth_code_invalid 400)
      else ok (record sms { codes = erase phone sms.codes })

  -- The guards of `login` on the code, and the deletion of the code.
  unfoldable pub check_code : ℕ → String → SmsStore → Result SmsStore
  unfolding check_stored stored_code
  check_code phone code sms = check_stored phone code (stored_code phone sms) sms
