-- ===== src/Auth/Data.antt =====
-- The accounts, devices and refresh tokens of app/models/entities.py, and the SMS codes that the service keeps in
-- Redis. A normalized phone number is named by a number, a refresh token is found by its `jti`.
use dating_backend.Prelude.{ℕ, String, Bool, Option, List, ◌+◌}
use dating_backend.Shared.Action.{Action, ok}
use dating_backend.Shared.Table.{Table}
use dating_backend.Shared.Pairs.{PairTable}
use dating_backend.Shared.Users.{UserStatus}

-- Nine digits, or the first nine letters of the id, by the id.
pub data PublicUid : Type 0 where
  digits : ℕ → PublicUid
  letters : ℕ → PublicUid

pub record Account : Type 0 where
  pub id : ℕ
  pub phone : ℕ
  pub password_hash : Option String
  pub public_uid : Option PublicUid
  pub status : UserStatus
  pub last_active_at : Option ℕ

pub record Device : Type 0 where
  pub platform : String
  pub last_seen_at : ℕ

pub record RefreshToken : Type 0 where
  pub user_id : ℕ
  pub revoked : Bool
  pub expires_at : ℕ

pub record AuthDb : Type 0 where
  pub accounts : Table Account
  pub profiles : Table (Unit {0})
  pub preferences : Table (Unit {0})
  pub devices : PairTable Device
  pub tokens : Table RefreshToken
  pub next_id : ℕ

-- `type` of a token.
pub data TokenKind : Type 0 where
  access refresh other : TokenKind

-- What a token carries, as far as the service reads it.
pub record Claims : Type 0 where
  pub kind : TokenKind
  pub jti : Option ℕ
  pub sub : ℕ

pub record SmsSendLog : Type 0 where
  pub phone : ℕ
  pub status : String
  pub error_code : Option String
  pub ip : Option String
  pub created_at : ℕ

-- The keys `sms:code:…` and `sms:interval:…` with the time at which each runs out, and `sms:daily:…`. The counter
-- of a day outlives its day.
pub record SmsStore : Type 0 where
  pub codes : Table (String × ℕ)
  pub intervals : Table ℕ
  pub daily : PairTable ℕ

pub record AuthState : Type 0 where
  pub db : AuthDb
  pub sms : SmsStore
  pub logs : List SmsSendLog

-- How the provider of messages answered.
pub data Delivery : Type 0 where
  delivered : String → Option String → Delivery
  broken : String → Delivery

-- The clock and the day, the settings, the signing of tokens by PyJWT, password hashes, the random code, the
-- provider's answer, and the number that the first twelve digits of an id spell.
pub record AuthEnv : Type 0 where
  pub now : ℕ
  pub today : ℕ
  pub decode : String → Option Claims
  pub encode : Claims → String
  pub verify_password : String → Option String → Bool
  pub text_length : String → ℕ
  pub phone_length : ℕ → ℕ
  pub dev_code_allowed : ℕ → Bool
  pub sms_dev_code : String
  pub random_code : String
  pub delivery : Delivery
  pub sms_daily_limit : ℕ
  pub sms_code_ttl_seconds : ℕ
  pub sms_send_interval_seconds : ℕ
  pub jwt_refresh_ttl_days : ℕ
  pub jwt_access_ttl_minutes : ℕ
  pub id_prefix : ℕ → ℕ

unfoldable pub fresh_id : Action AuthDb ℕ
fresh_id db = ok (db.next_id, record db { next_id = db.next_id + 1 })
