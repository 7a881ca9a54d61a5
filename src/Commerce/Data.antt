-- ===== src/Commerce/Data.antt =====
-- The commerce tables of app/models/entities.py, and the state and settings of the handlers.
use text.Mathlib.Text.{◌==◌ as str_eq}
use dating_backend.Prelude.{ℕ, ◌+◌, String, Bool, Option, none, some, if◌then◌else◌}
use dating_backend.Prelude.Int.{ℤ}
use dating_backend.Shared.Action.{Action, pure, modify, on_part}
use dating_backend.Shared.Table.{Table, insert}
use dating_backend.Events.{Outbox, DomainEvent, DomainEventName, enqueue}
use dating_backend.Commerce.Wallet.{Wallet}
use dating_backend.Companion.Data.{Bookings}

-- `text or default`: an empty text is no text.
unfoldable pub or_text : Option String → String → String
or_text none default = default
or_text (some text) default = if str_eq text "" then default else text

pub data OrderKind : Type 0 where
  activity companion_booking membership wallet_topup : OrderKind

pub data OrderStatus : Type 0 where
  created pending_payment paid closed refunding refunded cancelled : OrderStatus

pub data PayMethod : Type 0 where
  wallet wechat alipay apple_pay : PayMethod

pub data PaymentStatus : Type 0 where
  pending succeeded failed closed_payment : PaymentStatus

pub data RefundStatus : Type 0 where
  submitted processing completed rejected : RefundStatus

pub data RefundInitiator : Type 0 where
  user system admin : RefundInitiator

pub data MembershipStatus : Type 0 where
  active expired ended : MembershipStatus

pub data CredentialStyle : Type 0 where
  event_ticket store_card coupon : CredentialStyle

pub data CredentialStatus : Type 0 where
  valid used voided lapsed : CredentialStatus

-- The keys of `meta` that the handlers read.
pub record Meta : Type 0 where
  pub fee_cents : Option ℤ
  pub plan_code : Option String

pub record Order : Type 0 where
  pub id : ℕ
  pub order_no : String
  pub user_id : ℕ
  pub kind : OrderKind
  pub subject_id : Option ℕ
  pub subject_title : String
  pub amount_cents : ℤ
  pub discount_cents : ℤ
  pub payable_cents : ℤ
  pub status : OrderStatus
  pub pay_method : Option PayMethod
  pub paid_at : Option ℕ
  pub closed_at : Option ℕ
  pub expire_at : Option ℕ
  pub idempotency_key : Option String
  pub meta : Meta

pub record Payment : Type 0 where
  pub id : ℕ
  pub order_id : ℕ
  pub provider : PayMethod
  pub provider_txn_id : String
  pub amount_cents : ℤ
  pub status : PaymentStatus
  pub notified_at : Option ℕ

pub record Refund : Type 0 where
  pub id : ℕ
  pub order_id : ℕ
  pub user_id : ℕ
  pub amount_cents : ℤ
  pub reason : String
  pub detail : String
  pub initiator : RefundInitiator
  pub status : RefundStatus
  pub admin_id : Option ℕ
  pub admin_note : Option String
  pub processing_started_at : Option ℕ
  pub completed_at : Option ℕ
  pub rejection_message : Option String

pub record MembershipPlan : Type 0 where
  pub id : ℕ
  pub code : String
  pub title : String
  pub price_cents : ℤ
  pub duration_days : ℕ
  pub is_active : Bool

pub record Membership : Type 0 where
  pub id : ℕ
  pub user_id : ℕ
  pub plan_code : String
  pub status : MembershipStatus
  pub started_at : ℕ
  pub expires_at : ℕ
  pub source_order_id : Option ℕ

-- A ticket or card; the printed `fields` and the barcode are left out.
pub record Credential : Type 0 where
  pub id : ℕ
  pub user_id : ℕ
  pub style : CredentialStyle
  pub serial_no : String
  pub related_kind : String
  pub related_id : ℕ
  pub relevant_at : Option ℕ
  pub expires_at : Option ℕ
  pub status : CredentialStatus

-- What `create_order` reads of an activity.
pub data ActivityStatus : Type 0 where
  activity_pending published activity_rejected activity_closed activity_cancelled : ActivityStatus

pub record ActivityRow : Type 0 where
  pub title : String
  pub status : ActivityStatus

pub record Db : Type 0 where
  pub wallets : Wallet
  pub orders : Table Order
  pub payments : Table Payment
  pub refunds : Table Refund
  pub plans : Table MembershipPlan
  pub memberships : Table Membership
  pub credentials : Table Credential
  pub activities : Table ActivityRow
  pub companion : Bookings
  pub outbox : Outbox
  pub next_id : ℕ

-- `settings`, the clock, and what the handlers draw at random; one reading of each for a request.
pub record Env : Type 0 where
  pub now : ℕ
  pub order_no : String
  pub serial_no : String → String
  pub format_cents : ℤ → String
  pub wallet_welcome_cents : ℤ
  pub payment_stub_auto_complete : Bool
  pub payment_refund_to_wallet : Bool
  pub payment_provider_is_stub : Bool
  pub order_expire_minutes : ℕ

unfoldable pub on_wallet : {A : Type 0} → Action Wallet A → Action Db A
on_wallet = on_part (λ db. db.wallets) (λ w db. record db { wallets = w })

unfoldable pub on_companion : {A : Type 0} → Action Bookings A → Action Db A
on_companion = on_part (λ db. db.companion) (λ b db. record db { companion = b })

unfoldable pub publish : ℕ → DomainEventName → String → ℕ → Action Db DomainEvent
publish now name kind aggregate_id =
    on_part (λ db. db.outbox) (λ o db. record db { outbox = o })
      (enqueue now name kind aggregate_id none)

unfoldable pub save_order : Order → Action Db (Unit {0})
save_order order = modify (λ db. record db { orders = insert order.id order db.orders })

unfoldable pub save_payment : Payment → Action Db (Unit {0})
save_payment payment = modify (λ db. record db { payments = insert payment.id payment db.payments })

unfoldable pub save_refund : Refund → Action Db (Unit {0})
save_refund refund = modify (λ db. record db { refunds = insert refund.id refund db.refunds })

-- `uuid4()`: the next unused number.
unfoldable pub fresh_id : Action Db ℕ
fresh_id db = pure db.next_id (record db { next_id = db.next_id + 1 })
