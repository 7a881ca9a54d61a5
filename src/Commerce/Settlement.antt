-- ===== src/Commerce/Settlement.antt =====
-- `_on_paid`, `_settle_payment` and `handle_notify` of app/modules/commerce/service.py, and the
-- payment channels of app/modules/commerce/providers.py.
use dating_backend.Commerce.Membership.{activate_membership, issue_order_credential}
use dating_backend.Events.{order_paid, failed, booking_paid}
use dating_backend.Companion.Data.{CompanionBooking, awaits_payment, settle_booking}
use dating_backend.Prelude.{
  ℕ, String, Bool, true, false, Option, none, some, not, ◌&&◌, if◌then◌else◌, or_else,
}
use dating_backend.Shared.Errors.{
  app_error, value_error, payment_invalid, payment_not_found, order_not_found,
}
use dating_backend.Shared.Action.{
  Action, pure, raise, gets, modify, or_raise, raise_if, ◌>>=◌, ◌>>◌,
}
use dating_backend.Shared.Table.{lookup, rows, one_or_none}
use dating_backend.Commerce.Wallet.{Posting, credit, top_up}
use dating_backend.Commerce.Data.{
  Db, Env, Order, OrderKind, OrderStatus, Payment, PayMethod, PaymentStatus, on_wallet,
  on_companion, publish, save_order, save_payment, failed, succeeded,
}
use text.Mathlib.Text.{◌==◌ as str_eq}

unfoldable pub is_paid : OrderStatus → Bool
is_paid OrderStatus.paid = true
is_paid _ = false

unfoldable pub is_wallet : PayMethod → Bool
is_wallet PayMethod.wallet = true
is_wallet _ = false

unfoldable pub method_name : PayMethod → String
method_name PayMethod.wallet = "wallet"
method_name PayMethod.wechat = "wechat"
method_name PayMethod.alipay = "alipay"
method_name PayMethod.apple_pay = "apple_pay"

abbrev pub top_up_posting : Order → PayMethod → Posting
top_up_posting order provider = record {
  kind = top_up;
  title = "钱包充值";
  subtitle = none;
  related_order_id = some order.id;
  method = some (method_name provider);
}

-- A user's request for one of the names of `PayMethod`; the name in the path of a notification
-- is looked up after `strip().lower()`. `none` is any other name.
module _ (env : Env) where
  unfoldable pub get_payment_provider : Option PayMethod → Action Db PayMethod
  unfolding is_wallet
  get_payment_provider none = raise value_error
  get_payment_provider (some m) =
      if not (is_wallet m) && not env.payment_provider_is_stub
      then raise (app_error payment_invalid 503)
      else pure m

  unfoldable pub mark_found : ℕ → Option CompanionBooking → Action Db (Unit {0})
  mark_found booking_id none = pure tt
  mark_found booking_id (some booking) =
      if awaits_payment booking.status
      then on_companion (modify (settle_booking env.now booking))
        >> publish env.now booking_paid "booking" booking.id
        >> pure tt
      else pure tt

  -- `CompanionServiceLayer.mark_booking_paid`
  unfoldable pub mark_booking_paid : ℕ → Action Db (Unit {0})
  unfolding mark_found
  mark_booking_paid booking_id =
      gets (λ db. lookup booking_id db.companion.bookings) >>= mark_found booking_id

  unfoldable pub mark_subject_paid : Option ℕ → Action Db (Unit {0})
  unfolding mark_booking_paid
  mark_subject_paid none = pure tt
  mark_subject_paid (some booking_id) = mark_booking_paid booking_id

  -- What a paid order delivers.
  unfoldable pub deliver : OrderKind → Order → PayMethod → Action Db (Unit {0})
  unfolding mark_subject_paid
  deliver OrderKind.wallet_topup order provider =
      on_wallet (
        credit env.wallet_welcome_cents order.user_id order.payable_cents
          (top_up_posting order provider))
      >> pure tt
  deliver OrderKind.membership order provider = activate_membership env order
  deliver OrderKind.activity order provider = issue_order_credential env "ACT" order
  deliver OrderKind.companion_booking order provider =
      issue_order_credential env "BKG" order >> mark_subject_paid order.subject_id

  -- The order as `_on_paid` marks it.
  unfoldable pub paid_order : Order → PayMethod → Order
  paid_order order provider = record order {
    status = OrderStatus.paid;
    paid_at = some env.now;
    pay_method = some (or_else order.pay_method provider);
  }

  unfoldable pub on_paid : Order → PayMethod → Action Db Order
  unfolding is_paid paid_order deliver
  on_paid order provider =
      if is_paid order.status
      then pure order
      else save_order (paid_order order provider)
        >> deliver order.kind (paid_order order provider) provider
        >> publish env.now order_paid "order" order.id
        >> pure (paid_order order provider)

  unfoldable pub succeeded_payment : Payment → Payment
  succeeded_payment payment = record payment { status = succeeded; notified_at = some env.now }

  -- `_settle_payment` is called with `success=True` only.
  unfoldable pub settle_payment : Payment → Order → Action Db Order
  unfolding on_paid succeeded_payment
  settle_payment payment order =
      save_payment (succeeded_payment payment) >> on_paid order payment.provider

-- The keys of a notification that the channels read; a missing text key is the empty text.
pub record Notification : Type 0 where
  pub provider_txn_id : String
  pub prepay_id : String
  pub success : Option Bool

-- The transaction number and the success flag of `verify_notify`.
unfoldable pub verify_notify : PayMethod → Notification → String × Bool
verify_notify PayMethod.wallet n = (n.provider_txn_id, true)
verify_notify _ n =
    (if str_eq n.provider_txn_id "" then n.prepay_id else n.provider_txn_id, or_else n.success true)

pub record NotifyResult : Type 0 where
  pub is_ok : Bool
  pub duplicate : Bool
  pub order : Order

unfoldable pub is_succeeded : PaymentStatus → Bool
is_succeeded succeeded = true
is_succeeded _ = false

module _ (env : Env) where
  -- What `handle_notify` does with the payment and the order that it found.
  unfoldable pub apply_notify : Bool → Payment → Order → Action Db NotifyResult
  unfolding is_succeeded settle_payment
  apply_notify success payment order =
      if is_succeeded payment.status
      then pure (record { is_ok = true; duplicate = true; order = order })
      else if not success
      then save_payment (record payment { status = failed })
        >> pure (record { is_ok = false; duplicate = false; order = order })
      else settle_payment env payment order >>= λ order'.
          pure (record { is_ok = true; duplicate = false; order = order' })

  unfoldable pub handle_notify : Option PayMethod → Notification → Action Db NotifyResult
  unfolding get_payment_provider verify_notify apply_notify
  handle_notify provider notification = do
    channel ← get_payment_provider env provider
    let verified = verify_notify channel notification
    raise_if (str_eq verified.0 "") (app_error payment_invalid 400)
    found ← gets (λ db. rows (λ (p : Payment). str_eq p.provider_txn_id verified.0) db.payments)
    payment? ← one_or_none found
    payment ← or_raise payment? (app_error payment_not_found 404)
    order? ← gets (λ db. lookup payment.order_id db.orders)
    order ← or_raise order? (app_error order_not_found 404)
    apply_notify verified.1 payment order
