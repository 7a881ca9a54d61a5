-- ===== src/Commerce/Refunds.antt =====
-- `submit_refund` and `complete_refund` of app/modules/commerce/service.py.
use dating_backend.Events.{order_refunded}
use dating_backend.Commerce.Membership.{revoke_membership_for_order}
use dating_backend.Commerce.Payments.{get_order}
use dating_backend.Commerce.Settlement.{get_payment_provider, is_wallet, method_name, is_paid}
use dating_backend.Commerce.Wallet.{WalletLedgerKind, Posting, credit}
use dating_backend.Prelude.{
  ℕ, String, Bool, true, false, Option, none, some, ◌||◌, if◌then◌else◌, or_else, not,
}
use dating_backend.Prelude.Int.{ℤ, pos, ltb_ℤ, leb_ℤ}
use dating_backend.Shared.Errors.{app_error, order_not_found, refund_not_found, refund_invalid}
use dating_backend.Shared.Action.{Action, pure, gets, or_raise, raise_if, ◌>>=◌, ◌>>◌}
use dating_backend.Shared.Table.{lookup}
use dating_backend.Commerce.Data.{
  Db, Env, Order, OrderKind, OrderStatus, Refund, RefundStatus, PayMethod, RefundInitiator,
  save_refund, save_order, on_wallet, publish, fresh_id, or_text,
}

-- The statuses that `complete_refund` leaves alone.
unfoldable pub is_final : RefundStatus → Bool
is_final RefundStatus.completed = true
is_final RefundStatus.rejected = true
is_final _ = false

unfoldable pub refund_kind : OrderKind → WalletLedgerKind
refund_kind OrderKind.activity = WalletLedgerKind.activity_refund
refund_kind OrderKind.companion_booking = WalletLedgerKind.booking_refund
refund_kind _ = WalletLedgerKind.top_up

abbrev pub refund_posting : Order → Refund → PayMethod → Posting
refund_posting order refund m = record {
  kind = refund_kind order.kind;
  title = Prim.Native.String.◌++◌ "退款 · " order.subject_title;
  subtitle = some refund.reason;
  related_order_id = some order.id;
  method = some (method_name m);
}

unfoldable pub is_membership : OrderKind → Bool
is_membership OrderKind.membership = true
is_membership _ = false

module _ (env : Env) where
  -- The refund with the fields that `complete_refund` sets on every path.
  unfoldable pub started_refund : Option ℕ → Option String → Refund → Refund
  started_refund admin_id note refund = record refund {
    processing_started_at = some (or_else refund.processing_started_at env.now);
    admin_id = admin_id;
    admin_note = note;
  }

  unfoldable pub rejected_refund : Option ℕ → Option String → Refund → Refund
  unfolding started_refund or_text
  rejected_refund admin_id note refund = record (started_refund admin_id note refund) {
    status = RefundStatus.rejected;
    rejection_message = some (or_text note "已驳回");
    completed_at = some env.now;
  }

  unfoldable pub completed_refund : Option ℕ → Option String → Refund → Refund
  unfolding started_refund
  completed_refund admin_id note refund = record (started_refund admin_id note refund) {
    status = RefundStatus.completed;
    completed_at = some env.now;
  }

  unfoldable pub refunded_order : Order → Order
  refunded_order order = record order { status = OrderStatus.refunded; closed_at = some env.now }

  unfoldable pub credit_refund : PayMethod → Order → Refund → Action Db (Unit {0})
  unfolding refund_kind
  credit_refund m order refund =
      if is_wallet m || env.payment_refund_to_wallet
      then on_wallet (
          credit env.wallet_welcome_cents order.user_id refund.amount_cents
            (refund_posting order refund m))
        >> pure tt
      else pure tt

  unfoldable pub revoke_if_membership : Order → Action Db (Unit {0})
  revoke_if_membership order =
      if is_membership order.kind then revoke_membership_for_order order.id else pure tt

  unfoldable pub reject_refund : Option ℕ → Option String → Refund → Order → Action Db Refund
  unfolding rejected_refund
  reject_refund admin_id note refund order = do
    save_refund (rejected_refund admin_id note refund)
    save_order (record order { status = OrderStatus.paid })
    pure (rejected_refund admin_id note refund)

  -- The stub channels' `create_refund` always succeeds and returns a number that nothing reads.
  unfoldable pub pay_refund : Option ℕ → Option String → Refund → Order → Action Db Refund
  unfolding completed_refund refunded_order credit_refund revoke_if_membership
  pay_refund admin_id note refund order = do
    m ← get_payment_provider env (some (or_else order.pay_method PayMethod.wallet))
    save_refund (completed_refund admin_id note refund)
    save_order (refunded_order order)
    credit_refund m order refund
    revoke_if_membership order
    publish env.now order_refunded "order" order.id
    pure (completed_refund admin_id note refund)

  unfoldable pub process_refund : Option ℕ → Bool → Option String → Refund → Action Db Refund
  unfolding is_final reject_refund pay_refund
  process_refund admin_id reject note refund = if is_final refund.status then pure refund else (do
    found ← gets (λ db. lookup refund.order_id db.orders)
    order ← or_raise found (app_error order_not_found 404)
    if reject
        then reject_refund admin_id note refund order
        else pay_refund admin_id note refund order)

  unfoldable pub complete_refund : ℕ → Option ℕ → Bool → Option String → Action Db Refund
  unfolding process_refund
  complete_refund refund_id admin_id reject note = do
    found ← gets (λ db. lookup refund_id db.refunds)
    refund ← or_raise found (app_error refund_not_found 404)
    process_refund admin_id reject note refund

  unfoldable pub new_refund : ℕ → ℕ → Order → ℤ → String → String → Refund
  new_refund id uid order cents reason detail = record {
    id = id;
    order_id = order.id;
    user_id = uid;
    amount_cents = cents;
    reason = reason;
    detail = detail;
    initiator = RefundInitiator.user;
    status = RefundStatus.submitted;
    admin_id = none;
    admin_note = none;
    processing_started_at = none;
    completed_at = none;
    rejection_message = none;
  }

  unfoldable pub is_auto : Option PayMethod → Bool
  is_auto none = env.payment_stub_auto_complete
  is_auto (some m) = env.payment_stub_auto_complete || is_wallet m

  -- `reason` and `detail` are the texts already cut to their columns' lengths.
  unfoldable pub submit_refund : ℕ → ℕ → String → String → Option ℤ → Action Db Refund
  unfolding new_refund is_auto complete_refund
  submit_refund uid order_id reason detail amount_cents = do
    order ← get_order uid order_id
    raise_if (not (is_paid order.status)) (app_error refund_invalid 409)
    let cents = or_else amount_cents order.payable_cents
    raise_if (leb_ℤ cents (pos 0) || ltb_ℤ order.payable_cents cents) (app_error refund_invalid 400)
    id ← fresh_id
    let refund = new_refund id uid order cents reason detail
    save_order (record order { status = OrderStatus.refunding })
    save_refund refund
    if is_auto order.pay_method then complete_refund id none false none else pure refund
