-- ===== src/Commerce/Tests.antt =====
-- Concrete orders, payments, refunds and wallets on which the theorems of the commerce service apply.
use dating_backend.Commerce.Prices.{IsPriced, place_order-IsPriced}
use dating_backend.Shared.Action.Gives.{Gives}
use dating_backend.Prelude.{
  ℕ, true, false, none, some, List, [], ◌∷◌, ◌≡◌, refl, arith, if◌then◌else◌, ◌==◌, Bool-cases, inl,
  inr,
}
use dating_backend.Prelude.Int.{pos, ◌+ℤ◌, ◌-ℤ◌, ◌≤ℤ◌}
use dating_backend.Shared.Action.{ok, err}
use dating_backend.Shared.Action.Keeps.{Returns, Yields}
use dating_backend.Shared.Errors.{app_error, wallet_insufficient}
use dating_backend.Shared.Table.{lookup, rows}
use dating_backend.Commerce.Wallet.{
  Wallet, WalletAccount, WalletLedger, Posting, Reconciliation, charge, credit, reconcile_user,
  ledger_sum, top_up,
}
use dating_backend.Commerce.Wallet.Balance.{IsSound}
use dating_backend.Commerce.Wallet.Effects.{Posts, charge_moves, charge_overdraft, credit_moves}
use dating_backend.Commerce.Data.{
  Db, Env, Order, OrderKind, OrderStatus, PayMethod, Payment, PaymentStatus, Refund, RefundStatus,
  RefundInitiator, Meta,
}
use dating_backend.Commerce.Orders.{OrderRequest, place_order}
use dating_backend.Commerce.Payments.{pay_order, is_payable, is_expired}
use dating_backend.Commerce.Settlement.{
  Notification, NotifyResult, handle_notify, verify_notify, is_paid, is_succeeded,
}
use dating_backend.Commerce.Refunds.{complete_refund, submit_refund, is_final, is_membership}
use dating_backend.Commerce.Requests.{
  Request, serve_all, create, pay, ask_refund, my_wallet, expire, serve_all-MoneyIsSound,
  every_reconciliation_agrees,
}
use dating_backend.Commerce.Money.{MoneyIsSound}
use dating_backend.Commerce.PaymentLaws.{wallet_payment, is_ticketed}
use dating_backend.Commerce.NotifyLaws.{Finds, late_notification_pays, notification_settles_once}
use dating_backend.Commerce.RefundLaws.{
  reject_restores, refund_pays, refund_decided_once, submit_refund_bounded, Refunded,
}

abbrev env : Env
env = record {
  now = 1000;
  order_no = "SO1";
  serial_no = λ prefix. prefix;
  format_cents = λ _. "¥";
  wallet_welcome_cents = pos 500;
  payment_stub_auto_complete = true;
  payment_refund_to_wallet = true;
  payment_provider_is_stub = true;
  order_expire_minutes = 30;
}

abbrev no_meta : Meta
no_meta = record { fee_cents = none; plan_code = none }

abbrev account : WalletAccount
account = record { user_id = 7; balance_cents = pos 300; frozen_cents = pos 0; version = 1 }

abbrev opening : WalletLedger
opening = record {
  id = 0;
  user_id = 7;
  kind = top_up;
  title = "";
  subtitle = none;
  balance_delta_cents = pos 300;
  amount_cents = pos 300;
  balance_after_cents = pos 300;
  related_order_id = none;
  method = none;
}

abbrev wallets : Wallet
wallets = record { accounts = (7, account) ∷ []; ledger = opening ∷ []; next_id = 1 }

abbrev note : Posting
note = record {
  kind = top_up;
  title = "t";
  subtitle = none;
  related_order_id = none;
  method = none;
}

abbrev order_in : OrderStatus → Order
order_in status = record {
  id = 3;
  order_no = "SO0";
  user_id = 7;
  kind = OrderKind.companion_booking;
  subject_id = none;
  subject_title = "陪玩预约";
  amount_cents = pos 200;
  discount_cents = pos 0;
  payable_cents = pos 200;
  status = status;
  pay_method = none;
  paid_at = none;
  closed_at = none;
  expire_at = some 5000;
  idempotency_key = none;
  meta = no_meta;
}

abbrev payment : Payment
payment = record {
  id = 4;
  order_id = 3;
  provider = PayMethod.wechat;
  provider_txn_id = "stub_wechat_SO0";
  amount_cents = pos 200;
  status = PaymentStatus.pending;
  notified_at = none;
}

abbrev refund : Refund
refund = record {
  id = 5;
  order_id = 3;
  user_id = 7;
  amount_cents = pos 150;
  reason = "r";
  detail = "";
  initiator = RefundInitiator.user;
  status = RefundStatus.submitted;
  admin_id = none;
  admin_note = none;
  processing_started_at = none;
  completed_at = none;
  rejection_message = none;
}

abbrev db_in : OrderStatus → Db
db_in status = record {
  wallets = wallets;
  orders = (3, order_in status) ∷ [];
  payments = (4, payment) ∷ [];
  refunds = (5, refund) ∷ [];
  plans = [];
  memberships = [];
  credentials = [];
  activities = [];
  companion = record { profiles = []; services = []; slots = []; bookings = []; next_id = 0 };
  outbox = record { events = []; next_id = 0 };
  next_id = 10;
}

abbrev notification : Notification
notification = record { provider_txn_id = "stub_wechat_SO0"; prepay_id = ""; success = none }

abbrev booking_request : OrderRequest
booking_request = record {
  kind = some OrderKind.companion_booking;
  subject_id = none;
  amount_cents = some (pos 120);
  subject_title = "";
  discount_cents = pos 20;
  meta = no_meta;
  idempotency_key = some "k";
}

abbrev requests : List (Env × Request)
requests =
    (env, my_wallet 8)
    ∷ (env, create 8 booking_request)
    ∷ (env, pay 8 10 (some PayMethod.wallet))
    ∷ (env, ask_refund 8 10 "r" "" none)
    ∷ (env, pay 7 3 (some PayMethod.wallet))
    ∷ (env, expire 10)
    ∷ []

found : lookup 7 wallets.accounts ≡ some account
unfolding lookup
found = refl

wallets-IsSound : IsSound wallets
unfolding lookup ledger_sum ◌+ℤ◌
wallets-IsSound =
    let sum : (u : ℕ) → ledger_sum u wallets.ledger ≡ (if 7 == u then pos 300 else pos 0) =
      λ u. elim (Bool-cases (7 == u)) [ inl same ↦ rw same refl | inr other ↦ rw other refl ] in
    record {
      keyed = λ u a e. ground arith;
      nonneg = λ u a e. ground arith;
      balanced = λ u a e. ground (arith, sum u);
      unopened = λ u e. ground (arith, sum u);
      audited = (refl, tt);
    }

serve_all-MoneyIsSound_example :
    MoneyIsSound (serve_all requests (db_in OrderStatus.pending_payment))
serve_all-MoneyIsSound_example =
    serve_all-MoneyIsSound requests (db_in OrderStatus.pending_payment) wallets-IsSound

every_reconciliation_agrees_example :
    (r : Reconciliation) × (w : Wallet) × (reconcile_user
        (pos 500)
        8
        (serve_all requests (db_in OrderStatus.pending_payment)).wallets
      ≡ ok (r, w))
    × (r.is_ok ≡ true)
every_reconciliation_agrees_example =
    every_reconciliation_agrees requests (db_in OrderStatus.pending_payment) (pos 500) 8
      wallets-IsSound

charge_moves_example :
    (e : WalletLedger) × (w' : Wallet) × (charge (pos 500) 7 (pos 200) note wallets ≡ ok (e, w'))
    × Posts 7 account (pos 0 -ℤ pos 200) wallets w'
charge_moves_example =
    charge_moves (pos 500) 7 (pos 200) note wallets account found refl (ground arith) (ground arith)

charge_overdraft_example :
    charge (pos 500) 7 (pos 301) note wallets ≡ err (app_error wallet_insufficient 400)
unfolding ◌+ℤ◌
charge_overdraft_example =
    charge_overdraft (pos 500) 7 (pos 301) note wallets account found refl (ground arith)
      (ground arith)

credit_moves_example :
    (e : WalletLedger) × (w' : Wallet) × (credit (pos 500) 7 (pos 200) note wallets ≡ ok (e, w'))
    × Posts 7 account (pos 200) wallets w'
credit_moves_example =
    credit_moves (pos 500) 7 (pos 200) note wallets account found refl (ground arith) (ground arith)

wallet_payment_example :
    Returns
      (λ r db'.
        (r.order.status ≡ OrderStatus.paid)
        × (lookup 3 db'.orders ≡ some r.order)
        × Posts 7 account (pos 0 -ℤ pos 200) wallets db'.wallets)
      (pay_order env 7 3 (some PayMethod.wallet) (db_in OrderStatus.created))
unfolding is_ticketed
wallet_payment_example =
    wallet_payment env 7 3 (db_in OrderStatus.created) (order_in OrderStatus.created) account
      (unfold lookup in refl) refl (unfold is_payable in refl) (unfold is_expired in refl) refl
      found refl (ground arith) (ground arith)

finds_payment :
    (s : OrderStatus) → Finds env PayMethod.wechat notification (db_in s) payment (order_in s)
unfolding verify_notify rows lookup
finds_payment s = record { stub = refl; named = refl; one = refl; of_order = refl }

late_notification_pays_example :
    Returns
      (λ r db'.
        (r.is_ok ≡ true)
        × (r.order.status ≡ OrderStatus.paid)
        × (lookup 3 db'.orders ≡ some r.order))
      (handle_notify env (some PayMethod.wechat) notification (db_in OrderStatus.cancelled))
unfolding is_succeeded is_ticketed is_paid
late_notification_pays_example =
    late_notification_pays env PayMethod.wechat notification (db_in OrderStatus.cancelled) payment
      (order_in OrderStatus.cancelled) (finds_payment OrderStatus.cancelled)
      (unfold verify_notify in refl) refl refl refl

notification_settles_once_example :
    Returns
      (λ r db'.
        (r.duplicate ≡ false)
        × ((r' : NotifyResult) × (handle_notify env (some PayMethod.wechat) notification db'
              ≡ ok (r', db'))
            × (r'.duplicate ≡ true)))
      (handle_notify env (some PayMethod.wechat) notification (db_in OrderStatus.pending_payment))
unfolding is_succeeded is_ticketed is_paid
notification_settles_once_example =
    notification_settles_once env PayMethod.wechat notification (db_in OrderStatus.pending_payment)
      payment (order_in OrderStatus.pending_payment) env (finds_payment OrderStatus.pending_payment)
      refl (unfold verify_notify in refl) refl (unfold lookup in refl) refl refl refl

reject_restores_example :
    Returns
      (λ r' db'.
        (r'.status ≡ RefundStatus.rejected)
        × (lookup 5 db'.refunds ≡ some r')
        × (lookup 3 db'.orders
            ≡ some (record (order_in OrderStatus.refunding) { status = OrderStatus.paid }))
        × (db'.wallets ≡ wallets))
      (complete_refund env 5 (some 1) true (some "no") (db_in OrderStatus.refunding))
unfolding is_final
reject_restores_example =
    reject_restores env (some 1) (some "no") 5 (db_in OrderStatus.refunding) refund
      (order_in OrderStatus.refunding) (unfold lookup in refl) refl refl (unfold lookup in refl)
      refl

refund_pays_example :
    Returns
      (Refunded env
        (some 1)
        none
        5
        refund
        (order_in OrderStatus.refunding)
        account
        (db_in OrderStatus.refunding))
      (complete_refund env 5 (some 1) false none (db_in OrderStatus.refunding))
unfolding is_final is_membership
refund_pays_example =
    refund_pays env (some 1) none 5 (db_in OrderStatus.refunding) refund
      (order_in OrderStatus.refunding) account (unfold lookup in refl) refl refl
      (unfold lookup in refl) refl refl refl refl found refl (ground arith) (ground arith)

refund_decided_once_example :
    Returns
      (λ r' db'. complete_refund env 5 (some 2) true (some "no") db' ≡ ok (r', db'))
      (complete_refund env 5 (some 1) false none (db_in OrderStatus.refunding))
unfolding is_final is_membership
refund_decided_once_example =
    refund_decided_once env env (some 1) (some 2) none (some "no") true 5
      (db_in OrderStatus.refunding) refund (order_in OrderStatus.refunding) account
      (unfold lookup in refl) refl refl (unfold lookup in refl) refl refl refl refl found refl
      (ground arith) (ground arith)

submit_refund_bounded_example :
    Yields
      (λ r _. (pos 1 ≤ℤ r.amount_cents) × (r.amount_cents ≤ℤ pos 200))
      (submit_refund env 7 3 "r" "" (some (pos 50)) (db_in OrderStatus.paid))
submit_refund_bounded_example =
    submit_refund_bounded env 3 (order_in OrderStatus.paid) 7 "r" "" (some (pos 50))
      (db_in OrderStatus.paid) (unfold lookup in refl) refl

place_order-IsPriced_example :
    Gives (IsPriced booking_request) (place_order env 8 OrderKind.companion_booking booking_request)
place_order-IsPriced_example =
    place_order-IsPriced env booking_request 8 OrderKind.companion_booking
