-- ===== src/Commerce/Payments.antt =====
-- `get_order`, `cancel_order`, `pay_order` and `expire_unpaid_orders` of
-- app/modules/commerce/service.py.
use dating_backend.Events.{order_cancelled}
use dating_backend.Commerce.Wallet.{WalletLedgerKind, Posting, charge}
use dating_backend.Commerce.Settlement.{
  method_name, is_paid, get_payment_provider, is_wallet, settle_payment,
}
use dating_backend.Prelude.{
  ℕ, String, Bool, true, false, Option, none, some, List, [], ◌∷◌, not, ◌&&◌, ◌||◌, ◌==◌, ltb,
  if◌then◌else◌, take, length,
}
use dating_backend.Shared.Errors.{app_error, order_invalid, order_not_found, order_expired}
use dating_backend.Shared.Action.{Action, pure, gets, or_raise, raise_if, ◌>>=◌, ◌>>◌}
use dating_backend.Shared.Table.{Table, lookup, insert, rows}
use dating_backend.Commerce.Data.{
  Db, Env, Order, OrderKind, OrderStatus, Payment, PayMethod, save_order, PaymentStatus, publish,
  fresh_id, save_payment, on_wallet,
}

-- `PAYABLE_STATUSES`
unfoldable pub is_payable : OrderStatus → Bool
is_payable OrderStatus.created = true
is_payable OrderStatus.pending_payment = true
is_payable _ = false

-- The order, if there is one and it is the user's.
unfoldable pub owned : ℕ → Option Order → Option Order
owned uid none = none
owned uid (some order) = if order.user_id == uid then some order else none

unfoldable pub get_order : ℕ → ℕ → Action Db Order
unfolding owned
get_order uid order_id = do
  found ← gets (λ db. lookup order_id db.orders)
  or_raise (owned uid found) (app_error order_not_found 404)

-- The order, closed without payment.
unfoldable pub closed_order : ℕ → Order → Order
closed_order now order = record order { status = OrderStatus.cancelled; closed_at = some now }

unfoldable pub is_past : ℕ → Option ℕ → Bool
is_past now none = false
is_past now (some t) = ltb t now

-- The test of `_expire_if_needed` and of `expire_unpaid_orders`.
unfoldable pub is_expired : ℕ → Order → Bool
unfolding is_payable is_past
is_expired now order = is_payable order.status && is_past now order.expire_at

unfoldable pub is_topup : OrderKind → Bool
is_topup OrderKind.wallet_topup = true
is_topup _ = false

unfoldable pub debit_kind : OrderKind → WalletLedgerKind
debit_kind OrderKind.companion_booking = WalletLedgerKind.booking_payment
debit_kind OrderKind.membership = WalletLedgerKind.membership
debit_kind _ = WalletLedgerKind.activity_payment

abbrev pub debit_posting : Order → Posting
debit_posting order = record {
  kind = debit_kind order.kind;
  title = order.subject_title;
  subtitle = none;
  related_order_id = some order.id;
  method = some "wallet";
}

pub record PayResult : Type 0 where
  pub order : Order
  pub already_paid : Bool

module _ (env : Env) where
  unfoldable pub cancel_order : ℕ → ℕ → Action Db Order
  unfolding is_payable closed_order
  cancel_order uid order_id = do
    order ← get_order uid order_id
    raise_if (not (is_payable order.status)) (app_error order_invalid 409)
    save_order (closed_order env.now order)
    publish env.now order_cancelled "order" order.id
    pure (closed_order env.now order)

  -- The transaction number that a channel makes of an order number.
  unfoldable pub charge_txn : PayMethod → Order → String
  charge_txn PayMethod.wallet order = Prim.Native.String.◌++◌ "wallet_" order.order_no
  charge_txn m order =
      Prim.Native.String.◌++◌ "stub_"
        (Prim.Native.String.◌++◌ (method_name m) (Prim.Native.String.◌++◌ "_" order.order_no))

  -- `ChargeIntent.immediate`
  unfoldable pub is_immediate : PayMethod → Bool
  unfolding is_wallet
  is_immediate m = is_wallet m || env.payment_stub_auto_complete

  unfoldable pub debit_wallet : ℕ → PayMethod → Order → Action Db (Unit {0})
  unfolding debit_kind is_wallet
  debit_wallet uid m order =
      if is_wallet m
      then on_wallet (charge env.wallet_welcome_cents uid order.payable_cents (debit_posting order))
        >> pure tt
      else pure tt

  unfoldable pub new_payment : ℕ → PayMethod → Order → Payment
  unfolding charge_txn
  new_payment id m order = record {
    id = id;
    order_id = order.id;
    provider = m;
    provider_txn_id = charge_txn m order;
    amount_cents = order.payable_cents;
    status = PaymentStatus.pending;
    notified_at = none;
  }

  unfoldable pub charged_order : PayMethod → Order → Order
  charged_order m order = record order { status = OrderStatus.pending_payment; pay_method = some m }

  -- The part of `pay_order` behind its guards.
  unfoldable pub open_payment : ℕ → PayMethod → Order → Action Db PayResult
  unfolding new_payment charged_order debit_wallet is_immediate
  open_payment uid m order = do
    provider ← get_payment_provider env (some m)
    id ← fresh_id
    let payment = new_payment id provider order
    save_payment payment
    save_order (charged_order m order)
    if is_immediate m
        then (debit_wallet uid m (charged_order m order)
            >> settle_payment env payment (charged_order m order)
            >>= λ settled. pure (record { order = settled; already_paid = false }))
        else pure (record { order = charged_order m order; already_paid = false })

  unfoldable pub pay_order : ℕ → ℕ → Option PayMethod → Action Db PayResult
  unfolding is_expired is_topup open_payment
  pay_order uid order_id method = do
    order ← get_order uid order_id
    raise_if (is_expired env.now order) (app_error order_expired 409)
    if is_paid order.status
        then pure (record { order = order; already_paid = true })
        else raise_if (not (is_payable order.status)) (app_error order_invalid 409)
          >> or_raise method (app_error order_invalid 400)
          >>= λ m.
              raise_if (is_topup order.kind && is_wallet m) (app_error order_invalid 400)
              >> open_payment uid m order

  -- The rows are closed one after another.
  unfoldable pub close_each : List Order → Table Order → Table Order
  unfolding closed_order
  close_each [] t = t
  close_each (o ∷ os) t = close_each os (insert o.id (closed_order env.now o) t)

  -- `expire_unpaid_orders`; it returns how many orders it closed.
  unfoldable pub expire_unpaid_orders : ℕ → Action Db ℕ
  unfolding is_expired close_each
  expire_unpaid_orders limit db =
      let due = take limit (rows (is_expired env.now) db.orders) in
      pure (length due) (record db { orders = close_each due db.orders })
