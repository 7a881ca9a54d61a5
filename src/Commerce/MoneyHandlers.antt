-- ===== src/Commerce/MoneyHandlers.antt =====
-- The public handlers of app/modules/commerce keep the wallets sound, and so does any sequence of
-- requests, whatever fails on the way.
use dating_backend.Commerce.Frame.{resolve_plan-Keeps}
use dating_backend.Prelude.Int.{ℤ}
use dating_backend.Commerce.Refunds.{submit_refund, complete_refund, process_refund}
use dating_backend.Commerce.Payments.{
  debit_wallet, expire_unpaid_orders, open_payment, cancel_order, get_order, pay_order,
}
use dating_backend.Commerce.Settlement.{
  apply_notify, handle_notify, get_payment_provider, Notification,
}
use dating_backend.Commerce.Orders.{
  quote, hit_or_place, settle_if_free, earlier_order, create_order, OrderRequest,
}
use dating_backend.Commerce.Membership.{revoke_membership_for_order}
use dating_backend.Prelude.{ℕ, String, Bool, true, false, Option, none, some}
use dating_backend.Shared.Action.Keeps.{Keeps}
use dating_backend.Commerce.Data.{Env, Order, OrderKind, PayMethod, Payment, Refund, Meta}
use dating_backend.Commerce.Money.{MoneyIsSound, money_rules, on_paid-Keeps, settle_payment-Keeps}

module _ (env : Env) where
  get_payment_provider-Keeps :
      (m : Option PayMethod) → Keeps MoneyIsSound (get_payment_provider env m)
  unfolding get_payment_provider
  get_payment_provider-Keeps none = search money_rules
  get_payment_provider-Keeps (some m) = search money_rules

  apply_notify-Keeps :
      (b : Bool) (p : Payment) (o : Order) → Keeps MoneyIsSound (apply_notify env b p o)
  unfolding apply_notify
  apply_notify-Keeps b p o = search (money_rules, settle_payment-Keeps) depth 8

  pub handle_notify-Keeps :
      (m : Option PayMethod) (n : Notification) → Keeps MoneyIsSound (handle_notify env m n)
  unfolding handle_notify
  handle_notify-Keeps m n =
      search (money_rules, get_payment_provider-Keeps, apply_notify-Keeps) depth 16

  quote-Keeps :
      (k : OrderKind) (subject : Option ℕ) (title : String) (cents : Option ℤ) (meta : Meta)
      → Keeps MoneyIsSound (quote env k subject title cents meta)
  unfolding quote
  quote-Keeps OrderKind.activity none title cents meta = search money_rules
  quote-Keeps OrderKind.activity (some id) title cents meta = search money_rules depth 10
  quote-Keeps OrderKind.membership subject title cents meta =
      search (money_rules, resolve_plan-Keeps) depth 8
  quote-Keeps OrderKind.wallet_topup subject title cents meta = search money_rules depth 8
  quote-Keeps OrderKind.companion_booking none title cents meta = search money_rules depth 8
  quote-Keeps OrderKind.companion_booking (some id) title cents meta = search money_rules depth 12

  earlier_order-Keeps : (uid : ℕ) (key : Option String) → Keeps MoneyIsSound (earlier_order uid key)
  unfolding earlier_order
  earlier_order-Keeps uid none = search money_rules
  earlier_order-Keeps uid (some key) = search money_rules depth 8

  settle_if_free-Keeps : (o : Order) → Keeps MoneyIsSound (settle_if_free env o)
  unfolding settle_if_free
  settle_if_free-Keeps o = search (money_rules, on_paid-Keeps)

  hit_or_place-Keeps :
      (uid : ℕ) (k : OrderKind) (r : OrderRequest) (hit : Option Order)
      → Keeps MoneyIsSound (hit_or_place env uid k r hit)
  unfolding hit_or_place
  hit_or_place-Keeps uid k r none = search (money_rules, quote-Keeps, settle_if_free-Keeps) depth 16
  hit_or_place-Keeps uid k r (some o) = search money_rules

  pub create_order-Keeps :
      (uid : ℕ) (r : OrderRequest) → Keeps MoneyIsSound (create_order env uid r)
  unfolding create_order
  create_order-Keeps uid r = search (money_rules, earlier_order-Keeps, hit_or_place-Keeps) depth 10

  get_order-Keeps : (uid id : ℕ) → Keeps MoneyIsSound (get_order uid id)
  unfolding get_order
  get_order-Keeps uid id = search money_rules depth 8

  pub cancel_order-Keeps : (uid id : ℕ) → Keeps MoneyIsSound (cancel_order env uid id)
  unfolding cancel_order
  cancel_order-Keeps uid id = search (money_rules, get_order-Keeps) depth 12

  debit_wallet-Keeps :
      (uid : ℕ) (m : PayMethod) (o : Order) → Keeps MoneyIsSound (debit_wallet env uid m o)
  unfolding debit_wallet
  debit_wallet-Keeps uid m o = search money_rules depth 8

  open_payment-Keeps :
      (uid : ℕ) (m : PayMethod) (o : Order) → Keeps MoneyIsSound (open_payment env uid m o)
  unfolding open_payment
  open_payment-Keeps uid m o =
      search (money_rules, get_payment_provider-Keeps, debit_wallet-Keeps, settle_payment-Keeps)
        depth 16

  pub pay_order-Keeps :
      (uid id : ℕ) (m : Option PayMethod) → Keeps MoneyIsSound (pay_order env uid id m)
  unfolding pay_order
  pay_order-Keeps uid id m = search (money_rules, get_order-Keeps, open_payment-Keeps) depth 16

  pub expire_unpaid_orders-Keeps : (limit : ℕ) → Keeps MoneyIsSound (expire_unpaid_orders env limit)
  unfolding expire_unpaid_orders
  expire_unpaid_orders-Keeps limit = record { at = λ db h. h }

  revoke-Keeps : (id : ℕ) → Keeps MoneyIsSound (revoke_membership_for_order id)
  unfolding revoke_membership_for_order
  revoke-Keeps id = record { at = λ db h. h }

  process_refund-Keeps :
      (a : Option ℕ) (reject : Bool) (remark : Option String) (r : Refund)
      → Keeps MoneyIsSound (process_refund env a reject remark r)
  unfolding process_refund
  process_refund-Keeps a true remark r = search money_rules depth 16
  process_refund-Keeps a false remark r =
      search (money_rules, get_payment_provider-Keeps, revoke-Keeps) depth 20

  pub complete_refund-Keeps :
      (id : ℕ) (a : Option ℕ) (reject : Bool) (remark : Option String)
      → Keeps MoneyIsSound (complete_refund env id a reject remark)
  unfolding complete_refund
  complete_refund-Keeps id a reject remark = search (money_rules, process_refund-Keeps) depth 10

  pub submit_refund-Keeps :
      (uid id : ℕ) (reason detail : String) (cents : Option ℤ)
      → Keeps MoneyIsSound (submit_refund env uid id reason detail cents)
  unfolding submit_refund
  submit_refund-Keeps uid id reason detail cents =
      search (money_rules, get_order-Keeps, complete_refund-Keeps) depth 20
