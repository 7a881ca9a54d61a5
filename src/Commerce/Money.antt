-- ===== src/Commerce/Money.antt =====
-- What pays out or in keeps the wallets sound: balances are the sums of their ledger rows, and
-- none is negative.
use dating_backend.Commerce.Settlement.{on_paid, deliver, settle_payment}
use dating_backend.Shared.Action.{Action}
use dating_backend.Shared.Action.Keeps.{Keeps, Keeps-on_part}
use dating_backend.Commerce.Wallet.{Wallet}
use dating_backend.Commerce.Wallet.Balance.{IsSound, charge-IsSound, credit-IsSound}
use dating_backend.Commerce.Data.{Db, Env, Order, OrderKind, PayMethod, Payment, on_wallet}
use dating_backend.Commerce.Frame.{
  OnWallets, frame_rules, activate_membership-Keeps, issue_order_credential-Keeps,
  mark_subject_paid-Keeps,
}

abbrev pub MoneyIsSound : Db → Type 0
MoneyIsSound = OnWallets IsSound

pub on_wallet-Keeps :
    {A : Type 0} (m : Action Wallet A) → Keeps IsSound m → Keeps MoneyIsSound (on_wallet m)
unfolding on_wallet
on_wallet-Keeps m k =
    Keeps-on_part MoneyIsSound IsSound (λ db. db.wallets) (λ w db. record db { wallets = w }) m k
      (λ db h. h) (λ db w h q. q)

pub ruleset money_rules = (frame_rules, on_wallet-Keeps, charge-IsSound, credit-IsSound)

module _ (env : Env) where
  deliver-Keeps :
      (k : OrderKind) (o : Order) (m : PayMethod) → Keeps MoneyIsSound (deliver env k o m)
  unfolding deliver
  deliver-Keeps OrderKind.wallet_topup o m = search money_rules depth 8
  deliver-Keeps OrderKind.membership o m = activate_membership-Keeps IsSound env o
  deliver-Keeps OrderKind.activity o m = issue_order_credential-Keeps IsSound env "ACT" o
  deliver-Keeps OrderKind.companion_booking o m =
      search (money_rules, issue_order_credential-Keeps, mark_subject_paid-Keeps)

  pub on_paid-Keeps : (o : Order) (m : PayMethod) → Keeps MoneyIsSound (on_paid env o m)
  unfolding on_paid
  on_paid-Keeps o m = search (money_rules, deliver-Keeps) depth 8

  pub settle_payment-Keeps : (p : Payment) (o : Order) → Keeps MoneyIsSound (settle_payment env p o)
  unfolding settle_payment
  settle_payment-Keeps p o = search (money_rules, on_paid-Keeps)
