-- ===== src/Commerce/Wallet.antt =====
-- app/modules/commerce/wallet.py: accounts with a balance, and the ledger of what moved it.
-- Ledger rows are kept newest first, which is how `list_ledger` orders them.
pub mod Balance
pub mod Effects
use dating_backend.Prelude.{
  ℕ, suc, ◌+◌, ◌≤◌, String, Bool, true, false, Option, none, some, List, [], ◌∷◌, ◌&&◌, ◌==◌, ltb,
  if◌then◌else◌, length, filter, count, take, drop,
}
use dating_backend.Prelude.Int.{ℤ, pos, ◌+ℤ◌, ◌-ℤ◌, ltb_ℤ, leb_ℤ, pos_part, neg_part}
use dating_backend.Shared.Errors.{app_error, wallet_insufficient, order_invalid}
use dating_backend.Shared.Action.{Action, pure, raise, gets, raise_if, ◌>>=◌, ◌>>◌}
use dating_backend.Shared.Table.{Table, lookup, insert}

pub data WalletLedgerKind : Type 0 where
  top_up welcome activity_payment activity_refund booking_payment booking_refund : WalletLedgerKind
  transfer_out transfer_in transfer_refund membership : WalletLedgerKind

pub record WalletAccount : Type 0 where
  pub user_id : ℕ
  pub balance_cents : ℤ
  pub frozen_cents : ℤ
  pub version : ℕ

pub record WalletLedger : Type 0 where
  pub id : ℕ
  pub user_id : ℕ
  pub kind : WalletLedgerKind
  pub title : String
  pub subtitle : Option String
  pub balance_delta_cents : ℤ
  pub amount_cents : ℤ
  pub balance_after_cents : ℤ
  pub related_order_id : Option ℕ
  pub method : Option String

-- The tables `wallet_accounts` and `wallet_ledger`, and the id that `uuid4` gives next.
pub record Wallet : Type 0 where
  pub accounts : Table WalletAccount
  pub ledger : List WalletLedger
  pub next_id : ℕ

-- The keyword arguments of a posting that only describe it.
pub record Posting : Type 0 where
  pub kind : WalletLedgerKind
  pub title : String
  pub subtitle : Option String
  pub related_order_id : Option ℕ
  pub method : Option String

-- The row that `_credit` adds.
unfoldable pub ledger_entry : WalletAccount → ℤ → ℤ → Posting → Wallet → WalletLedger
ledger_entry account delta amount_cents p w = record {
  id = w.next_id;
  user_id = account.user_id;
  kind = p.kind;
  title = p.title;
  subtitle = p.subtitle;
  balance_delta_cents = delta;
  amount_cents = amount_cents;
  balance_after_cents = account.balance_cents +ℤ delta;
  related_order_id = p.related_order_id;
  method = p.method;
}

-- The account as `_credit` leaves it.
unfoldable pub credited : WalletAccount → ℤ → WalletAccount
credited account delta = record account {
  balance_cents = account.balance_cents +ℤ delta;
  version = account.version + 1;
}

-- The wallet after the flush in `_credit`.
unfoldable pub posted : WalletAccount → ℤ → ℤ → Posting → Wallet → Wallet
unfolding ledger_entry credited
posted account delta amount_cents p w = record {
  accounts = insert account.user_id (credited account delta) w.accounts;
  ledger = ledger_entry account delta amount_cents p w ∷ w.ledger;
  next_id = w.next_id + 1;
}

-- `WalletService._credit`
unfoldable pub credit_account : WalletAccount → ℤ → ℤ → Posting → Action Wallet WalletLedger
credit_account account delta amount_cents p w =
    if ltb_ℤ (account.balance_cents +ℤ delta) (pos 0)
    then raise (app_error wallet_insufficient 400) w
    else pure (ledger_entry account delta amount_cents p w) (posted account delta amount_cents p w)

abbrev welcome_posting : Posting
welcome_posting = record {
  kind = welcome;
  title = "欢迎加入坐标系";
  subtitle = some "新用户体验金";
  related_order_id = none;
  method = some "system";
}

-- A new row of `wallet_accounts`.
abbrev pub new_account : ℕ → WalletAccount
new_account uid = record { user_id = uid; balance_cents = pos 0; frozen_cents = pos 0; version = 0 }

-- `settings.wallet_welcome_cents` is a parameter of every call that can open an account.
module _ (welcome_cents : ℤ) where
  -- The branch of `ensure_account` for a user with no account yet. The account that it returns is
  -- the object that the grant changed.
  unfoldable pub open_account : ℕ → Bool → Action Wallet WalletAccount
  unfolding credited
  open_account uid grant_welcome w =
      let account = new_account uid in
      let opened = record w { accounts = insert uid account w.accounts } in
      if grant_welcome && ltb_ℤ (pos 0) welcome_cents
      then (credit_account account welcome_cents welcome_cents welcome_posting
            >> pure (credited account welcome_cents))
          opened
      else pure account opened

  unfoldable pub ensure_account : ℕ → Bool → Action Wallet WalletAccount
  ensure_account uid grant_welcome w = elim (lookup uid w.accounts) [
    | some account ↦ pure account w
    | none ↦ open_account uid grant_welcome w
  ]

  unfoldable pub charge : ℕ → ℤ → Posting → Action Wallet WalletLedger
  charge uid amount_cents p = do
    raise_if (leb_ℤ amount_cents (pos 0)) (app_error order_invalid 400)
    account ← ensure_account uid true
    raise_if (ltb_ℤ account.balance_cents amount_cents) (app_error wallet_insufficient 400)
    credit_account account (pos 0 -ℤ amount_cents) amount_cents p

  unfoldable pub credit : ℕ → ℤ → Posting → Action Wallet WalletLedger
  credit uid amount_cents p = do
    raise_if (leb_ℤ amount_cents (pos 0)) (app_error order_invalid 400)
    account ← ensure_account uid false
    credit_account account amount_cents amount_cents p

  -- `brief`: the balance, the frozen amount and the version; the display text is left out.
  unfoldable pub brief : ℕ → Action Wallet (ℤ × ℤ × ℕ)
  brief uid = do
    account ← ensure_account uid true
    pure (account.balance_cents, account.frozen_cents, account.version)

  -- The page and the total of `list_ledger`.
  unfoldable pub list_ledger : ℕ → ℕ → ℕ → Action Wallet (List WalletLedger × ℕ)
  list_ledger uid limit offset = do
    ensure_account uid true
    rows ← gets (λ w. filter (λ (e : WalletLedger). e.user_id == uid) w.ledger)
    pure (take limit (drop offset rows), length rows)

-- `sum(int(r.balance_delta_cents) for r in rows)` over a user's rows.
unfoldable pub ledger_sum : ℕ → List WalletLedger → ℤ
ledger_sum uid [] = pos 0
ledger_sum uid (e ∷ es) =
    (if e.user_id == uid then e.balance_delta_cents else pos 0) +ℤ ledger_sum uid es

pub record Reconciliation : Type 0 where
  pub user_id : ℕ
  pub balance_cents : ℤ
  pub ledger_sum_cents : ℤ
  pub is_ok : Bool

-- `a == b` on integers.
abbrev eq_ℤ : ℤ → ℤ → Bool
eq_ℤ a b = leb_ℤ a b && leb_ℤ b a

-- `reconcile_user`; it never grants the welcome bonus, so the parameter is of no account.
unfoldable pub reconcile_user : ℤ → ℕ → Action Wallet Reconciliation
reconcile_user welcome_cents uid = do
  account ← ensure_account welcome_cents uid false
  total ← gets (λ w. ledger_sum uid w.ledger)
  pure (record {
    user_id = uid;
    balance_cents = account.balance_cents;
    ledger_sum_cents = total;
    is_ok = eq_ℤ total account.balance_cents;
  })
