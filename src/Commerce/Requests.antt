-- ===== src/Commerce/Requests.antt =====
-- Requests to app/modules/commerce/router.py, the grant of app/modules/admin/commerce.py and the
-- worker's job, one after another: each commits what it did, or raises and leaves the tables alone.
use dating_backend.Commerce.Wallet.Balance.{reconcile_ok, brief-IsSound, credit-IsSound}
use dating_backend.Commerce.Refunds.{submit_refund, complete_refund}
use dating_backend.Commerce.Payments.{pay_order, cancel_order, expire_unpaid_orders}
use dating_backend.Commerce.MoneyHandlers.{
  create_order-Keeps, pay_order-Keeps, cancel_order-Keeps, handle_notify-Keeps, submit_refund-Keeps,
  complete_refund-Keeps, expire_unpaid_orders-Keeps,
}
use dating_backend.Commerce.Settlement.{Notification, handle_notify}
use dating_backend.Commerce.Money.{MoneyIsSound, on_wallet-Keeps}
use dating_backend.Commerce.Orders.{OrderRequest, create_order}
use dating_backend.Prelude.{ℕ, String, Bool, Option, some, List, [], ◌∷◌, ◌≡◌, true}
use dating_backend.Prelude.Int.{ℤ}
use dating_backend.Shared.Action.{Action, ok, committed}
use dating_backend.Shared.Action.Keeps.{Keeps, committed_of_commits}
use dating_backend.Commerce.Wallet.{Posting, brief, Reconciliation, Wallet, reconcile_user, credit}
use dating_backend.Commerce.Data.{Db, Env, PayMethod, on_wallet}

pub data Request : Type 0 where
  create : ℕ → OrderRequest → Request
  pay : ℕ → ℕ → Option PayMethod → Request
  cancel : ℕ → ℕ → Request
  notify : Option PayMethod → Notification → Request
  ask_refund : ℕ → ℕ → String → String → Option ℤ → Request
  decide_refund : ℕ → ℕ → Bool → Option String → Request
  my_wallet : ℕ → Request
  grant : ℕ → ℤ → Posting → Request
  expire : ℕ → Request

pub serve : Env → Request → Db → Db
unfolding committed
serve env (create uid r) db = committed (create_order env uid r db) db
serve env (pay uid id m) db = committed (pay_order env uid id m db) db
serve env (cancel uid id) db = committed (cancel_order env uid id db) db
serve env (notify m n) db = committed (handle_notify env m n db) db
serve env (ask_refund uid id reason detail cents) db =
    committed (submit_refund env uid id reason detail cents db) db
serve env (decide_refund id admin_id reject remark) db =
    committed (complete_refund env id (some admin_id) reject remark db) db
serve env (my_wallet uid) db = committed (on_wallet (brief env.wallet_welcome_cents uid) db) db
serve env (grant uid cents p) db =
    committed (on_wallet (credit env.wallet_welcome_cents uid cents p) db) db
serve env (expire limit) db = committed (expire_unpaid_orders env limit db) db

pub serve_all : List (Env × Request) → Db → Db
unfolding serve
serve_all [] db = db
serve_all ((env, r) ∷ rs) db = serve_all rs (serve env r db)

committed-MoneyIsSound :
    {A : Type 0} (m : Action Db A) (db : Db)
    → Keeps MoneyIsSound m
    → MoneyIsSound db
    → MoneyIsSound (committed (m db) db)
committed-MoneyIsSound m db k h = committed_of_commits MoneyIsSound (m db) db (k.at db h) h

serve-MoneyIsSound :
    (env : Env) (r : Request) (db : Db) → MoneyIsSound db → MoneyIsSound (serve env r db)
unfolding serve
serve-MoneyIsSound env (create uid r) db h =
    committed-MoneyIsSound _ db (create_order-Keeps env uid r) h
serve-MoneyIsSound env (pay uid id m) db h =
    committed-MoneyIsSound _ db (pay_order-Keeps env uid id m) h
serve-MoneyIsSound env (cancel uid id) db h =
    committed-MoneyIsSound _ db (cancel_order-Keeps env uid id) h
serve-MoneyIsSound env (notify m n) db h =
    committed-MoneyIsSound _ db (handle_notify-Keeps env m n) h
serve-MoneyIsSound env (ask_refund uid id reason detail cents) db h =
    committed-MoneyIsSound _ db (submit_refund-Keeps env uid id reason detail cents) h
serve-MoneyIsSound env (decide_refund id admin_id reject remark) db h =
    committed-MoneyIsSound _ db (complete_refund-Keeps env id (some admin_id) reject remark) h
serve-MoneyIsSound env (my_wallet uid) db h =
    committed-MoneyIsSound _ db
      (on_wallet-Keeps (brief env.wallet_welcome_cents uid)
        (brief-IsSound env.wallet_welcome_cents uid))
      h
serve-MoneyIsSound env (grant uid cents p) db h =
    committed-MoneyIsSound _ db
      (on_wallet-Keeps (credit env.wallet_welcome_cents uid cents p)
        (credit-IsSound env.wallet_welcome_cents uid cents p))
      h
serve-MoneyIsSound env (expire limit) db h =
    committed-MoneyIsSound _ db (expire_unpaid_orders-Keeps env limit) h

-- Whatever requests are served, failing ones included, sound wallets stay sound: every balance is the
-- sum of its ledger rows, none is negative, and every row records the balance after it.
pub serve_all-MoneyIsSound :
    (rs : List (Env × Request)) (db : Db) → MoneyIsSound db → MoneyIsSound (serve_all rs db)
unfolding serve_all
serve_all-MoneyIsSound [] db h = h
serve_all-MoneyIsSound ((env, r) ∷ rs) db h =
    serve_all-MoneyIsSound rs (serve env r db) (serve-MoneyIsSound env r db h)

-- After any requests from sound wallets, the reconciliation of any user succeeds and reports agreement.
pub every_reconciliation_agrees :
    (rs : List (Env × Request)) (db : Db) (welcome_cents : ℤ) (u : ℕ)
    → MoneyIsSound db
    → (r : Reconciliation) × (w : Wallet) × (reconcile_user welcome_cents u
          (serve_all rs db).wallets
        ≡ ok (r, w))
      × (r.is_ok ≡ true)
every_reconciliation_agrees rs db welcome_cents u h =
    let (r, w, e, agrees, _) =
      reconcile_ok welcome_cents (serve_all rs db).wallets u (serve_all-MoneyIsSound rs db h) in
    (r, w, e, agrees)
