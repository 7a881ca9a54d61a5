-- ===== src/Commerce/RefundLaws.antt =====
-- What a refund does: it is bounded by the price, pays once, and a rejection restores the order.
use dating_backend.Shared.Errors.{app_error, refund_invalid}
use dating_backend.Shared.Action.Gives.{Gives, gives_rules}
use dating_backend.Commerce.PaymentLaws.{get_order_found}
use dating_backend.Events.{enqueue}
use dating_backend.Commerce.Wallet.Effects.{Posts, credit_total, posted-Posts}
use dating_backend.Commerce.Settlement.{is_wallet, get_payment_provider, is_paid}
use dating_backend.Commerce.Wallet.{WalletAccount, Wallet, Posting, posted}
use dating_backend.Commerce.Refunds.{
  complete_refund, process_refund, reject_refund, is_final, rejected_refund, started_refund,
  pay_refund, credit_refund, refunded_order, completed_refund, revoke_if_membership, refund_posting,
  is_membership, submit_refund, new_refund, is_auto,
}
use dating_backend.Prelude.{
  ℕ, ◌≡◌, refl, Bool, true, false, Option, none, some, String, ◌||◌, or_else, arith, if◌then◌else◌,
  not, ◌+◌,
}
use dating_backend.Prelude.Int.{ℤ, pos, ◌≤ℤ◌, leb_ℤ, ltb_ℤ}
use dating_backend.Shared.Action.{pure, ok, ◌>>=◌}
use dating_backend.Shared.Action.Keeps.{Returns, Yields, Yields-guard, Returns-map, Yields-map}
use dating_backend.Shared.Table.{lookup, insert, lookup-insert_at}
use dating_backend.Commerce.Data.{
  Db, Env, Order, OrderStatus, PayMethod, Refund, RefundStatus, save_refund, save_order, on_wallet,
  publish, fresh_id,
}

wallet_or : (m : PayMethod) (b : Bool) → b ≡ true → (is_wallet m || b) ≡ true
wallet_or m b h = ground arith

module _ (env : Env) (admin_id : Option ℕ) (remark : Option String) where
  -- A refund that was completed or rejected is returned as it is, and nothing changes.
  complete_refund_final :
      (id : ℕ) (reject : Bool) (db : Db) (r : Refund)
      → lookup id db.refunds ≡ some r
      → is_final r.status ≡ true
      → complete_refund env id admin_id reject remark db ≡ ok (r, db)
  unfolding complete_refund process_refund
  complete_refund_final id reject db r found final = rw (found, complete_refund, ◌>>=◌) (rw final)

  -- Rejecting an open refund whose order exists commits: it marks the refund rejected, restores
  -- the order to paid, and touches no wallet.
  pub reject_restores :
      (id : ℕ) (db : Db) (r : Refund) (o : Order)
      → lookup id db.refunds ≡ some r
      → r.id ≡ id
      → is_final r.status ≡ false
      → lookup r.order_id db.orders ≡ some o
      → o.id ≡ r.order_id
      → Returns
          (λ r' db'.
            (r'.status ≡ RefundStatus.rejected)
            × (lookup id db'.refunds ≡ some r')
            × (lookup r.order_id db'.orders ≡ some (record o { status = OrderStatus.paid }))
            × (db'.wallets ≡ db.wallets))
          (complete_refund env id admin_id true remark db)
  unfolding complete_refund process_refund reject_refund rejected_refund started_refund save_refund
      save_order
  reject_restores id db r o found same still order linked =
      rw (found, complete_refund, ◌>>=◌)
        (rw (still, Returns)
          (rw (order, ◌>>=◌)
            (
              refl,
              lookup-insert_at r.id id (rejected_refund env admin_id remark r) db.refunds same,
              lookup-insert_at o.id r.order_id (record o { status = OrderStatus.paid }) db.orders
                  linked,
              refl,
            )))

  provider_of :
      (m : PayMethod) {db : Db}
      → env.payment_provider_is_stub ≡ true
      → get_payment_provider env (some m) db ≡ ok (m, db)
  unfolding get_payment_provider
  provider_of m stub = ground arith

  -- What accepting the refund `r` of the order `o` does, from the tables of `db`.
  pub record Refunded (id : ℕ) (r : Refund) (o : Order) (a : WalletAccount) (db : Db) (r' : Refund)
      (db' : Db) : Type 0 where
    pub done : is_final r'.status ≡ true
    pub completed : r'.status ≡ RefundStatus.completed
    pub kept : lookup id db'.refunds ≡ some r'
    pub order :
        lookup r.order_id db'.orders
        ≡ some (record o { status = OrderStatus.refunded; closed_at = some env.now })
    pub money : Posts o.user_id a r.amount_cents db.wallets db'.wallets

  credit_Posts :
      (m : PayMethod) (r : Refund) (o : Order) (a : WalletAccount) (db : Db)
      → is_wallet m || env.payment_refund_to_wallet ≡ true
      → lookup o.user_id db.wallets.accounts ≡ some a
      → a.user_id ≡ o.user_id
      → pos 1 ≤ℤ r.amount_cents
      → pos 0 ≤ℤ a.balance_cents
      → (w' : Wallet) × (credit_refund env m o r db ≡ ok (tt, record db { wallets = w' }))
        × Posts o.user_id a r.amount_cents db.wallets w'
  unfolding credit_refund on_wallet
  credit_Posts m r o a db to_wallet account keyed positive nonneg =
      let p : Posting = refund_posting o r m in
      (
        posted a r.amount_cents r.amount_cents p db.wallets,
        rw (to_wallet, credit_refund, ◌>>=◌)
            (rw (
              credit_total env.wallet_welcome_cents o.user_id r.amount_cents p db.wallets a account
                  keyed positive nonneg,
              on_wallet,
              ◌>>=◌,
            )),
        posted-Posts env.wallet_welcome_cents o.user_id r.amount_cents p db.wallets a account keyed
            r.amount_cents,
      )

  -- With the stub channels and refunds that go to the wallet, accepting an open refund of a
  -- positive amount, of an order of any kind but a membership, to a buyer whose wallet exists and
  -- is not overdrawn, commits: the refund is completed, the order refunded, and the wallet
  -- receives exactly the refund's amount.
  pub refund_pays :
      (id : ℕ) (db : Db) (r : Refund) (o : Order) (a : WalletAccount)
      → lookup id db.refunds ≡ some r
      → r.id ≡ id
      → is_final r.status ≡ false
      → lookup r.order_id db.orders ≡ some o
      → o.id ≡ r.order_id
      → is_membership o.kind ≡ false
      → env.payment_provider_is_stub ≡ true
      → env.payment_refund_to_wallet ≡ true
      → lookup o.user_id db.wallets.accounts ≡ some a
      → a.user_id ≡ o.user_id
      → pos 1 ≤ℤ r.amount_cents
      → pos 0 ≤ℤ a.balance_cents
      → Returns (Refunded id r o a db) (complete_refund env id admin_id false remark db)
  unfolding complete_refund process_refund pay_refund save_refund save_order publish enqueue
      completed_refund started_refund refunded_order revoke_if_membership
  refund_pays id db r o a found same still order linked plain stub to_wallet account keyed positive
        nonneg =
      let m : PayMethod = or_else o.pay_method PayMethod.wallet in
      let db1 : Db = record db {
        refunds = insert r.id (completed_refund env admin_id remark r) db.refunds;
        orders = insert o.id (refunded_order env o) db.orders;
      } in
      let (w', e, moved) =
        credit_Posts m r o a db1 (wallet_or m env.payment_refund_to_wallet to_wallet) account keyed
          positive nonneg in
      rw (found, complete_refund, ◌>>=◌)
        (rw (still, Returns)
          (rw (order, ◌>>=◌)
            (rw (provider_of m stub, ◌>>=◌)
              (rw (e, credit_refund, ◌>>=◌)
                (rw (plain, ◌>>=◌)
                  (record {
                    done = refl;
                    completed = refl;
                    kept =
                        lookup-insert_at r.id id (completed_refund env admin_id remark r) db.refunds
                          same;
                    order =
                        lookup-insert_at o.id r.order_id (refunded_order env o) db.orders linked;
                    money = moved;
                  }))))))

-- A refund is decided once: after the refund of any order but a membership was accepted, under the
-- conditions under which that commits, deciding it again, either way, by whomever and under
-- whatever settings, returns the same refund and changes nothing.
pub refund_decided_once :
    (env env' : Env) (admin_id admin_id' : Option ℕ) (remark remark' : Option String)
    (reject' : Bool) (id : ℕ) (db : Db) (r : Refund) (o : Order) (a : WalletAccount)
    → lookup id db.refunds ≡ some r
    → r.id ≡ id
    → is_final r.status ≡ false
    → lookup r.order_id db.orders ≡ some o
    → o.id ≡ r.order_id
    → is_membership o.kind ≡ false
    → env.payment_provider_is_stub ≡ true
    → env.payment_refund_to_wallet ≡ true
    → lookup o.user_id db.wallets.accounts ≡ some a
    → a.user_id ≡ o.user_id
    → pos 1 ≤ℤ r.amount_cents
    → pos 0 ≤ℤ a.balance_cents
    → Returns
        (λ r' db'. complete_refund env' id admin_id' reject' remark' db' ≡ ok (r', db'))
        (complete_refund env id admin_id false remark db)
refund_decided_once env env' admin_id admin_id' remark remark' reject' id db r o a found same still
      order linked plain stub to_wallet account keyed positive nonneg =
    Returns-map (Refunded env admin_id remark id r o a db) _
      (complete_refund env id admin_id false remark db)
      (λ r' db' h. complete_refund_final env' admin_id' remark' id reject' db' r' h.kept h.done)
      (refund_pays env admin_id remark id db r o a found same still order linked plain stub
        to_wallet account keyed positive nonneg)

module _ (env : Env) where
  -- No step of `complete_refund` changes the amount of the refund.
  process_refund_amount :
      (admin_id : Option ℕ) (reject : Bool) (remark : Option String) (r : Refund)
      → Gives (λ r'. r'.amount_cents ≡ r.amount_cents) (process_refund env admin_id reject remark r)
  unfolding process_refund
  process_refund_amount admin_id true remark r = search gives_rules depth 12
  process_refund_amount admin_id false remark r = search gives_rules depth 16

  -- The bounds that the guard of `submit_refund` leaves.
  abbrev InBounds : Order → Refund → Type 0
  InBounds o r = (pos 1 ≤ℤ r.amount_cents) × (r.amount_cents ≤ℤ o.payable_cents)

  guard_bounds :
      (cents payable : ℤ)
      → (leb_ℤ cents (pos 0) || ltb_ℤ payable cents) ≡ false
      → (pos 1 ≤ℤ cents) × (cents ≤ℤ payable)
  guard_bounds cents payable h = ground arith

  module _ (order_id : ℕ) (o : Order) where
    auto_bounded :
        (auto : Bool) (r : Refund) (db : Db)
        → InBounds o r
        → lookup r.id db.refunds ≡ some r
        → Yields
            (λ r' _. InBounds o r')
            ((if auto then complete_refund env r.id none false none else pure r) db)
    unfolding complete_refund
    auto_bounded false r db h found = h
    auto_bounded true r db h found =
        rw (found, complete_refund, ◌>>=◌)
          (Yields-map (λ r' _. r'.amount_cents ≡ r.amount_cents) (λ r' _. InBounds o r')
            (process_refund env none false none r db) (λ r' _ same. rw same h)
            ((process_refund_amount none false none r).at db))

    -- A request for the refund of one's own order that commits asks for more than nothing and for
    -- no more than the price.
    pub submit_refund_bounded :
        (uid : ℕ) (reason detail : String) (cents : Option ℤ) (db : Db)
        → lookup order_id db.orders ≡ some o
        → o.user_id ≡ uid
        → Yields
            (λ r _. (pos 1 ≤ℤ r.amount_cents) × (r.amount_cents ≤ℤ o.payable_cents))
            (submit_refund env uid order_id reason detail cents db)
    unfolding submit_refund new_refund fresh_id save_order save_refund
    submit_refund_bounded uid reason detail cents db found mine =
        let asked : ℤ = or_else cents o.payable_cents in
        let r : Refund = new_refund env db.next_id uid o asked reason detail in
        rw (get_order_found uid order_id db o found mine, submit_refund, ◌>>=◌)
          (Yields-guard (λ r' _. InBounds o r') (not (is_paid o.status))
            (app_error refund_invalid 409) _ db
            λ _.
              Yields-guard (λ r' _. InBounds o r')
                (leb_ℤ asked (pos 0) || ltb_ℤ o.payable_cents asked) (app_error refund_invalid 400)
                _ db
                λ inside.
                  auto_bounded (is_auto env o.pay_method) r
                    (record db {
                      orders = insert o.id (record o { status = OrderStatus.refunding }) db.orders;
                      refunds = insert db.next_id r db.refunds;
                      next_id = db.next_id + 1;
                    })
                    (guard_bounds asked o.payable_cents inside)
                    (lookup-insert_at db.next_id db.next_id r db.refunds refl))
