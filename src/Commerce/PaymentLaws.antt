-- ===== src/Commerce/PaymentLaws.antt =====
-- What paying an order does: the money that moves, and the status that the order ends in.
use dating_backend.Commerce.Payments.{
  is_topup, is_payable, pay_order, get_order, is_expired, owned, open_payment, is_immediate,
  debit_wallet, charged_order, debit_posting, new_payment, PayResult,
}
use dating_backend.Companion.Data.{CompanionBooking, awaits_payment}
use dating_backend.Events.{enqueue, order_paid}
use dating_backend.Commerce.Membership.{issue_order_credential}
use dating_backend.Commerce.Settlement.{
  mark_subject_paid, deliver, on_paid, mark_booking_paid, is_paid, mark_found, paid_order,
  get_payment_provider, is_wallet, settle_payment, succeeded_payment,
}
use dating_backend.Prelude.{
  Option, none, ℕ, ◌≡◌, refl, Bool, true, false, some, Option, Bool-cases, inl, inr, ==_iff, ◌+◌,
  ◌∙◌, ap, sym,
}
use dating_backend.Prelude.Int.{pos, ◌-ℤ◌, ◌≤ℤ◌}
use dating_backend.Shared.Action.{pure, ok, ◌>>=◌, ◌>>◌}
use dating_backend.Shared.Action.Keeps.{Returns, Returns-bind}
use dating_backend.Shared.Table.{lookup, insert, Table, lookup-insert_at}
use dating_backend.Commerce.Wallet.{Wallet, WalletAccount, Posting}
use dating_backend.Commerce.Wallet.Effects.{Posts, charge_total, posted-Posts}
use dating_backend.Commerce.Data.{
  Db, Env, Order, OrderKind, OrderStatus, PayMethod, Payment, save_order, fresh_id, on_companion,
  publish, save_payment, on_wallet,
}
use dating_backend.Commerce.Frame.{OnWallets}

-- The kinds whose delivery needs nothing that could be missing.
unfoldable pub is_ticketed : OrderKind → Bool
is_ticketed OrderKind.activity = true
is_ticketed OrderKind.companion_booking = true
is_ticketed _ = false

-- A property of the wallets, the payments and the orders.
abbrev pub OnTables : (Wallet → Table Payment → Table Order → Type 0) → Db → Type 0
OnTables Q db = Q db.wallets db.payments db.orders

module _ (env : Env) (Q : Wallet → Table Payment → Table Order → Type 0) where
  found_frame :
      (id : ℕ) (found : Option CompanionBooking) (db : Db)
      → OnTables Q db
      → Returns (λ _. OnTables Q) (mark_found env id found db)
  unfolding mark_found on_companion publish enqueue
  found_frame id none db q = q
  found_frame id (some b) db q = elim (Bool-cases (awaits_payment b.status)) [
    | inl awaits ↦ rw awaits q
    | inr settled ↦ rw settled q
  ]

  mark_subject_paid_frame :
      (subject : Option ℕ) (db : Db)
      → OnTables Q db
      → Returns (λ _. OnTables Q) (mark_subject_paid env subject db)
  unfolding mark_subject_paid mark_booking_paid mark_found on_companion publish enqueue
  mark_subject_paid_frame none db q = q
  mark_subject_paid_frame (some id) db q = found_frame id (lookup id db.companion.bookings) db q

  deliver_frame :
      (k : OrderKind) (o : Order) (m : PayMethod) (db : Db)
      → is_ticketed k ≡ true
      → OnTables Q db
      → Returns (λ _. OnTables Q) (deliver env k o m db)
  unfolding is_ticketed deliver issue_order_credential fresh_id
  deliver_frame OrderKind.activity o m db t q = q
  deliver_frame OrderKind.companion_booking o m db t q = mark_subject_paid_frame o.subject_id _ q
  deliver_frame OrderKind.membership o m db t q = cc
  deliver_frame OrderKind.wallet_topup o m db t q = cc

  -- Settling a ticketed order that is not yet paid commits, marks it paid, and changes no wallet and no payment.
  pub on_paid_frame :
      (o : Order) (m : PayMethod) (db : Db)
      → is_ticketed o.kind ≡ true
      → is_paid o.status ≡ false
      → Q db.wallets db.payments (insert o.id (paid_order env o m) db.orders)
      → Returns (λ o' db'. (o' ≡ paid_order env o m) × OnTables Q db') (on_paid env o m db)
  unfolding on_paid save_order
  on_paid_frame o m db t unpaid q =
      let o' : Order = paid_order env o m in
      let R : Order → Db → Type 0 = λ x db'. (x ≡ o') × OnTables Q db' in
      rw (unpaid, on_paid)
        (Returns-bind (λ _. OnTables Q) R (deliver env o.kind o' m)
          (λ _. publish env.now order_paid "order" o.id >> pure o')
          (record db { orders = insert o.id o' db.orders })
          (deliver_frame o.kind o' m (record db { orders = insert o.id o' db.orders }) t q)
          λ _ db' q'. unfold publish enqueue in (refl, q'))

-- The order of a user is what `get_order` returns.
pub get_order_found :
    (uid id : ℕ) (db : Db) (o : Order)
    → lookup id db.orders ≡ some o
    → o.user_id ≡ uid
    → get_order uid id db ≡ ok (o, db)
unfolding get_order owned
get_order_found uid id db o found mine =
    rw (found, get_order, ◌>>=◌) (rw ((==_iff o.user_id uid).1 mine, ◌>>=◌))

payable_not_paid : (s : OrderStatus) → is_payable s ≡ true → is_paid s ≡ false
unfolding is_payable is_paid
payable_not_paid OrderStatus.paid h = cc
payable_not_paid _ h = refl

ticketed_not_topup : (k : OrderKind) → is_ticketed k ≡ true → is_topup k ≡ false
unfolding is_ticketed is_topup
ticketed_not_topup OrderKind.wallet_topup h = cc
ticketed_not_topup _ h = refl

paid_order-status :
    (env : Env) (o : Order) → (paid_order env o PayMethod.wallet).status ≡ OrderStatus.paid
unfolding paid_order
paid_order-status env o = refl

module _ (env : Env) (uid id : ℕ) (db : Db) (o : Order) (a : WalletAccount) where
  debit_Posts :
      lookup uid db.wallets.accounts ≡ some a
      → a.user_id ≡ uid
      → pos 1 ≤ℤ o.payable_cents
      → o.payable_cents ≤ℤ a.balance_cents
      → (db1 : Db) → db1.wallets ≡ db.wallets
      → Returns
          (λ _. OnWallets (Posts uid a (pos 0 -ℤ o.payable_cents) db.wallets))
          (debit_wallet env uid PayMethod.wallet (charged_order env PayMethod.wallet o) db1)
  unfolding debit_wallet is_wallet on_wallet charged_order
  debit_Posts account keyed positive covered db1 same =
      let p : Posting = debit_posting (charged_order env PayMethod.wallet o) in
      rw (same, debit_wallet, on_wallet, ◌>>=◌)
        (rw
          (charge_total env.wallet_welcome_cents uid o.payable_cents p db.wallets a account keyed
            positive covered)
          (posted-Posts env.wallet_welcome_cents uid o.payable_cents p db.wallets a account keyed
            (pos 0 -ℤ o.payable_cents)))

  open_wallet_payment :
      is_ticketed o.kind ≡ true
      → lookup uid db.wallets.accounts ≡ some a
      → a.user_id ≡ uid
      → pos 1 ≤ℤ o.payable_cents
      → o.payable_cents ≤ℤ a.balance_cents
      → Returns
          (λ r db'.
            (r.order.status ≡ OrderStatus.paid)
            × (lookup o.id db'.orders ≡ some r.order)
            × Posts uid a (pos 0 -ℤ o.payable_cents) db.wallets db'.wallets)
          (open_payment env uid PayMethod.wallet o db)
  unfolding open_payment get_payment_provider is_wallet is_immediate fresh_id save_payment
      save_order charged_order settle_payment
  open_wallet_payment ticketed account keyed positive covered =
      let o' : Order = charged_order env PayMethod.wallet o in
      let pay : Payment = new_payment env db.next_id PayMethod.wallet o in
      let Moved : Wallet → Type 0 = Posts uid a (pos 0 -ℤ o.payable_cents) db.wallets in
      let done : Order = paid_order env o' PayMethod.wallet in
      let R : PayResult → Db → Type 0 = λ r db'.
        (r.order.status ≡ OrderStatus.paid)
        × (lookup o.id db'.orders ≡ some r.order)
        × Moved db'.wallets in
      Returns-bind (λ _. OnWallets Moved) R (debit_wallet env uid PayMethod.wallet o')
        (λ _. settle_payment env pay o' >>= λ settled.
          pure (record { order = settled; already_paid = false }))
        (record db {
          orders = insert o.id o' db.orders;
          payments = insert db.next_id pay db.payments;
          next_id = db.next_id + 1;
        })
        (debit_Posts account keyed positive covered _ refl)
        λ _ db2 moved.
          Returns-bind
            (λ settled db3.
              (settled ≡ done) × ((lookup o.id db3.orders ≡ some done) × Moved db3.wallets))
            R (on_paid env o' PayMethod.wallet)
            (λ settled. pure (record { order = settled; already_paid = false }))
            (record db2 { payments = insert pay.id (succeeded_payment env pay) db2.payments })
            (on_paid_frame env (λ w _ orders. (lookup o.id orders ≡ some done) × Moved w) o'
              PayMethod.wallet _ ticketed refl
              (lookup-insert_at o'.id o.id done db2.orders refl, moved))
            λ settled db3 (same, (held, moved')).
              (rw same (paid_order-status env o'), held ∙ ap some (sym same), moved')

  -- Paying one's own order of an activity or a companion booking, one that is still payable and
  -- has not expired, from a wallet that covers its positive price commits: the order is
  -- stored as paid, the wallet pays exactly the price and nothing else, and no other account changes.
  pub wallet_payment :
      lookup id db.orders ≡ some o
      → o.user_id ≡ uid
      → is_payable o.status ≡ true
      → is_expired env.now o ≡ false
      → is_ticketed o.kind ≡ true
      → lookup uid db.wallets.accounts ≡ some a
      → a.user_id ≡ uid
      → pos 1 ≤ℤ o.payable_cents
      → o.payable_cents ≤ℤ a.balance_cents
      → Returns
          (λ r db'.
            (r.order.status ≡ OrderStatus.paid)
            × (lookup o.id db'.orders ≡ some r.order)
            × Posts uid a (pos 0 -ℤ o.payable_cents) db.wallets db'.wallets)
          (pay_order env uid id (some PayMethod.wallet) db)
  unfolding pay_order
  wallet_payment found mine payable alive ticketed account keyed positive covered =
      rw (get_order_found uid id db o found mine, pay_order, ◌>>=◌)
        (rw (alive, ◌>>=◌)
          (rw (payable_not_paid o.status payable) (
            rw (payable, ◌>>=◌)
              (rw (ticketed_not_topup o.kind ticketed, ◌>>=◌)
                (open_wallet_payment ticketed account keyed positive covered)))))
