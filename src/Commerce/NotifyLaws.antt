-- ===== src/Commerce/NotifyLaws.antt =====
-- What a channel's notification does: it settles an order once, whatever state the order is in.
use dating_backend.Commerce.PaymentLaws.{is_ticketed, OnTables, on_paid_frame}
use dating_backend.Commerce.Wallet.{Wallet}
use dating_backend.Commerce.Settlement.{
  Notification, get_payment_provider, handle_notify, verify_notify, apply_notify, paid_order,
  settle_payment, is_succeeded, is_paid, succeeded_payment, NotifyResult,
}
use dating_backend.Prelude.{
  ℕ, ◌≡◌, refl, true, false, some, List, [], ◌∷◌, String, arith, ◌∙◌, ap, sym,
}
use dating_backend.Shared.Action.{pure, ok, ◌>>=◌}
use dating_backend.Shared.Action.Keeps.{Returns, Returns-bind}
use dating_backend.Shared.Table.{
  Table, lookup, insert, rows, rows-insert_one, lookup-insert, rows-head, lookup-insert_at,
}
use dating_backend.Commerce.Data.{Db, Env, Order, OrderStatus, PayMethod, Payment, save_payment}
use text.Mathlib.Text.{◌==◌ as str_eq}

-- The payments of a transaction number.
abbrev pub paid_under : String → Table Payment → List Payment
paid_under txn t = rows (λ (p : Payment). str_eq p.provider_txn_id txn) t

module _ (env : Env) (ch : PayMethod) (n : Notification) (db : Db) (p : Payment) (o : Order) where
  -- A well-formed notification of a transaction that one payment bears.
  pub record Finds : Type 0 where
    pub stub : env.payment_provider_is_stub ≡ true
    pub named : str_eq (verify_notify ch n).0 "" ≡ false
    pub one : paid_under (verify_notify ch n).0 db.payments ≡ p ∷ []
    pub of_order : lookup p.order_id db.orders ≡ some o

  provider_accepted :
      env.payment_provider_is_stub ≡ true → get_payment_provider env (some ch) db ≡ ok (ch, db)
  unfolding get_payment_provider
  provider_accepted stub = ground (arith)

  -- Then the handler comes down to `apply_notify` on that payment and its order.
  pub handle_notify_found :
      Finds → handle_notify env (some ch) n db ≡ apply_notify env (verify_notify ch n).1 p o db
  unfolding handle_notify
  handle_notify_found f =
      rw (provider_accepted f.stub, handle_notify, ◌>>=◌)
        (rw (f.named, ◌>>=◌) (rw (f.one, ◌>>=◌) (rw (f.of_order, ◌>>=◌))))

  apply_notify_settles :
      is_succeeded p.status ≡ false
      → apply_notify env true p o db
        ≡ (settle_payment env p o >>= λ o'.
              pure (record { is_ok = true; duplicate = false; order = o' }))
            db
  unfolding apply_notify
  apply_notify_settles still = rw still

status_paid :
    (env : Env) (o : Order) (m : PayMethod) → (paid_order env o m).status ≡ OrderStatus.paid
unfolding paid_order
status_paid env o m = refl

-- What the tables hold once a payment has been settled.
abbrev Settled : String → Payment → ℕ → Wallet → Table Payment → Table Order → Type 0
Settled txn p' order_id w payments orders =
    (paid_under txn payments ≡ p' ∷ []) × ((o' : Order) × (lookup order_id orders ≡ some o'))

module _ (env : Env) (ch : PayMethod) (n : Notification) (db : Db) (p : Payment) (o : Order) where
  settle_Settled :
      (txn : String)
      → str_eq p.provider_txn_id txn ≡ true
      → paid_under txn db.payments ≡ p ∷ []
      → lookup p.id db.payments ≡ some p
      → o.id ≡ p.order_id
      → is_ticketed o.kind ≡ true
      → is_paid o.status ≡ false
      → Returns
          (λ o' db'.
            (o' ≡ paid_order env o p.provider)
            × OnTables (Settled txn (succeeded_payment env p) p.order_id) db')
          (settle_payment env p o db)
  unfolding settle_payment save_payment succeeded_payment
  settle_Settled txn bears one keyed linked ticketed unpaid =
      on_paid_frame env (Settled txn (succeeded_payment env p) p.order_id) o p.provider
        (record db { payments = insert p.id (succeeded_payment env p) db.payments }) ticketed unpaid
        (
          rows-insert_one (λ (q : Payment). str_eq q.provider_txn_id txn) p.id p
              (succeeded_payment env p) db.payments keyed one bears bears,
          (
            paid_order env o p.provider,
            ground (
              arith,
              linked,
              lookup-insert o.id p.order_id (paid_order env o p.provider) db.orders,
            ),
          ),
        )

  settle_paid :
      is_ticketed o.kind ≡ true
      → is_paid o.status ≡ false
      → Returns
          (λ o' db'.
            (o' ≡ paid_order env o p.provider)
            × (lookup o.id db'.orders ≡ some (paid_order env o p.provider)))
          (settle_payment env p o db)
  unfolding settle_payment save_payment paid_order
  settle_paid ticketed unpaid =
      on_paid_frame env (λ _ _ orders. lookup o.id orders ≡ some (paid_order env o p.provider)) o
        p.provider (record db { payments = insert p.id (succeeded_payment env p) db.payments })
        ticketed unpaid (lookup-insert_at o.id o.id (paid_order env o p.provider) db.orders refl)

  -- With the stub channels, a successful notification of the one payment that bears its number,
  -- where that payment has not succeeded, pays the order of an activity or a companion booking
  -- whatever the order's status was, unless it was paid, also of a cancelled or a refunded order: the order
  -- is stored as paid.
  pub late_notification_pays :
      Finds env ch n db p o
      → (verify_notify ch n).1 ≡ true
      → is_succeeded p.status ≡ false
      → is_ticketed o.kind ≡ true
      → is_paid o.status ≡ false
      → Returns
          (λ r db'.
            (r.is_ok ≡ true)
            × (r.order.status ≡ OrderStatus.paid)
            × (lookup o.id db'.orders ≡ some r.order))
          (handle_notify env (some ch) n db)
  late_notification_pays f success still ticketed unpaid =
      rw (handle_notify_found env ch n db p o f, Returns)
        (rw (success, Returns)
          (rw (apply_notify_settles env ch n db p o still, Returns)
            (Returns-bind
              (λ o' db'.
                (o' ≡ paid_order env o p.provider)
                × (lookup o.id db'.orders ≡ some (paid_order env o p.provider)))
              (λ r db'.
                (r.is_ok ≡ true)
                × (r.order.status ≡ OrderStatus.paid)
                × (lookup o.id db'.orders ≡ some r.order))
              (settle_payment env p o)
              (λ o'. pure (record { is_ok = true; duplicate = false; order = o' })) db
              (settle_paid ticketed unpaid)
              λ o' db' (same, held).
                (refl, rw same (status_paid env o p.provider), held ∙ ap some (sym same)))))

  replayed :
      (env' : Env)
      → env'.payment_provider_is_stub ≡ true
      → str_eq (verify_notify ch n).0 "" ≡ false
      → (db' : Db)
      → OnTables (Settled (verify_notify ch n).0 (succeeded_payment env p) p.order_id) db'
      → (r' : NotifyResult) × (handle_notify env' (some ch) n db' ≡ ok (r', db'))
        × (r'.duplicate ≡ true)
  unfolding succeeded_payment apply_notify is_succeeded
  replayed env' stub named db' (one, (o', held)) = (
    record { is_ok = true; duplicate = true; order = o' },
    handle_notify_found env' ch n db' (succeeded_payment env p) o'
        (record { stub = stub; named = named; one = one; of_order = held }),
    refl,
  )

  -- With the stub channels, a successful notification of the one payment that bears its number
  -- commits, where that payment has not succeeded and is of an activity's or a companion booking's
  -- order that is not paid; and the same notification, at any later time, changes nothing and is
  -- reported as a duplicate.
  pub notification_settles_once :
      (env' : Env)
      → Finds env ch n db p o
      → env'.payment_provider_is_stub ≡ true
      → (verify_notify ch n).1 ≡ true
      → is_succeeded p.status ≡ false
      → lookup p.id db.payments ≡ some p
      → o.id ≡ p.order_id
      → is_ticketed o.kind ≡ true
      → is_paid o.status ≡ false
      → Returns
          (λ r db'.
            (r.duplicate ≡ false)
            × ((r' : NotifyResult) × (handle_notify env' (some ch) n db' ≡ ok (r', db'))
                × (r'.duplicate ≡ true)))
          (handle_notify env (some ch) n db)
  notification_settles_once env' f stub success still keyed linked ticketed unpaid =
      let txn : String = (verify_notify ch n).0 in
      let bears : str_eq p.provider_txn_id txn ≡ true =
        rows-head (λ (q : Payment). str_eq q.provider_txn_id txn) p [] db.payments f.one in
      rw (handle_notify_found env ch n db p o f, Returns)
        (rw (success, Returns)
          (rw (apply_notify_settles env ch n db p o still, Returns)
            (Returns-bind
              (λ o' db'.
                (o' ≡ paid_order env o p.provider)
                × OnTables (Settled txn (succeeded_payment env p) p.order_id) db')
              (λ r db'.
                (r.duplicate ≡ false)
                × ((r' : NotifyResult) × (handle_notify env' (some ch) n db' ≡ ok (r', db'))
                    × (r'.duplicate ≡ true)))
              (settle_payment env p o)
              (λ o'. pure (record { is_ok = true; duplicate = false; order = o' })) db
              (settle_Settled txn bears f.one keyed linked ticketed unpaid)
              λ o' db' (_, settled). (refl, replayed env' stub f.named db' settled))))
