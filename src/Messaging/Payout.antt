-- ===== src/Messaging/Payout.antt =====
-- What accepting a transfer does: it pays the receiver once.
use dating_backend.Prelude.{
  ℕ, ◌≤◌, ◌≡◌, refl, true, false, none, some, ◌==◌, ltb, arith, Bool-cases, inl, inr, ==_iff,
}
use dating_backend.Prelude.Int.{pos, ◌≤ℤ◌}
use dating_backend.Shared.Action.{◌>>=◌, committed}
use dating_backend.Shared.Action.Keeps.{Returns}
use dating_backend.Shared.Table.{lookup, lookup-insert_at}
use dating_backend.Commerce.Wallet.{WalletAccount, WalletLedgerKind, Posting}
use dating_backend.Commerce.Wallet.Effects.{Posts, credit_total, posted-Posts}
use dating_backend.Messaging.Transfers.{
  ChatDb, ChatEnv, ChatTransfer, accepted, accept_transfer, cancel_transfer, pay_out, save_transfer,
  in_wallets, addressed, is_open, transfer_posting,
}
use dating_backend.Messaging.Requests.{accept, cancel, serve_transfer}

-- A transfer that is not open any more is neither accepted nor cancelled.
module _ (env : ChatEnv) (user_id transfer_id : ℕ) (db : ChatDb) (t : ChatTransfer) where
  closed_accept :
      lookup transfer_id db.transfers ≡ some t
      → is_open t.status ≡ false
      → serve_transfer env (accept user_id transfer_id) db ≡ db
  unfolding serve_transfer accept_transfer addressed
  closed_accept found closed = elim (Bool-cases (t.to_user_id == user_id)) [
    | inr other ↦ rw (found, ◌>>=◌) (rw (other, ◌>>=◌) (unfold committed in refl))
    | inl mine ↦
        rw (found, ◌>>=◌) (rw (mine, ◌>>=◌) (rw (closed, ◌>>=◌) (unfold committed in refl)))
  ]

  closed_cancel :
      lookup transfer_id db.transfers ≡ some t
      → is_open t.status ≡ false
      → serve_transfer env (cancel user_id transfer_id) db ≡ db
  unfolding serve_transfer cancel_transfer addressed
  closed_cancel found closed = elim (Bool-cases (t.from_user_id == user_id)) [
    | inr other ↦ rw (found, ◌>>=◌) (rw (other, ◌>>=◌) (unfold committed in refl))
    | inl mine ↦
        rw (found, ◌>>=◌) (rw (mine, ◌>>=◌) (rw (closed, ◌>>=◌) (unfold committed in refl)))
  ]

-- What accepting the transfer `t` into the account `a` leaves of `db`.
pub record PaidOut (user_id transfer_id : ℕ) (t : ChatTransfer) (a : WalletAccount) (db : ChatDb)
    (t' : ChatTransfer) (db' : ChatDb) : Type 0 where
  pub status : t'.status ≡ accepted
  pub kept : lookup transfer_id db'.transfers ≡ some t'
  pub money : Posts user_id a t.amount_cents db.wallets db'.wallets
  pub no_accept : (env : ChatEnv) (u : ℕ) → serve_transfer env (accept u transfer_id) db' ≡ db'
  pub no_cancel : (env : ChatEnv) (u : ℕ) → serve_transfer env (cancel u transfer_id) db' ≡ db'

module _ (env : ChatEnv) (user_id transfer_id : ℕ) (db : ChatDb) (t : ChatTransfer)
    (a : WalletAccount) where
  -- Accepting an open transfer in time pays its receiver exactly its amount and closes it: whoever tries
  -- to accept or cancel it after that changes nothing.
  pub accept_settles_once :
      lookup transfer_id db.transfers ≡ some t
      → t.id ≡ transfer_id
      → t.to_user_id ≡ user_id
      → is_open t.status ≡ true
      → env.now ≤ t.expires_at
      → lookup user_id db.wallets.accounts ≡ some a
      → a.user_id ≡ user_id
      → pos 1 ≤ℤ t.amount_cents
      → pos 0 ≤ℤ a.balance_cents
      → Returns (PaidOut user_id transfer_id t a db) (accept_transfer env user_id transfer_id db)
  unfolding accept_transfer addressed pay_out save_transfer in_wallets
  accept_settles_once found same mine opened in_time account keyed positive nonneg =
      let p : Posting = transfer_posting WalletLedgerKind.transfer_in "收到转账" none in
      let t' : ChatTransfer = record t { status = accepted } in
      let kept = lookup-insert_at t.id transfer_id t' db.transfers same in
      let early : ltb t.expires_at env.now ≡ false = ground arith in
      rw (found, ◌>>=◌)
        (rw ((==_iff t.to_user_id user_id).1 mine, ◌>>=◌)
          (rw (opened, ◌>>=◌)
            (rw early (
              rw
                (
                  credit_total env.wallet_welcome_cents user_id t.amount_cents p db.wallets a
                      account keyed positive nonneg,
                  ◌>>=◌,
                )
                (record {
                  status = refl;
                  kept = kept;
                  money =
                      posted-Posts env.wallet_welcome_cents user_id t.amount_cents p db.wallets a
                        account keyed t.amount_cents;
                  no_accept =
                      λ env' u. closed_accept env' u transfer_id _ t' kept (unfold is_open in refl);
                  no_cancel =
                      λ env' u. closed_cancel env' u transfer_id _ t' kept (unfold is_open in refl);
                })))))
