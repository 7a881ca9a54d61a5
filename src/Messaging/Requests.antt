-- ===== src/Messaging/Requests.antt =====
-- Requests to the transfers of app/modules/messaging/router.py, one after another.
use dating_backend.Prelude.{
  ℕ, ◌+◌, ◌≤◌, ◌≡◌, refl, String, true, some, List, [], ◌∷◌, not, arith, Bool-cases, inl, inr,
  if◌then◌else◌, Option-cases, ◌==◌, ltb,
}
use dating_backend.Prelude.Int.{ℤ}
use dating_backend.Shared.Errors.{app_error, chat_not_found, chat_invalid, Failure}
use dating_backend.Shared.Action.{
  Action, Result, ok, err, ◌>>=◌, ◌>>◌, or_raise, raise_if, committed,
}
use dating_backend.Shared.Action.Keeps.{Yields, Keeps, Yields-guard, committed_of_commits}
use dating_backend.Shared.Table.{lookup}
use dating_backend.Commerce.Wallet.{WalletLedgerKind}
use dating_backend.Messaging.Transfers.{
  ChatDb, ChatEnv, ChatTransfer, create_transfer, accept_transfer, cancel_transfer, pay_out,
  expire_transfer, is_open, addressed, cancelled, accepted, expired,
}
use dating_backend.Messaging.InTransit.{is_transfer_kind}
use dating_backend.Messaging.Conservation.{IsConserved, pay_out-Yields, create_transfer-Keeps}

-- Whatever an action did before it, `raise` commits nothing.
after :
    {A B : Type 0} (f : Failure) (r : Result (A × ChatDb))
    → (e : Failure) × (elim r as (λ _. Result (B × ChatDb)) [ ok (a, db) ↦ err f | err e ↦ err e ]
        ≡ err e)
after f (ok (a, db)) = (f, refl)
after f (err e) = (e, refl)

module _ (env : ChatEnv) where
  expire_transfer-fails :
      (t : ChatTransfer) (db : ChatDb) → (e : Failure) × (expire_transfer env t db ≡ err e)
  unfolding expire_transfer
  expire_transfer-fails t db =
      after (app_error chat_invalid 409)
        (pay_out env expired WalletLedgerKind.transfer_refund "转账过期退回" t.from_user_id t db)

  -- The tests of `accept_transfer` and `cancel_transfer` behind the lookup.
  found_transfer :
      (party : ChatTransfer → ℕ) (user_id transfer_id : ℕ) (db : ChatDb)
      (rest : ChatTransfer → Action ChatDb ChatTransfer)
      → IsConserved db
      → ((t : ChatTransfer)
          → lookup t.id db.transfers ≡ some t
          → is_open t.status ≡ true
          → Yields (λ _. IsConserved) (rest t db))
      → Yields
          (λ _. IsConserved)
          ((or_raise
                (addressed party user_id (lookup transfer_id db.transfers))
                (app_error chat_not_found 404)
              >>= λ t. raise_if (not (is_open t.status)) (app_error chat_invalid 409) >> rest t)
            db)
  unfolding addressed
  found_transfer party user_id transfer_id db rest h k =
      elim (Option-cases (lookup transfer_id db.transfers)) [
        | inl missing ↦ rw (missing, Yields) tt
        | inr (t, found) ↦ elim (Bool-cases (party t == user_id)) [
          | inr other ↦ rw (found, Yields) (rw (other, ◌>>=◌) tt)
          | inl mine ↦
              rw (found, Yields)
                (rw (mine, ◌>>=◌)
                  (Yields-guard (λ _. IsConserved) (not (is_open t.status))
                    (app_error chat_invalid 409) (rest t) db
                    λ still.
                      k t (ground (arith, found, h.keyed transfer_id t found))
                        (ground (arith, still))))
        ]
      ]

  accept_open :
      (user_id : ℕ) (t : ChatTransfer) (db : ChatDb)
      → IsConserved db
      → lookup t.id db.transfers ≡ some t
      → is_open t.status ≡ true
      → Yields
          (λ _. IsConserved)
          ((if ltb t.expires_at env.now
              then expire_transfer env t
              else pay_out env accepted WalletLedgerKind.transfer_in "收到转账" user_id t)
            db)
  accept_open user_id t db h found opened = elim (Bool-cases (ltb t.expires_at env.now)) [
    | inl late ↦ let (e, fails) = expire_transfer-fails t db in rw late (rw (fails, Yields) tt)
    | inr in_time ↦ rw in_time (
        pay_out-Yields env accepted WalletLedgerKind.transfer_in "收到转账" user_id t db
          (unfold is_open in refl) (unfold is_transfer_kind in refl) opened found h)
  ]

  pub accept_transfer-Keeps :
      (user_id transfer_id : ℕ) → Keeps IsConserved (accept_transfer env user_id transfer_id)
  unfolding accept_transfer
  accept_transfer-Keeps user_id transfer_id = record {
    at = λ db h.
        found_transfer (λ t. t.to_user_id) user_id transfer_id db _ h
          λ t found opened. accept_open user_id t db h found opened;
  }

  pub cancel_transfer-Keeps :
      (user_id transfer_id : ℕ) → Keeps IsConserved (cancel_transfer env user_id transfer_id)
  unfolding cancel_transfer
  cancel_transfer-Keeps user_id transfer_id = record {
    at = λ db h.
        found_transfer (λ t. t.from_user_id) user_id transfer_id db
          (pay_out env cancelled WalletLedgerKind.transfer_refund "取消转账退回" user_id) h
          λ t found opened.
            pay_out-Yields env cancelled WalletLedgerKind.transfer_refund "取消转账退回" user_id t db
              (unfold is_open in refl) (unfold is_transfer_kind in refl) opened found h;
  }

pub data TransferRequest : Type 0 where
  create : ℕ → ℕ → ℕ → String → ℤ → TransferRequest
  accept : ℕ → ℕ → TransferRequest
  cancel : ℕ → ℕ → TransferRequest

unfoldable pub serve_transfer : ChatEnv → TransferRequest → ChatDb → ChatDb
serve_transfer env (create uid conversation_id to_user_id to_name amount) db =
    committed (create_transfer env uid conversation_id to_user_id to_name amount db) db
serve_transfer env (accept uid id) db = committed (accept_transfer env uid id db) db
serve_transfer env (cancel uid id) db = committed (cancel_transfer env uid id db) db

unfoldable pub serve_transfers : List (ChatEnv × TransferRequest) → ChatDb → ChatDb
unfolding serve_transfer
serve_transfers [] db = db
serve_transfers ((env, r) ∷ rs) db = serve_transfers rs (serve_transfer env r db)

committed-IsConserved :
    {A : Type 0} (m : Action ChatDb A) (db : ChatDb)
    → Keeps IsConserved m
    → IsConserved db
    → IsConserved (committed (m db) db)
committed-IsConserved m db k h = committed_of_commits IsConserved (m db) db (k.at db h) h

serve_transfer-IsConserved :
    (env : ChatEnv) (r : TransferRequest) (db : ChatDb)
    → IsConserved db
    → IsConserved (serve_transfer env r db)
unfolding serve_transfer
serve_transfer-IsConserved env (create uid conversation_id to_user_id to_name amount) db h =
    committed-IsConserved _ db
      (create_transfer-Keeps env uid conversation_id to_user_id to_name amount) h
serve_transfer-IsConserved env (accept uid id) db h =
    committed-IsConserved _ db (accept_transfer-Keeps env uid id) h
serve_transfer-IsConserved env (cancel uid id) db h =
    committed-IsConserved _ db (cancel_transfer-Keeps env uid id) h

-- Whatever transfers are created, accepted and cancelled, failing requests included, no money is made
-- or lost: what transfers moved in the wallets' ledger and what open transfers hold still add up to
-- nothing, if they did before.
pub serve_transfers-IsConserved :
    (rs : List (ChatEnv × TransferRequest)) (db : ChatDb)
    → IsConserved db
    → IsConserved (serve_transfers rs db)
unfolding serve_transfers
serve_transfers-IsConserved [] db h = h
serve_transfers-IsConserved ((env, r) ∷ rs) db h =
    serve_transfers-IsConserved rs (serve_transfer env r db) (serve_transfer-IsConserved env r db h)

-- Accepting a transfer after it has expired never commits, so that the money that the handler pays
-- back to the sender is not paid back.
pub expired_accept_fails :
    (env : ChatEnv) (user_id transfer_id : ℕ) (db : ChatDb) (t : ChatTransfer)
    → lookup transfer_id db.transfers ≡ some t
    → (t.expires_at + 1) ≤ env.now
    → serve_transfer env (accept user_id transfer_id) db ≡ db
unfolding serve_transfer accept_transfer addressed
expired_accept_fails env user_id transfer_id db t found late =
    elim (Bool-cases (t.to_user_id == user_id)) [
      | inr other ↦ rw (found, ◌>>=◌) (rw (other, ◌>>=◌) (unfold committed in refl))
      | inl mine ↦ elim (Bool-cases (is_open t.status)) [
        | inr closed ↦
            rw (found, ◌>>=◌) (rw (mine, ◌>>=◌) (rw (closed, ◌>>=◌) (unfold committed in refl)))
        | inl opened ↦
            let (e, fails) = expire_transfer-fails env t db in
            let past : ltb t.expires_at env.now ≡ true = ground arith in
            rw (found, ◌>>=◌)
              (rw (mine, ◌>>=◌)
                (rw (opened, ◌>>=◌) (rw (past, ◌>>=◌) (rw fails (unfold committed in refl)))))
      ]
    ]
