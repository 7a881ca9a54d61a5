-- ===== src/Messaging/Conservation.antt =====
-- Transfers neither make nor lose money: what the ledger says that transfers moved, and what open
-- transfers hold, add up to nothing.
use dating_backend.Prelude.{
  ℕ, ap, ◌≤◌, ◌≡◌, refl, String, true, false, none, some, List, [], ◌∷◌, arith, ◌==◌,
}
use dating_backend.Prelude.Int.{ℤ, pos, ◌+ℤ◌, ◌-ℤ◌, ltb_ℤ, int_laws, parts_of_eq}
use dating_backend.Shared.Errors.{app_error, chat_invalid, order_invalid}
use dating_backend.Shared.Action.{◌>>◌, pure}
use dating_backend.Shared.Action.Keeps.{
  Yields, Keeps, keeps_rules, Yields-bind, Yields-guard, Yields-part,
}
use dating_backend.Shared.Table.{lookup, insert, lookup-insert, one_or_none}
use dating_backend.Commerce.Wallet.{WalletLedgerKind, Posting, charge, credit}
use dating_backend.Messaging.Transfers.{
  ChatDb, ChatEnv, ChatTransfer, ChatTransferStatus, get_conversation, in_wallets, create_transfer,
  add_transfer, new_transfer, touch_conversation, save_transfer, pay_out, is_open, transfer_posting,
  out_posting,
}
use dating_backend.Messaging.InTransit.{
  in_transit, in_transit-insert, held, held_in, transfer_sum, moved, is_transfer_kind, charge-Moves,
  credit-Moves,
}

-- The tables, where the ledger and the open transfers are out by `gap`.
pub record IsOutBy (gap : ℤ) (db : ChatDb) : Type 0 where
  pub total : (transfer_sum db.wallets.ledger +ℤ in_transit db.transfers) ≡ gap
  pub keyed : (k : ℕ) (t : ChatTransfer) → lookup k db.transfers ≡ some t → t.id ≡ k
  pub fresh : (k : ℕ) → db.next_id ≤ k → lookup k db.transfers ≡ none

abbrev pub IsConserved : ChatDb → Type 0
IsConserved = IsOutBy (pos 0)

one_row-Keeps : {P : ChatDb → Type 0} {A : Type 0} (l : List A) → Keeps P (one_or_none l)
one_row-Keeps [] = search keeps_rules
one_row-Keeps (a ∷ []) = search keeps_rules
one_row-Keeps (a ∷ b ∷ l) = search keeps_rules

moved-transfer : (kind : WalletLedgerKind) (a : ℤ) → is_transfer_kind kind ≡ true → moved kind a ≡ a
unfolding moved
moved-transfer kind a h = rw h refl

get_conversation-Keeps :
    {P : ChatDb → Type 0} (user_id conversation_id : ℕ)
    → Keeps P (get_conversation user_id conversation_id)
unfolding get_conversation
get_conversation-Keeps user_id conversation_id = search (keeps_rules, one_row-Keeps) depth 10

module _ (env : ChatEnv) (gap : ℤ) where
  charge_step :
      (user_id : ℕ) (amount : ℤ) (p : Posting) (db : ChatDb)
      → is_transfer_kind p.kind ≡ true
      → IsOutBy gap db
      → Yields
          (λ _. IsOutBy (gap -ℤ amount))
          (in_wallets (charge env.wallet_welcome_cents user_id amount p) db)
  unfolding in_wallets
  charge_step user_id amount p db transfers h =
      Yields-part _ (λ _. IsOutBy (gap -ℤ amount)) (λ db. db.wallets)
        (λ w db. record db { wallets = w }) (charge env.wallet_welcome_cents user_id amount p) db
        (charge-Moves env.wallet_welcome_cents user_id amount p db.wallets)
        λ _ w m. record {
          total = omega (
            int_laws,
            parts_of_eq m,
            parts_of_eq (moved-transfer p.kind (pos 0 -ℤ amount) transfers),
            parts_of_eq h.total,
          );
          keyed = h.keyed;
          fresh = h.fresh;
        }

  credit_step :
      (user_id : ℕ) (amount : ℤ) (p : Posting) (db : ChatDb)
      → is_transfer_kind p.kind ≡ true
      → IsOutBy gap db
      → Yields
          (λ _. IsOutBy (gap +ℤ amount))
          (in_wallets (credit env.wallet_welcome_cents user_id amount p) db)
  unfolding in_wallets
  credit_step user_id amount p db transfers h =
      Yields-part _ (λ _. IsOutBy (gap +ℤ amount)) (λ db. db.wallets)
        (λ w db. record db { wallets = w }) (credit env.wallet_welcome_cents user_id amount p) db
        (credit-Moves env.wallet_welcome_cents user_id amount p db.wallets)
        λ _ w m. record {
          total = omega (
            int_laws,
            parts_of_eq m,
            parts_of_eq (moved-transfer p.kind amount transfers),
            parts_of_eq h.total,
          );
          keyed = h.keyed;
          fresh = h.fresh;
        }

  touch-Keeps :
      (now conversation_id : ℕ) (preview : String)
      → Keeps (IsOutBy gap) (touch_conversation now conversation_id preview)
  unfolding touch_conversation
  touch-Keeps now conversation_id preview = record {
    at = λ db h. record { total = h.total; keyed = h.keyed; fresh = h.fresh };
  }

  touch_pure-Keeps :
      (now conversation_id : ℕ) (preview : String) (t : ChatTransfer)
      → Keeps (IsOutBy gap) (touch_conversation now conversation_id preview >> pure t)
  touch_pure-Keeps now conversation_id preview t = search (keeps_rules, touch-Keeps)

  -- A new row takes its amount into transit.
  add_transfer_step :
      (user_id conversation_id to_user_id : ℕ) (amount : ℤ) (db : ChatDb)
      → IsOutBy (gap -ℤ amount) db
      → Yields (λ _. IsOutBy gap) (add_transfer env user_id conversation_id to_user_id amount db)
  unfolding add_transfer held_in held is_open new_transfer
  add_transfer_step user_id conversation_id to_user_id amount db h =
      let t : ChatTransfer =
        new_transfer env db.next_id user_id conversation_id to_user_id amount in
      let unused : lookup db.next_id db.transfers ≡ none = h.fresh db.next_id (ground arith) in
      let sum = in_transit-insert db.next_id t db.transfers in
      let found = λ (k : ℕ). lookup-insert db.next_id k t db.transfers in
      record {
        total =
            omega (int_laws, parts_of_eq sum, parts_of_eq (ap held_in unused), parts_of_eq h.total);
        keyed = λ k t' e. ground (arith, found k, h.keyed k t');
        fresh = λ k later. ground (arith, found k, h.fresh k);
      }

module _ (env : ChatEnv) where
  -- Closing an open transfer takes its amount out of transit.
  save_step :
      (t t' : ChatTransfer) (db : ChatDb)
      → lookup t.id db.transfers ≡ some t
      → t'.id ≡ t.id
      → held t' ≡ pos 0
      → IsConserved db
      → IsOutBy (pos 0 -ℤ held t) (record db { transfers = insert t.id t' db.transfers })
  unfolding held_in
  save_step t t' db found same closed h =
      let sum = in_transit-insert t.id t' db.transfers in
      let now_at = λ (k : ℕ). lookup-insert t.id k t' db.transfers in
      record {
        total = omega (
          int_laws,
          parts_of_eq sum,
          parts_of_eq (ap held_in found),
          parts_of_eq closed,
          parts_of_eq h.total,
        );
        keyed = λ k u e. ground (arith, now_at k, same, h.keyed k u);
        fresh = λ k later. ground (arith, found, now_at k, h.fresh k);
      }

  pub pay_out-Yields :
      (status : ChatTransferStatus) (kind : WalletLedgerKind) (title : String) (user_id : ℕ)
      (t : ChatTransfer) (db : ChatDb)
      → is_open status ≡ false
      → is_transfer_kind kind ≡ true
      → is_open t.status ≡ true
      → lookup t.id db.transfers ≡ some t
      → IsConserved db
      → Yields (λ _. IsConserved) (pay_out env status kind title user_id t db)
  unfolding pay_out save_transfer held
  pay_out-Yields status kind title user_id t db closed transfers opened found h =
      let p : Posting = transfer_posting kind title none in
      let db1 : ChatDb = record db {
        transfers = insert t.id (record t { status = status }) db.transfers;
      } in
      let h1 : IsOutBy (pos 0 -ℤ held t) db1 =
        save_step t (record t { status = status }) db found refl (rw closed refl) h in
      let all : held t ≡ t.amount_cents = rw opened refl in
      Yields-bind (λ _. IsOutBy ((pos 0 -ℤ held t) +ℤ t.amount_cents)) (λ _. IsConserved)
        (in_wallets (credit env.wallet_welcome_cents user_id t.amount_cents p))
        (λ _. pure (record t { status = status })) db1
        (credit_step env (pos 0 -ℤ held t) user_id t.amount_cents p db1 transfers h1)
        λ _ db2 h2. record {
          total = omega (int_laws, parts_of_eq h2.total, parts_of_eq all);
          keyed = h2.keyed;
          fresh = h2.fresh;
        }

  pub create_transfer-Keeps :
      (user_id conversation_id to_user_id : ℕ) (to_name : String) (amount : ℤ)
      → Keeps IsConserved (create_transfer env user_id conversation_id to_user_id to_name amount)
  unfolding create_transfer
  create_transfer-Keeps user_id conversation_id to_user_id to_name amount =
      let R : ChatTransfer → ChatDb → Type 0 = λ _. IsConserved in
      record {
        at = λ db h. Yields-guard R (ltb_ℤ amount (pos 1)) (app_error order_invalid 400) _ db λ _.
            Yields-bind (λ _. IsConserved) R (get_conversation user_id conversation_id) _ db
              ((get_conversation-Keeps user_id conversation_id).at db h)
              λ _ db1 h1.
                Yields-guard R (to_user_id == user_id) (app_error chat_invalid 400) _ db1 λ _.
                  Yields-bind (λ _. IsOutBy (pos 0 -ℤ amount)) R
                    (in_wallets
                      (charge env.wallet_welcome_cents user_id amount (out_posting to_name)))
                    _ db1
                    (charge_step env (pos 0) user_id amount (out_posting to_name) db1
                      (unfold is_transfer_kind in refl) h1)
                    λ _ db2 h2.
                      Yields-bind (λ _. IsConserved) R
                        (add_transfer env user_id conversation_id to_user_id amount) _ db2
                        (add_transfer_step env (pos 0) user_id conversation_id to_user_id amount db2
                          h2)
                        λ t db3 h3.
                          (touch_pure-Keeps env (pos 0) env.now conversation_id
                              (env.transfer_preview amount) t).at
                            db3 h3;
      }
