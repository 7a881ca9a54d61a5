-- ===== src/Commerce/Wallet/Effects.antt =====
-- What a charge and a credit do to an account that exists: the exact amounts, and nothing else.
use dating_backend.Prelude.{ℕ, ◌≡◌, ◌≢◌, refl, some, arith, ◌∷◌}
use dating_backend.Prelude.Int.{
  ℤ, pos, ◌+ℤ◌, ◌-ℤ◌, ◌≤ℤ◌, leb_of_pos_ℤ, ltb_of_le_ℤ, ltb_of_lt_ℤ, sub_nonneg_ℤ, +ℤ_parts,
}
use dating_backend.Shared.Action.{ok, err, ◌>>=◌}
use dating_backend.Shared.Errors.{app_error, wallet_insufficient}
use dating_backend.Shared.Table.{lookup, lookup-insert}
use dating_backend.Commerce.Wallet.{
  Wallet, WalletAccount, Posting, credited, ledger_entry, posted, credit_account, ensure_account,
  charge, credit, wallet_insufficient, WalletLedger,
}

-- The row that a posting adds, and the state that it leaves: the account changes by `delta`, no other
-- account changes, and the ledger grows by one row of that amount.
pub record Posts (u : ℕ) (a : WalletAccount) (delta : ℤ) (w w' : Wallet) : Type 0 where
  pub balance : lookup u w'.accounts ≡ some (credited a delta)
  pub others : (v : ℕ) → v ≢ u → lookup v w'.accounts ≡ lookup v w.accounts
  pub one_row : (e : WalletLedger) × (e.balance_delta_cents ≡ delta) × (w'.ledger ≡ e ∷ w.ledger)

module _ (welcome_cents : ℤ) (u : ℕ) (amount : ℤ) (p : Posting) (w : Wallet) (a : WalletAccount)
    (found : lookup u w.accounts ≡ some a) (keyed : a.user_id ≡ u) where
  pub posted-Posts : (delta : ℤ) → Posts u a delta w (posted a delta amount p w)
  unfolding posted ledger_entry
  posted-Posts delta = record {
    balance = ground (arith, keyed, lookup-insert a.user_id u (credited a delta) w.accounts);
    others = λ v ne. ground (arith, keyed, lookup-insert a.user_id v (credited a delta) w.accounts);
    one_row = (ledger_entry a delta amount p w, refl, refl);
  }

  -- A charge of a positive amount that the balance covers succeeds.
  pub charge_total :
      pos 1 ≤ℤ amount
      → amount ≤ℤ a.balance_cents
      → charge welcome_cents u amount p w
        ≡ ok (ledger_entry a (pos 0 -ℤ amount) amount p w, posted a (pos 0 -ℤ amount) amount p w)
  unfolding charge ensure_account credit_account
  charge_total positive covered =
      rw (leb_of_pos_ℤ amount positive, charge, ◌>>=◌)
        (rw (found, ensure_account, ◌>>=◌)
          (rw (ltb_of_le_ℤ a.balance_cents amount covered, ◌>>=◌)
            (rw (
              ltb_of_le_ℤ (a.balance_cents +ℤ (pos 0 -ℤ amount)) (pos 0)
                (sub_nonneg_ℤ a.balance_cents amount covered)))))

  pub charge_overdraft :
      pos 1 ≤ℤ amount
      → (a.balance_cents +ℤ pos 1) ≤ℤ amount
      → charge welcome_cents u amount p w ≡ err (app_error wallet_insufficient 400)
  unfolding charge ensure_account
  charge_overdraft positive short =
      rw (leb_of_pos_ℤ amount positive, charge, ◌>>=◌)
        (rw (found, ensure_account, ◌>>=◌) (rw (ltb_of_lt_ℤ a.balance_cents amount short, ◌>>=◌)))

  pub credit_total :
      pos 1 ≤ℤ amount
      → pos 0 ≤ℤ a.balance_cents
      → credit welcome_cents u amount p w
        ≡ ok (ledger_entry a amount amount p w, posted a amount amount p w)
  unfolding credit ensure_account credit_account
  credit_total positive nonneg =
      rw (leb_of_pos_ℤ amount positive, credit, ◌>>=◌)
        (rw (found, ensure_account, ◌>>=◌)
          (rw (ltb_of_le_ℤ (a.balance_cents +ℤ amount) (pos 0) (omega (arith, +ℤ_parts)))))

  -- A charge of a positive amount that the balance covers succeeds: it lowers the balance by exactly
  -- the amount, changes no other account, and adds one ledger row of that amount.
  pub charge_moves :
      pos 1 ≤ℤ amount
      → amount ≤ℤ a.balance_cents
      → (e : WalletLedger) × (w' : Wallet) × (charge welcome_cents u amount p w ≡ ok (e, w'))
        × Posts u a (pos 0 -ℤ amount) w w'
  charge_moves positive covered = (
    ledger_entry a (pos 0 -ℤ amount) amount p w,
    posted a (pos 0 -ℤ amount) amount p w,
    charge_total positive covered,
    posted-Posts (pos 0 -ℤ amount),
  )

  -- A credit of a positive amount to an account that is not overdrawn succeeds: it raises the balance
  -- by exactly the amount, changes no other account, and adds one ledger row of that amount.
  pub credit_moves :
      pos 1 ≤ℤ amount
      → pos 0 ≤ℤ a.balance_cents
      → (e : WalletLedger) × (w' : Wallet) × (credit welcome_cents u amount p w ≡ ok (e, w'))
        × Posts u a amount w w'
  credit_moves positive nonneg = (
    ledger_entry a amount amount p w,
    posted a amount amount p w,
    credit_total positive nonneg,
    posted-Posts amount,
  )
