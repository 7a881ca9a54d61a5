-- ===== src/Messaging/InTransit.antt =====
-- The money that transfers have taken from a wallet and not yet paid out, and what the wallet's
-- ledger says of transfers.
use dating_backend.Shared.Action.{◌>>=◌}
use dating_backend.Shared.Errors.{app_error, order_invalid, wallet_insufficient}
use dating_backend.Prelude.{
  ℕ, ◌≡◌, refl, Bool, true, false, Option, none, some, List, [], ◌∷◌, if◌then◌else◌, Bool-cases,
  inl, inr, Option-cases, ◌&&◌, ◌==◌,
}
use dating_backend.Prelude.Int.{ℤ, pos, ◌+ℤ◌, ◌-ℤ◌, int_laws, ltb_ℤ, leb_ℤ, parts_of_eq}
use dating_backend.Shared.Action.Keeps.{Yields, Yields-bind, Yields-guard, Yields-map}
use dating_backend.Shared.Table.{Table, lookup, insert}
use dating_backend.Commerce.Wallet.{
  Wallet, WalletAccount, WalletLedger, WalletLedgerKind, Posting, charge, credit, credit_account,
  ensure_account, open_account, posted, ledger_entry,
}
use dating_backend.Messaging.Transfers.{ChatTransfer, is_open}

-- What a transfer still holds.
unfoldable pub held : ChatTransfer → ℤ
unfolding is_open
held t = if is_open t.status then t.amount_cents else pos 0

unfoldable pub held_in : Option ChatTransfer → ℤ
held_in none = pos 0
held_in (some t) = held t

unfoldable pub in_transit : Table ChatTransfer → ℤ
in_transit [] = pos 0
in_transit ((_, t) ∷ ts) = held t +ℤ in_transit ts

-- A row written to the table replaces what the row of that key held.
pub in_transit-insert :
    (k : ℕ) (v : ChatTransfer) (t : Table ChatTransfer)
    → (in_transit (insert k v t) +ℤ held_in (lookup k t)) ≡ (in_transit t +ℤ held v)
unfolding in_transit held_in lookup insert
in_transit-insert k v [] = omega int_laws
in_transit-insert k v ((j, w) ∷ t) = elim (Bool-cases (j == k)) [
  | inl same ↦ rw same (omega int_laws)
  | inr other ↦ rw other (omega (int_laws, parts_of_eq (in_transit-insert k v t)))
]

unfoldable pub is_transfer_kind : WalletLedgerKind → Bool
is_transfer_kind WalletLedgerKind.transfer_out = true
is_transfer_kind WalletLedgerKind.transfer_in = true
is_transfer_kind WalletLedgerKind.transfer_refund = true
is_transfer_kind _ = false

unfoldable pub moved : WalletLedgerKind → ℤ → ℤ
moved kind delta = if is_transfer_kind kind then delta else pos 0

-- The sum of what the ledger rows of transfers moved.
unfoldable pub transfer_sum : List WalletLedger → ℤ
transfer_sum [] = pos 0
transfer_sum (e ∷ es) = moved e.kind e.balance_delta_cents +ℤ transfer_sum es

-- The sum grew by an amount.
abbrev pub Moves : ℤ → Wallet → Wallet → Type 0
Moves amount w w' = transfer_sum w'.ledger ≡ amount +ℤ transfer_sum w.ledger

module _ (a : WalletAccount) (delta amount : ℤ) (p : Posting) where
  credit_account-Moves :
      (w : Wallet)
      → Yields (λ _ w'. Moves (moved p.kind delta) w w') (credit_account a delta amount p w)
  unfolding credit_account posted ledger_entry transfer_sum
  credit_account-Moves w = elim (Bool-cases (ltb_ℤ (a.balance_cents +ℤ delta) (pos 0))) [
    | inl short ↦ rw short tt
    | inr covered ↦ rw covered refl
  ]

module _ (welcome_cents : ℤ) (u : ℕ) where
  -- The welcome bonus is no transfer.
  open_account-Moves :
      (grant_welcome : Bool) (w : Wallet)
      → Yields (λ _ w'. Moves (pos 0) w w') (open_account welcome_cents u grant_welcome w)
  unfolding open_account credit_account posted ledger_entry transfer_sum moved is_transfer_kind
  open_account-Moves grant_welcome w =
      elim (Bool-cases (grant_welcome && ltb_ℤ (pos 0) welcome_cents)) [
        | inl granted ↦ elim (Bool-cases (ltb_ℤ (pos 0 +ℤ welcome_cents) (pos 0))) [
          | inl short ↦ rw granted (rw (short, ◌>>=◌) tt)
          | inr covered ↦ rw granted (rw (covered, ◌>>=◌) refl)
        ]
        | inr nothing ↦ rw nothing (omega int_laws)
      ]

  ensure_account-Moves :
      (grant_welcome : Bool) (w : Wallet)
      → Yields (λ _ w'. Moves (pos 0) w w') (ensure_account welcome_cents u grant_welcome w)
  unfolding ensure_account
  ensure_account-Moves grant_welcome w = elim (Option-cases (lookup u w.accounts)) [
    | inl missing ↦ rw (missing, Yields) (open_account-Moves grant_welcome w)
    | inr (a, found) ↦ rw (found, Yields) (omega int_laws)
  ]

  module _ (amount : ℤ) (p : Posting) (w : Wallet) where
    after_opening :
        (a : WalletAccount) (delta : ℤ) (w' : Wallet)
        → Moves (pos 0) w w'
        → Yields (λ _ w''. Moves (moved p.kind delta) w w'') (credit_account a delta amount p w')
    after_opening a delta w' same =
        Yields-map (λ _ w''. Moves (moved p.kind delta) w' w'')
          (λ _ w''. Moves (moved p.kind delta) w w'') (credit_account a delta amount p w')
          (λ _ w'' m. omega (int_laws, parts_of_eq m, parts_of_eq same))
          (credit_account-Moves a delta amount p w')

    -- A charge that commits moves its amount out.
    pub charge-Moves :
        Yields
          (λ _ w'. Moves (moved p.kind (pos 0 -ℤ amount)) w w')
          (charge welcome_cents u amount p w)
    unfolding charge
    charge-Moves =
        let R : WalletLedger → Wallet → Type 0 =
          λ _ w'. Moves (moved p.kind (pos 0 -ℤ amount)) w w' in
        Yields-guard R (leb_ℤ amount (pos 0)) (app_error order_invalid 400) _ w λ _.
          Yields-bind (λ _ w'. Moves (pos 0) w w') R (ensure_account welcome_cents u true) _ w
            (ensure_account-Moves true w)
            λ a w' same.
              Yields-guard R (ltb_ℤ a.balance_cents amount) (app_error wallet_insufficient 400) _ w'
                λ _. after_opening a (pos 0 -ℤ amount) w' same

    -- A credit that commits moves its amount in.
    pub credit-Moves :
        Yields (λ _ w'. Moves (moved p.kind amount) w w') (credit welcome_cents u amount p w)
    unfolding credit
    credit-Moves =
        let R : WalletLedger → Wallet → Type 0 = λ _ w'. Moves (moved p.kind amount) w w' in
        Yields-guard R (leb_ℤ amount (pos 0)) (app_error order_invalid 400) _ w λ _.
          Yields-bind (λ _ w'. Moves (pos 0) w w') R (ensure_account welcome_cents u false) _ w
            (ensure_account-Moves false w) λ a w' same. after_opening a amount w' same
