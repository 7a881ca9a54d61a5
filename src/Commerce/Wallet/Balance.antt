-- ===== src/Commerce/Wallet/Balance.antt =====
-- The balance of an account is the sum of its ledger rows, and never below zero.
use dating_backend.Shared.Action.{ok, ◌>>=◌}
use dating_backend.Prelude.{
  true, false, ℕ, ◌≡◌, none, some, List, [], ◌∷◌, arith, Bool-cases, inl, inr, Option-cases,
}
use dating_backend.Prelude.Int.{ℤ, pos, ◌+ℤ◌, ◌≤ℤ◌, ltb_ℤ, zero-+ℤ, +ℤ_comm, le_of_ltb_ℤ, ◌-ℤ◌}
use dating_backend.Shared.Action.Keeps.{Yields, Keeps, Yields-bind, Yields-guard}
use dating_backend.Shared.Table.{lookup, lookup-insert}
use dating_backend.Commerce.Wallet.{
  Wallet, WalletAccount, WalletLedger, Posting, credited, posted, credit_account, ledger_sum,
  new_account, ensure_account, open_account, charge, credit, insert, Bool, welcome_posting, pure,
  reconcile_user, leb_ℤ, Reconciliation, app_error, order_invalid, wallet_insufficient, eq_ℤ, ◌>>=◌,
  brief,
}

-- Every row records the balance that the rows up to it add up to.
abbrev pub IsAudited : List WalletLedger → Type 0
IsAudited [] = Unit
IsAudited (e ∷ es) = (e.balance_after_cents ≡ ledger_sum e.user_id (e ∷ es)) × IsAudited es

pub record IsSound (w : Wallet) : Type 0 where
  pub keyed : (u : ℕ) (a : WalletAccount) → lookup u w.accounts ≡ some a → a.user_id ≡ u
  pub nonneg : (u : ℕ) (a : WalletAccount) → lookup u w.accounts ≡ some a → pos 0 ≤ℤ a.balance_cents
  pub balanced :
      (u : ℕ) (a : WalletAccount)
      → lookup u w.accounts ≡ some a
      → a.balance_cents ≡ ledger_sum u w.ledger
  pub unopened : (u : ℕ) → lookup u w.accounts ≡ none → ledger_sum u w.ledger ≡ pos 0
  pub audited : IsAudited w.ledger

-- The account that a call returned is the one that the table holds.
abbrev pub Holds : ℕ → WalletAccount → Wallet → Type 0
Holds u a w = IsSound w × (lookup u w.accounts ≡ some a)

module _ (w : Wallet) (u : ℕ) (a : WalletAccount) (held : Holds u a w) (delta amount : ℤ)
    (p : Posting) where
  posted-IsSound :
      pos 0 ≤ℤ (a.balance_cents +ℤ delta) → Holds u (credited a delta) (posted a delta amount p w)
  unfolding posted ledger_sum
  posted-IsSound covered =
      let same : a.user_id ≡ u = held.0.keyed u a held.1 in
      let total : a.balance_cents ≡ ledger_sum u w.ledger = held.0.balanced u a held.1 in
      let found = λ (v : ℕ). lookup-insert a.user_id v (credited a delta) w.accounts in
      (
        record {
          keyed = λ v b e. ground (arith, found v, held.0.keyed v b);
          nonneg = λ v b e. ground (arith, found v, held.0.nonneg v b);
          balanced = λ v b e. ground (
            arith,
            found v,
            held.0.balanced v b,
            +ℤ_comm a.balance_cents delta,
            zero-+ℤ (ledger_sum v w.ledger),
          );
          unopened =
              λ v e. ground (arith, found v, held.0.unopened v, zero-+ℤ (ledger_sum v w.ledger));
          audited = (ground (arith, +ℤ_comm a.balance_cents delta), held.0.audited);
        },
        ground (arith, found u),
      )

  credit_account-IsSound : Yields (λ _. IsSound) (credit_account a delta amount p w)
  unfolding credit_account
  credit_account-IsSound = elim (Bool-cases (ltb_ℤ (a.balance_cents +ℤ delta) (pos 0))) [
    | inl short ↦ rw short tt
    | inr covered ↦
        rw covered (posted-IsSound (le_of_ltb_ℤ (a.balance_cents +ℤ delta) (pos 0) covered)).0
  ]

  credit_account-Holds :
      Yields (λ entry w'. Holds u (credited a delta) w') (credit_account a delta amount p w)
  unfolding credit_account
  credit_account-Holds = elim (Bool-cases (ltb_ℤ (a.balance_cents +ℤ delta) (pos 0))) [
    | inl short ↦ rw short tt
    | inr covered ↦
        rw covered (posted-IsSound (le_of_ltb_ℤ (a.balance_cents +ℤ delta) (pos 0) covered))
  ]

module _ (w : Wallet) (sound : IsSound w) where
  opened-Holds :
      (u : ℕ)
      → lookup u w.accounts ≡ none
      → Holds u (new_account u) (record w { accounts = insert u (new_account u) w.accounts })
  opened-Holds u missing =
      let found = λ (v : ℕ). lookup-insert u v (new_account u) w.accounts in
      (
        record {
          keyed = λ v b e. ground (arith, found v, sound.keyed v b);
          nonneg = λ v b e. ground (arith, found v, sound.nonneg v b);
          balanced = λ v b e. ground (arith, found v, sound.balanced v b, sound.unopened u missing);
          unopened = λ v e. ground (arith, found v, sound.unopened v);
          audited = sound.audited;
        },
        ground (arith, found u),
      )

  module _ (welcome_cents : ℤ) where
    open_account-Holds :
        (u : ℕ) (grant_welcome : Bool)
        → lookup u w.accounts ≡ none
        → Yields (Holds u) (open_account welcome_cents u grant_welcome w)
    unfolding open_account
    open_account-Holds u false missing = opened-Holds u missing
    open_account-Holds u true missing =
        let opened : Wallet = record w { accounts = insert u (new_account u) w.accounts } in
        elim (Bool-cases (ltb_ℤ (pos 0) welcome_cents)) [
          | inl grant ↦ rw grant (
              Yields-bind (λ _. Holds u (credited (new_account u) welcome_cents)) (Holds u)
                (credit_account (new_account u) welcome_cents welcome_cents welcome_posting)
                (λ _. pure (credited (new_account u) welcome_cents)) opened
                (credit_account-Holds opened u (new_account u) (opened-Holds u missing)
                  welcome_cents welcome_cents welcome_posting)
                (λ _ w' h. h))
          | inr no_grant ↦ rw no_grant (opened-Holds u missing)
        ]

    -- `ensure_account` returns the account that the table then holds.
    pub ensure_account-Holds :
        (u : ℕ) (grant_welcome : Bool)
        → Yields (Holds u) (ensure_account welcome_cents u grant_welcome w)
    unfolding ensure_account
    ensure_account-Holds u grant_welcome = elim (Option-cases (lookup u w.accounts)) [
      | inl missing ↦ rw (missing, Yields) (open_account-Holds u grant_welcome missing)
      | inr (a, held) ↦ rw (held, Yields) (sound, held)
    ]

module _ (welcome_cents : ℤ) (u : ℕ) (amount : ℤ) (p : Posting) where
  -- After a charge the account that paid is the one that the table holds.
  charge-Yields :
      (w : Wallet) → IsSound w → Yields (λ _. IsSound) (charge welcome_cents u amount p w)
  unfolding charge
  charge-Yields w sound =
      Yields-guard (λ _. IsSound) (leb_ℤ amount (pos 0)) (app_error order_invalid 400) _ w
        λ _.
          Yields-bind (Holds u) (λ _. IsSound) (ensure_account welcome_cents u true) _ w
            (ensure_account-Holds w sound welcome_cents u true)
            λ a w' held.
              Yields-guard (λ _. IsSound) (ltb_ℤ a.balance_cents amount)
                (app_error wallet_insufficient 400) _ w'
                λ _. credit_account-IsSound w' u a held (pos 0 -ℤ amount) amount p

  credit-Yields :
      (w : Wallet) → IsSound w → Yields (λ _. IsSound) (credit welcome_cents u amount p w)
  unfolding credit
  credit-Yields w sound =
      Yields-guard (λ _. IsSound) (leb_ℤ amount (pos 0)) (app_error order_invalid 400) _ w
        λ _.
          Yields-bind (Holds u) (λ _. IsSound) (ensure_account welcome_cents u false) _ w
            (ensure_account-Holds w sound welcome_cents u false)
            λ a w' held. credit_account-IsSound w' u a held amount amount p

  pub charge-IsSound : Keeps IsSound (charge welcome_cents u amount p)
  charge-IsSound = record { at = λ w sound. charge-Yields w sound }

  pub credit-IsSound : Keeps IsSound (credit welcome_cents u amount p)
  credit-IsSound = record { at = λ w sound. credit-Yields w sound }

-- Without the bonus no account is refused.
ensure_account_total :
    (welcome_cents : ℤ) (w : Wallet) (u : ℕ)
    → IsSound w
    → (a : WalletAccount) × (w' : Wallet) × (ensure_account welcome_cents u false w ≡ ok (a, w'))
      × Holds u a w'
unfolding ensure_account open_account
ensure_account_total welcome_cents w u sound = elim (Option-cases (lookup u w.accounts)) [
  | inl missing ↦ (
    new_account u,
    record w { accounts = insert u (new_account u) w.accounts },
    rw (missing, ensure_account),
    opened-Holds w sound u missing,
  )
  | inr (a, held) ↦ (a, w, rw (held, ensure_account), (sound, held))
]

eq_ℤ-self : (a b : ℤ) → a ≡ b → eq_ℤ b a ≡ true
eq_ℤ-self a b e = rw e (ground arith)

-- On a sound wallet the reconciliation of any user succeeds, reports agreement, and keeps the
-- wallet sound.
pub reconcile_ok :
    (welcome_cents : ℤ) (w : Wallet) (u : ℕ)
    → IsSound w
    → (r : Reconciliation) × (w' : Wallet) × (reconcile_user welcome_cents u w ≡ ok (r, w'))
      × (r.is_ok ≡ true)
      × IsSound w'
unfolding reconcile_user
reconcile_ok welcome_cents w u sound =
    let (a, w', opened, held) = ensure_account_total welcome_cents w u sound in
    let agree : a.balance_cents ≡ ledger_sum u w'.ledger = held.0.balanced u a held.1 in
    (
      record {
        user_id = u;
        balance_cents = a.balance_cents;
        ledger_sum_cents = ledger_sum u w'.ledger;
        is_ok = eq_ℤ (ledger_sum u w'.ledger) a.balance_cents;
      },
      w',
      rw (opened, reconcile_user, ◌>>=◌),
      eq_ℤ-self a.balance_cents (ledger_sum u w'.ledger) agree,
      held.0,
    )

-- Reading the wallet opens the account, and grants the bonus, where there was none.
pub brief-IsSound : (welcome_cents : ℤ) (u : ℕ) → Keeps IsSound (brief welcome_cents u)
unfolding brief
brief-IsSound welcome_cents u = record {
  at = λ w sound.
      Yields-bind (Holds u) (λ _. IsSound) (ensure_account welcome_cents u true) _ w
        (ensure_account-Holds w sound welcome_cents u true) λ a w' held. held.0;
}
