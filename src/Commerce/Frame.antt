-- ===== src/Commerce/Frame.antt =====
-- What the handlers of app/modules/commerce do outside the wallet leaves every property of the
-- wallets as it was.
use dating_backend.Shared.Action.{modify}
use dating_backend.Companion.Data.{CompanionBooking, settle_booking}
use dating_backend.Shared.Table.{one_or_none}
use dating_backend.Events.{enqueue, DomainEventName}
use dating_backend.Prelude.{List, [], ℕ, Option, none, some, String, ◌∷◌}
use dating_backend.Commerce.Membership.{
  add_credential, plan_by_code, issue_order_credential, activate_membership, resolve_plan,
  plan_or_default,
}
use dating_backend.Commerce.Settlement.{mark_found, mark_subject_paid}
use dating_backend.Shared.Action.Keeps.{Keeps, keeps_rules}
use dating_backend.Commerce.Wallet.{Wallet}
use dating_backend.Commerce.Data.{
  Db, Env, Order, Payment, Refund, save_refund, save_order, fresh_id, publish, on_companion,
  save_payment, Credential, Meta, MembershipPlan,
}

abbrev pub OnWallets : (Wallet → Type 0) → Db → Type 0
OnWallets Q db = Q db.wallets

module _ (Q : Wallet → Type 0) where
  pub one_or_none-Keeps : {A : Type 0} (l : List A) → Keeps (OnWallets Q) (one_or_none l)
  one_or_none-Keeps [] = record { at = λ db h. h }
  one_or_none-Keeps (a ∷ []) = record { at = λ db h. h }
  one_or_none-Keeps (a ∷ b ∷ l) = record { at = λ db h. tt }

  pub save_order-Keeps : (o : Order) → Keeps (OnWallets Q) (save_order o)
  unfolding save_order
  save_order-Keeps o = record { at = λ db h. h }

  pub save_payment-Keeps : (p : Payment) → Keeps (OnWallets Q) (save_payment p)
  unfolding save_payment
  save_payment-Keeps p = record { at = λ db h. h }

  pub save_refund-Keeps : (r : Refund) → Keeps (OnWallets Q) (save_refund r)
  unfolding save_refund
  save_refund-Keeps r = record { at = λ db h. h }

  pub fresh_id-Keeps : Keeps (OnWallets Q) fresh_id
  unfolding fresh_id
  fresh_id-Keeps = record { at = λ db h. h }

  pub publish-Keeps :
      (now : ℕ) (name : DomainEventName) (kind : String) (id : ℕ)
      → Keeps (OnWallets Q) (publish now name kind id)
  unfolding publish enqueue
  publish-Keeps now name kind id = record { at = λ db h. h }

  pub settle_booking-Keeps :
      (now : ℕ) (b : CompanionBooking)
      → Keeps (OnWallets Q) (on_companion (modify (settle_booking now b)))
  unfolding on_companion
  settle_booking-Keeps now b = record { at = λ db h. h }

pub ruleset frame_rules = (
  keeps_rules, one_or_none-Keeps, save_order-Keeps, save_payment-Keeps, save_refund-Keeps,
  fresh_id-Keeps, publish-Keeps, settle_booking-Keeps,
)

module _ (Q : Wallet → Type 0) (env : Env) where
  pub add_credential-Keeps : (c : Credential) → Keeps (OnWallets Q) (add_credential env c)
  unfolding add_credential
  add_credential-Keeps c = record { at = λ db h. h }

  pub issue_order_credential-Keeps :
      (prefix : String) (o : Order) → Keeps (OnWallets Q) (issue_order_credential env prefix o)
  unfolding issue_order_credential fresh_id
  issue_order_credential-Keeps prefix o = record { at = λ db h. h }

  pub plan_by_code-Keeps : (meta : Meta) → Keeps (OnWallets Q) (plan_by_code env meta)
  unfolding plan_by_code
  plan_by_code-Keeps meta = search frame_rules depth 8

  pub plan_or_default-Keeps :
      (o : Option MembershipPlan) (meta : Meta) → Keeps (OnWallets Q) (plan_or_default env o meta)
  unfolding plan_or_default
  plan_or_default-Keeps none meta = plan_by_code-Keeps meta
  plan_or_default-Keeps (some plan) meta = search frame_rules

  pub resolve_plan-Keeps :
      (subject : Option ℕ) (meta : Meta) → Keeps (OnWallets Q) (resolve_plan env subject meta)
  unfolding resolve_plan
  resolve_plan-Keeps none meta = plan_by_code-Keeps meta
  resolve_plan-Keeps (some id) meta = search (frame_rules, plan_or_default-Keeps)

  pub activate_membership-Keeps : (o : Order) → Keeps (OnWallets Q) (activate_membership env o)
  unfolding activate_membership
  activate_membership-Keeps o = search (frame_rules, resolve_plan-Keeps) depth 12

  pub mark_found-Keeps :
      (id : ℕ) (b : Option CompanionBooking) → Keeps (OnWallets Q) (mark_found env id b)
  unfolding mark_found
  mark_found-Keeps id none = search frame_rules
  mark_found-Keeps id (some b) = search frame_rules depth 8

  pub mark_subject_paid-Keeps : (o : Option ℕ) → Keeps (OnWallets Q) (mark_subject_paid env o)
  unfolding mark_subject_paid
  mark_subject_paid-Keeps none = search frame_rules
  mark_subject_paid-Keeps (some id) = search (frame_rules, mark_found-Keeps)
