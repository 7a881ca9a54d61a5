-- ===== src/Commerce/Membership.antt =====
-- Memberships and credentials of app/modules/commerce/service.py.
use dating_backend.Companion.Data.{active}
use dating_backend.Prelude.{
  ℕ, ◌+◌, ◌*◌, String, Bool, true, false, Option, none, some, List, [], ◌∷◌, ◌&&◌, ◌==◌, ltb,
  if◌then◌else◌,
}
use dating_backend.Shared.Errors.{app_error, order_invalid}
use dating_backend.Shared.Action.{Action, pure, gets, modify, or_raise, ◌>>=◌, ◌>>◌}
use dating_backend.Shared.Table.{Table, lookup, insert, rows, one_or_none}
use dating_backend.Commerce.Data.{
  Db, Env, MembershipPlan, Membership, Credential, Order, Meta, fresh_id, MembershipStatus, ended,
  active, store_card, event_ticket, valid, or_text,
}
use text.Mathlib.Text.{◌==◌ as str_eq}

-- `plan and plan.active`
unfoldable pub active_plan : Option MembershipPlan → Option MembershipPlan
active_plan none = none
active_plan (some plan) = if plan.is_active then some plan else none

-- `_resolve_plan`
module _ (env : Env) where
  unfoldable pub plan_by_code : Meta → Action Db MembershipPlan
  unfolding active_plan or_text
  plan_by_code meta = do
    found ← gets (λ db.
        rows (λ (p : MembershipPlan). str_eq p.code (or_text meta.plan_code "monthly")) db.plans)
    plan ← one_or_none found
    or_raise (active_plan plan) (app_error order_invalid 400)

  unfoldable pub plan_or_default : Option MembershipPlan → Meta → Action Db MembershipPlan
  plan_or_default none meta = plan_by_code meta
  plan_or_default (some plan) meta = pure plan

  unfoldable pub resolve_plan : Option ℕ → Meta → Action Db MembershipPlan
  unfolding plan_by_code plan_or_default active_plan
  resolve_plan none meta = plan_by_code meta
  resolve_plan (some plan_id) meta = do
    found ← gets (λ db. lookup plan_id db.plans)
    plan_or_default (active_plan found) meta

unfoldable pub is_active : MembershipStatus → Bool
is_active active = true
is_active _ = false

-- The membership of `my_membership`: of the active ones, the one that expires last.
unfoldable pub latest_expiry : List Membership → Option ℕ
latest_expiry [] = none
latest_expiry (m ∷ ms) = elim (latest_expiry ms) [
  | none ↦ some m.expires_at
  | some later ↦ some (if ltb later m.expires_at then m.expires_at else later)
]

unfoldable pub my_membership : ℕ → ℕ → Db → Option ℕ
unfolding latest_expiry is_active
my_membership now uid db = latest_expiry (
    rows (λ (m : Membership). m.user_id == uid && (is_active m.status && ltb now m.expires_at))
      db.memberships)

-- A membership extends from the expiry of the one that is still running.
unfoldable pub membership_start : ℕ → Option ℕ → ℕ
membership_start now none = now
membership_start now (some exp) = if ltb now exp then exp else now

module _ (env : Env) where
  unfoldable pub add_credential : Credential → Action Db (Unit {0})
  add_credential cred =
      modify (λ db. record db { credentials = insert cred.id cred db.credentials })

  unfoldable pub issue_order_credential : String → Order → Action Db (Unit {0})
  unfolding add_credential
  issue_order_credential prefix order = do
    id ← fresh_id
    add_credential (record {
      id = id;
      user_id = order.user_id;
      style = event_ticket;
      serial_no = env.serial_no prefix;
      related_kind = "order";
      related_id = order.id;
      relevant_at = order.paid_at;
      expires_at = none;
      status = valid;
    })

  unfoldable pub issue_membership_credential : Order → Membership → Action Db (Unit {0})
  unfolding add_credential
  issue_membership_credential order m = do
    id ← fresh_id
    add_credential (record {
      id = id;
      user_id = order.user_id;
      style = store_card;
      serial_no = env.serial_no "VIP";
      related_kind = "membership";
      related_id = m.id;
      relevant_at = none;
      expires_at = some m.expires_at;
      status = valid;
    })

  unfoldable pub activate_membership : Order → Action Db (Unit {0})
  unfolding issue_membership_credential
  activate_membership order = do
    plan ← resolve_plan env order.subject_id order.meta
    current ← gets (my_membership env.now order.user_id)
    id ← fresh_id
    let m : Membership = record {
      id = id;
      user_id = order.user_id;
      plan_code = plan.code;
      status = active;
      started_at = env.now;
      expires_at = membership_start env.now current + plan.duration_days * 86400;
      source_order_id = some order.id;
    }
    modify (λ db. record db { memberships = insert id m db.memberships })
    issue_membership_credential order m

-- `m.status = CANCELLED` for each membership that the order paid for.
unfoldable pub revoke : ℕ → Table Membership → Table Membership
revoke order_id [] = []
revoke order_id ((k, m) ∷ t) =
    let m' : Membership = elim m.source_order_id [
      | none ↦ m
      | some source ↦ if source == order_id then record m { status = ended } else m
    ] in
    (k, m') ∷ revoke order_id t

unfoldable pub revoke_membership_for_order : ℕ → Action Db (Unit {0})
unfolding revoke
revoke_membership_for_order order_id =
    modify (λ db. record db { memberships = revoke order_id db.memberships })
