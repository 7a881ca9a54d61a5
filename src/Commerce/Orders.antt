-- ===== src/Commerce/Orders.antt =====
-- `create_order`, `get_order`, `cancel_order`, `pay_order` and `expire_unpaid_orders` of
-- app/modules/commerce/service.py.
use dating_backend.Commerce.Membership.{resolve_plan}
use dating_backend.Commerce.Settlement.{on_paid}
use dating_backend.Prelude.{
  ℕ, ◌+◌, ◌*◌, String, Bool, true, false, Option, none, some, not, ◌&&◌, ◌==◌, if◌then◌else◌,
  or_else,
}
use dating_backend.Prelude.Int.{ℤ, pos, ◌-ℤ◌, ltb_ℤ, leb_ℤ, max_ℤ}
use dating_backend.Shared.Errors.{app_error, order_invalid, activity_not_found, booking_not_found}
use dating_backend.Shared.Action.{Action, pure, raise, gets, or_raise, raise_if, ◌>>=◌, ◌>>◌}
use dating_backend.Shared.Table.{lookup, rows, one_or_none}
use dating_backend.Commerce.Data.{
  Db, Env, Order, OrderKind, PayMethod, Meta, pending_payment, ActivityRow, ActivityStatus,
  fresh_id, save_order, created,
}
use text.Mathlib.Text.{◌==◌ as str_eq}

-- What a kind of order resolves to: its title, its price if it has one, and its subject.
pub record Quote : Type 0 where
  pub title : String
  pub cents : Option ℤ
  pub subject : Option ℕ

-- `title or other`
unfoldable pub or_title : String → String → String
or_title title other = if str_eq title "" then other else title

unfoldable pub is_cancelled_activity : ActivityStatus → Bool
is_cancelled_activity ActivityStatus.activity_cancelled = true
is_cancelled_activity _ = false

unfoldable pub is_published_activity : ActivityStatus → Bool
is_published_activity ActivityStatus.published = true
is_published_activity _ = false

unfoldable pub live_activity : Option ActivityRow → Option ActivityRow
unfolding is_cancelled_activity
live_activity none = none
live_activity (some row) = if is_cancelled_activity row.status then none else some row

unfoldable pub quote_activity : Option ℕ → String → Option ℤ → Meta → Action Db Quote
quote_activity none title cents meta = raise (app_error order_invalid 400)
quote_activity (some subject_id) title cents meta = do
  found ← gets (λ db. lookup subject_id db.activities)
  row ← or_raise (live_activity found) (app_error activity_not_found 404)
  raise_if (not (is_published_activity row.status)) (app_error order_invalid 400)
  pure (record {
    title = or_title title row.title;
    cents = some (or_else cents (or_else meta.fee_cents (pos 0)));
    subject = some subject_id;
  })

unfoldable pub quote_membership : Env → Option ℕ → String → Option ℤ → Meta → Action Db Quote
quote_membership env subject_id title cents meta = do
  plan ← resolve_plan env subject_id meta
  pure (record {
    title = or_title title plan.title;
    cents = some (or_else cents plan.price_cents);
    subject = some plan.id;
  })

-- `cents is None or cents < least`
unfoldable pub is_below : ℤ → Option ℤ → Bool
is_below least none = true
is_below least (some cents) = ltb_ℤ cents least

unfoldable pub quote_topup : Env → Option ℕ → String → Option ℤ → Action Db Quote
unfolding is_below
quote_topup env subject_id title cents = do
  raise_if (is_below (pos 100) cents) (app_error order_invalid 400)
  pure (record {
    title =
        or_title title (Prim.Native.String.◌++◌ "钱包充值 " (env.format_cents (or_else cents (pos 0))));
    cents = cents;
    subject = subject_id;
  })

-- The booking is looked up when the subject names one.
unfoldable pub find_booking : Option ℕ → Action Db (Unit {0})
find_booking none = pure tt
find_booking (some booking_id) = do
  found ← gets (λ db. lookup booking_id db.companion.bookings)
  or_raise found (app_error booking_not_found 404)
  pure tt

unfoldable pub quote_booking : Option ℕ → String → Option ℤ → Action Db Quote
unfolding is_below find_booking
quote_booking subject_id title cents = do
  raise_if (is_below (pos 1) cents) (app_error order_invalid 400)
  find_booking subject_id
  pure (record { title = or_title title "陪玩预约"; cents = cents; subject = subject_id })

-- `create_order`, the branches on the kind.
unfoldable pub quote : Env → OrderKind → Option ℕ → String → Option ℤ → Meta → Action Db Quote
unfolding quote_activity quote_membership quote_topup quote_booking
quote env OrderKind.activity subject_id title cents meta =
    quote_activity subject_id title cents meta
quote env OrderKind.membership subject_id title cents meta =
    quote_membership env subject_id title cents meta
quote env OrderKind.wallet_topup subject_id title cents meta =
    quote_topup env subject_id title cents
quote env OrderKind.companion_booking subject_id title cents meta =
    quote_booking subject_id title cents

unfoldable pub same_key : String → Option String → Bool
same_key key none = false
same_key key (some k) = str_eq k key

-- The order that the user made before under this key; an empty key is no key.
unfoldable pub earlier_order : ℕ → Option String → Action Db (Option Order)
unfolding same_key
earlier_order uid none = pure none
earlier_order uid (some key) =
    if str_eq key ""
    then pure none
    else gets
        (λ db. rows (λ (o : Order). o.user_id == uid && same_key key o.idempotency_key) db.orders)
      >>= one_or_none

pub record OrderRequest : Type 0 where
  pub kind : Option OrderKind
  pub subject_id : Option ℕ
  pub amount_cents : Option ℤ
  pub subject_title : String
  pub discount_cents : ℤ
  pub meta : Meta
  pub idempotency_key : Option String

module _ (env : Env) where
  unfoldable pub new_order : ℕ → ℕ → OrderKind → OrderRequest → Quote → ℤ → Order
  new_order id uid kind r q cents =
      let discount = max_ℤ (pos 0) r.discount_cents in
      let payable = max_ℤ (pos 0) (cents -ℤ discount) in
      record {
        id = id;
        order_no = env.order_no;
        user_id = uid;
        kind = kind;
        subject_id = q.subject;
        subject_title = q.title;
        amount_cents = cents;
        discount_cents = discount;
        payable_cents = payable;
        status = if ltb_ℤ (pos 0) payable then pending_payment else created;
        pay_method = none;
        paid_at = none;
        closed_at = none;
        expire_at = some (env.now + env.order_expire_minutes * 60);
        idempotency_key = r.idempotency_key;
        meta = r.meta;
      }

  -- A free order is paid at once.
  unfoldable pub settle_if_free : Order → Action Db Order
  settle_if_free order =
      if leb_ℤ order.payable_cents (pos 0)
      then on_paid env (record order { pay_method = some PayMethod.wallet }) PayMethod.wallet
      else pure order

  unfoldable pub place_order : ℕ → OrderKind → OrderRequest → Action Db Order
  unfolding new_order is_below settle_if_free
  place_order uid kind r = do
    q ← quote env kind r.subject_id r.subject_title r.amount_cents r.meta
    raise_if (is_below (pos 0) q.cents) (app_error order_invalid 400)
    id ← fresh_id
    let order = new_order id uid kind r q (or_else q.cents (pos 0))
    save_order order
    settle_if_free order

  unfoldable pub hit_or_place : ℕ → OrderKind → OrderRequest → Option Order → Action Db Order
  unfolding place_order
  hit_or_place uid kind r none = place_order uid kind r
  hit_or_place uid kind r (some order) = pure order

  unfoldable pub create_order : ℕ → OrderRequest → Action Db Order
  unfolding earlier_order hit_or_place
  create_order uid r = do
    kind ← or_raise r.kind (app_error order_invalid 400)
    hit ← earlier_order uid r.idempotency_key
    hit_or_place uid kind r hit
