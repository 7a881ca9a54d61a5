-- ===== src/Commerce/Prices.antt =====
-- What a new order costs.
use dating_backend.Shared.Errors.{app_error, order_invalid}
use dating_backend.Prelude.{ℕ, ◌≡◌, refl, false, Option, none, some, or_else, arith}
use dating_backend.Prelude.Int.{ℤ, pos, ◌-ℤ◌, ◌≤ℤ◌, max_ℤ, -ℤ_parts}
use dating_backend.Shared.Action.{◌>>=◌, ◌>>◌}
use dating_backend.Shared.Action.Gives.{Gives, gives_rules, Gives-guard, Gives-bind}
use dating_backend.Commerce.Data.{Env, Order, OrderKind, PayMethod, fresh_id, save_order}
use dating_backend.Commerce.Orders.{
  Quote, OrderRequest, place_order, new_order, settle_if_free, is_below, quote,
}
use dating_backend.Commerce.Settlement.{on_paid, paid_order}

-- The price after the discount, within the bounds.
pub record IsPriced (r : OrderRequest) (o : Order) : Type 0 where
  pub nonneg : pos 0 ≤ℤ o.payable_cents
  pub bounded : o.payable_cents ≤ℤ o.amount_cents
  pub price : o.payable_cents ≡ max_ℤ (pos 0) (o.amount_cents -ℤ max_ℤ (pos 0) r.discount_cents)

module _ (env : Env) (r : OrderRequest) where
  on_paid-price : (o : Order) (m : PayMethod) → IsPriced r o → Gives (IsPriced r) (on_paid env o m)
  unfolding on_paid paid_order
  on_paid-price o m h =
      let paid : IsPriced r (paid_order env o m) = record {
        nonneg = h.nonneg;
        bounded = h.bounded;
        price = h.price;
      } in
      search (gives_rules, h, paid) depth 10

  new_order-IsPriced :
      (id uid : ℕ) (k : OrderKind) (q : Quote) (cents : ℤ)
      → pos 0 ≤ℤ cents
      → IsPriced r (new_order env id uid k r q cents)
  unfolding new_order
  new_order-IsPriced id uid k q cents h = record {
    nonneg = ground arith;
    bounded = ground (arith, -ℤ_parts cents (max_ℤ (pos 0) r.discount_cents));
    price = refl;
  }

  settle_if_free-price : (o : Order) → IsPriced r o → Gives (IsPriced r) (settle_if_free env o)
  unfolding settle_if_free
  settle_if_free-price o h =
      let free : IsPriced r (record o { pay_method = some PayMethod.wallet }) = record {
        nonneg = h.nonneg;
        bounded = h.bounded;
        price = h.price;
      } in
      search (
        gives_rules,
        h,
        on_paid-price (record o { pay_method = some PayMethod.wallet }) PayMethod.wallet free,
      )

  not_below : (cents : Option ℤ) → is_below (pos 0) cents ≡ false → pos 0 ≤ℤ or_else cents (pos 0)
  unfolding is_below
  not_below none h = cc
  not_below (some c) h = ground (arith, h)

  placed-price :
      (uid : ℕ) (k : OrderKind) (q : Quote)
      → is_below (pos 0) q.cents ≡ false
      → Gives (IsPriced r) (
          fresh_id >>= λ id.
          save_order (new_order env id uid k r q (or_else q.cents (pos 0)))
          >> settle_if_free env (new_order env id uid k r q (or_else q.cents (pos 0))))
  placed-price uid k q fine = Gives-bind fresh_id _ λ id.
      let o : Order = new_order env id uid k r q (or_else q.cents (pos 0)) in
      let priced =
        new_order-IsPriced id uid k q (or_else q.cents (pos 0)) (not_below q.cents fine) in
      Gives-bind (save_order o) (λ _. settle_if_free env o) (λ _. settle_if_free-price o priced)

  -- A new order that commits costs its amount less the discount that the request names, never less than
  -- nothing and never more than the amount.
  pub place_order-IsPriced :
      (uid : ℕ) (k : OrderKind) → Gives (IsPriced r) (place_order env uid k r)
  unfolding place_order
  place_order-IsPriced uid k =
      Gives-bind (quote env k r.subject_id r.subject_title r.amount_cents r.meta) _ λ q.
        Gives-guard (is_below (pos 0) q.cents) (app_error order_invalid 400)
          (fresh_id >>= λ id.
            save_order (new_order env id uid k r q (or_else q.cents (pos 0)))
            >> settle_if_free env (new_order env id uid k r q (or_else q.cents (pos 0))))
          (placed-price uid k q)
