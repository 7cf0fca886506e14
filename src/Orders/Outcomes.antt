-- ===== src/Orders/Outcomes.antt =====
-- How a checkout and a cancellation can end, as rules: to prove a property of the database that one
-- leaves, prove it of the database that was there and of the one that a success writes.
use polyglot_commerce.Prelude.{
  ◌<◌, ◌≡◌, refl, ◌∙◌, sym, str_eq, false, Option, none, some, List, ◌==◌, All, All-select,
  UniqueBy, Bool-cases, inl, inr,
}
use polyglot_commerce.Errors.{AppError}
use polyglot_commerce.Store.{
  Uuid, Time, CartItemRow, OrderRow, Db, Result, ok, err, transaction-err,
}
use polyglot_commerce.Store.Consistent.{IsConsistent, is_order, same_product, cart_of_unique}
use polyglot_commerce.Orders.{
  join_products, cart_of, items_of, get_order, place_order, resume, checkout, cancel,
}
use polyglot_commerce.Orders.Totals.{first_short-eq-none}
use polyglot_commerce.Orders.Stock.{IsCovered, IsCovered-of_rows}
use polyglot_commerce.Orders.Checkout.{checked_out, checkout_result, place_snapshot}
use polyglot_commerce.Orders.Success.{result-Success}
use polyglot_commerce.Orders.Cancel.{overflows, order_cancelled, cancel_result, cancel_refines}

-- What a checkout has read of the cart before it waits.
abbrev pub IsSnapshot : List CartItemRow → Type 0
IsSnapshot lines = UniqueBy same_product lines × All (λ c. 0 < c.quantity) lines

pub cart_of-IsSnapshot : (user_id : Uuid) (s : Db) → IsConsistent s → IsSnapshot (cart_of user_id s)
cart_of-IsSnapshot user_id s h = (
  cart_of_unique user_id s.cart_items h.cart_keys,
  All-select _ (λ c. c.user_id == user_id) s.cart_items h.quantities,
)

pub checkout-eq-resume :
    (id : Uuid) (now : Time) (user_id : Uuid) (s : Db)
    → checkout id now user_id s ≡ resume id now user_id (cart_of user_id s) s
unfolding checkout resume
checkout-eq-resume id now user_id s = refl

resume-err :
    (id : Uuid) (now : Time) (user_id : Uuid) (lines : List CartItemRow) (s : Db) {x : AppError}
    {s' : Db}
    → resume id now user_id lines s ≡ (err x, s')
    → s' ≡ s
unfolding resume
resume-err id now user_id lines s =
    transaction-err (place_order id now user_id (join_products lines s.products)) s

module _ (id : Uuid) (now : Time) (user_id : Uuid) (lines : List CartItemRow) (s : Db)
    (h : IsConsistent s) (snapshot : IsSnapshot lines) where
  pub resume_refines :
      resume id now user_id lines s
      ≡ checkout_result id now user_id (join_products lines s.products) s
  unfolding resume
  resume_refines = place_snapshot id now user_id lines s h.product_ids snapshot.0 snapshot.1

  pub resume_rule {ℓ} :
      (P : Db → Type ℓ)
      → P s
      → ((order : OrderRow)
          → order.status ≡ "confirmed"
          → IsCovered (join_products lines s.products) s.products
          → is_order order.id s.orders ≡ false
          → P (checked_out order (join_products lines s.products) s))
      → P (resume id now user_id lines s).1
  resume_rule P same changed = outcome (resume id now user_id lines s) refl
    where
      outcome : (r : Result OrderRow × Db) → resume id now user_id lines s ≡ r → P r.1
      outcome (err x, s') e = rw (resume-err id now user_id lines s e) same
      outcome (ok order, s') e =
          let done =
            result-Success id now user_id (join_products lines s.products) s
              (sym resume_refines ∙ e) in
          rw done.after (
            changed order done.status_eq
              (IsCovered-of_rows lines s.products h.product_ids snapshot.0
                (first_short-eq-none _ done.in_stock))
              (rw done.id_eq done.fresh))

module _ (now : Time) (user_id order_id : Uuid) (s : Db) (h : IsConsistent s) where
  pub cancel_rule {ℓ} :
      (P : Db → Type ℓ)
      → P s
      → ((order : OrderRow)
          → get_order user_id order_id s ≡ some order
          → str_eq order.status "cancelled" ≡ false
          → overflows (items_of order_id s.order_items) s.products ≡ false
          → P (order_cancelled now order (items_of order_id s.order_items) s))
      → P (cancel now user_id order_id s).1
  cancel_rule P same changed =
      rw (cancel_refines now user_id order_id s h) (outcome (get_order user_id order_id s) refl)
    where
      outcome :
          (found : Option OrderRow)
          → get_order user_id order_id s ≡ found
          → P (cancel_result now order_id found s).1
      outcome none e = same
      outcome (some order) e = elim (Bool-cases (str_eq order.status "cancelled")) [
        | inl again ↦ rw again same
        | inr still_open ↦
            elim (Bool-cases (overflows (items_of order_id s.order_items) s.products)) [
              | inl full ↦ rw (still_open, full) same
              | inr fits ↦ rw (still_open, fits) (changed order e still_open fits)
            ]
      ]
