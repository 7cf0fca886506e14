-- ===== src/Orders/Success.antt =====
-- What is known when `checkout` has returned an order.
use polyglot_commerce.Prelude.{
  ◌%◌, ◌^◌, ◌<◌, ◌≡◌, ◌≢◌, sym, ◌∙◌, true, false, none, List, [], ◌∷◌, arith,
}
use polyglot_commerce.Store.{Uuid, Time, OrderRow, Db, ok}
use polyglot_commerce.Store.Consistent.{IsConsistent, is_order, cart_of_unique}
use polyglot_commerce.Orders.{CheckoutRow, cart_of, checkout_rows, checkout}
use polyglot_commerce.Orders.Totals.{first_short, exact_total, first_short-eq-none}
use polyglot_commerce.Orders.Stock.{IsCovered, IsCovered-of_rows}
use polyglot_commerce.Orders.Checkout.{is_user, checked_out, checkout_result, checkout_refines}

-- The rows were in stock, the constraints on the order held, and this is what was written.
pub record Success (id user_id : Uuid) (rows : List CheckoutRow) (s : Db) (order : OrderRow)
    (s' : Db) : Type 0 where
  pub in_stock : first_short rows ≡ none
  pub nonempty : rows ≢ []
  pub fresh : is_order id s.orders ≡ false
  pub known_user : is_user user_id s ≡ true
  pub id_eq : order.id ≡ id
  pub user_eq : order.user_id ≡ user_id
  pub status_eq : order.status ≡ "confirmed"
  pub total_eq : order.total_cents ≡ exact_total rows % 2 ^ 64
  pub total_lt : order.total_cents < 2 ^ 63
  pub after : s' ≡ checked_out order rows s

pub result-Success :
    (id : Uuid) (now : Time) (user_id : Uuid) (rows : List CheckoutRow) (s : Db) {order : OrderRow}
    {s' : Db}
    → checkout_result id now user_id rows s ≡ (ok order, s')
    → Success id user_id rows s order s'
result-Success id now user_id [] s e = cc
result-Success id now user_id (r ∷ rows) s e = ground arith

pub checkout-Success :
    (id : Uuid) (now : Time) (user_id : Uuid) (s : Db) {order : OrderRow} {s' : Db}
    → IsConsistent s
    → checkout id now user_id s ≡ (ok order, s')
    → Success id user_id (checkout_rows user_id s) s order s'
checkout-Success id now user_id s h e =
    result-Success id now user_id (checkout_rows user_id s) s
      (sym (checkout_refines id now user_id s h) ∙ e)

pub checkout-IsCovered :
    (user_id : Uuid) (s : Db)
    → IsConsistent s
    → first_short (checkout_rows user_id s) ≡ none
    → IsCovered (checkout_rows user_id s) s.products
checkout-IsCovered user_id s h e =
    IsCovered-of_rows (cart_of user_id s) s.products h.product_ids
      (cart_of_unique user_id s.cart_items h.cart_keys) (first_short-eq-none _ e)
