-- ===== src/Orders/Charge.antt =====
-- The cart shows what a checkout charges.
use polyglot_commerce.Prelude.{
  ◌%◌, ◌^◌, ◌≡◌, refl, ◌∙◌, sym, ap, List, [], ◌∷◌, arith, sum_by-sort_by,
}
use polyglot_commerce.Store.{Uuid, Time, Product, CartItemRow, OrderRow, Db, ok}
use polyglot_commerce.Store.Consistent.{IsConsistent}
use polyglot_commerce.Cart.{join_cart, get_cart, from_rows}
use polyglot_commerce.Cart.Totals.{shown_total, from_rows_lem}
use polyglot_commerce.Orders.{join_products, cart_of, checkout_rows, checkout}
use polyglot_commerce.Orders.Totals.{exact_total}
use polyglot_commerce.Orders.Success.{checkout-Success}

shown_total-join_cart :
    (cs : List CartItemRow) (ps : List Product)
    → shown_total (join_cart cs ps) ≡ exact_total (join_products cs ps)
unfolding join_cart join_products
shown_total-join_cart [] ps = refl
shown_total-join_cart (c ∷ cs) ps = ground (arith, shown_total-join_cart cs ps)

shown_total-get_cart :
    (user_id : Uuid) (s : Db)
    → shown_total (get_cart user_id s) ≡ exact_total (checkout_rows user_id s)
unfolding get_cart
shown_total-get_cart user_id s =
    sum_by-sort_by _ _ (join_cart (cart_of user_id s) s.products)
    ∙ shown_total-join_cart (cart_of user_id s) s.products

-- On a consistent database, a successful checkout charges the total that the cart showed before it, whatever the order of the
-- lines in either.
pub total-checkout :
    (id : Uuid) (now : Time) (user_id : Uuid) (s : Db) {order : OrderRow} {s' : Db}
    → IsConsistent s
    → checkout id now user_id s ≡ (ok order, s')
    → order.total_cents ≡ (from_rows (get_cart user_id s)).total_cents
total-checkout id now user_id s h e =
    (checkout-Success id now user_id s h e).total_eq
    ∙ ap (λ t. t % 2 ^ 64) (sym (shown_total-get_cart user_id s))
    ∙ sym (from_rows_lem (get_cart user_id s)).1
