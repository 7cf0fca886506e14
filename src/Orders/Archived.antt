-- ===== src/Orders/Archived.antt =====
-- A product that is archived while it lies in a cart.
use polyglot_commerce.Prelude.{
  ◌^◌, ◌<◌, ◌≡◌, refl, ◌∙◌, sym, ap, List, [], ◌∷◌, arith, ◌==◌, find, update_where, All,
  UniqueBy-update_where,
}
use polyglot_commerce.Store.{Uuid, Time, Product, CartItemRow, OrderRow, Db, Result}
use polyglot_commerce.Store.Consistent.{IsConsistent, same_id}
use polyglot_commerce.Orders.{CheckoutRow, row_of, join_products, cart_of, checkout_rows, checkout}
use polyglot_commerce.Orders.Checkout.{checkout_result, checkout_refines}
use polyglot_commerce.Catalog.{is_product, archived_at, archive_product}

archived-IsConsistent :
    (now : Time) (id : Uuid) (s : Db) → IsConsistent s → IsConsistent (archive_product now id s).1
unfolding archive_product
archived-IsConsistent now id s h = record {
  product_ids =
      UniqueBy-update_where same_id (is_product id) (archived_at now) s.products (λ x y. refl)
        (λ x y. refl) h.product_ids;
  stocks = small s.products h.stocks;
  cart_keys = h.cart_keys;
  quantities = h.quantities;
  order_ids = h.order_ids;
  item_orders = h.item_orders;
}
  where
    small :
        (ps : List Product)
        → All (λ (p : Product). p.stock_quantity < 2 ^ 31) ps
        → All
            (λ (p : Product). p.stock_quantity < 2 ^ 31)
            (update_where (is_product id) (archived_at now) ps)
    small [] k = tt
    small (p ∷ ps) k = (ground arith, small ps k.1)

row_of-archived :
    (now : Time) (id : Uuid) (c : CartItemRow) (ps : List Product)
    → row_of c (
        find
          (λ (p : Product). p.id == c.product_id)
          (update_where (is_product id) (archived_at now) ps))
      ≡ row_of c (find (λ (p : Product). p.id == c.product_id) ps)
row_of-archived now id c [] = refl
row_of-archived now id c (p ∷ ps) = ground (arith, row_of-archived now id c ps)

-- What a checkout reads of the products does not tell whether one is archived.
join_products-archived :
    (now : Time) (id : Uuid) (cs : List CartItemRow) (ps : List Product)
    → join_products cs (update_where (is_product id) (archived_at now) ps) ≡ join_products cs ps
unfolding join_products
join_products-archived now id [] ps = refl
join_products-archived now id (c ∷ cs) ps =
    rw (row_of-archived now id c ps, join_products-archived now id cs ps) refl

answer-archived :
    (id : Uuid) (now : Time) (user_id : Uuid) (rows : List CheckoutRow) (s : Db) (ps : List Product)
    → (checkout_result id now user_id rows (record s { products = ps })).0
      ≡ (checkout_result id now user_id rows s).0
answer-archived id now user_id [] s ps = refl
answer-archived id now user_id (r ∷ rows) s ps = ground arith

-- On a consistent database, a checkout answers as if no product had been archived: one that was
-- archived while it lay in the cart is sold, at its price.
pub checkout-archive :
    (id : Uuid) (now at : Time) (user_id product_id : Uuid) (s : Db)
    → IsConsistent s
    → (checkout id now user_id (archive_product at product_id s).1).0
      ≡ (checkout id now user_id s).0
unfolding archive_product
checkout-archive id now at user_id product_id s h =
    let ps = update_where (is_product product_id) (archived_at at) s.products in
    ap (λ (r : Result OrderRow × Db). r.0)
      (checkout_refines id now user_id (record s { products = ps })
        (archived-IsConsistent at product_id s h))
    ∙ ap (λ rows. (checkout_result id now user_id rows (record s { products = ps })).0)
        (join_products-archived at product_id (cart_of user_id s) s.products)
    ∙ answer-archived id now user_id (checkout_rows user_id s) s ps
    ∙ sym (ap (λ (r : Result OrderRow × Db). r.0) (checkout_refines id now user_id s h))
