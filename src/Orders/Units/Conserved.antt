-- ===== src/Orders/Units/Conserved.antt =====
-- Checkout and cancellation conserve the units of every product, whatever their outcome.
use mathlib.Core.Path.{subst}
use polyglot_commerce.Prelude.{
  ◌≡◌, refl, ◌∙◌, str_eq, true, false, not, ◌&&◌, List, [], ◌∷◌, ◌++◌, arith, ◌==◌, sum_by-append,
  any-append,
}
use polyglot_commerce.Store.{Uuid, Time, CartItemRow, OrderRow, Db}
use polyglot_commerce.Store.Consistent.{IsConsistent, is_order}
use polyglot_commerce.Orders.{CheckoutRow, items_of, get_order, resume, cancel}
use polyglot_commerce.Orders.Stock.{lines, IsCovered}
use polyglot_commerce.Orders.Checkout.{checked_out}
use polyglot_commerce.Orders.Outcomes.{IsSnapshot, resume_rule, cancel_rule}
use polyglot_commerce.Orders.Cancel.{order_cancelled}
use polyglot_commerce.Orders.Units.{
  is_product, is_open, sold_by, units, is_product-drawn, is_product-restocked, stock_of-drawn,
  stock_of-restocked,
}
use polyglot_commerce.Orders.Units.Sold.{sold-snoc, sold-lines, sold-cancelled, is_open_of_found}

-- A checkout moves the units that it sells out of the stock.
pub units-checked_out :
    (id : Uuid) (order : OrderRow) (rows : List CheckoutRow) (s : Db)
    → IsConsistent s
    → IsCovered rows s.products
    → is_order order.id s.orders ≡ false
    → order.status ≡ "confirmed"
    → is_product id s.products ≡ true
    → units id (checked_out order rows s) ≡ units id s
units-checked_out id order rows s h covered fresh status there =
    let opened : is_open order.id (s.orders ++ order ∷ []) ≡ true =
      any-append (λ (x : OrderRow). x.id == order.id && not (str_eq x.status "cancelled")) s.orders
        (order ∷ [])
      ∙ rw status (ground arith) in
    omega (
      arith,
      stock_of-drawn id rows s.products h.product_ids covered there,
      sum_by-append (sold_by id (s.orders ++ order ∷ [])) s.order_items (lines order.id rows),
      sold-snoc id order s.orders fresh s.order_items h.item_orders,
      sold-lines id order s.orders fresh rows opened,
    )

units-order_cancelled :
    (id : Uuid) (now : Time) (order : OrderRow) (s : Db)
    → IsConsistent s
    → is_open order.id s.orders ≡ true
    → is_product id s.products ≡ true
    → units id (order_cancelled now order (items_of order.id s.order_items) s) ≡ units id s
units-order_cancelled id now order s h opened there = omega (
  arith,
  stock_of-restocked id (items_of order.id s.order_items) s.products h.product_ids there,
  sold-cancelled now id order.id s.orders s.order_items opened,
)

-- On a consistent database a checkout, whether it succeeds or fails and however old its view of the
-- cart is, conserves the units of every product that exists: what leaves the stock is in the items
-- of an order that is not cancelled.
pub units-resume :
    (id order_id : Uuid) (now : Time) (user_id : Uuid) (lines : List CartItemRow) (s : Db)
    → IsConsistent s
    → IsSnapshot lines
    → is_product id s.products ≡ true
    → units id (resume order_id now user_id lines s).1 ≡ units id s
units-resume id order_id now user_id lines s h snapshot there =
    resume_rule order_id now user_id lines s h snapshot (λ t. units id t ≡ units id s) refl
      λ order status covered fresh. units-checked_out id order _ s h covered fresh status there

-- On a consistent database a cancellation, whether it succeeds or fails, conserves the units of
-- every product that exists: what leaves the open orders is back in stock.
pub units-cancel :
    (id : Uuid) (now : Time) (user_id order_id : Uuid) (s : Db)
    → IsConsistent s
    → is_product id s.products ≡ true
    → units id (cancel now user_id order_id s).1 ≡ units id s
unfolding get_order
units-cancel id now user_id order_id s h there =
    cancel_rule now user_id order_id s h (λ t. units id t ≡ units id s) refl
      λ order found still_open fits.
        let opened = is_open_of_found user_id order_id s.orders found still_open in
        subst (λ k. units id (order_cancelled now order (items_of k s.order_items) s) ≡ units id s)
          opened.1 (units-order_cancelled id now order s h (rw opened.1 opened.0) there)

-- No checkout takes a product off the table.
pub is_product-resume :
    (id order_id : Uuid) (now : Time) (user_id : Uuid) (lines : List CartItemRow) (s : Db)
    → IsConsistent s
    → IsSnapshot lines
    → is_product id (resume order_id now user_id lines s).1.products ≡ is_product id s.products
is_product-resume id order_id now user_id lines s h snapshot =
    resume_rule order_id now user_id lines s h snapshot
      (λ t. is_product id t.products ≡ is_product id s.products) refl
      λ order status covered fresh. is_product-drawn id _ s.products

-- No cancellation takes a product off the table.
pub is_product-cancel :
    (id : Uuid) (now : Time) (user_id order_id : Uuid) (s : Db)
    → IsConsistent s
    → is_product id (cancel now user_id order_id s).1.products ≡ is_product id s.products
is_product-cancel id now user_id order_id s h =
    cancel_rule now user_id order_id s h (λ t. is_product id t.products ≡ is_product id s.products)
      refl λ order found still_open fits. is_product-restocked id _ s.products
