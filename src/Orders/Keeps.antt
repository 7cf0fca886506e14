-- ===== src/Orders/Keeps.antt =====
-- Checkout and cancellation keep the database consistent.
use polyglot_commerce.Prelude.{
  ◌+◌, ◌-◌, ◌≡◌, refl, ◌∙◌, true, false, not, List, [], ◌∷◌, ◌++◌, arith, ◌==◌, any, All,
  All-select, All-append, All-map, UniqueBy-select, UniqueBy-map, UniqueBy-snoc,
  UniqueBy-update_where, any-append, any-update_where,
}
use polyglot_commerce.Store.{Uuid, Time, Product, CartItemRow, OrderRow, OrderItemRow, Db}
use polyglot_commerce.Store.Consistent.{IsConsistent, same_id, same_order, is_order}
use polyglot_commerce.Orders.{
  CheckoutRow, cart_of, with_stock, cancelled_at, resume, checkout, cancel,
}
use polyglot_commerce.Orders.Stock.{drawn, lines}
use polyglot_commerce.Orders.Totals.{demand}
use polyglot_commerce.Orders.Checkout.{checked_out}
use polyglot_commerce.Orders.Outcomes.{
  IsSnapshot, cart_of-IsSnapshot, checkout-eq-resume, resume_rule, cancel_rule,
}
use polyglot_commerce.Orders.Cancel.{InRange, restocked, returned, overflows, order_cancelled}

InRange-drawn : (rows : List CheckoutRow) (ps : List Product) → InRange ps → InRange (drawn rows ps)
InRange-drawn rows [] h = tt
InRange-drawn rows (p ∷ ps) h = (omega arith, InRange-drawn rows ps h.1)

InRange-restocked :
    (items : List OrderItemRow) (ps : List Product)
    → overflows items ps ≡ false
    → InRange (restocked items ps)
InRange-restocked items [] h = tt
InRange-restocked items (p ∷ ps) h = (ground arith, InRange-restocked items ps (ground arith))

-- No order has the id of a fresh one.
same_order-fresh :
    (order : OrderRow) (orders : List OrderRow)
    → is_order order.id orders ≡ false
    → any (λ o. same_order o order) orders ≡ false
same_order-fresh order [] h = refl
same_order-fresh order (o ∷ orders) h = ground (arith, same_order-fresh order orders)

is_order-snoc :
    (order : OrderRow) (orders : List OrderRow) (e : Uuid × OrderItemRow)
    → is_order e.0 orders ≡ true
    → is_order e.0 (orders ++ order ∷ []) ≡ true
is_order-snoc order orders e h = rw any-append (ground arith)

lines-known :
    (order : OrderRow) (orders : List OrderRow) (rows : List CheckoutRow)
    → All (λ e. is_order e.0 (orders ++ order ∷ []) ≡ true) (lines order.id rows)
lines-known order orders [] = tt
lines-known order orders (r ∷ rows) = (
  ground (arith, any-append (λ (o : OrderRow). o.id == order.id) orders (order ∷ [])),
  lines-known order orders rows,
)

pub checked_out-IsConsistent :
    (order : OrderRow) (rows : List CheckoutRow) (s : Db)
    → is_order order.id s.orders ≡ false
    → IsConsistent s
    → IsConsistent (checked_out order rows s)
checked_out-IsConsistent order rows s fresh h = record {
  product_ids =
      UniqueBy-map same_id (λ p. with_stock p (p.stock_quantity - demand p.id rows)) s.products
        (λ x y. refl) h.product_ids;
  stocks = InRange-drawn rows s.products h.stocks;
  cart_keys = UniqueBy-select _ (λ c. not (c.user_id == order.user_id)) s.cart_items h.cart_keys;
  quantities = All-select _ (λ c. not (c.user_id == order.user_id)) s.cart_items h.quantities;
  order_ids =
      UniqueBy-snoc same_order s.orders order (same_order-fresh order s.orders fresh) h.order_ids;
  item_orders =
      All-append _ s.order_items (lines order.id rows)
        (All-map s.order_items (is_order-snoc order s.orders) h.item_orders)
        (lines-known order s.orders rows);
}

pub order_cancelled-IsConsistent :
    (now : Time) (order : OrderRow) (items : List OrderItemRow) (s : Db)
    → overflows items s.products ≡ false
    → IsConsistent s
    → IsConsistent (order_cancelled now order items s)
order_cancelled-IsConsistent now order items s fits h = record {
  product_ids =
      UniqueBy-map same_id (λ p. with_stock p (p.stock_quantity + returned p.id items)) s.products
        (λ x y. refl) h.product_ids;
  stocks = InRange-restocked items s.products fits;
  cart_keys = h.cart_keys;
  quantities = h.quantities;
  order_ids =
      UniqueBy-update_where same_order (λ o. o.id == order.id) (cancelled_at now) s.orders
        (λ x y. refl) (λ x y. refl) h.order_ids;
  item_orders =
      All-map s.order_items
        (λ e known.
          any-update_where (λ o. o.id == e.0) (λ o. o.id == order.id) (cancelled_at now) s.orders
            (λ x. refl)
          ∙ known)
        h.item_orders;
}

-- A checkout keeps the database consistent, whether it succeeds or fails, and however old its view
-- of the cart is.
pub resume-IsConsistent :
    (id : Uuid) (now : Time) (user_id : Uuid) (lines : List CartItemRow) (s : Db)
    → IsConsistent s
    → IsSnapshot lines
    → IsConsistent (resume id now user_id lines s).1
resume-IsConsistent id now user_id lines s h snapshot =
    resume_rule id now user_id lines s h snapshot IsConsistent h
      λ order status covered fresh. checked_out-IsConsistent order _ s fresh h

pub checkout-IsConsistent :
    (id : Uuid) (now : Time) (user_id : Uuid) (s : Db)
    → IsConsistent s
    → IsConsistent (checkout id now user_id s).1
checkout-IsConsistent id now user_id s h =
    rw checkout-eq-resume
      (resume-IsConsistent id now user_id (cart_of user_id s) s h (cart_of-IsSnapshot user_id s h))

-- `cancel` keeps the database consistent, whether it succeeds or fails.
pub cancel-IsConsistent :
    (now : Time) (user_id order_id : Uuid) (s : Db)
    → IsConsistent s
    → IsConsistent (cancel now user_id order_id s).1
cancel-IsConsistent now user_id order_id s h =
    cancel_rule now user_id order_id s h IsConsistent h
      λ order found still_open fits. order_cancelled-IsConsistent now order _ s fits h
