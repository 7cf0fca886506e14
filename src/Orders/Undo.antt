-- ===== src/Orders/Undo.antt =====
-- Cancelling an order that a checkout has just made undoes what it did to the stock.
use mathlib.Core.Path.{subst₂}
use polyglot_commerce.Prelude.{
  ◌≡◌, refl, ◌∙◌, true, false, some, List, [], ◌∷◌, ◌++◌, map, arith, ◌==◌, find, update_where, All,
}
use polyglot_commerce.Store.{Uuid, Time, Product, OrderRow, OrderItemRow, Db, Result, ok}
use polyglot_commerce.Store.Consistent.{IsConsistent, is_order, is_order-ne}
use polyglot_commerce.Orders.{
  CheckoutRow, checkout_rows, order_item, items_of, is_order_of, get_order, cancelled_at, checkout,
  cancel,
}
use polyglot_commerce.Orders.Totals.{demand}
use polyglot_commerce.Orders.Stock.{drawn, lines, IsCovered}
use polyglot_commerce.Orders.Checkout.{checked_out}
use polyglot_commerce.Orders.Success.{checkout-Success, checkout-IsCovered}
use polyglot_commerce.Orders.Keeps.{checked_out-IsConsistent}
use polyglot_commerce.Orders.Cancel.{cancel_refines, returned, restocked, overflows, InRange}

returned-order_item :
    (id : Uuid) (rows : List CheckoutRow) → returned id (map order_item rows) ≡ demand id rows
returned-order_item id [] = refl
returned-order_item id (r ∷ rows) = ground (arith, returned-order_item id rows)

items_of-lines :
    (id : Uuid) (rows : List CheckoutRow) → items_of id (lines id rows) ≡ map order_item rows
items_of-lines id [] = refl
items_of-lines id (r ∷ rows) = ground (arith, items_of-lines id rows)

-- The items of an order that was not there before are those that its checkout wrote.
pub items_of-new :
    (id : Uuid) (rows : List CheckoutRow) (items : List (Uuid × OrderItemRow))
    (orders : List OrderRow)
    → is_order id orders ≡ false
    → All (λ e. is_order e.0 orders ≡ true) items
    → items_of id (items ++ lines id rows) ≡ map order_item rows
items_of-new id rows [] orders fresh h = items_of-lines id rows
items_of-new id rows ((o, i) ∷ items) orders fresh h =
    ground (arith, items_of-new id rows items orders fresh h.1, is_order-ne o id orders h.0 fresh)

restocked-drawn :
    (rows : List CheckoutRow) (ps : List Product)
    → IsCovered rows ps
    → restocked (map order_item rows) (drawn rows ps) ≡ ps
restocked-drawn rows [] h = refl
restocked-drawn rows (p ∷ ps) h =
    ground (arith, returned-order_item p.id rows, restocked-drawn rows ps h.1)

not_overflows-drawn :
    (rows : List CheckoutRow) (ps : List Product)
    → IsCovered rows ps
    → InRange ps
    → overflows (map order_item rows) (drawn rows ps) ≡ false
not_overflows-drawn rows [] h k = refl
not_overflows-drawn rows (p ∷ ps) h k =
    ground (arith, returned-order_item p.id rows, not_overflows-drawn rows ps h.1 k.1)

find-new :
    (user_id : Uuid) (order : OrderRow) (orders : List OrderRow)
    → is_order order.id orders ≡ false
    → order.user_id ≡ user_id
    → find (is_order_of user_id order.id) (orders ++ order ∷ []) ≡ some order
find-new user_id order [] fresh own = ground arith
find-new user_id order (o ∷ orders) fresh own = ground (arith, find-new user_id order orders)

update-new :
    (now : Time) (order : OrderRow) (orders : List OrderRow)
    → is_order order.id orders ≡ false
    → update_where (λ o. o.id == order.id) (cancelled_at now) (orders ++ order ∷ [])
      ≡ orders ++ cancelled_at now order ∷ []
update-new now order [] fresh = ground arith
update-new now order (o ∷ orders) fresh = ground (arith, update-new now order orders)

abbrev undone : Time → OrderRow → Db → Db → Result OrderRow × Db
undone later order s s' = (
  ok (cancelled_at later order),
  record s' { products = s.products; orders = s.orders ++ cancelled_at later order ∷ [] },
)

undo :
    (later : Time) (order : OrderRow) (rows : List CheckoutRow) (s : Db)
    → IsConsistent s
    → IsCovered rows s.products
    → is_order order.id s.orders ≡ false
    → order.status ≡ "confirmed"
    → cancel later order.user_id order.id (checked_out order rows s)
      ≡ undone later order s (checked_out order rows s)
undo later order rows s h covered fresh status =
    cancel_refines later order.user_id order.id (checked_out order rows s)
      (checked_out-IsConsistent order rows s fresh h)
    ∙ (unfold get_order in
        rw (find-new order.user_id order s.orders fresh refl, status)
          (ground (
            arith,
            items_of-new order.id rows s.order_items s.orders fresh h.item_orders,
            restocked-drawn rows s.products covered,
            not_overflows-drawn rows s.products covered h.stocks,
            update-new later order s.orders fresh,
          )))

-- On a consistent database, cancelling the order of a checkout puts every product back as it was, marks the order and leaves
-- its items.
pub cancel-checkout :
    (id : Uuid) (now later : Time) (user_id : Uuid) (s : Db) {order : OrderRow} {s' : Db}
    → IsConsistent s
    → checkout id now user_id s ≡ (ok order, s')
    → cancel later user_id id s' ≡ (
      ok (cancelled_at later order),
      record s' { products = s.products; orders = s.orders ++ cancelled_at later order ∷ [] },
    )
cancel-checkout id now later user_id s {order} {s'} h e =
    let done = checkout-Success id now user_id s h e in
    let back =
      undo later order (checkout_rows user_id s) s h (checkout-IsCovered user_id s h done.in_stock)
        (rw done.id_eq done.fresh) done.status_eq in
    rw done.after (
      subst₂
        (λ u i.
          cancel later u i (checked_out order (checkout_rows user_id s) s)
          ≡ undone later order s (checked_out order (checkout_rows user_id s) s))
        done.user_eq done.id_eq back)
