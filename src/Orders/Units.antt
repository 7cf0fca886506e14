-- ===== src/Orders/Units.antt =====
-- Units of a product are in stock or in an order that is not cancelled: checkout and cancellation
-- move them and lose none.
pub mod Sold
pub mod Conserved
use native.Mathlib.Decide.{ℕ_discrete}
use polyglot_commerce.Prelude.{
  ℕ, ap, ◌+◌, ◌-◌, ◌^◌, ◌≤◌, ◌<◌, ◌≡◌, refl, ◌∙◌, str_eq, Bool, true, false, not, ◌&&◌, ◌||◌, none,
  some, Option, List, [], ◌∷◌, ◌++◌, map, arith, ◌==◌, leb, if◌then◌else◌, any, find, sum_by,
  sum_by-append, update_where, All, UniqueBy, any-append, inl, inr, Bool-cases, Option-cases,
}
use polyglot_commerce.Store.{
  Uuid, Time, Product, CartItemRow, OrderRow, OrderItemRow, Db, Result, ok, err,
}
use polyglot_commerce.Store.Consistent.{IsConsistent, same_id, is_order, is_order-ne}
use polyglot_commerce.Orders.{
  CheckoutRow, join_products, checkout_rows, items_of, is_order_of, get_order, cancelled_at,
  checkout, cancel, cart_of,
}
use polyglot_commerce.Orders.Totals.{demand}
use polyglot_commerce.Orders.Stock.{drawn, lines, IsCovered}
use polyglot_commerce.Orders.Checkout.{checked_out}
use polyglot_commerce.Orders.Cancel.{
  returned, restocked, overflows, order_cancelled, cancel_result, cancel_refines,
}

abbrev pub is_product : Uuid → List Product → Bool
is_product id = any (λ p. p.id == id)

abbrev pub stock_of : Uuid → List Product → ℕ
stock_of id = sum_by (λ p. if p.id == id then p.stock_quantity else 0)

-- An order with this id that is not cancelled.
abbrev pub is_open : Uuid → List OrderRow → Bool
is_open id = any (λ (o : OrderRow). o.id == id && not (str_eq o.status "cancelled"))

abbrev pub sold_by : Uuid → List OrderRow → Uuid × OrderItemRow → ℕ
sold_by id orders (o, i) = if is_open o orders && i.product_id == id then i.quantity else 0

abbrev pub sold : Uuid → List OrderRow → List (Uuid × OrderItemRow) → ℕ
sold id orders = sum_by (sold_by id orders)

-- In stock, and in open orders.
abbrev pub units : Uuid → Db → ℕ
units id s = stock_of id s.products + sold id s.orders s.order_items

stock_of-absent : (id : Uuid) (ps : List Product) → is_product id ps ≡ false → stock_of id ps ≡ 0
stock_of-absent id [] h = refl
stock_of-absent id (p ∷ ps) h = ground (arith, stock_of-absent id ps)

pub is_product-drawn :
    (id : Uuid) (rows : List CheckoutRow) (ps : List Product)
    → is_product id (drawn rows ps) ≡ is_product id ps
is_product-drawn id rows [] = refl
is_product-drawn id rows (p ∷ ps) = ground (arith, is_product-drawn id rows ps)

pub is_product-restocked :
    (id : Uuid) (items : List OrderItemRow) (ps : List Product)
    → is_product id (restocked items ps) ≡ is_product id ps
is_product-restocked id items [] = refl
is_product-restocked id items (p ∷ ps) = ground (arith, is_product-restocked id items ps)

-- The first product with an id is the only one.
alone :
    (p : Product) (id : Uuid) (ps : List Product)
    → p.id ≡ id
    → any (same_id p) ps ≡ false
    → is_product id ps ≡ false
alone p id [] e h = refl
alone p id (q ∷ ps) e h = ground (arith, alone p id ps e)

pub stock_of-drawn :
    (id : Uuid) (rows : List CheckoutRow) (ps : List Product)
    → UniqueBy same_id ps
    → IsCovered rows ps
    → is_product id ps ≡ true
    → stock_of id (drawn rows ps) + demand id rows ≡ stock_of id ps
stock_of-drawn id rows [] u c h = cc
stock_of-drawn id rows (p ∷ ps) u c h = elim (ℕ_discrete p.id id) [
  | yes e ↦
      let same : demand p.id rows ≡ demand id rows = ap (λ k. demand k rows) e in
      ground (
        arith,
        stock_of-absent id ps (alone p id ps e u.0),
        stock_of-absent id (drawn rows ps) (is_product-drawn id rows ps ∙ alone p id ps e u.0),
      )
  | no ne ↦ ground (arith, stock_of-drawn id rows ps u.1 c.1)
]

pub stock_of-restocked :
    (id : Uuid) (items : List OrderItemRow) (ps : List Product)
    → UniqueBy same_id ps
    → is_product id ps ≡ true
    → stock_of id (restocked items ps) ≡ stock_of id ps + returned id items
stock_of-restocked id items [] u h = cc
stock_of-restocked id items (p ∷ ps) u h = elim (ℕ_discrete p.id id) [
  | yes e ↦
      let same : returned p.id items ≡ returned id items = ap (λ k. returned k items) e in
      ground (
        arith,
        stock_of-absent id ps (alone p id ps e u.0),
        stock_of-absent id (restocked items ps)
            (is_product-restocked id items ps ∙ alone p id ps e u.0),
      )
  | no ne ↦ ground (arith, stock_of-restocked id items ps u.1)
]
