-- ===== src/Store/Consistent.antt =====
-- What the constraints of server/migrations keep true of the tables: primary keys, the range of an
-- INTEGER, the CHECK on the quantity of a cart line, and the reference from an order item to its order.
use polyglot_commerce.Prelude.{
  ◌^◌, ◌<◌, ◌≡◌, Bool, true, false, ◌&&◌, List, [], ◌∷◌, arith, ◌==◌, select, any, All, UniqueBy,
}
use polyglot_commerce.Store.Rows.{Uuid, Product, CartItemRow, OrderRow}
use polyglot_commerce.Store.Action.{Db}

abbrev pub same_id : Product → Product → Bool
same_id p q = q.id == p.id

-- Two lines with the same user and product.
abbrev pub same_line : CartItemRow → CartItemRow → Bool
same_line c d = d.user_id == c.user_id && d.product_id == c.product_id

-- Two lines for the same product, of whatever users.
abbrev pub same_product : CartItemRow → CartItemRow → Bool
same_product c d = d.product_id == c.product_id

abbrev pub same_order : OrderRow → OrderRow → Bool
same_order o p = p.id == o.id

abbrev pub is_order : Uuid → List OrderRow → Bool
is_order id = any (λ (o : OrderRow). o.id == id)

pub record IsConsistent (s : Db) : Type 0 where
  pub product_ids : UniqueBy same_id s.products
  pub stocks : All (λ p. p.stock_quantity < 2 ^ 31) s.products
  pub cart_keys : UniqueBy same_line s.cart_items
  pub quantities : All (λ c. 0 < c.quantity) s.cart_items
  pub order_ids : UniqueBy same_order s.orders
  pub item_orders : All (λ e. is_order e.0 s.orders ≡ true) s.order_items

-- The lines of one user are for different products.
same_product-absent :
    (c : CartItemRow) (user_id : Uuid) (cs : List CartItemRow)
    → (c.user_id == user_id) ≡ true
    → any (same_line c) cs ≡ false
    → any (same_product c) (select (λ d. d.user_id == user_id) cs) ≡ false
same_product-absent c user_id [] e h = h
same_product-absent c user_id (d ∷ cs) e h = ground (arith, same_product-absent c user_id cs e)

pub cart_of_unique :
    (user_id : Uuid) (cs : List CartItemRow)
    → UniqueBy same_line cs
    → UniqueBy same_product (select (λ d. d.user_id == user_id) cs)
cart_of_unique user_id [] u = tt
cart_of_unique user_id (c ∷ cs) u =
    ground (arith, same_product-absent c user_id cs, cart_of_unique user_id cs u.1)

-- An id that names an order is not one that names none.
pub is_order-ne :
    (a b : Uuid) (orders : List OrderRow)
    → is_order a orders ≡ true
    → is_order b orders ≡ false
    → (a == b) ≡ false
is_order-ne a b [] known fresh = cc
is_order-ne a b (o ∷ orders) known fresh = ground (arith, is_order-ne a b orders)
