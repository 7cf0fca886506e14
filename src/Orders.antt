-- ===== src/Orders.antt =====
-- server/src/orders/repo.rs: checkout and cancellation, each one transaction. The id that a new
-- order gets from `uuid_generate_v4()` and the time of `now()` are arguments.
pub mod Totals
mod Stock
pub mod Checkout
pub mod Success
pub mod Cancel
pub mod Outcomes
pub mod Keeps
pub mod Undo
pub mod Units
pub mod Trade
pub mod Archived
pub mod Stale
pub mod Twice
pub mod Charge
pub mod Unordered
use polyglot_commerce.Prelude.{
  wrap_i64, ℕ, ◌+◌, ◌-◌, ◌*◌, ◌%◌, ◌^◌, String, str_eq, ◌⧺◌, decimal, Bool, ◌&&◌, not, Option, none,
  some, List, [], ◌∷◌, ◌++◌, ltb, leb, ◌==◌, if◌then◌else◌, select, find, any, update_where,
}
use polyglot_commerce.Errors.{bad_request, not_found, conflict}
use polyglot_commerce.Store.{
  Uuid, Time, Product, CartItemRow, OrderRow, OrderItemRow, UserRow, Db, Result, ok, err, Exec,
  pure, fail, gets, lift, ok_or, transaction, fail_if, modify, and_then, ◌>>=◌, ◌>>◌,
  unique_violation, foreign_key_violation, check_violation, numeric_out_of_range,
}

-- `CheckoutRow`
pub record CheckoutRow : Type 0 where
  pub product_id : Uuid
  pub name : String
  pub price_cents : ℕ
  pub currency : String
  pub stock_quantity : ℕ
  pub quantity : ℕ

abbrev pub checkout_row : CartItemRow → Product → CheckoutRow
checkout_row c p = record {
  product_id = c.product_id;
  name = p.name;
  price_cents = p.price_cents;
  currency = p.currency;
  stock_quantity = p.stock_quantity;
  quantity = c.quantity;
}

-- `JOIN products p ON p.id = ci.product_id`: an id names at most one product, and a line whose
-- product is missing drops out.
abbrev joined : Option CheckoutRow → List CheckoutRow → List CheckoutRow
joined none rows = rows
joined (some row) rows = row ∷ rows

abbrev row_of : CartItemRow → Option Product → Option CheckoutRow
row_of c none = none
row_of c (some p) = some (checkout_row c p)

unfoldable pub join_products : List CartItemRow → List Product → List CheckoutRow
join_products [] products = []
join_products (c ∷ cs) products =
    joined (row_of c (find (λ p. p.id == c.product_id) products)) (join_products cs products)

abbrev pub cart_of : Uuid → Db → List CartItemRow
cart_of user_id s = select (λ c. c.user_id == user_id) s.cart_items

-- the SELECT of `checkout`, in the order in which the table gives the rows
abbrev pub checkout_rows : Uuid → Db → List CheckoutRow
checkout_rows user_id s = join_products (cart_of user_id s) s.products

abbrev pub insufficient_stock : CheckoutRow → String
insufficient_stock item =
    "insufficient stock for '"
    ⧺ item.name
    ⧺ "' (requested "
    ⧺ decimal item.quantity
    ⧺ ", available "
    ⧺ decimal item.stock_quantity
    ⧺ ")"

-- the first loop of `checkout`: the stock test of each row, and `total += ...`
unfoldable pub cart_total : ℕ → List CheckoutRow → Result ℕ
cart_total total [] = ok total
cart_total total (item ∷ rest) =
    let more = cart_total (wrap_i64 (total + wrap_i64 (item.price_cents * item.quantity))) rest in
    if ltb item.stock_quantity item.quantity then err (conflict (insufficient_stock item)) else more

-- `INSERT INTO orders ... RETURNING`: the CHECK on the total (the sign bit of the pattern), the
-- primary key, then the reference to the user.
unfoldable pub insert_order : Uuid → Time → Uuid → ℕ → String → Exec OrderRow
insert_order id now user_id total currency s =
    let order : OrderRow = record {
      id = id;
      user_id = user_id;
      status = "confirmed";
      total_cents = total;
      currency = currency;
      created_at = now;
      updated_at = now;
    } in
    if leb (2 ^ 63) total
    then (err check_violation, s)
    else if any (λ (o : OrderRow). o.id == id) s.orders
    then (err unique_violation, s)
    else if not (any (λ (u : UserRow). u.id == user_id) s.users)
    then (err foreign_key_violation, s)
    else (ok order, record s { orders = s.orders ++ order ∷ [] })

abbrev pub order_item : CheckoutRow → OrderItemRow
order_item item = record {
  product_id = item.product_id;
  product_name = item.name;
  unit_price_cents = item.price_cents;
  quantity = item.quantity;
}

-- `INSERT INTO order_items`: the CHECK on the quantity, and the reference to the order.
unfoldable pub insert_order_item : Uuid → CheckoutRow → Exec Unit
insert_order_item order_id item s =
    if item.quantity == 0
    then (err check_violation, s)
    else if not (any (λ (o : OrderRow). o.id == order_id) s.orders)
    then (err foreign_key_violation, s)
    else (ok tt, record s { order_items = s.order_items ++ (order_id, order_item item) ∷ [] })

abbrev pub with_stock : Product → ℕ → Product
with_stock p n = record p { stock_quantity = n }

abbrev cons_ok : Product → Result (List Product) → Result (List Product)
cons_ok p r = and_then r (λ ps. ok (p ∷ ps))

-- `UPDATE products SET stock_quantity = stock_quantity - $2 WHERE id = $1`, with the CHECK that it
-- does not fall below 0.
unfoldable pub take_stock : Uuid → ℕ → List Product → Result (List Product)
take_stock id n [] = ok []
take_stock id n (p ∷ ps) =
    let rest = take_stock id n ps in
    if p.id == id
    then (if ltb p.stock_quantity n
        then err check_violation
        else cons_ok (with_stock p (p.stock_quantity - n)) rest)
    else cons_ok p rest

-- `UPDATE products SET stock_quantity = stock_quantity + $2 WHERE id = $1`: an INTEGER that would
-- pass 2^31 - 1 is an error.
unfoldable pub return_stock : Uuid → ℕ → List Product → Result (List Product)
return_stock id n [] = ok []
return_stock id n (p ∷ ps) =
    let rest = return_stock id n ps in
    if p.id == id
    then (if leb (2 ^ 31) (p.stock_quantity + n)
        then err numeric_out_of_range
        else cons_ok (with_stock p (p.stock_quantity + n)) rest)
    else cons_ok p rest

abbrev pub set_products : Result (List Product) → Exec Unit
set_products (ok ps) s = (ok tt, record s { products = ps })
set_products (err e) s = (err e, s)

abbrev pub decrement_stock : Uuid → ℕ → Exec Unit
decrement_stock id n s = set_products (take_stock id n s.products) s

abbrev pub restock : Uuid → ℕ → Exec Unit
restock id n s = set_products (return_stock id n s.products) s

-- the second loop of `checkout`
unfoldable pub place_lines : Uuid → List CheckoutRow → Exec Unit
place_lines order_id [] = pure tt
place_lines order_id (item ∷ rest) = do
  insert_order_item order_id item
  decrement_stock item.product_id item.quantity
  place_lines order_id rest

-- `DELETE FROM cart_items WHERE user_id = $1`
abbrev pub clear_cart : Uuid → Exec Unit
clear_cart user_id =
    modify λ s. record s { cart_items = select (λ c. not (c.user_id == user_id)) s.cart_items }

-- `checkout` after its SELECT
unfoldable pub place_order : Uuid → Time → Uuid → List CheckoutRow → Exec OrderRow
place_order id now user_id [] = fail (bad_request "cart is empty")
place_order id now user_id (first ∷ rest) = do
  total ← lift (cart_total 0 (first ∷ rest))
  order ← insert_order id now user_id total first.currency
  place_lines order.id (first ∷ rest)
  clear_cart user_id
  pure order

-- `checkout` from the moment when it has its locks, with the cart lines that it has read: `FOR UPDATE
-- OF p` locks the products and not the cart lines. In READ COMMITTED, PostgreSQL's default, a SELECT
-- that has waited for a lock goes on with the locked rows as they are then, and with the other rows
-- as it read them before it waited.
unfoldable pub resume : Uuid → Time → Uuid → List CartItemRow → Exec OrderRow
resume id now user_id lines s =
    transaction (place_order id now user_id (join_products lines s.products)) s

-- `checkout`
unfoldable pub checkout : Uuid → Time → Uuid → Exec OrderRow
checkout id now user_id =
    transaction (do place_order id now user_id (← gets (checkout_rows user_id)))

abbrev pub is_order_of : Uuid → Uuid → OrderRow → Bool
is_order_of user_id order_id o = o.id == order_id && o.user_id == user_id

-- `get_order`
unfoldable pub get_order : Uuid → Uuid → Db → Option OrderRow
get_order user_id order_id s = find (is_order_of user_id order_id) s.orders

abbrev pub items_of : Uuid → List (Uuid × OrderItemRow) → List OrderItemRow
items_of order_id [] = []
items_of order_id ((o, item) ∷ rest) =
    let more = items_of order_id rest in if o == order_id then item ∷ more else more

-- `order_items`
unfoldable pub order_items : Uuid → Db → List OrderItemRow
order_items order_id s = items_of order_id s.order_items

-- the loop of `cancel`
unfoldable pub restock_all : List OrderItemRow → Exec Unit
restock_all [] = pure tt
restock_all (item ∷ rest) = do restock item.product_id item.quantity; restock_all rest

abbrev pub cancelled_at : Time → OrderRow → OrderRow
cancelled_at now o = record o { status = "cancelled"; updated_at = now }

-- `UPDATE orders SET status = 'cancelled', updated_at = now() WHERE id = $1 RETURNING`, where
-- `order` is the row that was read and locked before. The id is the primary key.
abbrev pub set_cancelled : Time → OrderRow → Exec OrderRow
set_cancelled now order s = (
  ok (cancelled_at now order),
  record s { orders = update_where (λ o. o.id == order.id) (cancelled_at now) s.orders },
)

-- `cancel`
unfoldable pub cancel : Time → Uuid → Uuid → Exec OrderRow
unfolding get_order order_items
cancel now user_id order_id = transaction do
  found ← gets (get_order user_id order_id)
  order ← lift (ok_or found (not_found "order"))
  fail_if (str_eq order.status "cancelled") (conflict "order is already cancelled")
  items ← gets (order_items order_id)
  restock_all items
  set_cancelled now order
