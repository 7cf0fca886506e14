-- ===== src/Orders/Checkout.antt =====
-- `checkout` against an abstract description of it, with no loops: the cart is tested as a whole,
-- and every table changes at once.
use polyglot_commerce.Prelude.{
  ℕ, ◌%◌, ◌^◌, ◌<◌, ◌≡◌, refl, String, Bool, not, none, some, Option, List, [], ◌∷◌, ◌++◌, arith,
  ◌==◌, leb, if◌then◌else◌, select, any, All, UniqueBy, inl, inr, Option-cases, ◌∙◌, All-select,
  any-append, find,
}
use polyglot_commerce.Errors.{bad_request, conflict}
use polyglot_commerce.Store.{
  Uuid, Time, Product, CartItemRow, OrderRow, UserRow, Db, Result, ok, err, unique_violation,
  foreign_key_violation, check_violation, transaction,
}
use polyglot_commerce.Store.Consistent.{
  same_id, same_product, IsConsistent, is_order, cart_of_unique,
}
use polyglot_commerce.Orders.{
  CheckoutRow, join_products, cart_of, checkout_rows, insufficient_stock, insert_order, place_order,
  checkout,
}
use polyglot_commerce.Orders.Totals.{first_short, exact_total, cart_total_lem, first_short-eq-none}
use polyglot_commerce.Orders.Stock.{drawn, lines, place_lines_lem, IsCovered, IsCovered-of_rows}

abbrev pub is_user : Uuid → Db → Bool
is_user user_id s = any (λ (u : UserRow). u.id == user_id) s.users

-- The order that a checkout makes.
abbrev pub confirmed : Uuid → Time → Uuid → ℕ → String → OrderRow
confirmed id now user_id total currency = record {
  id = id;
  user_id = user_id;
  status = "confirmed";
  total_cents = total;
  currency = currency;
  created_at = now;
  updated_at = now;
}

-- The database after a checkout of these rows.
abbrev pub checked_out : OrderRow → List CheckoutRow → Db → Db
checked_out order rows s = record s {
  products = drawn rows s.products;
  cart_items = select (λ c. not (c.user_id == order.user_id)) s.cart_items;
  orders = s.orders ++ order ∷ [];
  order_items = s.order_items ++ lines order.id rows;
}

-- With enough stock: the order is written, unless a constraint on it fails.
abbrev pub order_written : OrderRow → List CheckoutRow → Db → Result OrderRow × Db
order_written order rows s =
    if leb (2 ^ 63) order.total_cents
    then (err check_violation, s)
    else if is_order order.id s.orders
    then (err unique_violation, s)
    else if not (is_user order.user_id s)
    then (err foreign_key_violation, s)
    else (ok order, checked_out order rows s)

abbrev or_short : Option CheckoutRow → Result OrderRow × Db → Db → Result OrderRow × Db
or_short none done s = done
or_short (some r) done s = (err (conflict (insufficient_stock r)), s)

abbrev pub checkout_result : Uuid → Time → Uuid → List CheckoutRow → Db → Result OrderRow × Db
checkout_result id now user_id [] s = (err (bad_request "cart is empty"), s)
checkout_result id now user_id (r ∷ rows) s =
    or_short (first_short (r ∷ rows))
      (order_written (confirmed id now user_id (exact_total (r ∷ rows) % 2 ^ 64) r.currency)
        (r ∷ rows) s)
      s

pub rows_positive :
    (cs : List CartItemRow) (ps : List Product)
    → All (λ c. 0 < c.quantity) cs
    → All (λ r. 0 < r.quantity) (join_products cs ps)
unfolding join_products
rows_positive [] ps h = tt
rows_positive (c ∷ cs) ps h = elim (Option-cases (find (λ p. p.id == c.product_id) ps)) [
  | inl missing ↦ rw missing (rows_positive cs ps h.1)
  | inr (p, found) ↦ rw found (h.0, rows_positive cs ps h.1)
]

module _ (id : Uuid) (now : Time) (user_id : Uuid) (r : CheckoutRow) (rows : List CheckoutRow)
    (s : Db) where
  abbrev total : ℕ
  total = exact_total (r ∷ rows) % 2 ^ 64

  abbrev order : OrderRow
  order = confirmed id now user_id total r.currency

  abbrev with_order : Db
  with_order = record s { orders = s.orders ++ order ∷ [] }

  -- Where the stock covers the rows, the writes all go through or none is kept.
  place_order_lem :
      first_short (r ∷ rows) ≡ none
      → All (λ (x : CheckoutRow). 0 < x.quantity) (r ∷ rows)
      → IsCovered (r ∷ rows) s.products
      → transaction (place_order id now user_id (r ∷ rows)) s ≡ order_written order (r ∷ rows) s
  unfolding place_order insert_order
  place_order_lem e pos covered = ground (
    arith,
    cart_total_lem 0 (r ∷ rows),
    any-append (λ (o : OrderRow). o.id == id) s.orders (order ∷ []),
    place_lines_lem id (r ∷ rows) with_order,
  )

-- A short row ends the checkout before it writes anything.
place_order_short :
    (id : Uuid) (now : Time) (user_id : Uuid) (rows : List CheckoutRow) (s : Db) {x : CheckoutRow}
    → first_short rows ≡ some x
    → transaction (place_order id now user_id rows) s ≡ (err (conflict (insufficient_stock x)), s)
unfolding place_order
place_order_short id now user_id [] s e = cc
place_order_short id now user_id (r ∷ rows) s e = ground (arith, cart_total_lem 0 (r ∷ rows))

pub place_rows :
    (id : Uuid) (now : Time) (user_id : Uuid) (rows : List CheckoutRow) (s : Db)
    → All (λ x. 0 < x.quantity) rows
    → (first_short rows ≡ none → IsCovered rows s.products)
    → transaction (place_order id now user_id rows) s ≡ checkout_result id now user_id rows s
place_rows id now user_id [] s pos covered = unfold place_order in refl
place_rows id now user_id (r ∷ rows) s pos covered = elim (Option-cases (first_short (r ∷ rows))) [
  | inl none_short ↦
      place_order_lem id now user_id r rows s none_short pos (covered none_short) ∙ rw none_short
  | inr (x, short) ↦ place_order_short id now user_id (r ∷ rows) s short ∙ rw short
]

-- What is written for any cart lines that were read, on the products of the present.
pub place_snapshot :
    (id : Uuid) (now : Time) (user_id : Uuid) (cs : List CartItemRow) (s : Db)
    → UniqueBy same_id s.products
    → UniqueBy same_product cs
    → All (λ c. 0 < c.quantity) cs
    → transaction (place_order id now user_id (join_products cs s.products)) s
      ≡ checkout_result id now user_id (join_products cs s.products) s
place_snapshot id now user_id cs s ids unique pos =
    place_rows id now user_id (join_products cs s.products) s (rows_positive cs s.products pos)
      (λ e. IsCovered-of_rows cs s.products ids unique (first_short-eq-none _ e))

-- On a consistent database `checkout` is its abstract description: an empty cart is a bad request,
-- the first row that asks for more than the stock is a conflict, and a total past 2^63 - 1 (after
-- wrapping at 2^64), a taken id or an unknown user is the database's error, all with nothing
-- changed; else the order is confirmed, every product loses what the cart asks of it, the rows are
-- the items of the order, and the cart is empty.
pub checkout_refines :
    (id : Uuid) (now : Time) (user_id : Uuid) (s : Db)
    → IsConsistent s
    → checkout id now user_id s ≡ checkout_result id now user_id (checkout_rows user_id s) s
unfolding checkout
checkout_refines id now user_id s h =
    place_snapshot id now user_id (cart_of user_id s) s h.product_ids
      (cart_of_unique user_id s.cart_items h.cart_keys)
      (All-select _ (λ c. c.user_id == user_id) s.cart_items h.quantities)
