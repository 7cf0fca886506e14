-- ===== src/Cart.antt =====
-- server/src/cart: repo.rs and models.rs. The time of `now()` is an argument.
pub mod Lines
pub mod Operations
pub mod Keeps
pub mod Totals
use polyglot_commerce.Prelude.{
  ℕ, ◌+◌, ◌*◌, ◌^◌, wrap_i64, ◌||◌, ℤ, pos, negsuc, leb_ℤ, String, str_eq, Bool, true, false, ◌&&◌,
  not, Option, none, some, List, [], ◌∷◌, ltb, leb, ◌==◌, if◌then◌else◌, select, find, any,
  update_where, sort_by,
}
use polyglot_commerce.Errors.{not_found, validation}
use polyglot_commerce.Store.{
  Uuid, Time, UserRow, Product, CartItemRow, Db, Result, ok, err, Exec, pure, gets, lift, fail_if,
  modify, and_then, ◌>>=◌, ◌>>◌, foreign_key_violation, check_violation, numeric_out_of_range,
}

-- `CartItemJoin`, with the column that orders the rows
pub record CartItemJoin : Type 0 where
  pub product_id : Uuid
  pub name : String
  pub price_cents : ℕ
  pub currency : String
  pub quantity : ℕ
  pub added_at : Time

-- `CartItem`
pub record CartItem : Type 0 where
  pub product_id : Uuid
  pub name : String
  pub unit_price_cents : ℕ
  pub quantity : ℕ
  pub line_total_cents : ℕ

-- `CartResponse`
pub record CartResponse : Type 0 where
  pub items : List CartItem
  pub total_cents : ℕ
  pub currency : String

abbrev pub line_of : CartItemJoin → ℕ
line_of r = wrap_i64 (r.price_cents * r.quantity)

abbrev pub cart_item : CartItemJoin → CartItem
cart_item r = record {
  product_id = r.product_id;
  name = r.name;
  unit_price_cents = r.price_cents;
  quantity = r.quantity;
  line_total_cents = line_of r;
}

-- the closure of `from_rows` over the rows: the items, and the total that it adds up
collect : ℕ → List CartItemJoin → List CartItem × ℕ
collect total [] = ([], total)
collect total (r ∷ rows) =
    let (items, sum) = collect (wrap_i64 (total + line_of r)) rows in (cart_item r ∷ items, sum)

abbrev first_currency : List CartItemJoin → String
first_currency [] = "USD"
first_currency (r ∷ rows) = r.currency

-- `CartResponse::from_rows`
unfoldable pub from_rows : List CartItemJoin → CartResponse
unfolding collect
from_rows rows =
    let (items, total) = collect 0 rows in
    record { items = items; total_cents = total; currency = first_currency rows }

abbrev join_row : CartItemRow → Product → CartItemJoin
join_row c p = record {
  product_id = c.product_id;
  name = p.name;
  price_cents = p.price_cents;
  currency = p.currency;
  quantity = c.quantity;
  added_at = c.added_at;
}

abbrev join_found : CartItemRow → Option Product → List CartItemJoin → List CartItemJoin
join_found c none rows = rows
join_found c (some p) rows = join_row c p ∷ rows

unfoldable pub join_cart : List CartItemRow → List Product → List CartItemJoin
join_cart [] products = []
join_cart (c ∷ cs) products =
    join_found c (find (λ p. p.id == c.product_id) products) (join_cart cs products)

-- `get_cart` of repo.rs
unfoldable pub get_cart : Uuid → Db → List CartItemJoin
unfolding join_cart
get_cart user_id s =
    sort_by (λ a b. ltb a.added_at b.added_at)
      (join_cart (select (λ c. c.user_id == user_id) s.cart_items) s.products)

abbrev pub is_active : Uuid → Db → Bool
is_active product_id s = any (λ p. p.id == product_id && str_eq p.status "active") s.products

abbrev pub is_line : Uuid → Uuid → CartItemRow → Bool
is_line user_id product_id c = c.user_id == user_id && c.product_id == product_id

-- `ON CONFLICT (user_id, product_id) DO UPDATE SET quantity = cart_items.quantity + EXCLUDED.quantity`,
-- where an INTEGER past 2^31 - 1 is an error
unfoldable pub upsert : CartItemRow → List CartItemRow → Result (List CartItemRow)
upsert row [] = ok (row ∷ [])
upsert row (c ∷ cs) =
    let rest = upsert row cs in
    if is_line row.user_id row.product_id c
    then (if leb (2 ^ 31) (c.quantity + row.quantity)
        then err numeric_out_of_range
        else ok (record c { quantity = c.quantity + row.quantity } ∷ cs))
    else and_then rest (λ more. ok (c ∷ more))

abbrev pub set_cart : Result (List CartItemRow) → Exec Unit
set_cart (ok cs) s = (ok tt, record s { cart_items = cs })
set_cart (err e) s = (err e, s)

-- `CHECK (quantity > 0)` on a bound `i32`
abbrev pub positive : ℤ → Result ℕ
positive (pos n) = if n == 0 then err check_violation else ok n
positive (negsuc _) = err check_violation

-- the INSERT of `add_item`: the CHECK, the conflict with a line that is there, or a new line and
-- its references
unfoldable pub insert_line : Time → Uuid → Uuid → ℕ → Exec Unit
insert_line now user_id product_id n s =
    let row : CartItemRow = record {
      user_id = user_id;
      product_id = product_id;
      quantity = n;
      added_at = now;
    } in
    if any (is_line user_id product_id) s.cart_items
    then set_cart (upsert row s.cart_items) s
    else if not (any (λ (u : UserRow). u.id == user_id) s.users)
        || not (any (λ (p : Product). p.id == product_id) s.products)
    then (err foreign_key_violation, s)
    else set_cart (upsert row s.cart_items) s

-- `add_item`
unfoldable pub add_item : Time → Uuid → Uuid → ℤ → Exec Unit
unfolding insert_line
add_item now user_id product_id qty = do
  exists ← gets (is_active product_id)
  fail_if (not exists) (not_found "product")
  n ← lift (positive qty)
  insert_line now user_id product_id n

abbrev set_quantity : ℕ → CartItemRow → CartItemRow
set_quantity n c = record c { quantity = n }

-- the UPDATE of `set_item`, which returns whether a row was affected: the CHECK is made on the
-- rows that it changes
unfoldable pub update_line : Uuid → Uuid → ℤ → Exec Bool
update_line user_id product_id qty s =
    if any (is_line user_id product_id) s.cart_items
    then (do
      n ← lift (positive qty)
      modify λ t. record t {
        cart_items = update_where (is_line user_id product_id) (set_quantity n) t.cart_items;
      }
      pure true)
        s
    else (ok false, s)

-- `set_item`
unfoldable pub set_item : Uuid → Uuid → ℤ → Exec Unit
unfolding update_line
set_item user_id product_id qty = do
  affected ← update_line user_id product_id qty
  fail_if (not affected) (not_found "cart item")

-- `remove_item`
unfoldable pub remove_item : Uuid → Uuid → Exec Unit
remove_item user_id product_id =
    modify
      λ s. record s { cart_items = select (λ c. not (is_line user_id product_id c)) s.cart_items }

-- `clear`
unfoldable pub clear : Uuid → Exec Unit
clear user_id =
    modify λ s. record s { cart_items = select (λ c. not (c.user_id == user_id)) s.cart_items }

-- `AddItemRequest`
pub record AddItemRequest : Type 0 where
  pub product_id : Uuid
  pub quantity : ℤ

-- `UpdateItemRequest`
pub record UpdateItemRequest : Type 0 where
  pub quantity : ℤ

-- `#[validate(range(min = 1, max = 1000))]` on `quantity`
unfoldable pub validate_quantity : ℤ → Result (Unit {0})
validate_quantity q =
    if leb_ℤ (pos 1) q && leb_ℤ q (pos 1000) then ok tt else err (validation ("quantity" ∷ []))
