-- ===== src/Tests/CartApi.antt =====
-- A request to put a keyboard into the cart.
use polyglot_commerce.Prelude.{ℕ, ◌+◌, ◌≤◌, ◌≡◌, refl, pos, true, if◌then◌else◌}
use polyglot_commerce.Store.{Uuid, Db, ok}
use polyglot_commerce.Access.{user_id}
use polyglot_commerce.Cart as Cart
use polyglot_commerce.Cart.{
  CartResponse, AddItemRequest, validate_quantity, from_rows, is_active, insert_line, upsert,
}
use polyglot_commerce.Cart.Lines.{quantity_in}
use polyglot_commerce.Cart.Operations.{at_line}
use polyglot_commerce.CartApi.{add_item}
use polyglot_commerce.CartApi.Requests.{quantity_in-add_item_request}
use polyglot_commerce.Tests.{shop_db}
use polyglot_commerce.Tests.Access.{access}
use polyglot_commerce.Tests.Crates.{unary_ids, counted}

abbrev three_keyboards : AddItemRequest
three_keyboards = record { product_id = 1; quantity = pos 3 }

abbrev filled : Db
filled = (Cart.add_item 50 7 1 (pos 3) shop_db).1

sample_request :
    add_item unary_ids 50 access three_keyboards shop_db
    ≡ (ok (from_rows (Cart.get_cart 7 filled)), filled)
unfolding add_item validate_quantity user_id counted Cart.add_item insert_line upsert
sample_request = refl

quantity_in-add_item_request_example :
    (user : Uuid) × (n : ℕ) × (user_id unary_ids access ≡ ok user)
    × (pos 3 ≡ pos n)
    × (1 ≤ n)
    × (n ≤ 1000)
    × (is_active 1 shop_db ≡ true)
    × (quantity_in 7 1 filled.cart_items
        ≡ quantity_in 7 1 shop_db.cart_items + (if at_line user 1 7 1 then n else 0))
    × (from_rows (Cart.get_cart 7 filled) ≡ from_rows (Cart.get_cart user filled))
quantity_in-add_item_request_example =
    quantity_in-add_item_request unary_ids 50 access three_keyboards shop_db
      {answer = from_rows (Cart.get_cart 7 filled)} {s' = filled} 7 1 sample_request
