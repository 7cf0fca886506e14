-- ===== src/Tests/OrderApi.antt =====
-- The order handlers on the small shop: two orders, one row a page.
use polyglot_commerce.Prelude.{
  ℕ, suc, ◌%◌, ◌^◌, ◌<◌, ◌≡◌, refl, pos, true, none, some, [], ◌∷◌, arith,
}
use polyglot_commerce.Store.{Uuid, OrderRow, Db, ok}
use polyglot_commerce.Store.Consistent.{IsConsistent}
use polyglot_commerce.Access.{AccessClaims, has_permission, require, user_id}
use polyglot_commerce.Orders as Orders
use polyglot_commerce.Orders.{
  order_items, place_order, cart_total, insert_order, place_lines, insert_order_item, take_stock,
  join_products,
}
use polyglot_commerce.Orders.Checkout.{confirmed}
use polyglot_commerce.OrderApi.{OrderResponse, build, summary, admitted, checkout, list_orders}
use polyglot_commerce.OrderApi.Listing.{follow-list_orders}
use polyglot_commerce.Pagination.Follow.{follow, limit_of_lem}
use polyglot_commerce.OrderApi.Answers.{shown_sum, checkout-answer}
use polyglot_commerce.Pagination.{limit_of}
use polyglot_commerce.Tests.{shop_db, old_order, old_item}
use polyglot_commerce.Tests.Orders.{shop_db-IsConsistent}
use polyglot_commerce.Tests.Crates.{unary_ids, counted, unary_times}
use polyglot_commerce.Tests.Crates.Cursors.{packed_cursors}

abbrev buyer : AccessClaims
buyer = record {
  sub = "uuuuuuu";
  roles = "customer" ∷ [];
  permissions = "order:read" ∷ "order:write" ∷ [];
  iss = "shop";
  aud = "shop";
  iat = pos 12;
  exp = pos 22;
  jti = "uuu";
  typ = "access";
}

abbrev two_orders : Db
two_orders = record shop_db {
  orders = old_order ∷ record old_order { id = 91; created_at = 36 } ∷ [];
}

two_orders-IsConsistent : IsConsistent two_orders
two_orders-IsConsistent = record {
  product_ids = (refl, (refl, tt));
  stocks = omega arith;
  cart_keys = (refl, (refl, tt));
  quantities = omega arith;
  order_ids = (refl, (refl, tt));
  item_orders = (refl, tt);
}

reads : admitted unary_ids unary_times packed_cursors "order:read" buyer ≡ ok 7
unfolding require has_permission user_id counted
reads = refl

follow-list_orders_example :
    follow 3
      (λ c.
        list_orders unary_ids unary_times packed_cursors buyer
          (record { limit = some (pos 1); cursor = c })
          two_orders)
      none
    ≡ ok (summary (record old_order { id = 91; created_at = 36 }) ∷ summary old_order ∷ [])
follow-list_orders_example =
    follow-list_orders unary_ids unary_times packed_cursors buyer (some (pos 1)) two_orders
      {buyer = 7} 3 two_orders-IsConsistent reads (omega arith)

limit_of_lem_test : (m : ℕ) × (limit_of (some (pos 9999)) ≡ pos (suc m)) × (m < 100)
limit_of_lem_test = limit_of_lem (some (pos 9999))

abbrev placed : OrderResponse
placed = build (confirmed 91 100 7 30300 "USD") (
    record {
      product_id = 1;
      product_name = "Mechanical Keyboard";
      unit_price_cents = 12900;
      quantity = 2;
    }
    ∷ record old_item { quantity = 1 }
    ∷ [])

abbrev after_placing : Db
after_placing = (checkout unary_ids unary_times packed_cursors 91 100 buyer shop_db).1

answered :
    checkout unary_ids unary_times packed_cursors 91 100 buyer shop_db
    ≡ (ok (201, placed), after_placing)
unfolding checkout require has_permission user_id counted Orders.checkout place_order cart_total
    insert_order place_lines insert_order_item take_stock join_products order_items
answered = refl

checkout-answer_example :
    (has_permission buyer "order:write" ≡ true)
    × (id : Uuid) × (user_id unary_ids buyer ≡ ok id)
    × (order : OrderRow) × (Orders.checkout 91 100 id shop_db ≡ (ok order, after_placing))
    × (placed.id ≡ 91)
    × (shown_sum placed.items % 2 ^ 64 ≡ placed.total_cents)
checkout-answer_example =
    checkout-answer unary_ids unary_times packed_cursors 91 100 buyer shop_db
      {answer = (201, placed)} {s' = after_placing} shop_db-IsConsistent answered
