-- ===== src/OrderApi.antt =====
-- server/src/orders: handlers.rs, the responses of models.rs, and `list_orders` of repo.rs.
pub mod Listing
pub mod Answers
use polyglot_commerce.Prelude.{
  ℕ, ◌+◌, ◌*◌, ℤ, pos, ◌+ℤ◌, String, Bool, Option, List, map, ◌==◌, wrap_i64,
}
use polyglot_commerce.Errors.{AppError, not_found}
use polyglot_commerce.Store.{
  Uuid, Time, OrderRow, OrderItemRow, Db, Result, ok, err, Exec, pure, gets, lift, ok_or, and_then,
  ◌>>=◌, ◌>>◌,
}
use polyglot_commerce.Crates.{UuidText, TimeText, CursorText}
use polyglot_commerce.Access.{AccessClaims, require, user_id}
use polyglot_commerce.Orders.{cart_of}
use polyglot_commerce.Orders as Orders
use polyglot_commerce.Pagination.{
  PageQuery, Cursor, Page, Key, limit_of, encode, decode, new_page, parse_key, rows_of, cursor_key,
  decoded, encoded, keyset, cut, next_key,
}

-- `OrderItemResponse`
pub record OrderItemResponse : Type 0 where
  pub product_id : Uuid
  pub product_name : String
  pub unit_price_cents : ℕ
  pub quantity : ℕ
  pub line_total_cents : ℕ

-- `OrderResponse`
pub record OrderResponse : Type 0 where
  pub id : Uuid
  pub status : String
  pub total_cents : ℕ
  pub currency : String
  pub created_at : Time
  pub items : List OrderItemResponse

-- the closure of `build`
abbrev pub item_response : OrderItemRow → OrderItemResponse
item_response i = record {
  product_id = i.product_id;
  product_name = i.product_name;
  unit_price_cents = i.unit_price_cents;
  quantity = i.quantity;
  line_total_cents = wrap_i64 (i.unit_price_cents * i.quantity);
}

-- `OrderResponse::build`
abbrev pub build : OrderRow → List OrderItemRow → OrderResponse
build order items = record {
  id = order.id;
  status = order.status;
  total_cents = order.total_cents;
  currency = order.currency;
  created_at = order.created_at;
  items = map item_response items;
}

-- `OrderSummary`
pub record OrderSummary : Type 0 where
  pub id : Uuid
  pub status : String
  pub total_cents : ℕ
  pub currency : String
  pub created_at : Time

-- `From<OrderRow> for OrderSummary`
abbrev pub summary : OrderRow → OrderSummary
summary o = record {
  id = o.id;
  status = o.status;
  total_cents = o.total_cents;
  currency = o.currency;
  created_at = o.created_at;
}

abbrev pub order_key : OrderRow → Key
order_key o = (o.created_at, o.id)

abbrev pub is_mine : Uuid → OrderRow → Bool
is_mine user o = o.user_id == user

module _ {Bytes : Type 0} (uuids : UuidText) (times : TimeText)
    (text : CursorText Bytes Cursor) where
  -- the first lines of every handler
  abbrev pub admitted : String → AccessClaims → Result Uuid
  admitted permission user = and_then (require user permission) λ done. user_id uuids user

  -- `checkout`, which answers 201
  unfoldable pub checkout : Uuid → Time → AccessClaims → Exec (ℕ × OrderResponse)
  checkout id now user = do
    buyer ← lift (admitted "order:write" user)
    order ← Orders.checkout id now buyer
    items ← gets (Orders.order_items order.id)
    pure (201, build order items)

  -- `list_orders` of repo.rs
  unfoldable pub find_orders : Uuid → ℤ → Option Cursor → Db → Result (List OrderRow)
  find_orders user limit cursor s =
      and_then (cursor_key uuids times cursor)
        λ k. ok (keyset order_key (is_mine user) k (rows_of (limit +ℤ pos 1)) s.orders)

  -- `list_orders`
  unfoldable pub list_orders : AccessClaims → PageQuery → Db → Result (Page OrderSummary)
  list_orders user page s = and_then (admitted "order:read" user) λ buyer.
      and_then (decoded text page.cursor) λ cursor.
        and_then (find_orders buyer (limit_of page.limit) cursor s) λ rows. ok (
          new_page (map summary (cut order_key (rows_of (limit_of page.limit)) rows))
            (encoded uuids times text (next_key order_key (rows_of (limit_of page.limit)) rows)))

  -- `get_order`
  unfoldable pub get_order : AccessClaims → Uuid → Exec OrderResponse
  get_order user id = do
    buyer ← lift (admitted "order:read" user)
    found ← gets (Orders.get_order buyer id)
    order ← lift (ok_or found (not_found "order"))
    items ← gets (Orders.order_items order.id)
    pure (build order items)

  -- `cancel_order`
  unfoldable pub cancel_order : Time → AccessClaims → Uuid → Exec OrderResponse
  cancel_order now user id = do
    buyer ← lift (admitted "order:write" user)
    order ← Orders.cancel now buyer id
    items ← gets (Orders.order_items order.id)
    pure (build order items)
