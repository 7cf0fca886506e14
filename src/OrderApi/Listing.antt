-- ===== src/OrderApi/Listing.antt =====
-- A client that follows the cursors of `GET /v1/orders`.
use polyglot_commerce.Prelude.{
  ℕ, suc, ◌<◌, ◌≡◌, refl, ℤ, pos, true, false, Option, none, List, map, arith, length, select,
}
use polyglot_commerce.Store.{Uuid, OrderRow, Db, ok}
use polyglot_commerce.Store.Consistent.{IsConsistent, same_order}
use polyglot_commerce.Crates.{UuidText, TimeText, CursorText}
use polyglot_commerce.Access.{AccessClaims}
use polyglot_commerce.Pagination.{Cursor, Key, newer, newest_first, limit_of, encoded}
use polyglot_commerce.Pagination.Keyset.{Falling-select}
use polyglot_commerce.Pagination.Sorted.{Falling-newest_first}
use polyglot_commerce.Pagination.Follow.{
  follow, follow_lem, page_at, decoded-encoded, limit_of_lem, rows_of_more,
}
use polyglot_commerce.OrderApi.{summary, order_key, is_mine, admitted, find_orders, list_orders}

-- The orders of a user, the newest first.
abbrev pub orders_of : Uuid → Db → List OrderRow
orders_of buyer s = select (is_mine buyer) (newest_first order_key s.orders)

order_apart :
    (x y : OrderRow)
    → same_order x y ≡ false
    → newer order_key y x ≡ false
    → newer order_key x y ≡ true
order_apart x y h e = ground (arith, h, e)

module _ {Bytes : Type 0} (uuids : UuidText) (times : TimeText)
    (text : CursorText Bytes Cursor) where
  list-encoded :
      (user : AccessClaims) (limit : Option ℤ) (s : Db) {buyer : Uuid} (m : ℕ) (c : Option Key)
      → admitted uuids times text "order:read" user ≡ ok buyer
      → limit_of limit ≡ pos (suc m)
      → list_orders uuids times text user
          (record { limit = limit; cursor = encoded uuids times text c })
          s
        ≡ ok (page_at uuids times text order_key summary m (orders_of buyer s) c)
  unfolding list_orders find_orders
  list-encoded user limit s m c let_in size =
      let (cursor, read, key) = decoded-encoded uuids times text c in
      rw (let_in, size, rows_of_more m, read, key) refl

  -- On a consistent database, the pages that a client with the permission gets by following the cursors, with whatever limit,
  -- are all orders of the user, each once, the newest first, where the orders do not change
  -- meanwhile; one request more than there are orders is always enough.
  pub follow-list_orders :
      (user : AccessClaims) (limit : Option ℤ) (s : Db) {buyer : Uuid} (fuel : ℕ)
      → IsConsistent s
      → admitted uuids times text "order:read" user ≡ ok buyer
      → length (orders_of buyer s) < fuel
      → follow fuel
          (λ c. list_orders uuids times text user (record { limit = limit; cursor = c }) s)
          none
        ≡ ok (map summary (orders_of buyer s))
  follow-list_orders user limit s {buyer} fuel h let_in enough =
      let (m, size, small) = limit_of_lem limit in
      follow_lem uuids times text order_key summary m (orders_of buyer s) _
        (λ c. list-encoded user limit s m c let_in size) fuel
        (Falling-select order_key (is_mine buyer) (newest_first order_key s.orders)
          (Falling-newest_first order_key same_order order_apart s.orders h.order_ids))
        enough
