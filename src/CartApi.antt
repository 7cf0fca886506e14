-- ===== src/CartApi.antt =====
-- server/src/cart/handlers.rs: the cart of the caller, whom the access token names.
pub mod Requests
use polyglot_commerce.Prelude.{ℕ}
use polyglot_commerce.Store.{Uuid, Time, Db, Exec, pure, gets, lift, ◌>>=◌, ◌>>◌}
use polyglot_commerce.Crates.{UuidText}
use polyglot_commerce.Access.{AccessClaims, user_id}
use polyglot_commerce.Cart as Cart
use polyglot_commerce.Cart.{
  CartResponse, AddItemRequest, UpdateItemRequest, validate_quantity, from_rows,
}

module _ (uuids : UuidText) where
  -- `get_cart`
  unfoldable pub get_cart : AccessClaims → Exec CartResponse
  get_cart claims = do
    user ← lift (user_id uuids claims)
    rows ← gets (Cart.get_cart user)
    pure (from_rows rows)

  -- `add_item`
  unfoldable pub add_item : Time → AccessClaims → AddItemRequest → Exec CartResponse
  add_item now claims body = do
    lift (validate_quantity body.quantity)
    user ← lift (user_id uuids claims)
    Cart.add_item now user body.product_id body.quantity
    rows ← gets (Cart.get_cart user)
    pure (from_rows rows)

  -- `update_item`
  unfoldable pub update_item : AccessClaims → Uuid → UpdateItemRequest → Exec CartResponse
  update_item claims product_id body = do
    lift (validate_quantity body.quantity)
    user ← lift (user_id uuids claims)
    Cart.set_item user product_id body.quantity
    rows ← gets (Cart.get_cart user)
    pure (from_rows rows)

  -- `remove_item`, which answers 204
  unfoldable pub remove_item : AccessClaims → Uuid → Exec ℕ
  remove_item claims product_id = do
    user ← lift (user_id uuids claims)
    Cart.remove_item user product_id
    pure 204

  -- `clear_cart`, which answers 204
  unfoldable pub clear_cart : AccessClaims → Exec ℕ
  clear_cart claims = do user ← lift (user_id uuids claims); Cart.clear user; pure 204
