-- ===== src/Cart/Keeps.antt =====
-- The operations of the cart keep the database consistent, whether they succeed or fail, and leave
-- every table but the cart alone.
use polyglot_commerce.Prelude.{
  ℕ, ◌<◌, ◌≡◌, refl, ℤ, pos, negsuc, Bool, List, [], ◌∷◌, arith, select, update_where, All,
  All-select, UniqueBy, UniqueBy-select, UniqueBy-update_where,
}
use polyglot_commerce.Store.{Uuid, Time, CartItemRow, Db, Result, ok, err}
use polyglot_commerce.Store.Consistent.{IsConsistent, same_line}
use polyglot_commerce.Cart.{
  is_line, insert_line, set_quantity, add_item, set_item, remove_item, clear,
}
use polyglot_commerce.Cart.Lines.{upsert-keys, upsert-positive}
use polyglot_commerce.Cart.Operations.{
  new_line, add_item-Added, add_item_negative, add_item-err, set_item-lines, set_item_negative,
  set_item-err,
}

abbrev IsCart : List CartItemRow → Type 0
IsCart cs = UniqueBy same_line cs × All (λ c. 0 < c.quantity) cs

with_cart :
    (s : Db) (cs : List CartItemRow)
    → IsConsistent s
    → IsCart cs
    → IsConsistent (record s { cart_items = cs })
with_cart s cs h k = record {
  product_ids = h.product_ids;
  stocks = h.stocks;
  cart_keys = k.0;
  quantities = k.1;
  order_ids = h.order_ids;
  item_orders = h.item_orders;
}

-- `add_item` keeps the constraints of the schema, whatever it answers.
pub add_item-IsConsistent :
    (now : Time) (user_id product_id : Uuid) (qty : ℤ) (s : Db)
    → IsConsistent s
    → IsConsistent (add_item now user_id product_id qty s).1
add_item-IsConsistent now user_id product_id qty s h =
    outcome qty (add_item now user_id product_id qty s) refl
  where
    outcome :
        (q : ℤ) (r : Result (Unit {0}) × Db)
        → add_item now user_id product_id q s ≡ r
        → IsConsistent r.1
    outcome q (err x, s') e = rw (add_item-err now user_id product_id q s e) h
    outcome (negsuc n) (ok tt, s') e = absurd (add_item_negative now user_id product_id n s e)
    outcome (pos n) (ok tt, s') e =
        let done = add_item-Added now user_id product_id n s e in
        let row = new_line now user_id product_id n in
        rw done.rest (
          with_cart s s'.cart_items h (
            rw done.lines at (upsert-keys row s.cart_items h.cart_keys),
            rw done.lines at (upsert-positive row s.cart_items done.positive_amount h.quantities),
          ))

All-set_quantity :
    (p : CartItemRow → Bool) (n : ℕ) (cs : List CartItemRow)
    → 0 < n
    → All (λ c. 0 < c.quantity) cs
    → All (λ c. 0 < c.quantity) (update_where p (set_quantity n) cs)
All-set_quantity p n [] more h = tt
All-set_quantity p n (c ∷ cs) more h = (ground arith, All-set_quantity p n cs more h.1)

-- `set_item` keeps the constraints of the schema, whatever it answers.
pub set_item-IsConsistent :
    (user_id product_id : Uuid) (qty : ℤ) (s : Db)
    → IsConsistent s
    → IsConsistent (set_item user_id product_id qty s).1
set_item-IsConsistent user_id product_id qty s h =
    outcome qty (set_item user_id product_id qty s) refl
  where
    outcome :
        (q : ℤ) (r : Result (Unit {0}) × Db)
        → set_item user_id product_id q s ≡ r
        → IsConsistent r.1
    outcome q (err x, s') e = rw (set_item-err user_id product_id q s e) h
    outcome (negsuc n) (ok tt, s') e = absurd (set_item_negative user_id product_id n s e)
    outcome (pos n) (ok tt, s') e =
        let (more, there, after) = set_item-lines user_id product_id n s e in
        rw after (
          with_cart s _ h (
            UniqueBy-update_where same_line (is_line user_id product_id) (set_quantity n)
                s.cart_items (λ x y. refl) (λ x y. refl) h.cart_keys,
            All-set_quantity (is_line user_id product_id) n s.cart_items more h.quantities,
          ))

IsCart-select : (p : CartItemRow → Bool) (cs : List CartItemRow) → IsCart cs → IsCart (select p cs)
IsCart-select p cs h = (UniqueBy-select same_line p cs h.0, All-select _ p cs h.1)

-- `remove_item` keeps the constraints of the schema.
pub remove_item-IsConsistent :
    (user_id product_id : Uuid) (s : Db)
    → IsConsistent s
    → IsConsistent (remove_item user_id product_id s).1
unfolding remove_item
remove_item-IsConsistent user_id product_id s h =
    with_cart s _ h (IsCart-select _ s.cart_items (h.cart_keys, h.quantities))

-- `clear` keeps the constraints of the schema.
pub clear-IsConsistent :
    (user_id : Uuid) (s : Db) → IsConsistent s → IsConsistent (clear user_id s).1
unfolding clear
clear-IsConsistent user_id s h =
    with_cart s _ h (IsCart-select _ s.cart_items (h.cart_keys, h.quantities))

-- `add_item` changes no table but the cart.
pub add_item_rest :
    (now : Time) (user_id product_id : Uuid) (qty : ℤ) (s : Db)
    → let s' = (add_item now user_id product_id qty s).1 in
      s' ≡ record s { cart_items = s'.cart_items }
unfolding add_item insert_line
add_item_rest now user_id product_id (pos n) s = ground arith
add_item_rest now user_id product_id (negsuc n) s = ground arith

-- `set_item` changes no table but the cart.
pub set_item_rest :
    (user_id product_id : Uuid) (qty : ℤ) (s : Db)
    → let s' = (set_item user_id product_id qty s).1 in s' ≡ record s { cart_items = s'.cart_items }
unfolding set_item
set_item_rest user_id product_id (pos n) s = ground arith
set_item_rest user_id product_id (negsuc n) s = ground arith
