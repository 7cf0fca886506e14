-- ===== src/Tests/Cart.antt =====
-- The operations of the cart on the small shop.
use polyglot_commerce.Prelude.{ℕ, ◌+◌, ◌%◌, ◌^◌, ◌<◌, ◌≡◌, refl, pos, true, map, if◌then◌else◌, any}
use polyglot_commerce.Store.{Db, ok}
use polyglot_commerce.Store.Consistent.{IsConsistent}
use polyglot_commerce.Cart.{
  from_rows, get_cart, is_active, is_line, add_item, insert_line, upsert, set_item, remove_item,
  clear, cart_item,
}
use polyglot_commerce.Cart.Lines.{quantity_in}
use polyglot_commerce.Cart.Operations.{
  at_line, quantity_in-add_item, quantity_in-set_item, quantity_in-remove_item, quantity_in-clear,
}
use polyglot_commerce.Cart.Keeps.{add_item-IsConsistent}
use polyglot_commerce.Cart.Totals.{from_rows_lem, shown_total}
use polyglot_commerce.Tests.{shop_db}
use polyglot_commerce.Tests.Orders.{shop_db-IsConsistent}

abbrev three_more : Db
three_more = (add_item 50 7 1 (pos 3) shop_db).1

sample_add_item : add_item 50 7 1 (pos 3) shop_db ≡ (ok tt, three_more)
unfolding add_item insert_line upsert
sample_add_item = refl

-- Three more keyboards come to the two of the cart.
quantity_in-add_item_test :
    (n : ℕ) × (pos 3 ≡ pos n)
    × (0 < n)
    × (is_active 1 shop_db ≡ true)
    × (quantity_in 7 1 three_more.cart_items ≡ 2 + (if at_line 7 1 7 1 then n else 0))
quantity_in-add_item_test =
    quantity_in-add_item 50 7 1 (pos 3) shop_db {s' = three_more} 7 1 sample_add_item

abbrev one_only : Db
one_only = (set_item 7 1 (pos 1) shop_db).1

sample_set_item : set_item 7 1 (pos 1) shop_db ≡ (ok tt, one_only)
unfolding set_item
sample_set_item = refl

quantity_in-set_item_example :
    (n : ℕ) × (pos 1 ≡ pos n)
    × (0 < n)
    × (any (is_line 7 1) shop_db.cart_items ≡ true)
    × (quantity_in 7 2 one_only.cart_items ≡ (if at_line 7 1 7 2 then n else 1))
quantity_in-set_item_example =
    quantity_in-set_item 7 1 (pos 1) shop_db {s' = one_only} 7 2 shop_db-IsConsistent
      sample_set_item

quantity_in-remove_item_test :
    ((remove_item 7 1 shop_db).0 ≡ ok tt)
    × (quantity_in 7 1 (remove_item 7 1 shop_db).1.cart_items ≡ 0)
quantity_in-remove_item_test = quantity_in-remove_item 7 1 shop_db 7 1

quantity_in-clear_test :
    ((clear 7 shop_db).0 ≡ ok tt) × (quantity_in 7 2 (clear 7 shop_db).1.cart_items ≡ 0)
quantity_in-clear_test = quantity_in-clear 7 shop_db 7 2

add_item-IsConsistent_test : IsConsistent three_more
add_item-IsConsistent_test = add_item-IsConsistent 50 7 1 (pos 3) shop_db shop_db-IsConsistent

from_rows_lem_test :
    ((from_rows (get_cart 7 shop_db)).items ≡ map cart_item (get_cart 7 shop_db))
    × ((from_rows (get_cart 7 shop_db)).total_cents ≡ shown_total (get_cart 7 shop_db) % 2 ^ 64)
from_rows_lem_test = from_rows_lem (get_cart 7 shop_db)
