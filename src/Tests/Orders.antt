-- ===== src/Tests/Orders.antt =====
-- Checkout, cancellation and the steps of the shop on the small shop.
use polyglot_commerce.Prelude.{pos, ◌+◌, ◌≡◌, refl, none, List, [], ◌∷◌, ◌++◌, arith}
use polyglot_commerce.Errors.{bad_request, not_found}
use polyglot_commerce.Store.{OrderRow, Db, ok, err, transaction}
use polyglot_commerce.Store.Consistent.{IsConsistent}
use polyglot_commerce.Cart.{from_rows, get_cart, add_item, set_item}
use polyglot_commerce.Orders.{
  CheckoutRow, checkout_rows, cart_of, get_order, cancelled_at, cart_total, insert_order,
  insert_order_item, take_stock, place_lines, place_order, join_products, resume, checkout, cancel,
}
use polyglot_commerce.Orders.Totals.{first_short}
use polyglot_commerce.Orders.Unordered.{Alike, checkout-perm}
use mathlib.Core.List.{Perm, reverse, reverse_perm}
use mathlib.Core.List.Perm
use polyglot_commerce.Orders.Checkout.{confirmed, checked_out, checkout_result, checkout_refines}
use polyglot_commerce.Orders.Cancel.{cancel_result, cancel_refines}
use polyglot_commerce.Orders.Undo.{cancel-checkout}
use polyglot_commerce.Orders.Twice.{reread, second_checkout, checkout-checkout}
use polyglot_commerce.Orders.Charge.{total-checkout}
use polyglot_commerce.Orders.Units.{stock_of, sold, units}
use polyglot_commerce.Shop.{Shop, Reach, here, next, read_cart, finish, cancel_order, set}
use polyglot_commerce.Shop.Inactive.{add_item-archived}
use polyglot_commerce.Catalog.{archive_product}
use polyglot_commerce.Shop.Stock.{IsSound, Reach-IsSound, units-Reach}
use polyglot_commerce.Tests.{shop_db}

pub shop_db-IsConsistent : IsConsistent shop_db
shop_db-IsConsistent = record {
  product_ids = (refl, (refl, tt));
  stocks = omega arith;
  cart_keys = (refl, (refl, tt));
  quantities = omega arith;
  order_ids = (refl, tt);
  item_orders = (refl, tt);
}

abbrev pub order : OrderRow
order = confirmed 91 100 7 30300 "USD"

abbrev pub after_checkout : Db
after_checkout = checked_out order (checkout_rows 7 shop_db) shop_db

pub sample_checkout : checkout 91 100 7 shop_db ≡ (ok order, after_checkout)
unfolding checkout place_order cart_total insert_order place_lines insert_order_item take_stock
    join_products
sample_checkout = refl

checkout_refines_example :
    checkout 91 100 7 shop_db ≡ checkout_result 91 100 7 (checkout_rows 7 shop_db) shop_db
checkout_refines_example = checkout_refines 91 100 7 shop_db shop_db-IsConsistent

cancel-checkout_example : cancel 110 7 91 after_checkout ≡ (
  ok (cancelled_at 110 order),
  record after_checkout {
    products = shop_db.products;
    orders = shop_db.orders ++ cancelled_at 110 order ∷ [];
  },
)
cancel-checkout_example =
    cancel-checkout 91 100 110 7 shop_db {order = order} {s' = after_checkout} shop_db-IsConsistent
      sample_checkout

cancel_refines_example :
    cancel 110 7 90 shop_db ≡ cancel_result 110 90 (get_order 7 90 shop_db) shop_db
cancel_refines_example = cancel_refines 110 7 90 shop_db shop_db-IsConsistent

-- The stock is 5 keyboards and 2 books: the cart fits twice.
fits_again : first_short (reread (checkout_rows 7 shop_db) (checkout_rows 7 shop_db)) ≡ none
unfolding join_products
fits_again = refl

second_checkout_example :
    (second : OrderRow) × (resume 92 101 7 (cart_of 7 shop_db) after_checkout ≡ (
      ok second,
      checked_out second
          (reread (checkout_rows 7 shop_db) (checkout_rows 7 shop_db))
          after_checkout,
    ))
    × (second.total_cents ≡ 30300)
second_checkout_example =
    second_checkout 91 92 100 101 7 shop_db {order = order} {s' = after_checkout}
      shop_db-IsConsistent sample_checkout refl fits_again

checkout-checkout_example :
    checkout 92 101 7 after_checkout ≡ (err (bad_request "cart is empty"), after_checkout)
checkout-checkout_example =
    checkout-checkout 91 92 100 101 7 shop_db {order = order} {s' = after_checkout}
      shop_db-IsConsistent sample_checkout

total-checkout_example : 30300 ≡ (from_rows (get_cart 7 shop_db)).total_cents
total-checkout_example =
    total-checkout 91 100 7 shop_db {order = order} {s' = after_checkout} shop_db-IsConsistent
      sample_checkout

abbrev open_shop : Shop
open_shop = record { db = shop_db; waiting = [] }

open_shop-IsSound : IsSound open_shop
open_shop-IsSound = record { consistent = shop_db-IsConsistent; snapshots = tt }

-- Two checkouts read one cart, and one order is cancelled between their ends.
abbrev both_read : Shop
both_read = record { db = shop_db; waiting = (7, cart_of 7 shop_db) ∷ (7, cart_of 7 shop_db) ∷ [] }

abbrev one_done : Shop
one_done = record {
  db = (resume 91 100 7 (cart_of 7 shop_db) shop_db).1;
  waiting = (7, cart_of 7 shop_db) ∷ [];
}

abbrev old_cancelled : Shop
old_cancelled = record one_done { db = (cancel 105 7 90 one_done.db).1 }

abbrev both_done : Shop
both_done = record { db = (resume 92 110 7 (cart_of 7 shop_db) old_cancelled.db).1; waiting = [] }

sample_run : Reach open_shop both_done
sample_run =
    next
      (next
        (next
          (next (next here (read_cart open_shop 7))
            (read_cart (record { db = shop_db; waiting = (7, cart_of 7 shop_db) ∷ [] }) 7))
          (finish both_read 91 100 7 (cart_of 7 shop_db) [] ((7, cart_of 7 shop_db) ∷ []) refl))
        (cancel_order one_done 105 7 90))
      (finish old_cancelled 92 110 7 (cart_of 7 shop_db) [] [] refl)

units-Reach_example :
    stock_of 2 both_done.db.products + sold 2 both_done.db.orders both_done.db.order_items
    ≡ units 2 shop_db
units-Reach_example =
    units-Reach {s = open_shop} {t = both_done} 2 open_shop-IsSound refl sample_run

Reach-IsSound_test : IsSound both_done
Reach-IsSound_test = Reach-IsSound {s = open_shop} {t = both_done} open_shop-IsSound sample_run

-- The rows of the cart, a keyboard line before a book line, and the other way round.
abbrev turned : List CheckoutRow
turned = reverse (checkout_rows 7 shop_db)

turned-perm : Perm (checkout_rows 7 shop_db) turned
turned-perm = Perm.symm (reverse_perm (checkout_rows 7 shop_db))

checkout-perm_example :
    Alike shop_db (checkout 91 100 7 shop_db) (transaction (place_order 91 100 7 turned) shop_db)
checkout-perm_example = checkout-perm 91 100 7 turned shop_db shop_db-IsConsistent turned-perm

turned_lines : (checkout_rows 7 shop_db ≡ turned) → ⊥
unfolding join_products
turned_lines e = cc

-- The keyboard is archived, and a line of the cart is changed.
abbrev archived_shop : Shop
archived_shop = record open_shop { db = (archive_product 50 1 shop_db).1 }

abbrev line_set : Shop
line_set = record archived_shop { db = (set_item 7 2 (pos 1) archived_shop.db).1 }

add_item-archived_example :
    add_item 60 7 1 (pos 1) line_set.db ≡ (err (not_found "product"), line_set.db)
add_item-archived_example =
    add_item-archived 50 60 1 7 (pos 1) open_shop {t = line_set} open_shop-IsSound
      (next here (set archived_shop 7 2 (pos 1)))
