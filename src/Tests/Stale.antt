-- ===== src/Tests/Stale.antt =====
-- A checkout beside the catalog: a product that was cached, and one that was archived in the cart.
use polyglot_commerce.Prelude.{◌+◌, ◌≡◌, refl, true, some}
use polyglot_commerce.Store.{Product, ok}
use polyglot_commerce.Orders.{checkout, checkout_rows}
use polyglot_commerce.Orders.Totals.{demand}
use polyglot_commerce.Orders.Archived.{checkout-archive}
use polyglot_commerce.Orders.Stale.{get_product-checkout}
use polyglot_commerce.Catalog as Catalog
use polyglot_commerce.Catalog.{archive_product}
use polyglot_commerce.CatalogApi as CatalogApi
use polyglot_commerce.CatalogApi.{get}
use polyglot_commerce.Tests.{shop_db, keyboard}
use polyglot_commerce.Tests.Orders.{shop_db-IsConsistent, order, after_checkout, sample_checkout}
use polyglot_commerce.Tests.Catalog.{json, cached}
use polyglot_commerce.Tests.Crates.{unary_ids, unary}

checkout-archive_example :
    (checkout 91 100 7 (archive_product 99 1 shop_db).1).0 ≡ (checkout 91 100 7 shop_db).0
checkout-archive_example = checkout-archive 91 100 99 7 1 shop_db shop_db-IsConsistent

is_cached : get unary_ids json true 1 cached.cache ≡ some keyboard
unfolding get unary
is_cached = refl

is_stored : Catalog.get_product 1 shop_db ≡ some keyboard
unfolding Catalog.get_product
is_stored = refl

get_product-checkout_example :
    ((CatalogApi.get_product unary_ids json true true 1 (record cached { db = after_checkout })).0
      ≡ ok keyboard)
    × (left : Product) × (Catalog.get_product 1 after_checkout ≡ some left)
    × (left.stock_quantity + demand 1 (checkout_rows 7 shop_db) ≡ 5)
get_product-checkout_example =
    get_product-checkout unary_ids json 91 100 7 1 true cached {p = keyboard} {order = order}
      {s' = after_checkout} shop_db-IsConsistent is_cached is_stored sample_checkout
