-- ===== src/Tests/Cached.antt =====
-- The server at work on its cache: a product is read, sold and read again, and then repriced.
use polyglot_commerce.Prelude.{refl, true, [], ◌∷◌}
use polyglot_commerce.Orders.{cart_of, resume}
use polyglot_commerce.Shop.{read_cart, finish}
use polyglot_commerce.Catalog as Catalog
use polyglot_commerce.CatalogApi as CatalogApi
use polyglot_commerce.Platform.{
  Platform, Reach, shop_of, catalog_of, with_catalog, of_shop, get_product, update_product, here,
  next,
}
use polyglot_commerce.Platform.Cached.{Matches, get_product-Reach}
use polyglot_commerce.Tests.Sessions.{server}
use polyglot_commerce.Tests.Catalog.{json, admin, cheaper}
use polyglot_commerce.Tests.Platform.{start, start-IsIntact}

abbrev looked_at : Platform
looked_at =
    with_catalog start (CatalogApi.get_product server.uuids json true true 1 (catalog_of start)).1

abbrev reading : Platform
reading = record looked_at { waiting = (7, cart_of 7 looked_at.db) ∷ [] }

abbrev sold : Platform
sold = record looked_at {
  db = (resume 91 100 7 (cart_of 7 looked_at.db) looked_at.db).1;
  waiting = [];
}

abbrev repriced : Platform
repriced =
    with_catalog sold
      (CatalogApi.update_product server.uuids json true 150 admin 1 cheaper (catalog_of sold)).1

abbrev until_sold : Reach server json start sold
until_sold =
    next
      (next (next here (get_product start true true 1)) (
        of_shop looked_at (record { db = reading.db; waiting = reading.waiting })
          (read_cart (shop_of looked_at) 7)))
      (of_shop reading (record { db = sold.db; waiting = sold.waiting })
        (finish (shop_of reading) 91 100 7 (cart_of 7 looked_at.db) [] [] refl))

abbrev until_repriced : Reach server json start repriced
until_repriced = next until_sold (update_product sold true 150 admin 1 cheaper refl)

get_product-Reach_example :
    Matches server json
      (CatalogApi.get_product server.uuids json true true 1 (catalog_of repriced)).0
      (Catalog.get_product 1 repriced.db)
get_product-Reach_example =
    get_product-Reach server json until_repriced true true 1 start-IsIntact refl
      ((((tt, tt), tt), tt), refl)
