-- ===== src/Tests/Platform.antt =====
-- The server at work: a logout, a checkout, and a new price.
use polyglot_commerce.Prelude.{◌≡◌, ◌↔◌, refl, pos, true, false, some, [], ◌∷◌, arith}
use polyglot_commerce.Store.Consistent.{IsConsistent}
use polyglot_commerce.Sessions.{logout}
use polyglot_commerce.Sessions.Service.{log_out}
use polyglot_commerce.Sessions.Registry.{IsRegistry}
use polyglot_commerce.Shop.{read_cart}
use polyglot_commerce.Orders.{cart_of}
use polyglot_commerce.Catalog.Schema.{IsCatalog}
use polyglot_commerce.CatalogApi as CatalogApi
use polyglot_commerce.Platform.{
  Platform, shop_of, service_of, catalog_of, with_catalog, of_shop, of_sessions, update_product,
  here, next,
}
use polyglot_commerce.Errors.{forbidden}
use polyglot_commerce.Access.{AccessClaims, has_permission}
use polyglot_commerce.Platform.Guards as Guards
use polyglot_commerce.Platform.Guards.{outcome, outcome_forbidden}
use polyglot_commerce.Tests.Crates.{unary_ids, unary_times}
use polyglot_commerce.Tests.Crates.Cursors.{packed_cursors}
use polyglot_commerce.Platform.Sound.{IsIntact, Reach-IsIntact}
use polyglot_commerce.Tests.Orders.{shop_db-IsConsistent}
use polyglot_commerce.Tests.Sessions.{server, session_db}
use polyglot_commerce.Tests.Catalog.{json, admin, cheaper, cached}

abbrev pub start : Platform
start = record { db = session_db; waiting = []; given = (1, 4) ∷ []; cache = [] }

start-IsConsistent : IsConsistent session_db
start-IsConsistent =
    let c = shop_db-IsConsistent in
    record {
      product_ids = c.product_ids;
      stocks = c.stocks;
      cart_keys = c.cart_keys;
      quantities = c.quantities;
      order_ids = c.order_ids;
      item_orders = c.item_orders;
    }

start-IsCatalog : IsCatalog session_db
start-IsCatalog = record {
  products = record {
    ids = shop_db-IsConsistent.product_ids;
    skus = ground arith;
    slugs = ground arith;
    rows = (
      record { stock = omega arith; status = refl; category = refl },
      (record { stock = omega arith; status = refl; category = refl }, tt),
    );
  };
  category_ids = tt;
  category_slugs = tt;
  parents = tt;
}

start-IsRegistry : IsRegistry server session_db
start-IsRegistry = record {
  user_ids = (refl, tt);
  addresses = (refl, tt);
  token_ids = (refl, tt);
  owners = (refl, tt);
}

pub start-IsIntact : IsIntact server json start
start-IsIntact = record {
  shop = record { consistent = start-IsConsistent; snapshots = tt };
  catalog = start-IsCatalog;
  registry = start-IsRegistry;
}

abbrev logged_out : Platform
logged_out = record start { db = (logout server (pos 12) "a" session_db).1 }

abbrev waiting : Platform
waiting = record logged_out { waiting = (7, cart_of 7 logged_out.db) ∷ [] }

abbrev priced : Platform
priced =
    with_catalog waiting
      (CatalogApi.update_product server.uuids json true 50 admin 1 cheaper (catalog_of waiting)).1

Reach-IsIntact_example : IsIntact server json priced
Reach-IsIntact_example =
    Reach-IsIntact server json {p = start} {q = priced}
      (next
        (next
          (next here (
            of_sessions start (record { db = logged_out.db; given = start.given })
              (log_out (service_of start) (pos 12) "a")))
          (of_shop logged_out (record { db = waiting.db; waiting = waiting.waiting })
            (read_cart (shop_of logged_out) 7)))
        (update_product waiting true 50 admin 1 cheaper refl))
      start-IsIntact

-- A customer asks for a new price.
abbrev customer : AccessClaims
customer = record admin { roles = "customer" ∷ []; permissions = "order:write" ∷ [] }

outcome_forbidden_example :
    let req = Guards.update_product true 50 1 cheaper in
    let done = outcome unary_ids unary_times packed_cursors json req customer cached in
    ((done.0 ≡ some forbidden) ↔ (has_permission customer "catalog:write" ≡ false))
    × (done.0 ≡ some forbidden → done.1 ≡ cached)
outcome_forbidden_example =
    outcome_forbidden unary_ids unary_times packed_cursors json
      (Guards.update_product true 50 1 cheaper) customer cached shop_db-IsConsistent
