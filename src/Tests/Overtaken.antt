-- ===== src/Tests/Overtaken.antt =====
-- A price changes while the keyboard is being read.
use polyglot_commerce.Prelude.{◌≡◌, refl, true, some, []}
use polyglot_commerce.Store.{ok}
use polyglot_commerce.Access.{has_permission, require}
use polyglot_commerce.Catalog as Catalog
use polyglot_commerce.CatalogApi as Api
use polyglot_commerce.CatalogApi.{State, load, invalidate}
use polyglot_commerce.CatalogApi.Overtaken.{get_product-overtaken}
use polyglot_commerce.Tests.{shop_db, keyboard}
use polyglot_commerce.Tests.Crates.{unary_ids}
use polyglot_commerce.Tests.Catalog.{json, admin, cheaper, cheap_keyboard, repriced}

abbrev uncached : State
uncached = record { db = shop_db; cache = [] }

abbrev updated_state : State
updated_state = record { db = repriced; cache = [] }

keyboard_row : Catalog.get_product 1 shop_db ≡ some keyboard
unfolding Catalog.get_product
keyboard_row = refl

reprice :
    Api.update_product unary_ids json true 50 admin 1 cheaper uncached
    ≡ (ok cheap_keyboard, updated_state)
unfolding Api.update_product Api.validate_update require has_permission Catalog.update_product
    Catalog.updated Catalog.get_product invalidate
reprice = refl

get_product-overtaken_example :
    let v = (load unary_ids json true (some keyboard) updated_state).1 in
    ((Api.get_product unary_ids json true true 1 v).0 ≡ ok keyboard)
    × (Catalog.get_product 1 v.db ≡ some cheap_keyboard)
get_product-overtaken_example =
    get_product-overtaken unary_ids json true 50 admin 1 cheaper uncached {p = keyboard}
      {q = cheap_keyboard} {raw = "keyboard"} {u = updated_state} keyboard_row refl reprice
