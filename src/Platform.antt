-- ===== src/Platform.antt =====
-- The server as one system: the requests of the shop (Shop), of the sessions (Sessions.Service) and of
-- the catalog (CatalogApi) on one database, beside the tokens that were given out and the cache.
pub mod Frames
pub mod Sound
pub mod Likeness
pub mod Cached
pub mod Guards
use polyglot_commerce.Prelude.{◌≡◌, String, Bool, true, List}
use polyglot_commerce.Store.{Uuid, Time, CartItemRow, Db}
use polyglot_commerce.Access.{AccessClaims}
use polyglot_commerce.Sessions.{Server}
use polyglot_commerce.Sessions.Service as Service
use polyglot_commerce.Shop as Shop
use polyglot_commerce.Catalog.{CreateProduct, UpdateProduct, CreateCategory}
use polyglot_commerce.Catalog.Schema.{is_i32}
use polyglot_commerce.CatalogApi as CatalogApi
use polyglot_commerce.CatalogApi.{ProductText}

pub record Platform : Type 0 where
  pub db : Db
  pub waiting : List (Uuid × List CartItemRow)
  pub given : List (Uuid × Uuid)
  pub cache : List (String × String)

abbrev pub shop_of : Platform → Shop.Shop
shop_of p = record { db = p.db; waiting = p.waiting }

abbrev pub service_of : Platform → Service.Service
service_of p = record { db = p.db; given = p.given }

abbrev pub catalog_of : Platform → CatalogApi.State
catalog_of p = record { db = p.db; cache = p.cache }

abbrev pub with_catalog : Platform → CatalogApi.State → Platform
with_catalog p t = record p { db = t.db; cache = t.cache }

module _ {Salt Parsed : Type 0} (st : Server Salt Parsed) (json : ProductText) where
  pub data Step : Platform → Platform → Type 0 where
    of_shop :
        (p : Platform) (t : Shop.Shop)
        → Shop.Step (shop_of p) t
        → Step p (record p { db = t.db; waiting = t.waiting })
    of_sessions :
        (p : Platform) (t : Service.Service)
        → Service.Step st (service_of p) t
        → Step p (record p { db = t.db; given = t.given })
    get_product :
        (p : Platform) (up up' : Bool) (id : Uuid)
        → Step p (with_catalog p (CatalogApi.get_product st.uuids json up up' id (catalog_of p)).1)
    create_product :
        (p : Platform) (id : Uuid) (now : Time) (user : AccessClaims) (body : CreateProduct)
        → is_i32 body.stock_quantity ≡ true
        → Step p (with_catalog p (CatalogApi.create_product id now user body (catalog_of p)).1)
    update_product :
        (p : Platform) (up : Bool) (now : Time) (user : AccessClaims) (id : Uuid)
        (body : UpdateProduct)
        → is_i32 body.stock_quantity ≡ true
        → Step p (
            with_catalog p
              (CatalogApi.update_product st.uuids json up now user id body (catalog_of p)).1)
    archive_product :
        (p : Platform) (up : Bool) (now : Time) (user : AccessClaims) (id : Uuid)
        → Step p (
            with_catalog p
              (CatalogApi.archive_product st.uuids json up now user id (catalog_of p)).1)
    create_category :
        (p : Platform) (id : Uuid) (now : Time) (user : AccessClaims) (body : CreateCategory)
        → Step p (with_catalog p (CatalogApi.create_category id now user body (catalog_of p)).1)

  pub data Reach (p : Platform) : Platform → Type 0 where
    here : Reach p p
    next : {q r : Platform} → Reach p q → Step q r → Reach p r
