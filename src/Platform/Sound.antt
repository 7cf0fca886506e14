-- ===== src/Platform/Sound.antt =====
-- What stays true of the whole server, whatever requests come in whatever order.
use mathlib.Core.Path.{subst}
use polyglot_commerce.Prelude.{◌≡◌, refl, sym, Bool, true, false, Option, none, some}
use polyglot_commerce.Store.{Uuid, Product, Db, Result, ok, err}
use polyglot_commerce.Access.{require}
use polyglot_commerce.Sessions.{Server}
use polyglot_commerce.Sessions.Effect.{Step-Effect}
use polyglot_commerce.Sessions.Registry.{IsRegistry, Effect-IsRegistry}
use polyglot_commerce.Shop.Stock as Stock
use polyglot_commerce.Catalog as Catalog
use polyglot_commerce.Catalog.{CreateProduct, UpdateProduct, CreateCategory}
use polyglot_commerce.Catalog.Keeps as Keeps
use polyglot_commerce.Catalog.Schema as Schema
use polyglot_commerce.Catalog.Schema.{is_i32, IsCatalog}
use polyglot_commerce.CatalogApi as CatalogApi
use polyglot_commerce.CatalogApi.{ProductText}
use polyglot_commerce.Platform.{
  Platform, shop_of, catalog_of, with_catalog, Step, of_shop, of_sessions, get_product,
  create_product, update_product, archive_product, create_category, Reach, here, next,
}
use polyglot_commerce.Platform.Frames.{
  sessions_rest, sessions-IsConsistent, sessions-IsCatalog, catalog-IsConsistent, Step-Kept,
}

-- A write of the catalog, or none: the other tables stay, and the constraints hold.
abbrev IsWritten : Db → Db → Type 0
IsWritten s s' = (s' ≡ Schema.catalog_of s s') × IsCatalog s'

eq-IsWritten : (s u : Db) {t : Db} → t ≡ u → IsWritten s u → IsWritten s t
eq-IsWritten s u e w = subst (IsWritten s) (sym e) w

guarded-IsWritten :
    {A : Type 0} (g : Result (Unit {0})) (m : CatalogApi.State → Result A × CatalogApi.State)
    (t : CatalogApi.State)
    → IsCatalog t.db
    → IsWritten t.db (m t).1.db
    → IsWritten t.db (CatalogApi.guarded g m t).1.db
guarded-IsWritten (err x) m t c w = (refl, c)
guarded-IsWritten (ok done) m t c w = w

module _ {Salt Parsed : Type 0} (st : Server Salt Parsed) (json : ProductText) where
  after_update-db :
      (up : Bool) (id : Uuid) (r : Result (Option Product) × Db) (t : CatalogApi.State)
      → (CatalogApi.after_update st.uuids json up id r t).1.db ≡ r.1
  after_update-db up id (err x, s) t = refl
  after_update-db up id (ok none, s) t = refl
  after_update-db up id (ok (some p), s) t = refl

  after_archive-db :
      (up : Bool) (id : Uuid) (r : Result Bool × Db) (t : CatalogApi.State)
      → (CatalogApi.after_archive st.uuids json up id r t).1.db ≡ r.1
  after_archive-db up id (err x, s) t = refl
  after_archive-db up id (ok false, s) t = refl
  after_archive-db up id (ok true, s) t = refl

  read_through-db :
      (up : Bool) (cached stored : Option Product) (t : CatalogApi.State)
      → (CatalogApi.read_through st.uuids json up cached stored t).1.db ≡ t.db
  read_through-db up (some p) stored t = refl
  read_through-db up none none t = refl
  read_through-db up none (some p) t = refl

  -- The constraints that IsConsistent, IsCatalog and IsRegistry list, of those of the schema.
  pub record IsIntact (p : Platform) : Type 0 where
    pub shop : Stock.IsSound (shop_of p)
    pub catalog : IsCatalog p.db
    pub registry : IsRegistry st p.db

  written :
      (p : Platform) (t : CatalogApi.State)
      → IsWritten p.db t.db
      → IsIntact p
      → IsIntact (with_catalog p t)
  written p t w h = record {
    shop = record {
      consistent = catalog-IsConsistent st p.db t.db w.0 w.1 h.shop.consistent;
      snapshots = h.shop.snapshots;
    };
    catalog = w.1;
    registry = subst (IsRegistry st) (sym w.0) h.registry;
  }

  pub Step-IsIntact : {p q : Platform} → Step st json p q → IsIntact p → IsIntact q
  unfolding CatalogApi.get_product CatalogApi.create_product CatalogApi.update_product
      CatalogApi.archive_product CatalogApi.create_category
  Step-IsIntact (of_shop p t step) h =
      let k = Step-Kept step h.shop h.catalog in
      record {
        shop = Stock.Step-IsSound step h.shop;
        catalog = k.catalog;
        registry = subst (IsRegistry st) (sym k.rest) h.registry;
      }
  Step-IsIntact (of_sessions p t step) h =
      let eff = (Step-Effect st step).0 in
      let rest = sessions_rest st eff in
      record {
        shop = record {
          consistent = sessions-IsConsistent st p.db t.db rest h.shop.consistent;
          snapshots = h.shop.snapshots;
        };
        catalog = sessions-IsCatalog st p.db t.db rest h.catalog;
        registry = Effect-IsRegistry st eff h.registry;
      }
  Step-IsIntact (get_product p up up' id) h =
      written p (CatalogApi.get_product st.uuids json up up' id (catalog_of p)).1
        (eq-IsWritten p.db p.db
          (read_through-db up' (CatalogApi.get st.uuids json up id p.cache)
            (Catalog.get_product id p.db) (catalog_of p))
          (refl, h.catalog))
        h
  Step-IsIntact (create_product p id now user body fits) h =
      written p (CatalogApi.create_product id now user body (catalog_of p)).1
        (guarded-IsWritten (CatalogApi.may_write user (CatalogApi.validate_create body))
          (λ t. CatalogApi.created (Catalog.create_product id now body t.db) t) (catalog_of p)
          h.catalog
          (
            Schema.create_product_rest id now body p.db,
            Keeps.create_product-IsCatalog id now body p.db fits h.catalog,
          ))
        h
  Step-IsIntact (update_product p up now user id body fits) h =
      written p (CatalogApi.update_product st.uuids json up now user id body (catalog_of p)).1
        (guarded-IsWritten (CatalogApi.may_write user (CatalogApi.validate_update body))
          (λ t.
            CatalogApi.after_update st.uuids json up id (Catalog.update_product now id body t.db) t)
          (catalog_of p) h.catalog
          (eq-IsWritten p.db (Catalog.update_product now id body p.db).1
            (after_update-db up id (Catalog.update_product now id body p.db) (catalog_of p))
            (
              Schema.update_product_rest now id body p.db,
              Keeps.update_product-IsCatalog now id body p.db fits h.catalog,
            )))
        h
  Step-IsIntact (archive_product p up now user id) h =
      written p (CatalogApi.archive_product st.uuids json up now user id (catalog_of p)).1
        (guarded-IsWritten (require user "catalog:write")
          (λ t.
            CatalogApi.after_archive st.uuids json up id (Catalog.archive_product now id t.db) t)
          (catalog_of p) h.catalog
          (eq-IsWritten p.db (Catalog.archive_product now id p.db).1
            (after_archive-db up id (Catalog.archive_product now id p.db) (catalog_of p))
            (
              Schema.archive_product_rest now id p.db,
              Keeps.archive_product-IsCatalog now id p.db h.catalog,
            )))
        h
  Step-IsIntact (create_category p id now user body) h =
      written p (CatalogApi.create_category id now user body (catalog_of p)).1
        (guarded-IsWritten (CatalogApi.may_write user (CatalogApi.validate_category body))
          (λ t. CatalogApi.created (Catalog.create_category id now body t.db) t) (catalog_of p)
          h.catalog
          (
            Schema.create_category_rest id now body p.db,
            Keeps.create_category-IsCatalog id now body p.db h.catalog,
          ))
        h

  -- On a server for which the following holds, it still holds after requests of the shop, the
  -- sessions and the catalog, in any number and order, whether they succeed or fail, each handled
  -- whole before the next but for a checkout, which reads the cart earlier than it takes its locks,
  -- if a stock in a request is an i32 and a family that is drawn is new. Unique are: the ids of
  -- products, categories, orders, users and refresh tokens, the SKUs and slugs of products, the
  -- slugs of categories, the addresses of users, and the user and product of a cart line.
  -- References that hold: from a product to its category, a category to its parent, an order item
  -- to its order, and a refresh token to its user. Every stock is below 2^31, the status of a
  -- product is `active` or `archived`, and the quantity of every cart line, also of one that a
  -- waiting checkout has read, is positive.
  pub Reach-IsIntact : {p q : Platform} → Reach st json p q → IsIntact p → IsIntact q
  Reach-IsIntact here h = h
  Reach-IsIntact (next r step) h = Step-IsIntact step (Reach-IsIntact r h)
