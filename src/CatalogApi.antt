-- ===== src/CatalogApi.antt =====
-- server/src/products: cache.rs and handlers.rs, but for the listing. What Redis holds is a list of
-- keys with their texts; whether it answers a command is an argument. An entry that runs out is an
-- entry that is not there.
pub mod Entries
pub mod Seen
pub mod Coherence
pub mod Overtaken
use polyglot_commerce.Prelude.{
  ℕ, ◌≡◌, pos, leb_ℤ, String, str_eq, ◌⧺◌, Bool, true, false, not, Option, none, some, List, [],
  ◌∷◌, if◌then◌else◌, select, find,
}
use polyglot_commerce.Errors.{not_found}
use polyglot_commerce.Store.{
  Uuid, Time, Product, Category, Db, Result, ok, err, ok_or, and_then, Exec,
}
use polyglot_commerce.Crates.{UuidText}
use polyglot_commerce.Access.{AccessClaims, require}
use polyglot_commerce.Sessions.{chars, length_within, checked}
use polyglot_commerce.Catalog as Catalog
use polyglot_commerce.Catalog.{CreateProduct, UpdateProduct, CreateCategory}

-- `serde_json` on products
pub record ProductText : Type 0 where
  pub to_string : Product → Option String
  pub from_str : String → Option Product
  pub from_str_to_string : (p : Product) (s : String) → to_string p ≡ some s → from_str s ≡ some p

-- the database beside the cache
pub record State : Type 0 where
  pub db : Db
  pub cache : List (String × String)

abbrev pub key_of : UuidText → Uuid → String
key_of uuids id = "catalog:product:" ⧺ uuids.to_string id

abbrev pub has_key : String → String × String → Bool
has_key k (j, raw) = str_eq j k

module _ (uuids : UuidText) (json : ProductText) where
  abbrev pub read : Option (String × String) → Option Product
  read none = none
  read (some (k, raw)) = json.from_str raw

  -- `get` of cache.rs
  unfoldable pub get : Bool → Uuid → List (String × String) → Option Product
  get up id cache =
      let found = read (find (has_key (key_of uuids id)) cache) in if up then found else none

  abbrev pub set : String → Option String → List (String × String) → List (String × String)
  set k none cache = cache
  set k (some raw) cache = (k, raw) ∷ select (λ e. not (has_key k e)) cache

  -- `put` of cache.rs
  unfoldable pub put : Bool → Product → List (String × String) → List (String × String)
  put up p cache =
      let stored = set (key_of uuids p.id) (json.to_string p) cache in if up then stored else cache

  -- `invalidate` of cache.rs
  unfoldable pub invalidate : Bool → Uuid → List (String × String) → List (String × String)
  invalidate up id cache =
      let left = select (λ e. not (has_key (key_of uuids id) e)) cache in if up then left else cache

  abbrev pub load : Bool → Option Product → State → Result Product × State
  load up none t = (err (not_found "product"), t)
  load up (some p) t = (ok p, record t { cache = put up p t.cache })

  abbrev pub read_through : Bool → Option Product → Option Product → State → Result Product × State
  read_through up (some p) stored t = (ok p, t)
  read_through up none stored t = load up stored t

  -- `get_product`; the two arguments say whether Redis answers its GET and its SET
  unfoldable pub get_product : Bool → Bool → Uuid → State → Result Product × State
  get_product up up' id t = read_through up' (get up id t.cache) (Catalog.get_product id t.db) t

abbrev failing : Bool → String → List String → List String
failing true field rest = rest
failing false field rest = field ∷ rest

-- a rule on an optional field
abbrev optional : {A : Type 0} → (A → Bool) → Option A → Bool
optional rule none = true
optional rule (some a) = rule a

-- `validate` of `CreateProduct`
unfoldable pub validate_create : CreateProduct → Result (Unit {0})
validate_create p = checked (
    failing (length_within 1 64 p.sku) "sku" (
      failing (length_within 1 200 p.name) "name" (
        failing (length_within 1 200 p.slug) "slug" (
          failing (optional (length_within 0 4000) p.description) "description" (
            failing (leb_ℤ (pos 0) p.price_cents) "price_cents"
              (failing (optional (leb_ℤ (pos 0)) p.stock_quantity) "stock_quantity" []))))))

-- `validate` of `UpdateProduct`
unfoldable pub validate_update : UpdateProduct → Result (Unit {0})
validate_update u = checked (
    failing (optional (length_within 1 200) u.name) "name" (
      failing (optional (length_within 0 4000) u.description) "description" (
        failing (optional (leb_ℤ (pos 0)) u.price_cents) "price_cents"
          (failing (optional (leb_ℤ (pos 0)) u.stock_quantity) "stock_quantity" []))))

-- `validate` of `CreateCategory`
unfoldable pub validate_category : CreateCategory → Result (Unit {0})
validate_category c =
    checked
      (failing (length_within 1 120 c.name) "name" (failing (length_within 1 120 c.slug) "slug" []))

-- a handler that does not touch the cache, and answers 201
abbrev pub created : {A : Type 0} → Result A × Db → State → Result (ℕ × A) × State
created (r, s) t = (and_then r λ a. ok (201, a), record t { db = s })

abbrev pub guarded :
    {A : Type 0} → Result (Unit {0}) → (State → Result A × State) → State → Result A × State
guarded (err e) m t = (err e, t)
guarded (ok done) m t = m t

-- the permission, then the validation of the body
abbrev pub may_write : AccessClaims → Result (Unit {0}) → Result (Unit {0})
may_write user valid = and_then (require user "catalog:write") λ done. valid

-- `create_product`
unfoldable pub create_product :
    Uuid → Time → AccessClaims → CreateProduct → State → Result (ℕ × Product) × State
create_product id now user body =
    guarded (may_write user (validate_create body))
      λ t. created (Catalog.create_product id now body t.db) t

-- `create_category`
unfoldable pub create_category :
    Uuid → Time → AccessClaims → CreateCategory → State → Result (ℕ × Category) × State
create_category id now user body =
    guarded (may_write user (validate_category body))
      λ t. created (Catalog.create_category id now body t.db) t

-- `list_categories`
unfoldable pub list_categories : (String → String → Bool) → State → List Category
list_categories before t = Catalog.list_categories before t.db

module _ (uuids : UuidText) (json : ProductText) where
  abbrev pub after_update :
      Bool → Uuid → Result (Option Product) × Db → State → Result Product × State
  after_update up id (err e, s) t = (err e, record t { db = s })
  after_update up id (ok none, s) t = (err (not_found "product"), record t { db = s })
  after_update up id (ok (some p), s) t =
      (ok p, record { db = s; cache = invalidate uuids json up id t.cache })

  -- `update_product`
  unfoldable pub update_product :
      Bool → Time → AccessClaims → Uuid → UpdateProduct → State → Result Product × State
  update_product up now user id body =
      guarded (may_write user (validate_update body))
        λ t. after_update up id (Catalog.update_product now id body t.db) t

  abbrev pub after_archive : Bool → Uuid → Result Bool × Db → State → Result ℕ × State
  after_archive up id (err e, s) t = (err e, record t { db = s })
  after_archive up id (ok false, s) t = (err (not_found "product"), record t { db = s })
  after_archive up id (ok true, s) t =
      (ok 204, record { db = s; cache = invalidate uuids json up id t.cache })

  -- `archive_product`, which answers 204
  unfoldable pub archive_product : Bool → Time → AccessClaims → Uuid → State → Result ℕ × State
  archive_product up now user id =
      guarded (require user "catalog:write")
        λ t. after_archive up id (Catalog.archive_product now id t.db) t
