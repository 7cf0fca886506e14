-- ===== src/Platform/Guards.antt =====
-- The permissions that the handlers ask for, one for each.
use polyglot_commerce.Prelude.{
  ◌≡◌, ◌≢◌, ◌↔◌, refl, ap, String, Bool, true, false, Option, none, some, List, [], ◌∷◌, arith,
  Bool-cases, Option-cases, inl, inr,
}
use polyglot_commerce.Errors.{AppError, forbidden}
use polyglot_commerce.Store.{Uuid, Time, OrderRow, Db, Result, ok, err, Exec}
use polyglot_commerce.Store.Consistent.{IsConsistent}
use polyglot_commerce.Crates.{UuidText, TimeText, CursorText}
use polyglot_commerce.Access.{AccessClaims, has_permission, require, user_id}
use polyglot_commerce.Pagination.{Cursor, PageQuery, parse_key, decode}
use polyglot_commerce.Orders.Checkout.{checkout_result, checkout_refines}
use polyglot_commerce.Orders.Cancel.{cancel_result, cancel_refines}
use polyglot_commerce.Orders as Orders
use polyglot_commerce.Orders.{CheckoutRow}
use polyglot_commerce.OrderApi as OrderApi
use polyglot_commerce.Catalog as Catalog
use polyglot_commerce.Catalog.{CreateProduct, UpdateProduct, CreateCategory}
use polyglot_commerce.CatalogApi as CatalogApi
use polyglot_commerce.CatalogApi.{ProductText, State}

pub data Request : Type 0 where
  create_product : Uuid → Time → CreateProduct → Request
  update_product : Bool → Time → Uuid → UpdateProduct → Request
  archive_product : Bool → Time → Uuid → Request
  create_category : Uuid → Time → CreateCategory → Request
  checkout : Uuid → Time → Request
  cancel_order : Time → Uuid → Request
  get_order : Uuid → Request
  list_orders : PageQuery → Request

-- Writes of the catalog are for administrators, who alone have `catalog:write`.
abbrev pub needs : Request → String
needs (create_product id now body) = "catalog:write"
needs (update_product up now id body) = "catalog:write"
needs (archive_product up now id) = "catalog:write"
needs (create_category id now body) = "catalog:write"
needs (checkout id now) = "order:write"
needs (cancel_order now id) = "order:write"
needs (get_order id) = "order:read"
needs (list_orders page) = "order:read"

abbrev pub failure : {A : Type 0} → Result A → Option AppError
failure (ok a) = none
failure (err x) = some x

abbrev pub on_state : {A : Type 0} → Result A × State → Option AppError × State
on_state (r, t) = (failure r, t)

abbrev pub on_db : {A : Type 0} → Exec A → State → Option AppError × State
on_db m t = (failure (m t.db).0, record t { db = (m t.db).1 })

result-failure :
    (id : Uuid) (now : Time) (user_id : Uuid) (rows : List CheckoutRow) (s : Db)
    → failure (checkout_result id now user_id rows s).0 ≢ some forbidden
result-failure id now user_id [] s e = cc
result-failure id now user_id (r ∷ rows) s e = ground (arith, e)

checkout-failure :
    (id : Uuid) (now : Time) (user_id : Uuid) (s : Db)
    → IsConsistent s
    → failure (Orders.checkout id now user_id s).0 ≢ some forbidden
checkout-failure id now user_id s c =
    rw (checkout_refines id now user_id s c)
      (result-failure id now user_id (Orders.checkout_rows user_id s) s)

cancelled-failure :
    (now : Time) (order_id : Uuid) (found : Option OrderRow) (s : Db)
    → failure (cancel_result now order_id found s).0 ≢ some forbidden
cancelled-failure now order_id none s e = cc
cancelled-failure now order_id (some order) s e = ground (arith, e)

cancel-failure :
    (now : Time) (user_id order_id : Uuid) (s : Db)
    → IsConsistent s
    → failure (Orders.cancel now user_id order_id s).0 ≢ some forbidden
cancel-failure now user_id order_id s c =
    rw (cancel_refines now user_id order_id s c)
      (cancelled-failure now order_id (Orders.get_order user_id order_id s) s)

module _ {Bytes : Type 0} (uuids : UuidText) (times : TimeText) (text : CursorText Bytes Cursor)
    (json : ProductText) where
  -- The error of a request, if there is one, and the state that it leaves.
  unfoldable pub outcome : Request → AccessClaims → State → Option AppError × State
  outcome (create_product id now body) user t =
      on_state (CatalogApi.create_product id now user body t)
  outcome (update_product up now id body) user t =
      on_state (CatalogApi.update_product uuids json up now user id body t)
  outcome (archive_product up now id) user t =
      on_state (CatalogApi.archive_product uuids json up now user id t)
  outcome (create_category id now body) user t =
      on_state (CatalogApi.create_category id now user body t)
  outcome (checkout id now) user t = on_db (OrderApi.checkout uuids times text id now user) t
  outcome (cancel_order now id) user t =
      on_db (OrderApi.cancel_order uuids times text now user id) t
  outcome (get_order id) user t = on_db (OrderApi.get_order uuids times text user id) t
  outcome (list_orders page) user t =
      (failure (OrderApi.list_orders uuids times text user page t.db), t)

  refused :
      (req : Request) (user : AccessClaims) (t : State)
      → has_permission user (needs req) ≡ false
      → outcome req user t ≡ (some forbidden, t)
  unfolding outcome CatalogApi.create_product CatalogApi.update_product CatalogApi.archive_product
      CatalogApi.create_category OrderApi.checkout OrderApi.cancel_order OrderApi.get_order
      OrderApi.list_orders require
  refused (create_product id now body) user t h = rw h refl
  refused (update_product up now id body) user t h = rw h refl
  refused (archive_product up now id) user t h = rw h refl
  refused (create_category id now body) user t h = rw h refl
  refused (checkout id now) user t h = rw h refl
  refused (cancel_order now id) user t h = rw h refl
  refused (get_order id) user t h = rw h refl
  refused (list_orders page) user t h = rw h refl

  allowed :
      (req : Request) (user : AccessClaims) (t : State)
      → IsConsistent t.db
      → has_permission user (needs req) ≡ true
      → (outcome req user t).0 ≢ some forbidden
  unfolding outcome CatalogApi.create_product CatalogApi.update_product CatalogApi.archive_product
      CatalogApi.create_category OrderApi.checkout OrderApi.cancel_order OrderApi.get_order
      OrderApi.list_orders require Catalog.create_product Catalog.insert_product
      Catalog.update_product Catalog.updated Catalog.get_product Catalog.archive_product
      Catalog.create_category user_id CatalogApi.validate_create CatalogApi.validate_update
      CatalogApi.validate_category OrderApi.find_orders parse_key decode
  allowed (create_product id now body) user t c h = rw h λ e. ground (arith, e)
  allowed (update_product up now id body) user t c h = rw h λ e. ground (arith, e)
  allowed (archive_product up now id) user t c h = rw h λ e. ground (arith, e)
  allowed (create_category id now body) user t c h = rw h λ e. ground (arith, e)
  allowed (checkout id now) user t c h = rw h λ e. elim (Option-cases (uuids.parse_str user.sub)) [
    | inl unknown ↦ ground (arith, e, unknown)
    | inr (buyer, known) ↦ ground (arith, e, known, checkout-failure id now buyer t.db c)
  ]
  allowed (cancel_order now id) user t c h = rw h λ e.
      elim (Option-cases (uuids.parse_str user.sub)) [
        | inl unknown ↦ ground (arith, e, unknown)
        | inr (buyer, known) ↦ ground (arith, e, known, cancel-failure now buyer id t.db c)
      ]
  allowed (get_order id) user t c h = rw h λ e. ground (arith, e)
  allowed (list_orders page) user t c h = rw h λ e. ground (arith, e)

  -- On a consistent database, a request to create, update or archive a product, to create a category, to
  -- check out, to cancel, read or list orders is answered `forbidden` exactly where the caller lacks the
  -- one permission that it needs, and then nothing is changed.
  pub outcome_forbidden :
      (req : Request) (user : AccessClaims) (t : State)
      → IsConsistent t.db
      → (((outcome req user t).0 ≡ some forbidden) ↔ (has_permission user (needs req) ≡ false))
        × ((outcome req user t).0 ≡ some forbidden → (outcome req user t).1 ≡ t)
  outcome_forbidden req user t c =
      let lacks : (outcome req user t).0 ≡ some forbidden
          → has_permission user (needs req) ≡ false =
        λ e. elim (Bool-cases (has_permission user (needs req))) [
          | inl has ↦ absurd (allowed req user t c has e)
          | inr lacks ↦ lacks
        ] in
      (
        (lacks, λ no. ap (λ (r : Option AppError × State). r.0) (refused req user t no)),
        λ e. ap (λ (r : Option AppError × State). r.1) (refused req user t (lacks e)),
      )
