-- ===== src/CatalogApi/Overtaken.antt =====
-- A read of a product that an update overtakes: `get_product` has found nothing in the cache and has
-- read the row, then the whole of an update happens, and then `get_product` stores what it has read.
use polyglot_commerce.Prelude.{
  suc, ◌≡◌, refl, ◌∙◌, ap, String, eq_iff, Bool, true, Option, none, some, List, arith, find-holds,
}
use polyglot_commerce.Store.{Uuid, Time, Product, Db, Result, ok, err}
use polyglot_commerce.Crates.{UuidText}
use polyglot_commerce.Access.{AccessClaims}
use polyglot_commerce.Catalog as Catalog
use polyglot_commerce.Catalog.{UpdateProduct, is_product}
use polyglot_commerce.Catalog.Changes.{get-update}
use polyglot_commerce.CatalogApi as Api
use polyglot_commerce.CatalogApi.{
  ProductText, State, key_of, get, put, load, guarded, may_write, validate_update, after_update,
}

module _ (uuids : UuidText) (json : ProductText) where
  get-stored :
      (p : Product) (id : Uuid) {raw : String} (cache : List (String × String))
      → p.id ≡ id
      → json.to_string p ≡ some raw
      → get uuids json true id (put uuids json true p cache) ≡ some p
  unfolding get put
  get-stored p id {raw} cache same text = ground (
    arith,
    same,
    text,
    json.from_str_to_string p raw text,
    eq_iff (key_of uuids id) (key_of uuids id),
  )

  -- An update that succeeds leaves the row that it answers.
  update-stored :
      (up : Bool) (now : Time) (user : AccessClaims) (id : Uuid) (body : UpdateProduct) (t : State)
      {q : Product} {u : State}
      → Api.update_product uuids json up now user id body t ≡ (ok q, u)
      → Catalog.get_product id u.db ≡ some q
  unfolding Api.update_product
  update-stored up now user id body t {q} {u} e = admit (may_write user (validate_update body)) e
    where
      done :
          (r : Result (Option Product) × Db)
          → Catalog.update_product now id body t.db ≡ r
          → after_update uuids json up id r t ≡ (ok q, u)
          → Catalog.get_product id u.db ≡ some q
      done (err x, s) h k = absurd (ground (arith, k))
      done (ok none, s) h k = absurd (ground (arith, k))
      done (ok (some p), s) h k =
          let (old, found, kept, here, other) =
            get-update now id (suc id) body t.db h (ground arith) in
          let is_answer : p ≡ q = ground (arith, k) in
          let is_db : u.db ≡ s = ground (arith, k) in
          ap (Catalog.get_product id) is_db ∙ here ∙ ap some is_answer

      admit :
          (r : Result (Unit {0}))
          → guarded r
              (λ v. after_update uuids json up id (Catalog.update_product now id body v.db) v)
              t
            ≡ (ok q, u)
          → Catalog.get_product id u.db ≡ some q
      admit (err x) k = absurd (ground (arith, k))
      admit (ok tt) k = done (Catalog.update_product now id body t.db) refl k

  -- Where `GET /v1/products/:id` has read the row of a product that serde_json can write, an update
  -- of it then succeeds and drops the entry of the cache, and Redis takes what the first request
  -- then stores: a `GET` right after, which Redis answers, answers the row as it was before the
  -- update, while the table has the row that the update answered.
  pub get_product-overtaken :
      (up' : Bool) (now : Time) (user : AccessClaims) (id : Uuid) (body : UpdateProduct) (t : State)
      {p q : Product} {raw : String} {u : State}
      → Catalog.get_product id t.db ≡ some p
      → json.to_string p ≡ some raw
      → Api.update_product uuids json true now user id body t ≡ (ok q, u)
      → let v = (load uuids json true (some p) u).1 in
        ((Api.get_product uuids json true up' id v).0 ≡ ok p)
        × (Catalog.get_product id v.db ≡ some q)
  unfolding Api.get_product Catalog.get_product
  get_product-overtaken up' now user id body t {p} {q} {raw} {u} stored text e =
      let same : p.id ≡ id = ground (arith, find-holds (is_product id) t.db.products stored) in
      (rw (get-stored p id u.cache same text) refl, update-stored true now user id body t e)
