-- ===== src/CatalogApi/Coherence.antt =====
-- The product cache: while Redis answers, it does not disagree with the table through the requests of
-- the catalog.
use polyglot_commerce.Prelude.{
  ◌≡◌, ◌⊎◌, refl, ap, Bool, true, false, Option, none, some, arith, inl, inr,
}
use polyglot_commerce.Errors.{not_found}
use polyglot_commerce.Store.{Uuid, Time, Product, ok_or}
use polyglot_commerce.Crates.{UuidText}
use polyglot_commerce.Access.{AccessClaims}
use polyglot_commerce.Catalog as Catalog
use polyglot_commerce.Catalog.{CreateProduct, UpdateProduct, is_product, archived_at}
use polyglot_commerce.CatalogApi as Api
use polyglot_commerce.CatalogApi.{
  ProductText, State, get, put, invalidate, load, read_through, guarded, may_write, validate_update,
  after_update, after_archive,
}
use polyglot_commerce.CatalogApi.Seen.{
  get_product-IsSeen, update_product-IsSeen, archive_product-IsSeen,
}

module _ (uuids : UuidText) (json : ProductText) where
  -- What the cache returns for an id is nothing, or what the table holds.
  abbrev pub IsCoherent : State → Type 0
  IsCoherent t =
      (id : Uuid)
      → (get uuids json true id t.cache ≡ none)
        ⊎ (get uuids json true id t.cache ≡ Catalog.get_product id t.db)

  load-answer :
      (up : Bool) (t : State) (stored : Option Product)
      → (load uuids json up stored t).0 ≡ ok_or stored (not_found "product")
  load-answer up t none = refl
  load-answer up t (some p) = refl

  -- With a coherent cache, `GET /v1/products/:id` answers what the table holds, or 404, whether Redis
  -- answers or not, and leaves the cache coherent.
  pub get_product-IsCoherent :
      (up up' : Bool) (id : Uuid) (t : State)
      → IsCoherent t
      → ((Api.get_product uuids json up up' id t).0
          ≡ ok_or (Catalog.get_product id t.db) (not_found "product"))
        × IsCoherent (Api.get_product uuids json up up' id t).1
  unfolding Api.get_product get
  get_product-IsCoherent false up id t h = (
    load-answer up t (Catalog.get_product id t.db),
    get_product-IsSeen uuids json (λ o. o) false up id t h,
  )
  get_product-IsCoherent true up id t h = (
    through (get uuids json true id t.cache) (h id),
    get_product-IsSeen uuids json (λ o. o) true up id t h,
  )
    where
      through :
          (cached : Option Product)
          → (cached ≡ none) ⊎ (cached ≡ Catalog.get_product id t.db)
          → (read_through uuids json up cached (Catalog.get_product id t.db) t).0
            ≡ ok_or (Catalog.get_product id t.db) (not_found "product")
      through none k = load-answer up t (Catalog.get_product id t.db)
      through (some p) (inl e) = absurd (ground (arith, e))
      through (some p) (inr e) = ap (λ o. ok_or o (not_found "product")) e

  -- An update keeps the cache coherent if Redis answers, whatever the update answers.
  pub update_product-IsCoherent :
      (now : Time) (user : AccessClaims) (id : Uuid) (body : UpdateProduct) (t : State)
      → IsCoherent t
      → IsCoherent (Api.update_product uuids json true now user id body t).1
  update_product-IsCoherent = update_product-IsSeen uuids json (λ o. o)

  -- Archiving keeps the cache coherent if Redis answers.
  pub archive_product-IsCoherent :
      (now : Time) (user : AccessClaims) (id : Uuid) (t : State)
      → IsCoherent t
      → IsCoherent (Api.archive_product uuids json true now user id t).1
  archive_product-IsCoherent = archive_product-IsSeen uuids json (λ o. o)
