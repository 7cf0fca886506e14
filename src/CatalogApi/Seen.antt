-- ===== src/CatalogApi/Seen.antt =====
-- The product cache: while Redis answers, what it returns has the same view as the table, through the
-- requests of the catalog.
use polyglot_commerce.Prelude.{
  ◌≡◌, ◌⊎◌, refl, ◌∙◌, sym, ap, Bool, true, false, Option, none, some, arith, ◌==◌, find, any,
  update_where, update_where_none, find-holds, Bool-cases, inl, inr,
}
use polyglot_commerce.Store.{Uuid, Time, Product, Db, Result, ok, err}
use polyglot_commerce.Crates.{UuidText}
use polyglot_commerce.Access.{AccessClaims, require}
use polyglot_commerce.Catalog as Catalog
use polyglot_commerce.Catalog.{CreateProduct, UpdateProduct, is_product, archived_at}
use polyglot_commerce.CatalogApi as Api
use polyglot_commerce.CatalogApi.{
  ProductText, State, get, put, invalidate, load, read_through, guarded, may_write, validate_update,
  after_update, after_archive,
}
use polyglot_commerce.CatalogApi.Entries.{get-put, get-invalidate, get-dropped}
use polyglot_commerce.Catalog.Changes.{update-err, update-none, get-update, get-archive}

module _ (uuids : UuidText) (json : ProductText) {B : Type 0} (view : Option Product → B) where
  -- What the cache returns for an id is nothing, or looks like what the table holds.
  abbrev pub IsSeen : State → Type 0
  IsSeen t =
      (id : Uuid)
      → (get uuids json true id t.cache ≡ none)
        ⊎ (view (get uuids json true id t.cache) ≡ view (Catalog.get_product id t.db))

  load-IsSeen :
      (up : Bool) (id : Uuid) (t : State) (stored : Option Product)
      → Catalog.get_product id t.db ≡ stored
      → IsSeen t
      → IsSeen (load uuids json up stored t).1
  unfolding Catalog.get_product
  load-IsSeen up id t none e h = h
  load-IsSeen up id t (some p) e h = λ j. elim (get-put uuids json up p j t.cache) [
    | inl (same, cached) ↦
        let here : p.id ≡ id = ground (arith, find-holds (is_product id) t.db.products e) in
        inr (ap view (cached ∙ sym (ap (λ k. find (is_product k) t.db.products) (same ∙ here) ∙ e)))
    | inr before ↦ elim (h j) [
      | inl empty ↦ inl (before ∙ empty)
      | inr agrees ↦ inr (ap view before ∙ agrees)
    ]
  ]

  pub get_product-IsSeen :
      (up up' : Bool) (id : Uuid) (t : State)
      → IsSeen t
      → IsSeen (Api.get_product uuids json up up' id t).1
  unfolding Api.get_product get
  get_product-IsSeen up up' id t h = through (get uuids json up id t.cache)
    where
      through :
          (cached : Option Product)
          → IsSeen (read_through uuids json up' cached (Catalog.get_product id t.db) t).1
      through none = load-IsSeen up' id t (Catalog.get_product id t.db) refl h
      through (some p) = h

  -- The row of one product changes, and its entry is dropped.
  drop-IsSeen :
      (id : Uuid) (t : State) (s : Db)
      → ((j : Uuid) → (j == id) ≡ false → Catalog.get_product j s ≡ Catalog.get_product j t.db)
      → IsSeen t
      → IsSeen (record { db = s; cache = invalidate uuids json true id t.cache })
  drop-IsSeen id t s others h = λ j. elim (Bool-cases (j == id)) [
    | inl same ↦
        let here : id ≡ j = ground (arith, same) in
        inl (
          ap (λ k. get uuids json true k (invalidate uuids json true id t.cache)) (sym here)
          ∙ get-dropped uuids json id t.cache)
    | inr differ ↦ elim (get-invalidate uuids json id j t.cache) [
      | inl (same, gone) ↦ inl gone
      | inr before ↦ elim (h j) [
        | inl empty ↦ inl (before ∙ empty)
        | inr agrees ↦ inr (ap view before ∙ agrees ∙ ap view (sym (others j differ)))
      ]
    ]
  ]

  -- The database changes, and no product with it.
  pub with_db :
      (t : State) (s : Db)
      → ((j : Uuid) → view (Catalog.get_product j s) ≡ view (Catalog.get_product j t.db))
      → IsSeen t
      → IsSeen (record t { db = s })
  with_db t s e h =
      λ j. elim (h j) [ inl empty ↦ inl empty | inr agrees ↦ inr (agrees ∙ sym (e j)) ]

  same_db : (t : State) (s : Db) → s ≡ t.db → IsSeen t → IsSeen (record t { db = s })
  same_db t s e h = with_db t s (λ j. ap (λ d. view (Catalog.get_product j d)) e) h

  pub update_product-IsSeen :
      (now : Time) (user : AccessClaims) (id : Uuid) (body : UpdateProduct) (t : State)
      → IsSeen t
      → IsSeen (Api.update_product uuids json true now user id body t).1
  unfolding Api.update_product
  update_product-IsSeen now user id body t h = admit (may_write user (validate_update body))
    where
      done :
          (r : Result (Option Product) × Db)
          → Catalog.update_product now id body t.db ≡ r
          → IsSeen (after_update uuids json true id r t).1
      done (err x, s) e = same_db t s (update-err now id body t.db e) h
      done (ok none, s) e = same_db t s (update-none now id body t.db e) h
      done (ok (some p), s) e =
          drop-IsSeen id t s
            (λ j ne.
              let (old, found, kept, here, other) = get-update now id j body t.db e ne in other)
            h

      admit :
          (r : Result (Unit {0}))
          → IsSeen
              (guarded r
                (λ u. after_update uuids json true id (Catalog.update_product now id body u.db) u)
                t).1
      admit (err x) = h
      admit (ok tt) = done (Catalog.update_product now id body t.db) refl

  pub archive_product-IsSeen :
      (now : Time) (user : AccessClaims) (id : Uuid) (t : State)
      → IsSeen t
      → IsSeen (Api.archive_product uuids json true now user id t).1
  unfolding Api.archive_product Catalog.archive_product
  archive_product-IsSeen now user id t h = admit (require user "catalog:write")
    where
      archived : Db
      archived = record t.db {
        products = update_where (is_product id) (archived_at now) t.db.products;
      }

      done :
          (b : Bool)
          → any (is_product id) t.db.products ≡ b
          → IsSeen (after_archive uuids json true id (ok b, archived) t).1
      done true e = drop-IsSeen id t archived (λ j ne. get-archive now id j t.db ne) h
      done false e =
          same_db t archived
            (ap (λ ps. record t.db { products = ps })
              (update_where_none (is_product id) (archived_at now) t.db.products e))
            h

      admit :
          (r : Result (Unit {0}))
          → IsSeen
              (guarded r
                (λ u. after_archive uuids json true id (Catalog.archive_product now id u.db) u)
                t).1
      admit (err x) = h
      admit (ok tt) = done (any (is_product id) t.db.products) refl
