-- ===== src/Platform/Cached.antt =====
-- The cache of products beside all requests of the server, while Redis answers: it is behind the table
-- in the stock of a product at most.
use mathlib.Core.Path.{subst}
use polyglot_commerce.Prelude.{
  ◌≡◌, ◌⊎◌, refl, ◌∙◌, sym, ap, Bool, true, false, Option, none, some, [], arith, inl, inr,
}
use polyglot_commerce.Errors.{not_found}
use polyglot_commerce.Store.{Uuid, Time, Product, Db, Result, ok, err}
use polyglot_commerce.Sessions.{Server}
use polyglot_commerce.Sessions.Effect.{Step-Effect}
use polyglot_commerce.Orders.{with_stock}
use polyglot_commerce.Catalog as Catalog
use polyglot_commerce.Catalog.{is_product, CreateProduct, CreateCategory}
use polyglot_commerce.Catalog.Added.{get_product-create}
use polyglot_commerce.CatalogApi as CatalogApi
use polyglot_commerce.CatalogApi.{ProductText}
use polyglot_commerce.CatalogApi.Seen.{
  IsSeen, with_db, get_product-IsSeen, update_product-IsSeen, archive_product-IsSeen,
}
use polyglot_commerce.Platform.Frames.{sessions_rest}
use polyglot_commerce.Platform.Sound.{IsIntact, Step-IsIntact}
use polyglot_commerce.Platform.{
  Platform, Step, Reach, catalog_of, of_shop, of_sessions, get_product, create_product,
  update_product, archive_product, create_category, here, next,
}
use polyglot_commerce.Platform.Likeness.{facts, Like, same_products-Like, Step-Like}

category_products :
    (id : Uuid) (now : Time) (body : CreateCategory) (s : Db)
    → (Catalog.create_category id now body s).1.products ≡ s.products
unfolding Catalog.create_category
category_products id now body s = ground arith

module _ {Salt Parsed : Type 0} (st : Server Salt Parsed) (json : ProductText) where
  -- What the cache returns is nothing, or the product of the table but for its stock.
  abbrev pub IsClose : Platform → Type 0
  IsClose p = IsSeen st.uuids json facts (catalog_of p)

  -- Redis answers where an update or an archiving drops an entry.
  abbrev pub Answered : {p q : Platform} → Step st json p q → Type 0
  Answered (of_shop _ _ _) = Unit {0}
  Answered (of_sessions _ _ _) = Unit {0}
  Answered (get_product _ _ _ _) = Unit {0}
  Answered (create_product _ _ _ _ _ _) = Unit {0}
  Answered (update_product _ up _ _ _ _ _) = up ≡ true
  Answered (archive_product _ up _ _ _) = up ≡ true
  Answered (create_category _ _ _ _ _) = Unit {0}

  abbrev pub AllAnswered : {p q : Platform} → Reach st json p q → Type 0
  AllAnswered here = Unit {0}
  AllAnswered (next r step) = AllAnswered r × Answered step

  Like-IsClose : (p : Platform) (s : Db) → Like p.db s → IsClose p → IsClose (record p { db = s })
  Like-IsClose p s = with_db st.uuids json facts (catalog_of p) s

  facts-none : (o : Option Product) → facts o ≡ none → o ≡ none
  facts-none none e = refl
  facts-none (some p) e = absurd (ground (arith, e))

  create-IsClose :
      (p : Platform) (id : Uuid) (now : Time) (body : CreateProduct)
      → IsClose p
      → IsClose (record p { db = (Catalog.create_product id now body p.db).1 })
  create-IsClose p id now body h = λ j. elim (h j) [
    | inl empty ↦ inl empty
    | inr agrees ↦ elim (get_product-create id now body p.db j) [
      | inl same ↦ inr (agrees ∙ sym (ap facts same))
      | inr absent ↦ inl (facts-none _ (agrees ∙ ap facts absent))
    ]
  ]

  guarded-IsClose :
      {A : Type 0} (p : Platform) (g : Result (Unit {0}))
      (m : CatalogApi.State → Result A × CatalogApi.State)
      → IsClose p
      → IsSeen st.uuids json facts (m (catalog_of p)).1
      → IsSeen st.uuids json facts (CatalogApi.guarded g m (catalog_of p)).1
  guarded-IsClose p (err x) m h k = h
  guarded-IsClose p (ok done) m h k = k

  Step-IsClose :
      {p q : Platform} (step : Step st json p q)
      → Answered step
      → IsIntact st json p
      → IsClose p
      → IsClose q
  unfolding CatalogApi.create_product CatalogApi.create_category
  Step-IsClose (of_shop p t step) a i h = Like-IsClose p t.db (Step-Like step i.shop) h
  Step-IsClose (of_sessions p t step) a i h =
      Like-IsClose p t.db
        (same_products-Like p.db t.db
          (ap (λ (d : Db). d.products) (sessions_rest st (Step-Effect st step).0)))
        h
  Step-IsClose (get_product p up up' id) a i h =
      get_product-IsSeen st.uuids json facts up up' id (catalog_of p) h
  Step-IsClose (create_product p id now user body fits) a i h =
      guarded-IsClose p (CatalogApi.may_write user (CatalogApi.validate_create body))
        (λ t. CatalogApi.created (Catalog.create_product id now body t.db) t) h
        (create-IsClose p id now body h)
  Step-IsClose (update_product p up now user id body fits) a i h =
      subst
        (λ b.
          IsSeen st.uuids json facts
            (CatalogApi.update_product st.uuids json b now user id body (catalog_of p)).1)
        (sym a) (update_product-IsSeen st.uuids json facts now user id body (catalog_of p) h)
  Step-IsClose (archive_product p up now user id) a i h =
      subst
        (λ b.
          IsSeen st.uuids json facts
            (CatalogApi.archive_product st.uuids json b now user id (catalog_of p)).1)
        (sym a) (archive_product-IsSeen st.uuids json facts now user id (catalog_of p) h)
  Step-IsClose (create_category p id now user body) a i h =
      guarded-IsClose p (CatalogApi.may_write user (CatalogApi.validate_category body))
        (λ t. CatalogApi.created (Catalog.create_category id now body t.db) t) h
        (Like-IsClose p (Catalog.create_category id now body p.db).1
          (same_products-Like p.db (Catalog.create_category id now body p.db).1
            (category_products id now body p.db))
          h)

  Reach-IsClose :
      {p q : Platform} (r : Reach st json p q)
      → AllAnswered r
      → IsIntact st json p
      → IsClose p
      → IsIntact st json q × IsClose q
  Reach-IsClose here a i h = (i, h)
  Reach-IsClose (next r step) (before, now) i h =
      let (i', h') = Reach-IsClose r before i h in
      (Step-IsIntact st json step i', Step-IsClose step now i' h')

  -- What is answered for a product is 404 where the table has none, and else the row of the table but
  -- for its stock.
  abbrev pub Matches : Result Product → Option Product → Type 0
  Matches (ok p) (some row) = p ≡ with_stock row p.stock_quantity
  Matches (err x) none = x ≡ not_found "product"
  Matches (ok p) none = ⊥
  Matches (err x) (some row) = ⊥

  close-Matches :
      (p row : Product) → facts (some p) ≡ facts (some row) → p ≡ with_stock row p.stock_quantity
  close-Matches p row e = ground (arith, e)

  load-Matches :
      (up : Bool) (t : CatalogApi.State) (stored : Option Product)
      → Matches (CatalogApi.load st.uuids json up stored t).0 stored
  load-Matches up t none = refl
  load-Matches up t (some p) = refl

  read_through-Matches :
      (up : Bool) (t : CatalogApi.State) (cached stored : Option Product)
      → (cached ≡ none) ⊎ (facts cached ≡ facts stored)
      → Matches (CatalogApi.read_through st.uuids json up cached stored t).0 stored
  read_through-Matches up t none stored k = load-Matches up t stored
  read_through-Matches up t (some p) stored (inl e) = absurd (ground (arith, e))
  read_through-Matches up t (some p) none (inr e) = absurd (ground (arith, e))
  read_through-Matches up t (some p) (some row) (inr e) = close-Matches p row e

  -- A GET that Redis does not answer is as an entry that is not there.
  seen :
      (up : Bool) (id : Uuid) (q : Platform)
      → IsClose q
      → (CatalogApi.get st.uuids json up id q.cache ≡ none)
        ⊎ (facts (CatalogApi.get st.uuids json up id q.cache) ≡ facts (Catalog.get_product id q.db))
  unfolding CatalogApi.get
  seen false id q h = inl refl
  seen true id q h = h id

  -- On a server for which the constraints that Platform.Sound lists hold, with an empty cache,
  -- after requests of the shop, the sessions and the catalog, in any number and order, each handled
  -- whole before the next but for a checkout, which reads the cart earlier than it takes its locks,
  -- and if Redis answered wherever a product was updated or archived, a stock in a request is an
  -- i32, and a family that is drawn is new (a read of a product that an update overtakes is not
  -- covered): then `GET /v1/products/:id` answers 404 exactly where the table has no such product,
  -- and else the row of the table but for its stock, whether Redis answers or not.
  pub get_product-Reach :
      {p q : Platform} (r : Reach st json p q) (up up' : Bool) (id : Uuid)
      → IsIntact st json p
      → p.cache ≡ []
      → AllAnswered r
      → Matches
          (CatalogApi.get_product st.uuids json up up' id (catalog_of q)).0
          (Catalog.get_product id q.db)
  unfolding CatalogApi.get_product CatalogApi.get
  get_product-Reach {p} {q} r up up' id i empty a =
      let start : IsClose p = λ j. inl (ap (λ c. CatalogApi.get st.uuids json true j c) empty) in
      let (sound, close) = Reach-IsClose r a i start in
      read_through-Matches up' (catalog_of q) (CatalogApi.get st.uuids json up id q.cache)
        (Catalog.get_product id q.db) (seen up id q close)
