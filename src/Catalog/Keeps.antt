-- ===== src/Catalog/Keeps.antt =====
-- The writes of the catalog keep the constraints of its two tables.
use mathlib.Core.Path.{subst}
use polyglot_commerce.Prelude.{
  ◌^◌, ◌<◌, ◌≡◌, refl, ◌∙◌, sym, ap, pos, str_eq, Bool, true, false, Option, none, some, List, [],
  ◌∷◌, ◌++◌, arith, ◌==◌, find, any, update_where, All, All-append, All-map, UniqueBy-snoc,
  any-append, find-holds, Bool-cases, inl, inr,
}
use polyglot_commerce.Store.{Uuid, Time, Product, Category, Db, Result, ok, err, and_then}
use polyglot_commerce.Catalog.{
  CreateProduct, UpdateProduct, CreateCategory, is_product, known_category, known_status, default,
  new_product, not_negative, get_product, insert_product, create_product, updated, replace_row,
  insert_checked, update_found, update_product, archive_product, archived_at, create_category,
}
use polyglot_commerce.Catalog.Table.{
  known_in, IsRow, AreProducts-snoc, AreProducts-put, AreProducts-archived,
}
use polyglot_commerce.Catalog.Schema.{
  same_category_id, same_category_slug, IsCatalog, is_i32, known_in-known_category, with_products,
}

insert_product-IsCatalog :
    (row : Product) (s : Db)
    → row.stock_quantity < 2 ^ 31
    → known_status row.status ≡ true
    → IsCatalog s
    → IsCatalog (insert_product row s).1
unfolding insert_product
insert_product-IsCatalog row s stock status h =
    elim (Bool-cases (any (is_product row.id) s.products)) [
      | inl taken ↦ rw taken h
      | inr new_id ↦ elim (Bool-cases (any (λ (p : Product). str_eq p.sku row.sku) s.products)) [
        | inl taken ↦ rw (new_id, taken) h
        | inr new_sku ↦
            elim (Bool-cases (any (λ (p : Product). str_eq p.slug row.slug) s.products)) [
              | inl taken ↦ rw (new_id, new_sku, taken) h
              | inr new_slug ↦ elim (Bool-cases (known_category row.category_id s)) [
                | inl known ↦
                    rw (new_id, new_sku, new_slug, known)
                      (with_products s (s.products ++ row ∷ [])
                        (AreProducts-snoc s.categories s.products row new_id new_sku new_slug
                          (record {
                            stock = stock;
                            status = status;
                            category = sym (known_in-known_category row.category_id s) ∙ known;
                          })
                          h.products)
                        h)
                | inr unknown ↦ rw (new_id, new_sku, new_slug, unknown) h
              ]
            ]
      ]
    ]

insert_checked-IsCatalog :
    (made : Result Product) (s : Db)
    → ((row : Product)
        → made ≡ ok row
        → (row.stock_quantity < 2 ^ 31) × (known_status row.status ≡ true))
    → IsCatalog s
    → IsCatalog (insert_checked made s).1
insert_checked-IsCatalog (err x) s good h = h
insert_checked-IsCatalog (ok row) s good h =
    let (stock, status) = good row refl in insert_product-IsCatalog row s stock status h

-- `create_product` keeps the constraints, whatever it answers.
pub create_product-IsCatalog :
    (id : Uuid) (now : Time) (p : CreateProduct) (s : Db)
    → is_i32 p.stock_quantity ≡ true
    → IsCatalog s
    → IsCatalog (create_product id now p s).1
unfolding create_product
create_product-IsCatalog id now p s fits h =
    insert_checked-IsCatalog
      (and_then (not_negative p.price_cents) λ price.
        and_then (not_negative (default p.stock_quantity (pos 0)))
          λ stock. ok (new_product id now p price stock))
      s
      (λ row e.
        let active : row.status ≡ "active" = ground (arith, e) in
        (ground (arith, e, fits), ap known_status active))
      h

find-All :
    {A : Type 0} (P : A → Type 0) (q : A → Bool) (xs : List A) {a : A}
    → All P xs
    → find q xs ≡ some a
    → P a
find-All P q [] h e = absurd (ground (arith, e))
find-All P q (x ∷ xs) {a} h e = elim (Bool-cases (q x)) [
  | inl hit ↦ let it : x ≡ a = ground (arith, e, hit) in subst P it h.0
  | inr miss ↦ find-All P q xs {a = a} h.1 (ground (arith, e, miss))
]

replace_row-IsCatalog :
    (now : Time) (u : UpdateProduct) (p : Product) (s : Db) (made : Result Product)
    → is_i32 u.stock_quantity ≡ true
    → find (is_product p.id) s.products ≡ some p
    → updated now u p ≡ made
    → IsCatalog s
    → IsCatalog (replace_row p.id made s).1
unfolding updated
replace_row-IsCatalog now u p s (err x) fits found e h = h
replace_row-IsCatalog now u p s (ok row) fits found e h =
    let old =
      find-All (IsRow s.categories) (is_product p.id) s.products {a = p} h.products.rows found in
    elim (Bool-cases (known_category row.category_id s)) [
      | inl known ↦ rw known (
          with_products s (update_where (is_product p.id) (λ q. row) s.products)
            (AreProducts-put s.categories s.products row p found (ground (arith, e))
              (ground (arith, e)) (ground (arith, e))
              (record {
                stock = ground (arith, e, fits, old.stock);
                status = ground (arith, e);
                category = sym (known_in-known_category row.category_id s) ∙ known;
              })
              h.products)
            h)
      | inr unknown ↦ rw unknown h
    ]

-- `update_product` keeps the constraints, whatever it answers.
pub update_product-IsCatalog :
    (now : Time) (id : Uuid) (u : UpdateProduct) (s : Db)
    → is_i32 u.stock_quantity ≡ true
    → IsCatalog s
    → IsCatalog (update_product now id u s).1
unfolding update_product get_product
update_product-IsCatalog now id u s fits h = by_row (find (is_product id) s.products) refl
  where
    by_row :
        (found : Option Product)
        → find (is_product id) s.products ≡ found
        → IsCatalog (update_found now u found s).1
    by_row none e = h
    by_row (some p) e =
        let it : id ≡ p.id = ground (arith, find-holds (is_product id) s.products {x = p} e) in
        replace_row-IsCatalog now u p s (updated now u p) fits
          (ap (λ (k : Uuid). find (is_product k) s.products) (sym it) ∙ e) refl h

-- `archive_product` keeps the constraints, whatever it answers.
pub archive_product-IsCatalog :
    (now : Time) (id : Uuid) (s : Db) → IsCatalog s → IsCatalog (archive_product now id s).1
unfolding archive_product
archive_product-IsCatalog now id s h =
    with_products s (update_where (is_product id) (archived_at now) s.products)
      (AreProducts-archived s.categories now id s.products h.products) h

known_in-snoc :
    (c : Option Uuid) (cs : List Category) (d : Category)
    → known_in cs c ≡ true
    → known_in (cs ++ d ∷ []) c ≡ true
known_in-snoc none cs d h = refl
known_in-snoc (some id) cs d h =
    ground (arith, h, any-append (λ (c : Category). c.id == id) cs (d ∷ []))

-- A category more.
IsCatalog-snoc :
    (s : Db) (d : Category)
    → any (λ (c : Category). c.id == d.id) s.categories ≡ false
    → any (λ (c : Category). str_eq c.slug d.slug) s.categories ≡ false
    → known_category d.parent_id s ≡ true
    → IsCatalog s
    → IsCatalog (record s { categories = s.categories ++ d ∷ [] })
IsCatalog-snoc s d new_id new_slug known h = record {
  products = record {
    ids = h.products.ids;
    skus = h.products.skus;
    slugs = h.products.slugs;
    rows =
        All-map s.products
          (λ p r. record {
            stock = r.stock;
            status = r.status;
            category = known_in-snoc p.category_id s.categories d r.category;
          })
          h.products.rows;
  };
  category_ids = UniqueBy-snoc same_category_id s.categories d new_id h.category_ids;
  category_slugs = UniqueBy-snoc same_category_slug s.categories d new_slug h.category_slugs;
  parents =
      All-append _ s.categories (d ∷ [])
        (All-map s.categories (λ c k. known_in-snoc c.parent_id s.categories d k) h.parents)
        (
          known_in-snoc d.parent_id s.categories d
              (sym (known_in-known_category d.parent_id s) ∙ known),
          tt,
        );
}

-- `create_category` keeps the constraints, whatever it answers.
pub create_category-IsCatalog :
    (id : Uuid) (now : Time) (c : CreateCategory) (s : Db)
    → IsCatalog s
    → IsCatalog (create_category id now c s).1
unfolding create_category
create_category-IsCatalog id now c s h =
    let row : Category = record {
      id = id;
      name = c.name;
      slug = c.slug;
      parent_id = c.parent_id;
      created_at = now;
    } in
    elim (Bool-cases (any (λ (d : Category). d.id == id) s.categories)) [
      | inl taken ↦ rw taken h
      | inr new_id ↦ elim (Bool-cases (any (λ (d : Category). str_eq d.slug c.slug) s.categories)) [
        | inl taken ↦ rw (new_id, taken) h
        | inr new_slug ↦ elim (Bool-cases (known_category c.parent_id s)) [
          | inl known ↦ rw (new_id, new_slug, known) (IsCatalog-snoc s row new_id new_slug known h)
          | inr unknown ↦ rw (new_id, new_slug, unknown) h
        ]
      ]
    ]
