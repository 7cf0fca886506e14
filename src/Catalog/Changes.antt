-- ===== src/Catalog/Changes.antt =====
-- What a change of a product changes, and what an archived product can no longer do.
use polyglot_commerce.Prelude.{
  ◌≡◌, refl, ◌∙◌, ap, str_eq, false, ◌&&◌, Option, none, some, List, [], ◌∷◌, arith, ◌==◌, find,
  any, update_where, find-holds, Bool-cases, inl, inr,
}
use polyglot_commerce.Errors.{AppError}
use polyglot_commerce.Store.{Uuid, Time, Product, Db, Result, ok, err}
use polyglot_commerce.Catalog.{
  UpdateProduct, is_product, get_product, updated, update_product, archive_product, archived_at,
  default, replace_row, update_found,
}

-- What stays of a product through an update, and what the request may leave out.
pub record Kept (now : Time) (u : UpdateProduct) (p row : Product) : Type 0 where
  pub id : row.id ≡ p.id
  pub sku : row.sku ≡ p.sku
  pub slug : row.slug ≡ p.slug
  pub currency : row.currency ≡ p.currency
  pub created_at : row.created_at ≡ p.created_at
  pub updated_at : row.updated_at ≡ now
  pub name : row.name ≡ default u.name p.name
  pub description : row.description ≡ default u.description p.description

updated-Kept :
    (now : Time) (u : UpdateProduct) (p : Product) {row : Product}
    → updated now u p ≡ ok row
    → Kept now u p row
unfolding updated
updated-Kept now u p e = ground (arith, e)

find-put :
    (id : Uuid) (row : Product) (ps : List Product) {p : Product}
    → row.id ≡ id
    → find (is_product id) ps ≡ some p
    → find (is_product id) (update_where (is_product id) (λ q. row) ps) ≡ some row
find-put id row [] same h = ground (arith, h)
find-put id row (q ∷ qs) {p = p} same h = ground (arith, same, h, find-put id row qs {p = p} same)

find-put_other :
    (id other : Uuid) (row : Product) (ps : List Product)
    → row.id ≡ id
    → (other == id) ≡ false
    → find (is_product other) (update_where (is_product id) (λ q. row) ps)
      ≡ find (is_product other) ps
find-put_other id other row [] same h = refl
find-put_other id other row (q ∷ qs) same h =
    ground (arith, same, h, find-put_other id other row qs same h)

replace_row-ok :
    (id : Uuid) (made : Result Product) (s : Db) {row : Product} {s' : Db}
    → replace_row id made s ≡ (ok (some row), s')
    → (made ≡ ok row) × (s'.products ≡ update_where (is_product id) (λ p. row) s.products)
replace_row-ok id (ok r) s e = ground (arith, e)
replace_row-ok id (err x) s e = ground (arith, e)

-- A product that was updated reads back as the answer; its id, sku, slug, currency and time of
-- creation are those before, its name and description too where the request leaves them out, and
-- every other product reads as before.
pub get-update :
    (now : Time) (id other : Uuid) (u : UpdateProduct) (s : Db) {row : Product} {s' : Db}
    → update_product now id u s ≡ (ok (some row), s')
    → (other == id) ≡ false
    → (p : Product) × (get_product id s ≡ some p)
      × Kept now u p row
      × (get_product id s' ≡ some row)
      × (get_product other s' ≡ get_product other s)
unfolding update_product get_product
get-update now id other u s {row} {s'} e ne = branch (get_product id s) refl e
  where
    branch :
        (found : Option Product)
        → get_product id s ≡ found
        → update_found now u found s ≡ (ok (some row), s')
        → (p : Product) × (get_product id s ≡ some p)
          × Kept now u p row
          × (get_product id s' ≡ some row)
          × (get_product other s' ≡ get_product other s)
    branch none h k = absurd (ground (arith, k))
    branch (some p) h k =
        let (made, after) = replace_row-ok p.id (updated now u p) s k in
        let kept = updated-Kept now u p made in
        let here : p.id ≡ id = ground (arith, find-holds (is_product id) s.products h) in
        let put : s'.products ≡ update_where (is_product id) (λ q. row) s.products =
          after ∙ ap (λ i. update_where (is_product i) (λ q. row) s.products) here in
        (
          p,
          h,
          kept,
          ap (find (is_product id)) put ∙ find-put id row s.products (kept.id ∙ here) h,
          ap (find (is_product other)) put
              ∙ find-put_other id other row s.products (kept.id ∙ here) ne,
        )

-- An update that fails, or that finds no product, changes nothing.
pub update-err :
    (now : Time) (id : Uuid) (u : UpdateProduct) (s : Db) {x : AppError} {s' : Db}
    → update_product now id u s ≡ (err x, s')
    → s' ≡ s
unfolding update_product
update-err now id u s e = ground (arith, e)

pub update-none :
    (now : Time) (id : Uuid) (u : UpdateProduct) (s : Db) {s' : Db}
    → update_product now id u s ≡ (ok none, s')
    → s' ≡ s
unfolding update_product
update-none now id u s e = ground (arith, e)

find-archive :
    (now : Time) (id other : Uuid) (ps : List Product)
    → (other == id) ≡ false
    → find (is_product other) (update_where (is_product id) (archived_at now) ps)
      ≡ find (is_product other) ps
find-archive now id other [] ne = refl
find-archive now id other (q ∷ qs) ne = ground (arith, ne, find-archive now id other qs ne)

pub get-archive :
    (now : Time) (id other : Uuid) (s : Db)
    → (other == id) ≡ false
    → get_product other (archive_product now id s).1 ≡ get_product other s
unfolding archive_product get_product
get-archive now id other s ne = find-archive now id other s.products ne

pub archived_inactive :
    (now : Time) (id : Uuid) (ps : List Product)
    → any
        (λ p. p.id == id && str_eq p.status "active")
        (update_where (is_product id) (archived_at now) ps)
      ≡ false
archived_inactive now id [] = refl
archived_inactive now id (p ∷ ps) = elim (Bool-cases (p.id == id)) [
  | inl hit ↦ rw (hit, hit) (archived_inactive now id ps)
  | inr miss ↦ rw (miss, miss) (archived_inactive now id ps)
]
