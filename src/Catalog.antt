-- ===== src/Catalog.antt =====
-- server/src/products/repo.rs: products and categories. The id and the time that the database gives a
-- new row are arguments.
pub mod Changes
pub mod Listing
pub mod Table
pub mod Schema
pub mod Keeps
pub mod Added
use polyglot_commerce.Prelude.{
  ℕ, ◌+◌, ℤ, pos, negsuc, String, str_eq, Bool, true, not, ◌||◌, Option, none, some, List, [], ◌∷◌,
  ◌++◌, ◌==◌, if◌then◌else◌, find, any, update_where, sort_by,
}
use polyglot_commerce.Store.{
  Uuid, Time, Product, Category, Db, Result, ok, err, Exec, and_then, unique_violation,
  foreign_key_violation, check_violation,
}

-- `CreateProduct`
pub record CreateProduct : Type 0 where
  pub sku : String
  pub name : String
  pub slug : String
  pub description : Option String
  pub price_cents : ℤ
  pub currency : Option String
  pub stock_quantity : Option ℤ
  pub category_id : Option Uuid

-- `UpdateProduct`
pub record UpdateProduct : Type 0 where
  pub name : Option String
  pub description : Option String
  pub price_cents : Option ℤ
  pub stock_quantity : Option ℤ
  pub category_id : Option Uuid
  pub status : Option String

-- `CreateCategory`
pub record CreateCategory : Type 0 where
  pub name : String
  pub slug : String
  pub parent_id : Option Uuid

-- `unwrap_or`
abbrev pub default : {A : Type 0} → Option A → A → A
default none d = d
default (some a) d = a

abbrev pub is_product : Uuid → Product → Bool
is_product id p = p.id == id

-- `REFERENCES categories(id)` on a column that may be NULL
abbrev pub known_category : Option Uuid → Db → Bool
known_category none s = true
known_category (some id) s = any (λ (c : Category). c.id == id) s.categories

-- `CHECK (... >= 0)`
abbrev pub not_negative : ℤ → Result ℕ
not_negative (pos n) = ok n
not_negative (negsuc n) = err check_violation

-- `get_product`
unfoldable pub get_product : Uuid → Db → Option Product
get_product id s = find (is_product id) s.products

abbrev pub new_product : Uuid → Time → CreateProduct → ℕ → ℕ → Product
new_product id now p price stock = record {
  id = id;
  sku = p.sku;
  name = p.name;
  slug = p.slug;
  description = default p.description "";
  price_cents = price;
  currency = default p.currency "USD";
  stock_quantity = stock;
  category_id = p.category_id;
  status = "active";
  created_at = now;
  updated_at = now;
}

-- the INSERT of `create_product`, after its CHECKs: the primary key, the UNIQUE columns, then the
-- reference to the category
unfoldable pub insert_product : Product → Exec Product
insert_product row s =
    if any (is_product row.id) s.products
      || any (λ (p : Product). str_eq p.sku row.sku) s.products
      || any (λ (p : Product). str_eq p.slug row.slug) s.products
    then (err unique_violation, s)
    else if not (known_category row.category_id s)
    then (err foreign_key_violation, s)
    else (ok row, record s { products = s.products ++ row ∷ [] })

abbrev insert_checked : Result Product → Exec Product
insert_checked (ok row) s = insert_product row s
insert_checked (err e) s = (err e, s)

-- `create_product`
unfoldable pub create_product : Uuid → Time → CreateProduct → Exec Product
unfolding insert_product
create_product id now p = insert_checked (
    and_then (not_negative p.price_cents) λ price.
      and_then (not_negative (default p.stock_quantity (pos 0)))
        λ stock. ok (new_product id now p price stock))

abbrev checked_default : Option ℤ → ℕ → Result ℕ
checked_default none n = ok n
checked_default (some i) n = not_negative i

abbrev or_else : Option Uuid → Option Uuid → Option Uuid
or_else none d = d
or_else (some id) d = some id

-- `CHECK (status IN ('active', 'archived'))`
abbrev pub known_status : String → Bool
known_status status = str_eq status "active" || str_eq status "archived"

abbrev pub changed : Time → UpdateProduct → ℕ → ℕ → Product → Product
changed now u price stock p = record p {
  name = default u.name p.name;
  description = default u.description p.description;
  price_cents = price;
  stock_quantity = stock;
  category_id = or_else u.category_id p.category_id;
  status = default u.status p.status;
  updated_at = now;
}

-- the SET list of `update_product` on one row, with its CHECKs: what the request leaves out stays
unfoldable pub updated : Time → UpdateProduct → Product → Result Product
updated now u p = and_then (checked_default u.price_cents p.price_cents) λ price.
    and_then (checked_default u.stock_quantity p.stock_quantity) λ stock.
      if known_status (default u.status p.status)
      then ok (changed now u price stock p)
      else err check_violation

-- The new row is in place of the old one, if its reference holds.
abbrev pub replace_row : Uuid → Result Product → Exec (Option Product)
replace_row id (err e) s = (err e, s)
replace_row id (ok row) s =
    if known_category row.category_id s
    then (ok (some row), record s { products = update_where (is_product id) (λ p. row) s.products })
    else (err foreign_key_violation, s)

abbrev pub update_found : Time → UpdateProduct → Option Product → Exec (Option Product)
update_found now u none s = (ok none, s)
update_found now u (some p) s = replace_row p.id (updated now u p) s

-- `update_product`: the id is the primary key, so that at most one row is changed.
unfoldable pub update_product : Time → Uuid → UpdateProduct → Exec (Option Product)
unfolding get_product updated
update_product now id u s = update_found now u (get_product id s) s

abbrev pub archived_at : Time → Product → Product
archived_at now p = record p { status = "archived"; updated_at = now }

-- `archive_product`, which returns whether a row was affected
unfoldable pub archive_product : Time → Uuid → Exec Bool
archive_product now id s = (
  ok (any (is_product id) s.products),
  record s { products = update_where (is_product id) (archived_at now) s.products },
)

-- `list_categories`, by the order of the database's collation
unfoldable pub list_categories : (String → String → Bool) → Db → List Category
list_categories before s = sort_by (λ (c d : Category). before c.name d.name) s.categories

-- `create_category`: the primary key, the UNIQUE slug, the reference to the parent.
unfoldable pub create_category : Uuid → Time → CreateCategory → Exec Category
create_category id now c s =
    let row : Category = record {
      id = id;
      name = c.name;
      slug = c.slug;
      parent_id = c.parent_id;
      created_at = now;
    } in
    if any (λ (d : Category). d.id == id) s.categories
      || any (λ (d : Category). str_eq d.slug c.slug) s.categories
    then (err unique_violation, s)
    else if not (known_category c.parent_id s)
    then (err foreign_key_violation, s)
    else (ok row, record s { categories = s.categories ++ row ∷ [] })
