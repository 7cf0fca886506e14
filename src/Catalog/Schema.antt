-- ===== src/Catalog/Schema.antt =====
-- The constraints of the two tables of the catalog, and what its writes leave alone of the others.
use polyglot_commerce.Prelude.{
  ◌^◌, ◌≡◌, refl, ℤ, pos, negsuc, str_eq, Bool, true, Option, none, some, List, arith, ltb, ◌==◌,
  All, UniqueBy,
}
use polyglot_commerce.Store.{Uuid, Time, Product, Category, Db}
use polyglot_commerce.Catalog.{
  CreateProduct, UpdateProduct, CreateCategory, known_category, get_product, insert_product,
  create_product, update_product, archive_product, create_category,
}
use polyglot_commerce.Catalog.Table.{known_in, AreProducts}

abbrev pub same_category_id : Category → Category → Bool
same_category_id c d = c.id == d.id

abbrev pub same_category_slug : Category → Category → Bool
same_category_slug c d = str_eq c.slug d.slug

pub record IsCatalog (s : Db) : Type 0 where
  pub products : AreProducts s.categories s.products
  pub category_ids : UniqueBy same_category_id s.categories
  pub category_slugs : UniqueBy same_category_slug s.categories
  pub parents : All (λ c. known_in s.categories c.parent_id ≡ true) s.categories

-- The database as a write of the catalog can leave it.
abbrev pub catalog_of : Db → Db → Db
catalog_of s s' = record s { products = s'.products; categories = s'.categories }

-- A stock in a request is an `i32`.
abbrev pub is_i32 : Option ℤ → Bool
is_i32 none = true
is_i32 (some (pos n)) = ltb n (2 ^ 31)
is_i32 (some (negsuc n)) = ltb n (2 ^ 31)

pub known_in-known_category :
    (c : Option Uuid) (s : Db) → known_category c s ≡ known_in s.categories c
known_in-known_category none s = refl
known_in-known_category (some id) s = refl

pub with_products :
    (s : Db) (ps : List Product)
    → AreProducts s.categories ps
    → IsCatalog s
    → IsCatalog (record s { products = ps })
with_products s ps a h = record {
  products = a;
  category_ids = h.category_ids;
  category_slugs = h.category_slugs;
  parents = h.parents;
}

pub create_product_rest :
    (id : Uuid) (now : Time) (p : CreateProduct) (s : Db)
    → let s' = (create_product id now p s).1 in s' ≡ catalog_of s s'
unfolding create_product insert_product
create_product_rest id now p s = ground arith

pub update_product_rest :
    (now : Time) (id : Uuid) (u : UpdateProduct) (s : Db)
    → let s' = (update_product now id u s).1 in s' ≡ catalog_of s s'
unfolding update_product get_product
update_product_rest now id u s = ground arith

pub archive_product_rest :
    (now : Time) (id : Uuid) (s : Db)
    → let s' = (archive_product now id s).1 in s' ≡ catalog_of s s'
unfolding archive_product
archive_product_rest now id s = refl

pub create_category_rest :
    (id : Uuid) (now : Time) (c : CreateCategory) (s : Db)
    → let s' = (create_category id now c s).1 in s' ≡ catalog_of s s'
unfolding create_category
create_category_rest id now c s = ground arith
