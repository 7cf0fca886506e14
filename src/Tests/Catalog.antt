-- ===== src/Tests/Catalog.antt =====
-- The catalog and its cache on the small shop, with a JSON that knows one product.
use polyglot_commerce.Prelude.{
  zero, suc, ◌≡◌, ◌⊎◌, refl, ◌∙◌, sym, ap, pos, String, str_eq, eq_iff, Bool, true, false, ◌&&◌,
  Option, none, some, [], ◌∷◌, arith, ◌==◌, if◌then◌else◌, Bool-cases, inl, inr,
}
use polyglot_commerce.Errors.{not_found}
use polyglot_commerce.Store.{Uuid, Product, Db, ok, ok_or}
use polyglot_commerce.Access.{AccessClaims}
use polyglot_commerce.Catalog as Catalog
use polyglot_commerce.Catalog.{UpdateProduct, updated}
use polyglot_commerce.Catalog.Changes.{Kept, get-update}
use polyglot_commerce.CatalogApi as Api
use polyglot_commerce.CatalogApi.{ProductText, State, get, key_of}
use polyglot_commerce.CatalogApi.Entries.{key_of-inj}
use polyglot_commerce.CatalogApi.Coherence.{
  IsCoherent, get_product-IsCoherent, update_product-IsCoherent, archive_product-IsCoherent,
}
use polyglot_commerce.Catalog.Listing.{
  Filter, catalog, is_blank, list_products, follow-list_products,
}
use polyglot_commerce.Pagination.Follow.{follow}
use polyglot_commerce.Tests.Crates.Cursors.{packed_cursors}
use polyglot_commerce.Tests.Orders.{shop_db-IsConsistent}
use polyglot_commerce.Tests.{shop_db, keyboard, book}
use polyglot_commerce.Tests.Crates.{unary_times, unary_ids, unary}

abbrev is_none : Option Uuid → Bool
is_none none = true
is_none (some id) = false

abbrev is_keyboard : Product → Bool
is_keyboard p =
    p.id == 1
    && str_eq p.sku "ELEC-1001"
    && str_eq p.name "Mechanical Keyboard"
    && str_eq p.slug "mechanical-keyboard"
    && str_eq p.description ""
    && p.price_cents == 12900
    && str_eq p.currency "USD"
    && p.stock_quantity == 5
    && is_none p.category_id
    && str_eq p.status "active"
    && p.created_at == 20
    && p.updated_at == 20

only_keyboard : (p : Product) → is_keyboard p ≡ true → p ≡ keyboard
only_keyboard p h = ground (
  arith,
  h,
  eq_iff p.sku "ELEC-1001",
  eq_iff p.name "Mechanical Keyboard",
  eq_iff p.slug "mechanical-keyboard",
  eq_iff p.description "",
  eq_iff p.currency "USD",
  eq_iff p.status "active",
)

abbrev write : Product → Option String
write p = if is_keyboard p then some "keyboard" else none

abbrev parse : String → Option Product
parse s = if str_eq s "keyboard" then some keyboard else none

pub parse-write : (p : Product) (s : String) → write p ≡ some s → parse s ≡ some p
parse-write p s e = elim (Bool-cases (is_keyboard p)) [
  | inl known ↦
      let name : "keyboard" ≡ s = ground (arith, e, known) in
      ap parse (sym name) ∙ ap some (sym (only_keyboard p known))
  | inr unknown ↦ absurd (ground (arith, e, unknown))
]

abbrev pub json : ProductText
json = record { to_string = write; from_str = parse; from_str_to_string = parse-write }

abbrev pub cached : State
cached = record { db = shop_db; cache = ("catalog:product:u", "keyboard") ∷ [] }

agrees :
    (id : Uuid)
    → (get unary_ids json true id cached.cache ≡ none)
      ⊎ (get unary_ids json true id cached.cache ≡ Catalog.get_product id shop_db)
unfolding get Catalog.get_product unary
agrees zero = inl refl
agrees (suc zero) = inr refl
agrees (suc (suc n)) =
    elim (Bool-cases (str_eq (key_of unary_ids 1) (key_of unary_ids (suc (suc n))))) [
      | inl same ↦ absurd (omega (arith, key_of-inj unary_ids json 1 (suc (suc n)) same))
      | inr differ ↦ inl (rw differ refl)
    ]

get_product-IsCoherent_example :
    ((Api.get_product unary_ids json true true 2 cached).0
      ≡ ok_or (Catalog.get_product 2 shop_db) (not_found "product"))
    × IsCoherent unary_ids json (Api.get_product unary_ids json true true 2 cached).1
get_product-IsCoherent_example = get_product-IsCoherent unary_ids json true true 2 cached agrees

abbrev pub admin : AccessClaims
admin = record {
  sub = "uuuuuuu";
  roles = "admin" ∷ [];
  permissions = "*" ∷ [];
  iss = "shop";
  aud = "shop";
  iat = pos 12;
  exp = pos 22;
  jti = "uuu";
  typ = "access";
}

abbrev pub cheaper : UpdateProduct
cheaper = record {
  name = none;
  description = none;
  price_cents = some (pos 9900);
  stock_quantity = none;
  category_id = none;
  status = none;
}

update_product-IsCoherent_example :
    IsCoherent unary_ids json (Api.update_product unary_ids json true 50 admin 1 cheaper cached).1
update_product-IsCoherent_example =
    update_product-IsCoherent unary_ids json 50 admin 1 cheaper cached agrees

archive_product-IsCoherent_test :
    IsCoherent unary_ids json (Api.archive_product unary_ids json true 50 admin 1 cached).1
archive_product-IsCoherent_test = archive_product-IsCoherent unary_ids json 50 admin 1 cached agrees

abbrev pub cheap_keyboard : Product
cheap_keyboard = record keyboard { price_cents = 9900; updated_at = 50 }

abbrev pub repriced : Db
repriced = record shop_db { products = cheap_keyboard ∷ book ∷ [] }

sample_update : Catalog.update_product 50 1 cheaper shop_db ≡ (ok (some cheap_keyboard), repriced)
unfolding Catalog.update_product Catalog.get_product updated
sample_update = refl

get-update_example :
    (p : Product) × (Catalog.get_product 1 shop_db ≡ some p)
    × Kept 50 cheaper p cheap_keyboard
    × (Catalog.get_product 1 repriced ≡ some cheap_keyboard)
    × (Catalog.get_product 2 repriced ≡ Catalog.get_product 2 shop_db)
get-update_example =
    get-update 50 1 2 cheaper shop_db {row = cheap_keyboard} {s' = repriced} sample_update refl

-- Books that match the term: the search looks for the one word in the name.
abbrev books : Filter
books = record { category_id = none; q = some "Applications" }

abbrev search : String → Product → Bool
search term p = str_eq p.name "Designing Data-Intensive Applications"

follow-list_products_example :
    follow 2
      (λ c.
        list_products search unary_ids unary_times packed_cursors
          (record { limit = some (pos 0); cursor = c; filter = books })
          shop_db)
      none
    ≡ ok (catalog search books shop_db)
unfolding is_blank
follow-list_products_example =
    follow-list_products search unary_ids unary_times packed_cursors books (some (pos 0)) shop_db 2
      shop_db-IsConsistent (omega arith)
