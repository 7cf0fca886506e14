-- ===== src/Catalog/Added.antt =====
-- What `create_product` does to the other products.
use polyglot_commerce.Prelude.{
  ◌≡◌, ◌⊎◌, refl, pos, none, List, [], ◌∷◌, ◌++◌, arith, ◌==◌, find, Bool-cases, inl, inr,
}
use polyglot_commerce.Store.{Uuid, Time, Product, Db, Result, ok, err, and_then}
use polyglot_commerce.Catalog.{
  CreateProduct, is_product, get_product, insert_product, insert_checked, create_product,
  not_negative, new_product, default,
}

find-snoc :
    (row : Product) (j : Uuid) (ps : List Product)
    → (find (is_product j) (ps ++ row ∷ []) ≡ find (is_product j) ps)
      ⊎ (find (is_product j) ps ≡ none)
find-snoc row j [] = inr refl
find-snoc row j (p ∷ ps) = elim (Bool-cases (p.id == j)) [
  | inl hit ↦ inl (ground (arith, hit))
  | inr miss ↦ elim (find-snoc row j ps) [
    | inl same ↦ inl (ground (arith, miss, same))
    | inr absent ↦ inr (ground (arith, miss, absent))
  ]
]

-- A product reads as before, or there was none.
abbrev Grown : Uuid → Db → Db → Type 0
Grown j s t = (get_product j t ≡ get_product j s) ⊎ (get_product j s ≡ none)

insert_product-Grown : (row : Product) (j : Uuid) (s : Db) → Grown j s (insert_product row s).1
unfolding insert_product get_product
insert_product-Grown row j s = elim (find-snoc row j s.products) [
  | inl same ↦ inl (ground (arith, same))
  | inr absent ↦ inr absent
]

insert_checked-Grown :
    (made : Result Product) (j : Uuid) (s : Db) → Grown j s (insert_checked made s).1
insert_checked-Grown (err x) j s = inl refl
insert_checked-Grown (ok row) j s = insert_product-Grown row j s

pub get_product-create :
    (id : Uuid) (now : Time) (p : CreateProduct) (s : Db) (j : Uuid)
    → (get_product j (create_product id now p s).1 ≡ get_product j s) ⊎ (get_product j s ≡ none)
unfolding create_product
get_product-create id now p s j =
    insert_checked-Grown
      (and_then (not_negative p.price_cents) λ price.
        and_then (not_negative (default p.stock_quantity (pos 0)))
          λ stock. ok (new_product id now p price stock))
      j s
