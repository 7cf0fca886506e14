-- ===== src/Platform/Likeness.antt =====
-- What the requests of the shop leave of a product: all but its stock.
use mathlib.Core.Path.{subst}
use polyglot_commerce.Prelude.{
  ℕ, ◌≡◌, refl, ap, Option, none, some, List, [], ◌∷◌, map, arith, find, All,
}
use polyglot_commerce.Store.{Uuid, Product, CartItemRow, Db}
use polyglot_commerce.Cart.Keeps.{add_item_rest, set_item_rest}
use polyglot_commerce.Cart.{add_item, set_item, remove_item, clear}
use polyglot_commerce.Orders.{with_stock}
use polyglot_commerce.Orders.Outcomes.{IsSnapshot, resume_rule, cancel_rule}
use polyglot_commerce.Shop as Shop
use polyglot_commerce.Shop.Stock as Stock
use polyglot_commerce.Catalog as Catalog
use polyglot_commerce.Catalog.{is_product, CreateProduct, CreateCategory}

-- A product but for its stock.
abbrev pub facts : Option Product → Option Product
facts none = none
facts (some p) = some (with_stock p 0)

-- The same products, but for their stock.
abbrev pub Like : Db → Db → Type 0
Like s t = (id : Uuid) → facts (Catalog.get_product id t) ≡ facts (Catalog.get_product id s)

facts-with_stock :
    (n : Product → ℕ) (id : Uuid) (ps : List Product)
    → facts (find (is_product id) (map (λ p. with_stock p (n p)) ps))
      ≡ facts (find (is_product id) ps)
facts-with_stock n id [] = refl
facts-with_stock n id (p ∷ ps) = ground (arith, facts-with_stock n id ps)

pub same_products-Like : (s t : Db) → t.products ≡ s.products → Like s t
unfolding Catalog.get_product
same_products-Like s t e = λ id. ap (λ ps. facts (find (is_product id) ps)) e

-- No request of the shop changes more of a product than its stock.
pub Step-Like : {s t : Shop.Shop} → Shop.Step s t → Stock.IsSound s → Like s.db t.db
unfolding Catalog.get_product remove_item clear
Step-Like (Shop.read_cart s user_id) h = λ id. refl
Step-Like (Shop.finish s id now user_id lines before after e) h =
    let (snapshot, rest) =
      Stock.All-split (λ (w : Uuid × List CartItemRow). IsSnapshot w.1) before after
        (user_id, lines)
        (subst (All (λ (w : Uuid × List CartItemRow). IsSnapshot w.1)) e h.snapshots) in
    resume_rule id now user_id lines s.db h.consistent snapshot (Like s.db) (λ j. refl)
      λ order status covered fresh j. facts-with_stock _ j s.db.products
Step-Like (Shop.cancel_order s now user_id order_id) h =
    cancel_rule now user_id order_id s.db h.consistent (Like s.db) (λ j. refl)
      λ order found still_open fits j. facts-with_stock _ j s.db.products
Step-Like (Shop.add s now user_id product_id qty) h =
    same_products-Like s.db (add_item now user_id product_id qty s.db).1
      (ap (λ (d : Db). d.products) (add_item_rest now user_id product_id qty s.db))
Step-Like (Shop.set s user_id product_id qty) h =
    same_products-Like s.db (set_item user_id product_id qty s.db).1
      (ap (λ (d : Db). d.products) (set_item_rest user_id product_id qty s.db))
Step-Like (Shop.remove s user_id product_id) h = λ j. refl
Step-Like (Shop.clear_all s user_id) h = λ j. refl
