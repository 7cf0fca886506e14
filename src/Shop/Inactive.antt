-- ===== src/Shop/Inactive.antt =====
-- What the requests of the shop leave of whether a product is active.
use mathlib.Core.Path.{subst}
use polyglot_commerce.Prelude.{
  All-update_where, ℕ, ◌^◌, ◌<◌, ◌≡◌, refl, ◌∙◌, ap, ℤ, str_eq, false, ◌&&◌, List, [], ◌∷◌, map,
  arith, ◌==◌, any, All, UniqueBy-update_where,
}
use polyglot_commerce.Errors.{not_found}
use polyglot_commerce.Store.{Uuid, Time, Product, CartItemRow, Db, err}
use polyglot_commerce.Store.Consistent.{same_id}
use polyglot_commerce.Cart.{is_active, add_item, set_item, remove_item, clear}
use polyglot_commerce.Cart.Keeps.{add_item_rest, set_item_rest}
use polyglot_commerce.Orders.{with_stock}
use polyglot_commerce.Orders.Outcomes.{IsSnapshot, resume_rule, cancel_rule}
use polyglot_commerce.Catalog.{archive_product, archived_at, is_product}
use polyglot_commerce.Catalog.Changes.{archived_inactive}
use polyglot_commerce.Shop.{
  Shop, Step, read_cart, finish, cancel_order, add, set, remove, clear_all, Reach, here, next,
}
use polyglot_commerce.Shop.Stock.{IsSound, All-split, Reach-IsSound}

-- A product is active in both databases, or in neither.
abbrev Agrees : Uuid → Db → Db → Type 0
Agrees id s t = is_active id t ≡ is_active id s

active-with_stock :
    (n : Product → ℕ) (id : Uuid) (ps : List Product)
    → any (λ p. p.id == id && str_eq p.status "active") (map (λ p. with_stock p (n p)) ps)
      ≡ any (λ p. p.id == id && str_eq p.status "active") ps
active-with_stock n id [] = refl
active-with_stock n id (p ∷ ps) = ground (arith, active-with_stock n id ps)

same_products : (id : Uuid) (s t : Db) → t.products ≡ s.products → Agrees id s t
same_products id s t e =
    ap (λ ps. any (λ (p : Product). p.id == id && str_eq p.status "active") ps) e

Step-Agrees : (id : Uuid) {s t : Shop} → Step s t → IsSound s → Agrees id s.db t.db
unfolding remove_item clear
Step-Agrees id (read_cart s user_id) h = refl
Step-Agrees id (finish s order_id now user_id cs before after e) h =
    let (snapshot, rest) =
      All-split (λ (w : Uuid × List CartItemRow). IsSnapshot w.1) before after (user_id, cs)
        (subst (All (λ (w : Uuid × List CartItemRow). IsSnapshot w.1)) e h.snapshots) in
    resume_rule order_id now user_id cs s.db h.consistent snapshot (Agrees id s.db) refl
      λ order status covered fresh. active-with_stock _ id s.db.products
Step-Agrees id (cancel_order s now user_id order_id) h =
    cancel_rule now user_id order_id s.db h.consistent (Agrees id s.db) refl
      λ order found still_open fits. active-with_stock _ id s.db.products
Step-Agrees id (add s now user_id product_id qty) h =
    same_products id s.db (add_item now user_id product_id qty s.db).1
      (ap (λ (d : Db). d.products) (add_item_rest now user_id product_id qty s.db))
Step-Agrees id (set s user_id product_id qty) h =
    same_products id s.db (set_item user_id product_id qty s.db).1
      (ap (λ (d : Db). d.products) (set_item_rest user_id product_id qty s.db))
Step-Agrees id (remove s user_id product_id) h = refl
Step-Agrees id (clear_all s user_id) h = refl

Reach-Agrees : (id : Uuid) {s t : Shop} → Reach s t → IsSound s → Agrees id s.db t.db
Reach-Agrees id here h = refl
Reach-Agrees id (next r step) h = Step-Agrees id step (Reach-IsSound h r) ∙ Reach-Agrees id r h

inactive-add_item :
    (later : Time) (user_id id : Uuid) (qty : ℤ) (s : Db)
    → is_active id s ≡ false
    → add_item later user_id id qty s ≡ (err (not_found "product"), s)
unfolding add_item
inactive-add_item later user_id id qty s e = rw e refl

archived-IsSound :
    (now : Time) (id : Uuid) (s : Shop)
    → IsSound s
    → IsSound (record s { db = (archive_product now id s.db).1 })
unfolding archive_product
archived-IsSound now id s h = record {
  consistent = record {
    product_ids =
        UniqueBy-update_where same_id (is_product id) (archived_at now) s.db.products (λ x y. refl)
          (λ x y. refl) h.consistent.product_ids;
    stocks =
        All-update_where (λ (p : Product). p.stock_quantity < 2 ^ 31) (is_product id)
          (archived_at now) s.db.products (λ p small. small) h.consistent.stocks;
    cart_keys = h.consistent.cart_keys;
    quantities = h.consistent.quantities;
    order_ids = h.consistent.order_ids;
    item_orders = h.consistent.item_orders;
  };
  snapshots = h.snapshots;
}

-- From a shop whose database is consistent and whose waiting checkouts have read at most one line,
-- of a positive quantity, for each product: once a product was archived, and whatever requests of
-- the shop follow, however their checkouts interleave, but no change of the catalog: `add_item` of
-- the product is refused as not found and changes nothing, whoever asks and for how much.
pub add_item-archived :
    (now later : Time) (id user_id : Uuid) (qty : ℤ) (s : Shop) {t : Shop}
    → IsSound s
    → Reach (record s { db = (archive_product now id s.db).1 }) t
    → add_item later user_id id qty t.db ≡ (err (not_found "product"), t.db)
unfolding archive_product
add_item-archived now later id user_id qty s {t} h r =
    inactive-add_item later user_id id qty t.db
      (Reach-Agrees id r (archived-IsSound now id s h) ∙ archived_inactive now id s.db.products)
