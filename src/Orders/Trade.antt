-- ===== src/Orders/Trade.antt =====
-- Checkout and cancellation leave the accounts alone and keep the constraints of the catalog.
use polyglot_commerce.Prelude.{
  ℕ, ◌+◌, ◌-◌, ◌^◌, ◌<◌, ◌≡◌, refl, List, [], ◌∷◌, map, All, UniqueBy-map,
}
use polyglot_commerce.Store.{Uuid, Time, Product, Category, CartItemRow, OrderRow, OrderItemRow, Db}
use polyglot_commerce.Store.Consistent.{IsConsistent, same_id}
use polyglot_commerce.Orders.{with_stock, join_products, items_of, resume, cancel}
use polyglot_commerce.Orders.Totals.{demand}
use polyglot_commerce.Orders.Cancel.{returned}
use polyglot_commerce.Orders.Outcomes.{IsSnapshot, resume_rule, cancel_rule}
use polyglot_commerce.Orders.Keeps.{checked_out-IsConsistent, order_cancelled-IsConsistent}
use polyglot_commerce.Catalog.Table.{IsRow, AreProducts, same_sku, same_slug}
use polyglot_commerce.Catalog.Schema.{IsCatalog}

-- The database as a request of the shop can leave it.
abbrev pub trade_of : Db → Db → Db
trade_of s s' = record s {
  products = s'.products;
  cart_items = s'.cart_items;
  orders = s'.orders;
  order_items = s'.order_items;
}

module _ (cs : List Category) (f : Product → ℕ) where
  abbrev stocked : List Product → List Product
  stocked = map (λ p. with_stock p (f p))

  rows-stocked :
      (ps : List Product)
      → All (λ (p : Product). p.stock_quantity < 2 ^ 31) (stocked ps)
      → All (IsRow cs) ps
      → All (IsRow cs) (stocked ps)
  rows-stocked [] small h = tt
  rows-stocked (p ∷ ps) small h = (
    record { stock = small.0; status = h.0.status; category = h.0.category },
    rows-stocked ps small.1 h.1,
  )

  AreProducts-stocked :
      (ps : List Product)
      → All (λ (p : Product). p.stock_quantity < 2 ^ 31) (stocked ps)
      → AreProducts cs ps
      → AreProducts cs (stocked ps)
  AreProducts-stocked ps small h = record {
    ids = UniqueBy-map same_id (λ p. with_stock p (f p)) ps (λ x y. refl) h.ids;
    skus = UniqueBy-map same_sku (λ p. with_stock p (f p)) ps (λ x y. refl) h.skus;
    slugs = UniqueBy-map same_slug (λ p. with_stock p (f p)) ps (λ x y. refl) h.slugs;
    rows = rows-stocked ps small h.rows;
  }

-- What a request of the shop keeps.
pub record Kept (s s' : Db) : Type 0 where
  pub rest : s' ≡ trade_of s s'
  pub catalog : IsCatalog s'

-- A database with changed stocks, in which no other table of the catalog is changed.
IsCatalog-stocked :
    (s : Db) (f : Product → ℕ) (carts : List CartItemRow) (orders : List OrderRow)
    (items : List (Uuid × OrderItemRow))
    → All (λ (p : Product). p.stock_quantity < 2 ^ 31) (stocked s.categories f s.products)
    → IsCatalog s
    → IsCatalog (record s {
      products = stocked s.categories f s.products;
      cart_items = carts;
      orders = orders;
      order_items = items;
    })
IsCatalog-stocked s f carts orders items small h = record {
  products = AreProducts-stocked s.categories f s.products small h.products;
  category_ids = h.category_ids;
  category_slugs = h.category_slugs;
  parents = h.parents;
}

-- A checkout keeps the catalog and the accounts, whether it succeeds or fails.
pub resume-Kept :
    (id : Uuid) (now : Time) (user_id : Uuid) (lines : List CartItemRow) (s : Db)
    → IsConsistent s
    → IsSnapshot lines
    → IsCatalog s
    → Kept s (resume id now user_id lines s).1
resume-Kept id now user_id lines s c snapshot h =
    resume_rule id now user_id lines s c snapshot (Kept s) (record { rest = refl; catalog = h })
      λ order status covered fresh.
        let rows = join_products lines s.products in
        record {
          rest = refl;
          catalog =
              IsCatalog-stocked s (λ p. p.stock_quantity - demand p.id rows) _ _ _
                (checked_out-IsConsistent order rows s fresh c).stocks h;
        }

-- A cancellation keeps the catalog and the accounts, whether it succeeds or fails.
pub cancel-Kept :
    (now : Time) (user_id order_id : Uuid) (s : Db)
    → IsConsistent s
    → IsCatalog s
    → Kept s (cancel now user_id order_id s).1
cancel-Kept now user_id order_id s c h =
    cancel_rule now user_id order_id s c (Kept s) (record { rest = refl; catalog = h })
      λ order found still_open fits.
        let items = items_of order_id s.order_items in
        record {
          rest = refl;
          catalog =
              IsCatalog-stocked s (λ p. p.stock_quantity + returned p.id items) _ _ _
                (order_cancelled-IsConsistent now order items s fits c).stocks h;
        }
