-- ===== src/Platform/Frames.antt =====
-- What the requests of each part leave alone, and keep, of the tables of the others.
use mathlib.Core.Path.{subst}
use polyglot_commerce.Prelude.{◌≡◌, refl, sym, List, arith, All, All-map}
use polyglot_commerce.Store.{Uuid, CartItemRow, Db}
use polyglot_commerce.Store.Consistent.{IsConsistent}
use polyglot_commerce.Sessions.{Server}
use polyglot_commerce.Sessions.Service as Service
use polyglot_commerce.Sessions.Minted.{sessions_of}
use polyglot_commerce.Sessions.Effect.{Effect, unchanged, minted, rotated, revoked}
use polyglot_commerce.Cart.{add_item, set_item, remove_item, clear}
use polyglot_commerce.Cart.Keeps.{add_item_rest, set_item_rest}
use polyglot_commerce.Shop as Shop
use polyglot_commerce.Shop.Stock as Stock
use polyglot_commerce.Orders.Outcomes.{IsSnapshot}
use polyglot_commerce.Orders.Trade.{Kept, resume-Kept, cancel-Kept}
use polyglot_commerce.Catalog.Schema as Schema
use polyglot_commerce.Catalog.Schema.{is_i32, IsCatalog}

module _ {Salt Parsed : Type 0} (st : Server Salt Parsed) where
  pub sessions_rest : {s t : Service.Service} → Effect st s t → t.db ≡ sessions_of s.db t.db
  sessions_rest (unchanged same given) = ground (arith, same)
  sessions_rest (minted draw user family new m given) = m.rest
  sessions_rest (rotated draw jti family answer done given) = ground (arith, done.issued.after)
  sessions_rest (revoked family gone given) = ground (arith, gone)

  -- Requests on sessions leave the tables of the shop and of the catalog alone.
  pub sessions-IsConsistent : (s t : Db) → t ≡ sessions_of s t → IsConsistent s → IsConsistent t
  sessions-IsConsistent s t e h = subst IsConsistent (sym e) record {
    product_ids = h.product_ids;
    stocks = h.stocks;
    cart_keys = h.cart_keys;
    quantities = h.quantities;
    order_ids = h.order_ids;
    item_orders = h.item_orders;
  }

  pub sessions-IsCatalog : (s t : Db) → t ≡ sessions_of s t → IsCatalog s → IsCatalog t
  sessions-IsCatalog s t e h = subst IsCatalog (sym e) record {
    products = h.products;
    category_ids = h.category_ids;
    category_slugs = h.category_slugs;
    parents = h.parents;
  }

  -- A write of the catalog that keeps its constraints keeps those of the shop.
  pub catalog-IsConsistent :
      (s t : Db) → t ≡ Schema.catalog_of s t → IsCatalog t → IsConsistent s → IsConsistent t
  catalog-IsConsistent s t e c h = subst IsConsistent (sym e) record {
    product_ids = c.products.ids;
    stocks = All-map t.products (λ p r. r.stock) c.products.rows;
    cart_keys = h.cart_keys;
    quantities = h.quantities;
    order_ids = h.order_ids;
    item_orders = h.item_orders;
  }

cart-Kept : (s s' : Db) → s' ≡ record s { cart_items = s'.cart_items } → IsCatalog s → Kept s s'
cart-Kept s s' e c = record {
  rest = ground (arith, e);
  catalog = subst IsCatalog (sym e) record {
    products = c.products;
    category_ids = c.category_ids;
    category_slugs = c.category_slugs;
    parents = c.parents;
  };
}

-- A request of the shop leaves the accounts alone and keeps the catalog.
pub Step-Kept :
    {s t : Shop.Shop} → Shop.Step s t → Stock.IsSound s → IsCatalog s.db → Kept s.db t.db
unfolding remove_item clear
Step-Kept (Shop.read_cart s user_id) h c = record { rest = refl; catalog = c }
Step-Kept (Shop.finish s id now user_id lines before after e) h c =
    let (snapshot, rest) =
      Stock.All-split (λ (w : Uuid × List CartItemRow). IsSnapshot w.1) before after
        (user_id, lines)
        (subst (All (λ (w : Uuid × List CartItemRow). IsSnapshot w.1)) e h.snapshots) in
    resume-Kept id now user_id lines s.db h.consistent snapshot c
Step-Kept (Shop.cancel_order s now user_id order_id) h c =
    cancel-Kept now user_id order_id s.db h.consistent c
Step-Kept (Shop.add s now user_id product_id qty) h c =
    cart-Kept s.db (add_item now user_id product_id qty s.db).1
      (add_item_rest now user_id product_id qty s.db) c
Step-Kept (Shop.set s user_id product_id qty) h c =
    cart-Kept s.db (set_item user_id product_id qty s.db).1
      (set_item_rest user_id product_id qty s.db) c
Step-Kept (Shop.remove s user_id product_id) h c =
    cart-Kept s.db (remove_item user_id product_id s.db).1 refl c
Step-Kept (Shop.clear_all s user_id) h c = cart-Kept s.db (clear user_id s.db).1 refl c
