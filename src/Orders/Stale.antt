-- ===== src/Orders/Stale.antt =====
-- The cache of products through a checkout, which does not invalidate it.
use mathlib.Core.Path.{subst}
use polyglot_commerce.Prelude.{
  ◌+◌, ◌-◌, ◌≤◌, ◌≡◌, refl, ◌∙◌, sym, ap, Bool, true, some, List, [], ◌∷◌, arith, ◌==◌, find,
  Bool-cases, inl, inr,
}
use polyglot_commerce.Store.{Uuid, Time, Product, OrderRow, Db, ok}
use polyglot_commerce.Store.Consistent.{IsConsistent}
use polyglot_commerce.Crates.{UuidText}
use polyglot_commerce.Orders.{CheckoutRow, with_stock, checkout_rows, checkout}
use polyglot_commerce.Orders.Totals.{demand}
use polyglot_commerce.Orders.Stock.{drawn, IsCovered}
use polyglot_commerce.Orders.Success.{checkout-Success, checkout-IsCovered}
use polyglot_commerce.Catalog as Catalog
use polyglot_commerce.Catalog.{is_product}
use polyglot_commerce.CatalogApi as CatalogApi
use polyglot_commerce.CatalogApi.{ProductText, State}

-- What a product has left, and that it had what was asked of it.
find-drawn :
    (id : Uuid) (rows : List CheckoutRow) (ps : List Product) {p : Product}
    → IsCovered rows ps
    → find (is_product id) ps ≡ some p
    → (find (is_product id) (drawn rows ps)
        ≡ some (with_stock p (p.stock_quantity - demand id rows)))
      × (demand id rows ≤ p.stock_quantity)
find-drawn id rows [] covered found = absurd (ground (arith, found))
find-drawn id rows (q ∷ ps) {p} covered found = elim (Bool-cases (q.id == id)) [
  | inl hit ↦
      let it : q ≡ p = ground (arith, found, hit) in
      let same : p.id ≡ id = ap (λ (r : Product). r.id) (sym it) ∙ ground (arith, hit) in
      (
        rw hit (
            ap (λ (r : Product). some (with_stock r (r.stock_quantity - demand r.id rows))) it
            ∙ ap (λ (k : Uuid). some (with_stock p (p.stock_quantity - demand k rows))) same),
        subst (λ (k : Uuid). demand k rows ≤ p.stock_quantity) same
            (subst (λ (r : Product). demand r.id rows ≤ r.stock_quantity) it covered.0),
      )
  | inr miss ↦
      let rest = find-drawn id rows ps {p = p} covered.1 (ground (arith, found, miss)) in
      (ground (arith, miss, rest.0), rest.1)
]

-- After a successful checkout on a consistent database, `GET /v1/products/:id` still answers a product
-- that was cached before as it was, while the table has as many units of it less as the cart held: the
-- two differ wherever the cart held any.
pub get_product-checkout :
    (uuids : UuidText) (json : ProductText) (id : Uuid) (now : Time) (user_id product_id : Uuid)
    (up' : Bool) (t : State) {p : Product} {order : OrderRow} {s' : Db}
    → IsConsistent t.db
    → CatalogApi.get uuids json true product_id t.cache ≡ some p
    → Catalog.get_product product_id t.db ≡ some p
    → checkout id now user_id t.db ≡ (ok order, s')
    → ((CatalogApi.get_product uuids json true up' product_id (record t { db = s' })).0 ≡ ok p)
      × (left : Product) × (Catalog.get_product product_id s' ≡ some left)
      × (left.stock_quantity + demand product_id (checkout_rows user_id t.db) ≡ p.stock_quantity)
unfolding Catalog.get_product CatalogApi.get_product
get_product-checkout uuids json id now user_id product_id up' t {p} {order} {s'} h cached stored
      done =
    let rows = checkout_rows user_id t.db in
    let success = checkout-Success id now user_id t.db h done in
    let (found, enough) =
      find-drawn product_id rows t.db.products {p = p}
        (checkout-IsCovered user_id t.db h success.in_stock) stored in
    (
      rw cached refl,
      with_stock p (p.stock_quantity - demand product_id rows),
      ap (λ (s : Db). find (is_product product_id) s.products) success.after ∙ found,
      omega (arith, enough),
    )
