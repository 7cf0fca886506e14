-- ===== src/Orders/Stock.antt =====
-- The second loop of `checkout` in closed form: every product loses what the rows ask of it.
use mathlib.Core.List.{append-nil, append_assoc}
use native.Mathlib.Decide.{ℕ_discrete}
use polyglot_commerce.Prelude.{
  ℕ, ◌-◌, ◌≤◌, ◌<◌, ◌≡◌, refl, ◌∙◌, true, false, some, inl, inr, Option-cases, List, [], ◌∷◌, ◌++◌,
  map, arith, ◌==◌, if◌then◌else◌, find, any, All, UniqueBy,
}
use polyglot_commerce.Store.{Uuid, Product, CartItemRow, OrderRow, OrderItemRow, Db, ok}
use polyglot_commerce.Store.Consistent.{same_id, same_product}
use polyglot_commerce.Orders.{
  CheckoutRow, join_products, order_item, with_stock, take_stock, insert_order_item, place_lines,
}
use polyglot_commerce.Orders.Totals.{demand}

-- The products once the rows have been taken from the stock.
abbrev pub drawn : List CheckoutRow → List Product → List Product
drawn rows = map (λ p. with_stock p (p.stock_quantity - demand p.id rows))

abbrev pub lines : Uuid → List CheckoutRow → List (Uuid × OrderItemRow)
lines order_id = map (λ r. (order_id, order_item r))

-- No product is asked for more than it has.
abbrev pub IsCovered : List CheckoutRow → List Product → Type 0
IsCovered rows = All (λ p. demand p.id rows ≤ p.stock_quantity)

abbrev withdrawn : Uuid → ℕ → Product → Product
withdrawn id n p = if p.id == id then with_stock p (p.stock_quantity - n) else p

take_stock-eq-map :
    (r : CheckoutRow) (rows : List CheckoutRow) (ps : List Product)
    → IsCovered (r ∷ rows) ps
    → take_stock r.product_id r.quantity ps ≡ ok (map (withdrawn r.product_id r.quantity) ps)
unfolding take_stock
take_stock-eq-map r rows [] h = refl
take_stock-eq-map r rows (p ∷ ps) h = ground (arith, take_stock-eq-map r rows ps h.1)

IsCovered-rest :
    (r : CheckoutRow) (rows : List CheckoutRow) (ps : List Product)
    → IsCovered (r ∷ rows) ps
    → IsCovered rows (map (withdrawn r.product_id r.quantity) ps)
IsCovered-rest r rows [] h = tt
IsCovered-rest r rows (p ∷ ps) h = (ground arith, IsCovered-rest r rows ps h.1)

drawn-cons :
    (r : CheckoutRow) (rows : List CheckoutRow) (ps : List Product)
    → IsCovered (r ∷ rows) ps
    → drawn rows (map (withdrawn r.product_id r.quantity) ps) ≡ drawn (r ∷ rows) ps
drawn-cons r rows [] h = refl
drawn-cons r rows (p ∷ ps) h = ground (arith, drawn-cons r rows ps h.1)

abbrev pub placed : Uuid → List CheckoutRow → Db → Db
placed order_id rows s = record s {
  products = drawn rows s.products;
  order_items = s.order_items ++ lines order_id rows;
}

drawn-nil : (ps : List Product) → drawn [] ps ≡ ps
drawn-nil [] = refl
drawn-nil (p ∷ ps) = ground (arith, drawn-nil ps)

abbrev line_placed : Uuid → CheckoutRow → Db → Db
line_placed order_id r s = record s {
  products = map (withdrawn r.product_id r.quantity) s.products;
  order_items = s.order_items ++ (order_id, order_item r) ∷ [];
}

place_lines-cons :
    (order_id : Uuid) (r : CheckoutRow) (rows : List CheckoutRow) (s : Db)
    → any (λ (o : OrderRow). o.id == order_id) s.orders ≡ true
    → 0 < r.quantity
    → IsCovered (r ∷ rows) s.products
    → place_lines order_id (r ∷ rows) s ≡ place_lines order_id rows (line_placed order_id r s)
unfolding place_lines insert_order_item
place_lines-cons order_id r rows s known pos covered =
    ground (arith, take_stock-eq-map r rows s.products covered)

pub place_lines_lem :
    (order_id : Uuid) (rows : List CheckoutRow) (s : Db)
    → any (λ (o : OrderRow). o.id == order_id) s.orders ≡ true
    → All (λ r. 0 < r.quantity) rows
    → IsCovered rows s.products
    → place_lines order_id rows s ≡ (ok tt, placed order_id rows s)
place_lines_lem order_id [] s known pos covered =
    unfold place_lines in ground (arith, drawn-nil s.products, append-nil s.order_items)
place_lines_lem order_id (r ∷ rows) s known pos covered =
    place_lines-cons order_id r rows s known pos.0 covered
    ∙ place_lines_lem order_id rows (line_placed order_id r s) known pos.1
        (IsCovered-rest r rows s.products covered)
    ∙ ground (
      arith,
      drawn-cons r rows s.products covered,
      append_assoc s.order_items ((order_id, order_item r) ∷ []) (lines order_id rows),
    )

-- A row that the join does not make asks for nothing.
demand-absent :
    (id : Uuid) (cs : List CartItemRow) (ps : List Product)
    → any (λ c. c.product_id == id) cs ≡ false
    → demand id (join_products cs ps) ≡ 0
unfolding join_products
demand-absent id [] ps h = refl
demand-absent id (c ∷ cs) ps h = ground (arith, demand-absent id cs ps)

abbrev FoundIn : List Product → Product → Type 0
FoundIn ps p = find (λ q. q.id == p.id) ps ≡ some p

demand-le-stock :
    (p : Product) (cs : List CartItemRow) (ps : List Product)
    → FoundIn ps p
    → UniqueBy same_product cs
    → All (λ r. r.quantity ≤ r.stock_quantity) (join_products cs ps)
    → demand p.id (join_products cs ps) ≤ p.stock_quantity
unfolding join_products
demand-le-stock p [] ps e u h = omega arith
demand-le-stock p (c ∷ cs) ps e u h = elim (ℕ_discrete c.product_id p.id) [
  | yes same ↦
      let here : find (λ q. q.id == c.product_id) ps ≡ some p = rw same e in
      let alone : demand p.id (join_products cs ps) ≡ 0 =
        demand-absent p.id cs ps (rw (← same) u.0) in
      ground (arith, here, alone)
  | no differ ↦ elim (Option-cases (find (λ q. q.id == c.product_id) ps)) [
    | inl missing ↦ ground (arith, missing, demand-le-stock p cs ps e u.1)
    | inr (q, found) ↦ ground (arith, found, demand-le-stock p cs ps e u.1)
  ]
]

id-ne :
    (x p : Product) (ps : List Product)
    → FoundIn ps p
    → any (same_id x) ps ≡ false
    → (x.id == p.id) ≡ false
id-ne x p [] e absent = cc
id-ne x p (y ∷ ps) e absent = ground (arith, id-ne x p ps)

FoundIn-cons :
    (x : Product) (ps qs : List Product)
    → any (same_id x) ps ≡ false
    → All (FoundIn ps) qs
    → All (FoundIn (x ∷ ps)) qs
FoundIn-cons x ps [] absent h = tt
FoundIn-cons x ps (p ∷ qs) absent h =
    (rw (id-ne x p ps h.0 absent) h.0, FoundIn-cons x ps qs absent h.1)

-- An id finds the product that has it.
pub All-FoundIn : (ps : List Product) → UniqueBy same_id ps → All (FoundIn ps) ps
All-FoundIn [] u = tt
All-FoundIn (x ∷ ps) u = (ground arith, FoundIn-cons x ps ps u.0 (All-FoundIn ps u.1))

-- If no row is short, and no two lines are for one product, the stock covers all the rows.
pub IsCovered-of_rows :
    (cs : List CartItemRow) (ps : List Product)
    → UniqueBy same_id ps
    → UniqueBy same_product cs
    → All (λ r. r.quantity ≤ r.stock_quantity) (join_products cs ps)
    → IsCovered (join_products cs ps) ps
IsCovered-of_rows cs ps ids unique h = covered ps (All-FoundIn ps ids)
  where
    covered : (qs : List Product) → All (FoundIn ps) qs → IsCovered (join_products cs ps) qs
    covered [] e = tt
    covered (p ∷ qs) e = (demand-le-stock p cs ps e.0 unique h, covered qs e.1)
