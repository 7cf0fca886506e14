-- ===== src/Orders/Cancel.antt =====
-- `cancel` against an abstract description of it: the loop that restocks is one change of the table.
use polyglot_commerce.Prelude.{
  ℕ, ◌+◌, ◌^◌, ◌<◌, ◌≡◌, refl, str_eq, Bool, true, false, ◌&&◌, none, some, Option, List, [], ◌∷◌,
  map, arith, ◌==◌, leb, if◌then◌else◌, any, update_where, All, inl, inr, Bool-cases,
}
use polyglot_commerce.Errors.{not_found, conflict}
use polyglot_commerce.Store.{
  Uuid, Time, Product, OrderRow, OrderItemRow, Db, Result, ok, err, numeric_out_of_range,
  transaction,
}
use polyglot_commerce.Store.Consistent.{IsConsistent}
use polyglot_commerce.Orders.{
  with_stock, return_stock, restock_all, items_of, get_order, cancelled_at, cancel,
}

-- How many units of a product the items give back.
abbrev pub returned : Uuid → List OrderItemRow → ℕ
returned id [] = 0
returned id (i ∷ items) = (if i.product_id == id then i.quantity else 0) + returned id items

abbrev pub restocked : List OrderItemRow → List Product → List Product
restocked items = map (λ p. with_stock p (p.stock_quantity + returned p.id items))

-- Some stock would pass the largest INTEGER.
abbrev pub overflows : List OrderItemRow → List Product → Bool
overflows items = any (λ p. leb (2 ^ 31) (p.stock_quantity + returned p.id items))

abbrev pub order_cancelled : Time → OrderRow → List OrderItemRow → Db → Db
order_cancelled now order items s = record s {
  products = restocked items s.products;
  orders = update_where (λ o. o.id == order.id) (cancelled_at now) s.orders;
}

abbrev pub cancel_result : Time → Uuid → Option OrderRow → Db → Result OrderRow × Db
cancel_result now order_id none s = (err (not_found "order"), s)
cancel_result now order_id (some order) s =
    let items = items_of order_id s.order_items in
    if str_eq order.status "cancelled"
    then (err (conflict "order is already cancelled"), s)
    else if overflows items s.products
    then (err numeric_out_of_range, s)
    else (ok (cancelled_at now order), order_cancelled now order items s)

abbrev given : Uuid → ℕ → Product → Product
given id n p = if p.id == id then with_stock p (p.stock_quantity + n) else p

abbrev pub InRange : List Product → Type 0
InRange = All (λ p. p.stock_quantity < 2 ^ 31)

abbrev too_many : Uuid → ℕ → List Product → Bool
too_many id n = any (λ p. p.id == id && leb (2 ^ 31) (p.stock_quantity + n))

return_stock_lem :
    (id : Uuid) (n : ℕ) (ps : List Product)
    → return_stock id n ps
      ≡ (if too_many id n ps then err numeric_out_of_range else ok (map (given id n) ps))
unfolding return_stock
return_stock_lem id n [] = refl
return_stock_lem id n (p ∷ ps) = ground (arith, return_stock_lem id n ps)

overflows_of_too_many :
    (i : OrderItemRow) (items : List OrderItemRow) (ps : List Product)
    → too_many i.product_id i.quantity ps ≡ true
    → overflows (i ∷ items) ps ≡ true
overflows_of_too_many i items [] h = h
overflows_of_too_many i items (p ∷ ps) h = ground (arith, overflows_of_too_many i items ps)

overflows-given :
    (i : OrderItemRow) (items : List OrderItemRow) (ps : List Product)
    → overflows items (map (given i.product_id i.quantity) ps) ≡ overflows (i ∷ items) ps
overflows-given i items [] = refl
overflows-given i items (p ∷ ps) = ground (arith, overflows-given i items ps)

restocked-given :
    (i : OrderItemRow) (items : List OrderItemRow) (ps : List Product)
    → restocked items (map (given i.product_id i.quantity) ps) ≡ restocked (i ∷ items) ps
restocked-given i items [] = refl
restocked-given i items (p ∷ ps) = ground (arith, restocked-given i items ps)

InRange-given :
    (i : OrderItemRow) (ps : List Product)
    → InRange ps
    → too_many i.product_id i.quantity ps ≡ false
    → InRange (map (given i.product_id i.quantity) ps)
InRange-given i [] h e = tt
InRange-given i (p ∷ ps) h e = (ground arith, InRange-given i ps h.1 (ground arith))

restocked-nil : (ps : List Product) → restocked [] ps ≡ ps
restocked-nil [] = refl
restocked-nil (p ∷ ps) = ground (arith, restocked-nil ps)

not_overflows-nil : (ps : List Product) → InRange ps → overflows [] ps ≡ false
not_overflows-nil [] h = refl
not_overflows-nil (p ∷ ps) h = ground (arith, not_overflows-nil ps h.1)

abbrev after_restock : List OrderItemRow → Db → Result (Unit {0}) × Db
after_restock items s =
    if overflows items s.products
    then (err numeric_out_of_range, s)
    else (ok tt, record s { products = restocked items s.products })

restock_all_lem :
    (items : List OrderItemRow) (s : Db)
    → InRange s.products
    → transaction (restock_all items) s ≡ after_restock items s
unfolding restock_all
restock_all_lem [] s h = ground (arith, not_overflows-nil s.products h, restocked-nil s.products)
restock_all_lem (i ∷ items) s h = elim (Bool-cases (too_many i.product_id i.quantity s.products)) [
  | inl many ↦ ground (
    arith,
    return_stock_lem i.product_id i.quantity s.products,
    overflows_of_too_many i items s.products many,
  )
  | inr fits ↦ ground (
    arith,
    return_stock_lem i.product_id i.quantity s.products,
    overflows-given i items s.products,
    restocked-given i items s.products,
    restock_all_lem items (record s { products = map (given i.product_id i.quantity) s.products })
        (InRange-given i s.products h fits),
  )
]

-- On a consistent database `cancel` is its abstract description: an order that is not the user's,
-- or does not exist, is not found, a cancelled one is a conflict, and a stock that would pass
-- 2^31 - 1 is the database's error, all with nothing changed; else the order is cancelled and every
-- product gets back what the order's items hold of it.
pub cancel_refines :
    (now : Time) (user_id order_id : Uuid) (s : Db)
    → IsConsistent s
    → cancel now user_id order_id s ≡ cancel_result now order_id (get_order user_id order_id s) s
unfolding cancel
cancel_refines now user_id order_id s h =
    ground (arith, restock_all_lem (items_of order_id s.order_items) s h.stocks)
