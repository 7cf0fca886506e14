-- ===== src/Orders/Unordered.antt =====
-- The SELECT of `checkout` has no ORDER BY: what its rows in another order change.
use mathlib.Core.List.{Perm}
use mathlib.Core.List.Perm
use polyglot_commerce.Prelude.{
  ℕ, ◌+◌, ◌*◌, ◌%◌, ◌^◌, ◌<◌, ◌≡◌, refl, ◌∙◌, sym, ap, String, Bool, true, false, not, Option, none,
  some, List, [], ◌∷◌, ◌++◌, arith, ltb, ◌==◌, if◌then◌else◌, sum_by, sum_by-perm, All, All-select,
  Option-cases, inl, inr,
}
use polyglot_commerce.Errors.{status}
use polyglot_commerce.Store.{Uuid, Time, Product, OrderRow, Db, Result, ok, err, transaction}
use polyglot_commerce.Store.Consistent.{IsConsistent}
use polyglot_commerce.Orders.{
  CheckoutRow, cart_of, checkout_rows, order_item, place_order, checkout,
}
use polyglot_commerce.Orders.Totals.{first_short, demand}
use polyglot_commerce.Orders.Stock.{drawn, lines, IsCovered}
use polyglot_commerce.Orders.Success.{checkout-IsCovered}
use polyglot_commerce.Orders.Checkout.{
  confirmed, order_written, checkout_result, checkout_refines, rows_positive, place_rows,
}

-- Two checkouts of one database that differ at most in the order of the items, in the order's
-- currency and in the text of an error.
abbrev pub Alike : Db → Result OrderRow × Db → Result OrderRow × Db → Type 0
Alike s (ok o, t) (ok o', t') =
    (o' ≡ record o { currency = o'.currency })
    × (t'.products ≡ t.products)
    × (t'.cart_items ≡ t.cart_items)
    × (t.orders ≡ s.orders ++ o ∷ [])
    × (t'.orders ≡ s.orders ++ o' ∷ [])
    × Perm t.order_items t'.order_items
Alike s (err e, t) (err e', t') = (status e' ≡ status e) × (t ≡ s) × (t' ≡ s)
Alike s (ok _, _) (err _, _) = ⊥
Alike s (err _, _) (ok _, _) = ⊥

abbrev shorts : List CheckoutRow → ℕ
shorts = sum_by (λ r. if ltb r.stock_quantity r.quantity then 1 else 0)

abbrev zeros : List CheckoutRow → ℕ
zeros = sum_by (λ r. if r.quantity == 0 then 1 else 0)

abbrev shorts_of : Option CheckoutRow → Bool
shorts_of none = false
shorts_of (some _) = true

first_short-shorts :
    (rows : List CheckoutRow) → (shorts rows == 0) ≡ not (shorts_of (first_short rows))
first_short-shorts [] = refl
first_short-shorts (r ∷ rows) = ground (arith, first_short-shorts rows)

demand-eq-sum_by :
    (id : Uuid) (rows : List CheckoutRow)
    → demand id rows ≡ sum_by (λ r. if r.product_id == id then r.quantity else 0) rows
demand-eq-sum_by id [] = refl
demand-eq-sum_by id (r ∷ rows) =
    ap (λ n. (if r.product_id == id then r.quantity else 0) + n) (demand-eq-sum_by id rows)

demand-perm :
    (id : Uuid) {rows rows' : List CheckoutRow} → Perm rows rows' → demand id rows ≡ demand id rows'
demand-perm id {rows} {rows'} p =
    demand-eq-sum_by id rows ∙ sum_by-perm _ p ∙ sym (demand-eq-sum_by id rows')

drawn-perm :
    {rows rows' : List CheckoutRow} (ps : List Product)
    → Perm rows rows'
    → drawn rows' ps ≡ drawn rows ps
drawn-perm [] p = refl
drawn-perm {rows} {rows'} (x ∷ ps) p = rw (demand-perm x.id p, drawn-perm ps p) refl

IsCovered-perm :
    {rows rows' : List CheckoutRow} (ps : List Product)
    → Perm rows rows'
    → IsCovered rows ps
    → IsCovered rows' ps
IsCovered-perm [] p h = tt
IsCovered-perm (x ∷ ps) p h = (rw (demand-perm x.id p) at h.0, IsCovered-perm ps p h.1)

positive-zeros : (rows : List CheckoutRow) → All (λ r. 0 < r.quantity) rows → zeros rows ≡ 0
positive-zeros [] h = refl
positive-zeros (r ∷ rows) h = ground (arith, positive-zeros rows h.1)

zeros-positive : (rows : List CheckoutRow) → zeros rows ≡ 0 → All (λ r. 0 < r.quantity) rows
zeros-positive [] h = tt
zeros-positive (r ∷ rows) h = ground (arith, zeros-positive rows)

-- If no row is short in one order, none is in another.
none_short :
    {rows rows' : List CheckoutRow}
    → Perm rows rows'
    → first_short rows' ≡ none
    → first_short rows ≡ none
none_short {rows} {rows'} p e =
    let few =
      sum_by-perm (λ (x : CheckoutRow). if ltb x.stock_quantity x.quantity then 1 else 0) p in
    let a = first_short-shorts rows in
    let b = first_short-shorts rows' in
    elim (Option-cases (first_short rows)) [
      | inl fine ↦ fine
      | inr (x, short) ↦ absurd (ground (arith, few, a, b))
    ]

written-Alike :
    (id : Uuid) (now : Time) (user_id : Uuid) {total total' : ℕ} (c c' : String)
    (rows rows' : List CheckoutRow) (s : Db)
    → total' ≡ total
    → drawn rows' s.products ≡ drawn rows s.products
    → Perm (lines id rows) (lines id rows')
    → Alike s
        (order_written (confirmed id now user_id total c) rows s)
        (order_written (confirmed id now user_id total' c') rows' s)
written-Alike id now user_id c c' rows rows' s same stock items =
    let moved = Perm.append_left s.order_items items in ground (arith, same)

result-Alike :
    (id : Uuid) (now : Time) (user_id : Uuid) (rows rows' : List CheckoutRow) (s : Db)
    → Perm rows rows'
    → Alike s (checkout_result id now user_id rows s) (checkout_result id now user_id rows' s)
unfolding status
result-Alike id now user_id [] [] s p = (refl, refl, refl)
result-Alike id now user_id [] (r ∷ rows) s p =
    let size = sum_by-perm (λ (x : CheckoutRow). 1) p in absurd (omega arith)
result-Alike id now user_id (r ∷ rows) [] s p =
    let size = sum_by-perm (λ (x : CheckoutRow). 1) p in absurd (omega arith)
result-Alike id now user_id (r ∷ rows) (r' ∷ rows') s p =
    let total = sum_by-perm (λ (x : CheckoutRow). x.price_cents * x.quantity) p in
    elim (Option-cases (first_short (r ∷ rows))) [
      | inl fine ↦
          rw (fine, none_short (Perm.symm p) fine)
            (written-Alike id now user_id r.currency r'.currency (r ∷ rows) (r' ∷ rows') s
              (ap (λ n. n % 2 ^ 64) (sym total)) (drawn-perm s.products p)
              (Perm.map (λ x. (id, order_item x)) p))
      | inr (x, short) ↦ elim (Option-cases (first_short (r' ∷ rows'))) [
        | inl fine' ↦ absurd (cc (none_short p fine'))
        | inr (y, short') ↦ rw (short, short') (refl, refl, refl)
      ]
    ]

-- On a consistent database, the order in which its SELECT gives the rows matters little to a
-- checkout. It succeeds for both orders or for neither. If it fails, the status is the same and
-- nothing has changed. If it succeeds, the two orders differ at most in their currency, each is added to
-- the orders, and the products and the carts are the same after it, as are the items of orders up to
-- their arrangement.
pub checkout-perm :
    (id : Uuid) (now : Time) (user_id : Uuid) (rows : List CheckoutRow) (s : Db)
    → IsConsistent s
    → Perm (checkout_rows user_id s) rows
    → Alike s (checkout id now user_id s) (transaction (place_order id now user_id rows) s)
checkout-perm id now user_id rows s h p =
    let read = checkout_rows user_id s in
    let some_each =
      rows_positive (cart_of user_id s) s.products
        (All-select _ (λ c. c.user_id == user_id) s.cart_items h.quantities) in
    let each = zeros-positive rows (sym (sum_by-perm _ p) ∙ positive-zeros read some_each) in
    let covered : first_short rows ≡ none → IsCovered rows s.products =
      λ e. IsCovered-perm s.products p (checkout-IsCovered user_id s h (none_short p e)) in
    rw (checkout_refines id now user_id s h, place_rows id now user_id rows s each covered)
      (result-Alike id now user_id read rows s p)
