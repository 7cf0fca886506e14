-- ===== src/Orders/Twice.antt =====
-- One cart and two checkouts: what the second one does, where it has read the cart before the first
-- one committed, and where it has not.
use mathlib.Core.Path.{subst}
use polyglot_commerce.Prelude.{
  ◌≢◌, ℕ, ◌-◌, ◌%◌, ◌^◌, ◌<◌, ◌≡◌, refl, sym, ◌∙◌, ap, true, false, not, none, some, List, [], ◌∷◌,
  map, arith, ◌==◌, select, find, Bool-cases, Option-cases, inl, inr,
}
use polyglot_commerce.Errors.{bad_request}
use polyglot_commerce.Store.{Uuid, Time, Product, CartItemRow, OrderRow, Db, Result, ok, err}
use polyglot_commerce.Store.Consistent.{IsConsistent, is_order}
use polyglot_commerce.Orders.{
  CheckoutRow, with_stock, join_products, cart_of, checkout_rows, resume, checkout,
}
use polyglot_commerce.Orders.Totals.{first_short, exact_total, demand}
use polyglot_commerce.Orders.Stock.{drawn}
use polyglot_commerce.Orders.Checkout.{
  is_user, confirmed, checked_out, checkout_result, checkout_refines,
}
use polyglot_commerce.Orders.Success.{checkout-Success}
use polyglot_commerce.Orders.Keeps.{checkout-IsConsistent}
use polyglot_commerce.Orders.Outcomes.{cart_of-IsSnapshot, resume_refines}

-- The rows as they are read once others have been sold.
abbrev reread_row : List CheckoutRow → CheckoutRow → CheckoutRow
reread_row sold r = record r { stock_quantity = r.stock_quantity - demand r.product_id sold }

abbrev pub reread : List CheckoutRow → List CheckoutRow → List CheckoutRow
reread sold = map (reread_row sold)

found_id :
    (id : Uuid) (ps : List Product) {p : Product} → find (λ q. q.id == id) ps ≡ some p → p.id ≡ id
found_id id [] e = cc
found_id id (q ∷ ps) {p} e = ground (arith, found_id id ps {p = p})

abbrev sell : List CheckoutRow → Product → Product
sell sold p = with_stock p (p.stock_quantity - demand p.id sold)

find-drawn-none :
    (id : Uuid) (sold : List CheckoutRow) (ps : List Product)
    → find (λ p. p.id == id) ps ≡ none
    → find (λ p. p.id == id) (drawn sold ps) ≡ none
find-drawn-none id sold [] e = refl
find-drawn-none id sold (p ∷ ps) e = ground (arith, find-drawn-none id sold ps)

find-drawn-some :
    (id : Uuid) (sold : List CheckoutRow) (ps : List Product) {p : Product}
    → find (λ q. q.id == id) ps ≡ some p
    → find (λ q. q.id == id) (drawn sold ps) ≡ some (sell sold p)
find-drawn-some id sold [] e = cc
find-drawn-some id sold (q ∷ ps) {p} e = elim (Bool-cases (q.id == id)) [
  | inl hit ↦ ground arith
  | inr miss ↦ ground (arith, find-drawn-some id sold ps {p = p})
]

join-drawn :
    (sold : List CheckoutRow) (cs : List CartItemRow) (ps : List Product)
    → join_products cs (drawn sold ps) ≡ reread sold (join_products cs ps)
unfolding join_products
join-drawn sold [] ps = refl
join-drawn sold (c ∷ cs) ps = elim (Option-cases (find (λ p. p.id == c.product_id) ps)) [
  | inl missing ↦ rw (missing, find-drawn-none c.product_id sold ps missing, join-drawn sold cs ps)
  | inr (p, found) ↦
      let same : demand p.id sold ≡ demand c.product_id sold =
        ap (λ k. demand k sold) (found_id c.product_id ps found) in
      rw (found, find-drawn-some c.product_id sold ps found, join-drawn sold cs ps) (ground arith)
]

exact_total-reread :
    (sold rows : List CheckoutRow) → exact_total (reread sold rows) ≡ exact_total rows
exact_total-reread sold [] = refl
exact_total-reread sold (r ∷ rows) = ground (arith, exact_total-reread sold rows)

-- The cart is empty once it has been checked out.
cart_of-cleared :
    (user_id : Uuid) (cs : List CartItemRow)
    → select (λ c. c.user_id == user_id) (select (λ c. not (c.user_id == user_id)) cs) ≡ []
cart_of-cleared user_id [] = refl
cart_of-cleared user_id (c ∷ cs) = ground (arith, cart_of-cleared user_id cs)

second_result :
    (id : Uuid) (later : Time) (user_id : Uuid) (total : ℕ) (rows : List CheckoutRow) (s : Db)
    → first_short rows ≡ none
    → rows ≢ []
    → is_order id s.orders ≡ false
    → is_user user_id s ≡ true
    → exact_total rows % 2 ^ 64 ≡ total
    → total < 2 ^ 63
    → (second : OrderRow) × (checkout_result id later user_id rows s
        ≡ (ok second, checked_out second rows s))
      × (second.total_cents ≡ total)
second_result id later user_id total [] s e ne fresh known same lt = absurd (ne refl)
second_result id later user_id total (r ∷ rows) s e ne fresh known same lt =
    (confirmed id later user_id total r.currency, rw (e, same) (ground arith), refl)

reread-ne-nil : (sold rows : List CheckoutRow) → rows ≢ [] → reread sold rows ≢ []
reread-ne-nil sold [] ne = ne
reread-ne-nil sold (r ∷ rows) ne = λ e. cc

-- On a consistent database, where a second checkout, with a fresh id, read the same cart, waits for the locks of the first, which succeeds, and
-- the stock that is left covers the cart once more, it writes a second order for the same rows and
-- the same total.
pub second_checkout :
    (id id' : Uuid) (now later : Time) (user_id : Uuid) (s : Db) {order : OrderRow} {s' : Db}
    → IsConsistent s
    → checkout id now user_id s ≡ (ok order, s')
    → is_order id' s'.orders ≡ false
    → first_short (reread (checkout_rows user_id s) (checkout_rows user_id s)) ≡ none
    → (second : OrderRow) × (resume id' later user_id (cart_of user_id s) s' ≡ (
      ok second,
      checked_out second (reread (checkout_rows user_id s) (checkout_rows user_id s)) s',
    ))
      × (second.total_cents ≡ order.total_cents)
second_checkout id id' now later user_id s {order} {s'} h e fresh enough =
    let done = checkout-Success id now user_id s h e in
    let rows = checkout_rows user_id s in
    let h' : IsConsistent s' =
      subst (λ (r : Result OrderRow × Db). IsConsistent r.1) e
        (checkout-IsConsistent id now user_id s h) in
    let same : join_products (cart_of user_id s) s'.products ≡ reread rows rows =
      ap (λ (t : Db). join_products (cart_of user_id s) t.products) done.after
      ∙ join-drawn rows (cart_of user_id s) s.products in
    let (second, made, total) =
      second_result id' later user_id order.total_cents (reread rows rows) s' enough
        (reread-ne-nil rows rows done.nonempty) fresh
        (ap (is_user user_id) done.after ∙ done.known_user)
        (ap (λ t. t % 2 ^ 64) (exact_total-reread rows rows) ∙ sym done.total_eq) done.total_lt in
    (
      second,
      resume_refines id' later user_id (cart_of user_id s) s' h' (cart_of-IsSnapshot user_id s h)
          ∙ ap (λ rs. checkout_result id' later user_id rs s') same
          ∙ made,
      total,
    )

-- After a checkout has succeeded on a consistent database, a further one by the same user that starts afterwards finds the
-- cart empty and changes nothing.
pub checkout-checkout :
    (id id' : Uuid) (now later : Time) (user_id : Uuid) (s : Db) {order : OrderRow} {s' : Db}
    → IsConsistent s
    → checkout id now user_id s ≡ (ok order, s')
    → checkout id' later user_id s' ≡ (err (bad_request "cart is empty"), s')
checkout-checkout id id' now later user_id s {order} {s'} h e =
    let done = checkout-Success id now user_id s h e in
    let h' : IsConsistent s' =
      subst (λ (r : Result OrderRow × Db). IsConsistent r.1) e
        (checkout-IsConsistent id now user_id s h) in
    let empty : cart_of user_id s' ≡ [] =
      ap (cart_of user_id) done.after
      ∙ ap
          (λ u.
            select (λ c. c.user_id == user_id) (select (λ c. not (c.user_id == u)) s.cart_items))
          done.user_eq
      ∙ cart_of-cleared user_id s.cart_items in
    checkout_refines id' later user_id s' h'
    ∙ ap (λ cs. checkout_result id' later user_id (join_products cs s'.products) s') empty
    ∙ unfold join_products in refl
