-- ===== src/Orders/Totals.antt =====
-- The loops of `checkout` over its rows, as sums: what is asked of each product, and the total.
use polyglot_commerce.Prelude.{
  wrap_i64, ℕ, ◌+◌, ◌*◌, ◌%◌, ◌^◌, ◌≤◌, ◌<◌, ◌≡◌, Option, none, some, List, [], ◌∷◌, arith, ltb,
  ◌==◌, if◌then◌else◌, find, sum_by, All,
}
use polyglot_commerce.Errors.{conflict}
use polyglot_commerce.Store.{Uuid, Result, ok, err}
use polyglot_commerce.Orders.{CheckoutRow, cart_total, insufficient_stock}

-- The first row that asks for more than there is.
abbrev pub first_short : List CheckoutRow → Option CheckoutRow
first_short = find (λ r. ltb r.stock_quantity r.quantity)

-- The sum of the line totals, in the integers.
abbrev pub exact_total : List CheckoutRow → ℕ
exact_total = sum_by (λ r. r.price_cents * r.quantity)

abbrev pub total_or_short : ℕ → Option CheckoutRow → Result ℕ
total_or_short total none = ok total
total_or_short total (some r) = err (conflict (insufficient_stock r))

-- How many units of a product the rows ask for.
abbrev pub demand : Uuid → List CheckoutRow → ℕ
demand id [] = 0
demand id (r ∷ rows) = (if r.product_id == id then r.quantity else 0) + demand id rows

pub cart_total_lem :
    (total : ℕ) (rows : List CheckoutRow)
    → total < 2 ^ 64
    → cart_total total rows
      ≡ total_or_short ((total + exact_total rows) % 2 ^ 64) (first_short rows)
unfolding cart_total
cart_total_lem total [] h = ground arith
cart_total_lem total (r ∷ rows) h =
    ground (arith, cart_total_lem (wrap_i64 (total + wrap_i64 (r.price_cents * r.quantity))) rows)

-- No row is short: each asks for what is there.
pub first_short-eq-none :
    (rows : List CheckoutRow)
    → first_short rows ≡ none
    → All (λ r. r.quantity ≤ r.stock_quantity) rows
first_short-eq-none [] h = tt
first_short-eq-none (r ∷ rows) h = ground (arith, first_short-eq-none rows)
