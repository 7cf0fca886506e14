-- ===== src/Cart/Totals.antt =====
-- The response of the cart: one item for each row, and the sum of the line totals.
use polyglot_commerce.Prelude.{
  ℕ, ◌+◌, ◌*◌, ◌%◌, ◌^◌, ◌<◌, ◌≡◌, List, [], ◌∷◌, map, arith, sum_by, wrap_i64,
}
use polyglot_commerce.Cart.{CartItemJoin, cart_item, line_of, collect, from_rows}

-- The sum of the line totals, in the integers.
abbrev pub shown_total : List CartItemJoin → ℕ
shown_total = sum_by (λ r. r.price_cents * r.quantity)

collect_lem :
    (total : ℕ) (rows : List CartItemJoin)
    → total < 2 ^ 64
    → collect total rows ≡ (map cart_item rows, (total + shown_total rows) % 2 ^ 64)
unfolding collect
collect_lem total [] h = ground arith
collect_lem total (r ∷ rows) h = ground (arith, collect_lem (wrap_i64 (total + line_of r)) rows)

-- `from_rows` lists each row with its line total, and its total is the exact sum of price times
-- quantity modulo 2^64.
pub from_rows_lem :
    (rows : List CartItemJoin)
    → ((from_rows rows).items ≡ map cart_item rows)
      × ((from_rows rows).total_cents ≡ shown_total rows % 2 ^ 64)
unfolding from_rows
from_rows_lem rows = ground (arith, collect_lem 0 rows)
