-- ===== src/Orders/Units/Sold.antt =====
-- What the appended and the cancelled orders do to the units sold.
use native.Mathlib.Decide.{ℕ_discrete}
use polyglot_commerce.Prelude.{
  ◌+◌, ◌≡◌, refl, str_eq, true, false, not, ◌&&◌, some, List, [], ◌∷◌, ◌++◌, arith, ◌==◌, find,
  update_where, All, any-append, inl, inr, Bool-cases,
}
use polyglot_commerce.Store.{Uuid, Time, OrderRow, OrderItemRow}
use polyglot_commerce.Store.Consistent.{is_order, is_order-ne}
use polyglot_commerce.Orders.{CheckoutRow, items_of, is_order_of, cancelled_at}
use polyglot_commerce.Orders.Totals.{demand}
use polyglot_commerce.Orders.Stock.{lines}
use polyglot_commerce.Orders.Cancel.{returned}
use polyglot_commerce.Orders.Units.{is_open, sold}

module _ (id : Uuid) (order : OrderRow) (orders : List OrderRow)
    (fresh : is_order order.id orders ≡ false) where
  pub sold-snoc :
      (items : List (Uuid × OrderItemRow))
      → All (λ e. is_order e.0 orders ≡ true) items
      → sold id (orders ++ order ∷ []) items ≡ sold id orders items
  sold-snoc [] h = refl
  sold-snoc ((o, i) ∷ items) h = ground (
    arith,
    sold-snoc items h.1,
    is_order-ne o order.id orders h.0 fresh,
    any-append (λ (x : OrderRow). x.id == o && not (str_eq x.status "cancelled")) orders
        (order ∷ []),
  )

  pub sold-lines :
      (rows : List CheckoutRow)
      → is_open order.id (orders ++ order ∷ []) ≡ true
      → sold id (orders ++ order ∷ []) (lines order.id rows) ≡ demand id rows
  sold-lines [] h = refl
  sold-lines (r ∷ rows) h = ground (arith, sold-lines rows h)

is_open-cancelled :
    (now : Time) (e id : Uuid) (orders : List OrderRow)
    → is_open e (update_where (λ o. o.id == id) (cancelled_at now) orders)
      ≡ (not (e == id) && is_open e orders)
is_open-cancelled now e id [] = ground arith
is_open-cancelled now e id (o ∷ orders) = elim (Bool-cases (o.id == id)) [
  | inl hit ↦ rw hit (ground (arith, is_open-cancelled now e id orders))
  | inr miss ↦ rw miss (ground (arith, is_open-cancelled now e id orders))
]

pub sold-cancelled :
    (now : Time) (id order_id : Uuid) (orders : List OrderRow) (items : List (Uuid × OrderItemRow))
    → is_open order_id orders ≡ true
    → sold id (update_where (λ o. o.id == order_id) (cancelled_at now) orders) items
        + returned id (items_of order_id items)
      ≡ sold id orders items
sold-cancelled now id order_id orders [] h = refl
sold-cancelled now id order_id orders ((o, i) ∷ items) h = elim (ℕ_discrete o order_id) [
  | yes e ↦
      let opened : is_open o orders ≡ true = rw e h in
      ground (
        arith,
        sold-cancelled now id order_id orders items h,
        is_open-cancelled now o order_id orders,
      )
  | no ne ↦ ground (
    arith,
    sold-cancelled now id order_id orders items h,
    is_open-cancelled now o order_id orders,
  )
]

pub is_open_of_found :
    (user_id order_id : Uuid) (orders : List OrderRow) {order : OrderRow}
    → find (is_order_of user_id order_id) orders ≡ some order
    → str_eq order.status "cancelled" ≡ false
    → (is_open order_id orders ≡ true) × (order.id ≡ order_id)
is_open_of_found user_id order_id [] e k = cc
is_open_of_found user_id order_id (o ∷ orders) {order} e k =
    ground (arith, is_open_of_found user_id order_id orders {order = order})
