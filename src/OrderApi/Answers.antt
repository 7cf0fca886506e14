-- ===== src/OrderApi/Answers.antt =====
-- What the answer of `POST /v1/orders` says.
use mathlib.Core.Path.{subst}
use polyglot_commerce.Prelude.{
  ℕ, ◌%◌, ◌^◌, ◌≡◌, refl, ◌∙◌, sym, ap, String, true, List, [], ◌∷◌, map, arith, sum_by,
}
use polyglot_commerce.Store.{Uuid, Time, OrderRow, Db, Result, ok, lift, >>=-ok}
use polyglot_commerce.Store.Consistent.{IsConsistent}
use polyglot_commerce.Crates.{UuidText, TimeText, CursorText}
use polyglot_commerce.Access.{AccessClaims, has_permission, require, user_id}
use polyglot_commerce.Orders as Orders
use polyglot_commerce.Orders.{CheckoutRow, order_item, order_items, items_of, checkout_rows}
use polyglot_commerce.Orders.Totals.{exact_total}
use polyglot_commerce.Orders.Success.{Success, checkout-Success}
use polyglot_commerce.Orders.Undo.{items_of-new}
use polyglot_commerce.Pagination.{Cursor}
use polyglot_commerce.OrderApi.{
  OrderResponse, OrderItemResponse, item_response, build, admitted, checkout,
}

-- The sum of the line totals that a response shows.
abbrev pub shown_sum : List OrderItemResponse → ℕ
shown_sum = sum_by (λ (i : OrderItemResponse). i.line_total_cents)

shown_sum-rows :
    (rows : List CheckoutRow)
    → shown_sum (map item_response (map order_item rows)) % 2 ^ 64 ≡ exact_total rows % 2 ^ 64
shown_sum-rows [] = refl
shown_sum-rows (r ∷ rows) = ground (arith, shown_sum-rows rows)

answer-sum :
    (id buyer : Uuid) (s : Db) {order : OrderRow} {s' : Db}
    → IsConsistent s
    → Success id buyer (checkout_rows buyer s) s order s'
    → shown_sum (build order (items_of order.id s'.order_items)).items % 2 ^ 64 ≡ order.total_cents
answer-sum id buyer s {order} h done =
    let rows = checkout_rows buyer s in
    ap (λ (t : Db). shown_sum (map item_response (items_of order.id t.order_items)) % 2 ^ 64)
      done.after
    ∙ ap (λ is. shown_sum (map item_response is) % 2 ^ 64)
        (items_of-new order.id rows s.order_items s.orders (rw done.id_eq done.fresh) h.item_orders)
    ∙ shown_sum-rows rows
    ∙ sym done.total_eq

ok-inj :
    {A : Type 0} {a b : A} {s t : Db}
    → ◌≡◌ {A = Result A × Db} (ok a, s) (ok b, t)
    → (a ≡ b) × (s ≡ t)
ok-inj e = ground (arith, e)

module _ {Bytes : Type 0} (uuids : UuidText) (times : TimeText)
    (text : CursorText Bytes Cursor) where
  admitted-permission :
      (permission : String) (user : AccessClaims) {buyer : Uuid}
      → admitted uuids times text permission user ≡ ok buyer
      → (has_permission user permission ≡ true) × (user_id uuids user ≡ ok buyer)
  unfolding require
  admitted-permission permission user e = ground (arith, e)

  -- On a consistent database, an order that is answered was placed by a user who may write orders, for the user whom the token
  -- names, and the line totals that the answer lists sum up to its total, modulo 2^64.
  pub checkout-answer :
      (id : Uuid) (now : Time) (user : AccessClaims) (s : Db) {answer : ℕ × OrderResponse} {s' : Db}
      → IsConsistent s
      → checkout uuids times text id now user s ≡ (ok answer, s')
      → (has_permission user "order:write" ≡ true)
        × (buyer : Uuid) × (user_id uuids user ≡ ok buyer)
        × (order : OrderRow) × (Orders.checkout id now buyer s ≡ (ok order, s'))
        × (answer.1.id ≡ id)
        × (shown_sum answer.1.items % 2 ^ 64 ≡ answer.1.total_cents)
  unfolding checkout order_items
  checkout-answer id now user s {answer} {s'} h e =
      let (buyer, s₁, let_in, e₁) =
        >>=-ok (lift (admitted uuids times text "order:write" user)) _ s e in
      let (order, s₂, placed, e₂) = >>=-ok (Orders.checkout id now buyer) _ s₁ e₁ in
      let (allowed, named) =
        admitted-permission "order:write" user (ap (λ (r : Result Uuid × Db). r.0) let_in) in
      let same : s₁ ≡ s = sym (ap (λ (r : Result Uuid × Db). r.1) let_in) in
      let placed' : Orders.checkout id now buyer s ≡ (ok order, s₂) =
        subst (λ (t : Db). Orders.checkout id now buyer t ≡ (ok order, s₂)) same placed in
      let done = checkout-Success id now buyer s h placed' in
      let (made, left) = ok-inj e₂ in
      (
        allowed,
        buyer,
        named,
        order,
        placed' ∙ ap (λ t. (ok order, t)) left,
        ap (λ (a : ℕ × OrderResponse). a.1.id) (sym made) ∙ done.id_eq,
        subst (λ (a : ℕ × OrderResponse). shown_sum a.1.items % 2 ^ 64 ≡ a.1.total_cents) made
            (answer-sum id buyer s h done),
      )
