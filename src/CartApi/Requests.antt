-- ===== src/CartApi/Requests.antt =====
-- What the requests that change a cart do to every cart.
use mathlib.Core.Path.{subst}
use polyglot_commerce.Prelude.{ℕ, ◌+◌, ◌≤◌, ◌≡◌, ◌∙◌, sym, ap, pos, true, arith, if◌then◌else◌}
use polyglot_commerce.Store.{Uuid, Time, Db, Result, ok, lift, >>=-ok}
use polyglot_commerce.Crates.{UuidText}
use polyglot_commerce.Access.{AccessClaims, user_id}
use polyglot_commerce.Cart as Cart
use polyglot_commerce.Cart.{
  CartResponse, AddItemRequest, UpdateItemRequest, validate_quantity, from_rows, is_active,
}
use polyglot_commerce.Cart.Lines.{quantity_in}
use polyglot_commerce.Cart.Operations.{at_line, quantity_in-add_item}
use polyglot_commerce.CartApi.{add_item}

validate_quantity-ok : (n : ℕ) → validate_quantity (pos n) ≡ ok tt → (1 ≤ n) × (n ≤ 1000)
unfolding validate_quantity
validate_quantity-ok n e = ground (arith, e)

done-inj :
    {A : Type 0} {a b : A} {s t : Db}
    → ◌≡◌ {A = Result A × Db} (ok a, s) (ok b, t)
    → (a ≡ b) × (s ≡ t)
done-inj e = ground (arith, e)

lift-ok :
    {A : Type 0} (r : Result A) (s : Db) {a : A} {t : Db}
    → lift r s ≡ (ok a, t)
    → (r ≡ ok a) × (s ≡ t)
lift-ok r s e = (ap (λ p. p.0) e, ap (λ p. p.1) e)

module _ (uuids : UuidText) where
  -- A successful `POST /v1/cart/items` was of an active product and of 1 to 1000 units; it adds them
  -- to that line of the caller's cart and to no other line of any cart, and answers the cart that is
  -- stored then.
  pub quantity_in-add_item_request :
      (now : Time) (claims : AccessClaims) (body : AddItemRequest) (s : Db) {answer : CartResponse}
      {s' : Db} (v r : Uuid)
      → add_item uuids now claims body s ≡ (ok answer, s')
      → (user : Uuid) × (n : ℕ) × (user_id uuids claims ≡ ok user)
        × (body.quantity ≡ pos n)
        × (1 ≤ n)
        × (n ≤ 1000)
        × (is_active body.product_id s ≡ true)
        × (quantity_in v r s'.cart_items
            ≡ quantity_in v r s.cart_items + (if at_line user body.product_id v r then n else 0))
        × (answer ≡ from_rows (Cart.get_cart user s'))
  unfolding add_item
  quantity_in-add_item_request now claims body s {answer} {s'} v r e =
      let (unit, s₁, valid, e₁) = >>=-ok (lift (validate_quantity body.quantity)) _ s e in
      let (user, s₂, named, e₂) = >>=-ok (lift (user_id uuids claims)) _ s₁ e₁ in
      let (unit', s₃, added, e₃) =
        >>=-ok (Cart.add_item now user body.product_id body.quantity) _ s₂ e₂ in
      let (checked, same₁) = lift-ok (validate_quantity body.quantity) s valid in
      let (who, same₂) = lift-ok (user_id uuids claims) s₁ named in
      let added' : Cart.add_item now user body.product_id body.quantity s ≡ (ok tt, s₃) =
        subst (λ t. Cart.add_item now user body.product_id body.quantity t ≡ (ok tt, s₃))
          (sym (same₁ ∙ same₂)) added in
      let (shown, left) = done-inj e₃ in
      let (n, amount, more, active, after) =
        quantity_in-add_item now user body.product_id body.quantity s v r (
          subst (λ t. Cart.add_item now user body.product_id body.quantity s ≡ (ok tt, t)) left
            added') in
      let (least, most) =
        validate_quantity-ok n (subst (λ q. validate_quantity q ≡ ok tt) amount checked) in
      (
        user,
        n,
        who,
        amount,
        least,
        most,
        active,
        after,
        sym shown ∙ ap (λ t. from_rows (Cart.get_cart user t)) left,
      )
