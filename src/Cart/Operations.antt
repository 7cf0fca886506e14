-- ===== src/Cart/Operations.antt =====
-- The operations of the cart on every branch: what they answer, what they change, and that the
-- constraints of the schema stay true.
use polyglot_commerce.Prelude.{
  ℕ, ◌+◌, ◌<◌, ◌≡◌, ◌≢◌, refl, ℤ, pos, negsuc, Bool, true, false, not, ◌&&◌, List, [], ◌∷◌, arith,
  ◌==◌, if◌then◌else◌, select, any, update_where, UniqueBy, update_where_none, Bool-cases, inl, inr,
}
use polyglot_commerce.Errors.{AppError}
use polyglot_commerce.Store.{Uuid, Time, CartItemRow, Db, ok, err}
use polyglot_commerce.Store.Consistent.{IsConsistent, same_line}
use polyglot_commerce.Cart.{
  is_line, is_active, upsert, insert_line, set_quantity, add_item, set_item, remove_item, clear,
}
use polyglot_commerce.Cart.Lines.{quantity_in, upsert-quantity}

abbrev pub new_line : Time → Uuid → Uuid → ℕ → CartItemRow
new_line now user_id product_id n = record {
  user_id = user_id;
  product_id = product_id;
  quantity = n;
  added_at = now;
}

-- What a successful `add_item` says of the request and of the database.
pub record Added (now : Time) (user_id product_id : Uuid) (n : ℕ) (s s' : Db) : Type 0 where
  pub positive_amount : 0 < n
  pub active : is_active product_id s ≡ true
  pub lines : upsert (new_line now user_id product_id n) s.cart_items ≡ ok s'.cart_items
  pub rest : s' ≡ record s { cart_items = s'.cart_items }

pub add_item-Added :
    (now : Time) (user_id product_id : Uuid) (n : ℕ) (s : Db) {s' : Db}
    → add_item now user_id product_id (pos n) s ≡ (ok tt, s')
    → Added now user_id product_id n s s'
unfolding add_item insert_line
add_item-Added now user_id product_id n s e = ground arith

pub add_item_negative :
    (now : Time) (user_id product_id : Uuid) (n : ℕ) (s : Db) {s' : Db}
    → add_item now user_id product_id (negsuc n) s ≢ (ok tt, s')
unfolding add_item
add_item_negative now user_id product_id n s = ground arith

-- An `add_item` that fails changes nothing.
pub add_item-err :
    (now : Time) (user_id product_id : Uuid) (qty : ℤ) (s : Db) {x : AppError} {s' : Db}
    → add_item now user_id product_id qty s ≡ (err x, s')
    → s' ≡ s
unfolding add_item insert_line
add_item-err now user_id product_id (pos n) s = ground arith
add_item-err now user_id product_id (negsuc n) s = ground arith

abbrev pub at_line : Uuid → Uuid → Uuid → Uuid → Bool
at_line user_id product_id v r = v == user_id && r == product_id

-- A successful `add_item` was of an active product and of a positive quantity, and adds just that
-- quantity to just that line of that cart.
pub quantity_in-add_item :
    (now : Time) (user_id product_id : Uuid) (qty : ℤ) (s : Db) {s' : Db} (v r : Uuid)
    → add_item now user_id product_id qty s ≡ (ok tt, s')
    → (n : ℕ) × (qty ≡ pos n)
      × (0 < n)
      × (is_active product_id s ≡ true)
      × (quantity_in v r s'.cart_items
          ≡ quantity_in v r s.cart_items + (if at_line user_id product_id v r then n else 0))
quantity_in-add_item now user_id product_id (negsuc n) s v r e =
    absurd (add_item_negative now user_id product_id n s e)
quantity_in-add_item now user_id product_id (pos n) s v r e =
    let done = add_item-Added now user_id product_id n s e in
    let row = new_line now user_id product_id n in
    let added = rw done.lines at (upsert-quantity row v r s.cart_items) in
    (n, refl, done.positive_amount, done.active, ground (arith, added))

quantity_in-absent :
    (user_id product_id : Uuid) (c : CartItemRow) (cs : List CartItemRow)
    → is_line user_id product_id c ≡ true
    → any (same_line c) cs ≡ false
    → quantity_in user_id product_id cs ≡ 0
quantity_in-absent user_id product_id c [] h k = refl
quantity_in-absent user_id product_id c (d ∷ cs) h k =
    ground (arith, quantity_in-absent user_id product_id c cs h)

line-alone :
    (user_id product_id : Uuid) (c : CartItemRow) (cs : List CartItemRow)
    → is_line user_id product_id c ≡ true
    → any (same_line c) cs ≡ false
    → any (is_line user_id product_id) cs ≡ false
line-alone user_id product_id c [] h k = refl
line-alone user_id product_id c (d ∷ cs) h k = ground (arith, line-alone user_id product_id c cs h)

quantity_in-update_where :
    (user_id product_id : Uuid) (n : ℕ) (v r : Uuid) (cs : List CartItemRow)
    → UniqueBy same_line cs
    → any (is_line user_id product_id) cs ≡ true
    → quantity_in v r (update_where (is_line user_id product_id) (set_quantity n) cs)
      ≡ (if at_line user_id product_id v r then n else quantity_in v r cs)
quantity_in-update_where user_id product_id n v r [] u h = cc
quantity_in-update_where user_id product_id n v r (c ∷ cs) u h =
    elim (Bool-cases (is_line user_id product_id c)) [
      | inl hit ↦
          rw
            (update_where_none (is_line user_id product_id) (set_quantity n) cs
              (line-alone user_id product_id c cs hit u.0))
            (ground (arith, hit, quantity_in-absent v r c cs))
      | inr miss ↦ ground (arith, miss, quantity_in-update_where user_id product_id n v r cs u.1)
    ]

pub set_item_negative :
    (user_id product_id : Uuid) (n : ℕ) (s : Db) {s' : Db}
    → set_item user_id product_id (negsuc n) s ≢ (ok tt, s')
unfolding set_item
set_item_negative user_id product_id n s = ground arith

pub set_item-lines :
    (user_id product_id : Uuid) (n : ℕ) (s : Db) {s' : Db}
    → set_item user_id product_id (pos n) s ≡ (ok tt, s')
    → (0 < n)
      × (any (is_line user_id product_id) s.cart_items ≡ true)
      × (s' ≡ record s {
        cart_items = update_where (is_line user_id product_id) (set_quantity n) s.cart_items;
      })
unfolding set_item
set_item-lines user_id product_id n s e = ground arith

-- A `set_item` that fails changes nothing.
pub set_item-err :
    (user_id product_id : Uuid) (qty : ℤ) (s : Db) {x : AppError} {s' : Db}
    → set_item user_id product_id qty s ≡ (err x, s')
    → s' ≡ s
unfolding set_item
set_item-err user_id product_id (pos n) s = ground arith
set_item-err user_id product_id (negsuc n) s = ground arith

-- On a consistent database, a successful `set_item` was of a line that is there and of a positive quantity, and makes that the
-- quantity of that line and of no other.
pub quantity_in-set_item :
    (user_id product_id : Uuid) (qty : ℤ) (s : Db) {s' : Db} (v r : Uuid)
    → IsConsistent s
    → set_item user_id product_id qty s ≡ (ok tt, s')
    → (n : ℕ) × (qty ≡ pos n)
      × (0 < n)
      × (any (is_line user_id product_id) s.cart_items ≡ true)
      × (quantity_in v r s'.cart_items
          ≡ (if at_line user_id product_id v r then n else quantity_in v r s.cart_items))
quantity_in-set_item user_id product_id (negsuc n) s v r h e =
    absurd (set_item_negative user_id product_id n s e)
quantity_in-set_item user_id product_id (pos n) s v r h e =
    let (more, there, after) = set_item-lines user_id product_id n s e in
    (
      n,
      refl,
      more,
      there,
      rw after (quantity_in-update_where user_id product_id n v r s.cart_items h.cart_keys there),
    )

quantity_in-select :
    (user_id product_id v r : Uuid) (cs : List CartItemRow)
    → quantity_in v r (select (λ c. not (is_line user_id product_id c)) cs)
      ≡ (if at_line user_id product_id v r then 0 else quantity_in v r cs)
quantity_in-select user_id product_id v r [] = ground arith
quantity_in-select user_id product_id v r (c ∷ cs) =
    ground (arith, quantity_in-select user_id product_id v r cs)

-- `remove_item` always succeeds, and takes away just that line of that cart.
pub quantity_in-remove_item :
    (user_id product_id : Uuid) (s : Db) (v r : Uuid)
    → ((remove_item user_id product_id s).0 ≡ ok tt)
      × (quantity_in v r (remove_item user_id product_id s).1.cart_items
          ≡ (if at_line user_id product_id v r then 0 else quantity_in v r s.cart_items))
unfolding remove_item
quantity_in-remove_item user_id product_id s v r =
    (refl, quantity_in-select user_id product_id v r s.cart_items)

quantity_in-others :
    (user_id v r : Uuid) (cs : List CartItemRow)
    → quantity_in v r (select (λ c. not (c.user_id == user_id)) cs)
      ≡ (if v == user_id then 0 else quantity_in v r cs)
quantity_in-others user_id v r [] = ground arith
quantity_in-others user_id v r (c ∷ cs) = ground (arith, quantity_in-others user_id v r cs)

-- `clear` always succeeds, and empties the cart of that user and of no other.
pub quantity_in-clear :
    (user_id : Uuid) (s : Db) (v r : Uuid)
    → ((clear user_id s).0 ≡ ok tt)
      × (quantity_in v r (clear user_id s).1.cart_items
          ≡ (if v == user_id then 0 else quantity_in v r s.cart_items))
unfolding clear
quantity_in-clear user_id s v r = (refl, quantity_in-others user_id v r s.cart_items)
