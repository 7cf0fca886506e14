-- ===== src/Cart/Lines.antt =====
-- What the upsert of a line does to the quantities of a cart, to its keys and to its CHECK.
use polyglot_commerce.Prelude.{
  ℕ, ◌+◌, ◌^◌, ◌<◌, ◌≡◌, false, List, [], ◌∷◌, arith, leb, if◌then◌else◌, any, sum_by, All,
  UniqueBy, Bool-cases, inl, inr,
}
use polyglot_commerce.Store.{Uuid, CartItemRow, Result, ok, err, and_then}
use polyglot_commerce.Store.Consistent.{same_line}
use polyglot_commerce.Cart.{is_line, upsert}

-- How many units of a product a user has in the cart: the abstract view, which forgets the order
-- and the times of the lines.
abbrev pub quantity_in : Uuid → Uuid → List CartItemRow → ℕ
quantity_in user_id product_id =
    sum_by (λ c. if is_line user_id product_id c then c.quantity else 0)

-- The result, if there is one, has a property.
abbrev pub Holds {ℓ} : {A : Type 0} → (A → Type ℓ) → Result A → Type ℓ
Holds P (ok a) = P a
Holds P (err _) = Unit

-- A row that stays in front of a result.
Holds-cons {ℓ κ ι} :
    (P : List CartItemRow → Type ℓ) (Q : List CartItemRow → Type κ) (R : List CartItemRow → Type ι)
    (c : CartItemRow) (r : Result (List CartItemRow))
    → ((cs : List CartItemRow) → P cs → Q cs → R (c ∷ cs))
    → Holds P r
    → Holds Q r
    → Holds R (and_then r (λ more. ok (c ∷ more)))
Holds-cons P Q R c (ok cs) f p q = f cs p q
Holds-cons P Q R c (err e) f p q = tt

pub upsert-quantity :
    (row : CartItemRow) (user_id product_id : Uuid) (cs : List CartItemRow)
    → Holds
        (λ cs'.
          quantity_in user_id product_id cs'
          ≡ quantity_in user_id product_id cs
            + (if is_line user_id product_id row then row.quantity else 0))
        (upsert row cs)
unfolding upsert
upsert-quantity row user_id product_id [] = ground arith
upsert-quantity row user_id product_id (c ∷ cs) =
    ground (arith, upsert-quantity row user_id product_id cs)

upsert-absent :
    (row x : CartItemRow) (cs : List CartItemRow)
    → same_line x row ≡ false
    → any (same_line x) cs ≡ false
    → Holds (λ cs'. any (same_line x) cs' ≡ false) (upsert row cs)
unfolding upsert
upsert-absent row x [] h k = ground arith
upsert-absent row x (c ∷ cs) h k = ground (arith, upsert-absent row x cs h)

pub upsert-keys :
    (row : CartItemRow) (cs : List CartItemRow)
    → UniqueBy same_line cs
    → Holds (UniqueBy same_line) (upsert row cs)
unfolding upsert
upsert-keys row [] u = ground arith
upsert-keys row (c ∷ cs) u = elim (Bool-cases (is_line row.user_id row.product_id c)) [
  | inl hit ↦ ground arith
  | inr miss ↦
      let apart : same_line c row ≡ false = ground arith in
      rw miss (
        Holds-cons _ _ _ c (upsert row cs) (λ cs' p q. (p, q)) (upsert-absent row c cs apart u.0)
          (upsert-keys row cs u.1))
]

pub upsert-positive :
    (row : CartItemRow) (cs : List CartItemRow)
    → 0 < row.quantity
    → All (λ c. 0 < c.quantity) cs
    → Holds (All (λ c. 0 < c.quantity)) (upsert row cs)
unfolding upsert
upsert-positive row [] p h = (p, tt)
upsert-positive row (c ∷ cs) p h = elim (Bool-cases (is_line row.user_id row.product_id c)) [
  | inl hit ↦ elim (Bool-cases (leb (2 ^ 31) (c.quantity + row.quantity))) [
    | inl over ↦ rw (hit, over) tt
    | inr fits ↦ rw (hit, fits) (omega arith, h.1)
  ]
  | inr miss ↦
      let rest = upsert-positive row cs p h.1 in
      rw miss (Holds-cons _ _ _ c (upsert row cs) (λ cs' q _. (h.0, q)) rest rest)
]
