-- ===== src/Store/Action.antt =====
-- The database as a record of tables, and the action of a piece of code on it: a result, which may
-- be an error, beside the database that is left. A statement that fails leaves it as it was.
use polyglot_commerce.Prelude.{◌≡◌, refl, arith, Bool, true, false, Option, none, some, List}
use polyglot_commerce.Errors.{AppError, db_error, database}
use polyglot_commerce.Store.Rows.{
  Uuid, UserRow, Named, RefreshRow, Product, Category, CartItemRow, OrderRow, OrderItemRow,
}

-- The tables. `user_roles` holds (user, role), `role_permissions` holds (role, permission), and an
-- order item stands beside the id of its order.
pub record Db : Type 0 where
  pub users : List UserRow
  pub roles : List Named
  pub user_roles : List (Uuid × Uuid)
  pub permissions : List Named
  pub role_permissions : List (Uuid × Uuid)
  pub refresh_tokens : List RefreshRow
  pub categories : List Category
  pub products : List Product
  pub cart_items : List CartItemRow
  pub orders : List OrderRow
  pub order_items : List (Uuid × OrderItemRow)

-- `AppResult`
pub data Result {ℓ} (A : Type ℓ) : Type ℓ where
  ok : A → Result A
  err : AppError → Result A

abbrev pub Exec : Type 0 → Type 0
Exec A = Db → Result A × Db

module _ {A : Type 0} where
  abbrev pub pure : A → Exec A
  pure a s = (ok a, s)

  abbrev pub fail : AppError → Exec A
  fail e s = (err e, s)

  -- a query
  abbrev pub gets : (Db → A) → Exec A
  gets f s = (ok (f s), s)

  -- `?` on a value that is computed without the database
  abbrev pub lift : Result A → Exec A
  lift r s = (r, s)

  -- `ok_or`
  abbrev pub ok_or : Option A → AppError → Result A
  ok_or none e = err e
  ok_or (some a) e = ok a

  abbrev pub rolled_back : Db → Result A × Db → Result A × Db
  rolled_back s (ok a, s') = (ok a, s')
  rolled_back s (err e, s') = (err e, s)

  -- From `pool.begin()` to `tx.commit()`: an error returns early and drops `tx`, which rolls back.
  abbrev pub transaction : Exec A → Exec A
  transaction m s = rolled_back s (m s)

  pub transaction-err :
      (m : Exec A) (s : Db) {e : AppError} {s' : Db} → transaction m s ≡ (err e, s') → s' ≡ s
  transaction-err m s = ground arith

module _ {A B : Type 0} where
  abbrev pub and_then : Result A → (A → Result B) → Result B
  and_then (ok a) f = f a
  and_then (err e) f = err e

  abbrev pub continue : Result A × Db → (A → Exec B) → Result B × Db
  continue (ok a, s) f = f a s
  continue (err e, s) f = (err e, s)

infixl 5 ◌>>=◌ ◌>>◌
abbrev pub ◌>>=◌ : {A B : Type 0} → Exec A → (A → Exec B) → Exec B
◌>>=◌ m f s = continue (m s) f

abbrev pub ◌>>◌ : {A B : Type 0} → Exec A → Exec B → Exec B
m >> k = m >>= λ _. k

-- a test with an early return
abbrev pub fail_if : Bool → AppError → Exec Unit
fail_if true e s = (err e, s)
fail_if false e s = (ok tt, s)

abbrev pub modify : (Db → Db) → Exec Unit
modify f s = (ok tt, f s)

-- The errors of PostgreSQL that a statement can meet, by their codes.
abbrev pub unique_violation : AppError
unique_violation = database (db_error (some "23505"))

abbrev pub foreign_key_violation : AppError
foreign_key_violation = database (db_error (some "23503"))

abbrev pub check_violation : AppError
check_violation = database (db_error (some "23514"))

abbrev pub numeric_out_of_range : AppError
numeric_out_of_range = database (db_error (some "22003"))

-- A chain that succeeds is one whose parts succeed.
pub >>=-ok :
    {A B : Type 0} (m : Exec A) (f : A → Exec B) (s : Db) {b : B} {s' : Db}
    → (m >>= f) s ≡ (ok b, s')
    → (a : A) × (t : Db) × (m s ≡ (ok a, t)) × (f a t ≡ (ok b, s'))
>>=-ok {A} {B} m f s {b} {s'} e = parts (m s) refl e
  where
    parts :
        (r : Result A × Db)
        → m s ≡ r
        → continue r f ≡ (ok b, s')
        → (a : A) × (t : Db) × (m s ≡ (ok a, t)) × (f a t ≡ (ok b, s'))
    parts (ok a, t) h k = (a, t, h, k)
    parts (err x, t) h k = absurd (ground arith)

pub transaction-ok :
    {A : Type 0} (m : Exec A) (s : Db) {a : A} {s' : Db}
    → transaction m s ≡ (ok a, s')
    → m s ≡ (ok a, s')
transaction-ok {A} m s {a} {s'} e = kept (m s) e
  where
    kept : (r : Result A × Db) → rolled_back s r ≡ (ok a, s') → r ≡ (ok a, s')
    kept (ok b, t) h = h
    kept (err x, t) h = absurd (ground arith)
