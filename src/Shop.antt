-- ===== src/Shop.antt =====
-- The shop as a system of steps: requests of many users, in any order. A checkout is two steps, since
-- others may commit between its reading of the cart and its locks on the products (`resume`).
-- The requests of the catalog are not steps: an administrator may set a stock to any value.
pub mod Stock
pub mod Inactive
use polyglot_commerce.Prelude.{◌+◌, ◌≡◌, ℤ, List, ◌∷◌, ◌++◌}
use polyglot_commerce.Store.{Uuid, Time, CartItemRow, Db}
use polyglot_commerce.Orders.{cart_of, resume, cancel}
use polyglot_commerce.Cart.{add_item, set_item, remove_item, clear}

-- The database, and the checkouts that have read their cart and wait.
pub record Shop : Type 0 where
  pub db : Db
  pub waiting : List (Uuid × List CartItemRow)

pub data Step : Shop → Shop → Type 0 where
  read_cart :
      (s : Shop) (user_id : Uuid)
      → Step s (record s { waiting = (user_id, cart_of user_id s.db) ∷ s.waiting })
  finish :
      (s : Shop) (id : Uuid) (now : Time) (user_id : Uuid) (cs : List CartItemRow)
      (before after : List (Uuid × List CartItemRow))
      → s.waiting ≡ before ++ (user_id, cs) ∷ after
      → Step s (record { db = (resume id now user_id cs s.db).1; waiting = before ++ after })
  cancel_order :
      (s : Shop) (now : Time) (user_id order_id : Uuid)
      → Step s (record s { db = (cancel now user_id order_id s.db).1 })
  add :
      (s : Shop) (now : Time) (user_id product_id : Uuid) (qty : ℤ)
      → Step s (record s { db = (add_item now user_id product_id qty s.db).1 })
  set :
      (s : Shop) (user_id product_id : Uuid) (qty : ℤ)
      → Step s (record s { db = (set_item user_id product_id qty s.db).1 })
  remove :
      (s : Shop) (user_id product_id : Uuid)
      → Step s (record s { db = (remove_item user_id product_id s.db).1 })
  clear_all : (s : Shop) (user_id : Uuid) → Step s (record s { db = (clear user_id s.db).1 })

pub data Reach (s : Shop) : Shop → Type 0 where
  here : Reach s s
  next : {t u : Shop} → Reach s t → Step t u → Reach s u
