-- ===== src/Shop/Stock.antt =====
-- No interleaving of requests oversells.
use mathlib.Core.Path.{subst}
use polyglot_commerce.Prelude.{ℕ, ◌+◌, ◌≡◌, refl, ◌∙◌, true, List, [], ◌∷◌, ◌++◌, All}
use polyglot_commerce.Store.{Uuid, Db}
use polyglot_commerce.Store.Consistent.{IsConsistent}
use polyglot_commerce.Orders.Keeps.{cancel-IsConsistent, resume-IsConsistent}
use polyglot_commerce.Orders.Outcomes.{IsSnapshot, cart_of-IsSnapshot}
use polyglot_commerce.Orders.Units.{is_product, units, stock_of, sold}
use polyglot_commerce.Orders.Units.Conserved.{
  units-resume, units-cancel, is_product-resume, is_product-cancel,
}
use polyglot_commerce.Cart.{remove_item, clear}
use polyglot_commerce.Cart.Keeps.{
  add_item-IsConsistent, set_item-IsConsistent, remove_item-IsConsistent, clear-IsConsistent,
  add_item_rest, set_item_rest,
}
use polyglot_commerce.Shop.{
  Shop, Step, read_cart, finish, cancel_order, add, set, remove, clear_all, Reach, here, next,
}

-- The database is consistent, and so is what the waiting checkouts have read.
pub record IsSound (s : Shop) : Type 0 where
  pub consistent : IsConsistent s.db
  pub snapshots : All (λ w. IsSnapshot w.1) s.waiting

pub All-split {ℓ κ} :
    {A : Type ℓ} (P : A → Type κ) (xs ys : List A) (y : A)
    → All P (xs ++ y ∷ ys)
    → P y × All P (xs ++ ys)
All-split P [] ys y h = h
All-split P (x ∷ xs) ys y h = let (hy, rest) = All-split P xs ys y h.1 in (hy, (h.0, rest))

pub Step-IsSound : {s t : Shop} → Step s t → IsSound s → IsSound t
Step-IsSound (read_cart s user_id) h = record {
  consistent = h.consistent;
  snapshots = (cart_of-IsSnapshot user_id s.db h.consistent, h.snapshots);
}
Step-IsSound (finish s id now user_id cs before after e) h =
    let (snapshot, rest) =
      All-split (λ w. IsSnapshot w.1) before after (user_id, cs)
        (subst (All (λ w. IsSnapshot w.1)) e h.snapshots) in
    record {
      consistent = resume-IsConsistent id now user_id cs s.db h.consistent snapshot;
      snapshots = rest;
    }
Step-IsSound (cancel_order s now user_id order_id) h = record {
  consistent = cancel-IsConsistent now user_id order_id s.db h.consistent;
  snapshots = h.snapshots;
}
Step-IsSound (add s now user_id product_id qty) h = record {
  consistent = add_item-IsConsistent now user_id product_id qty s.db h.consistent;
  snapshots = h.snapshots;
}
Step-IsSound (set s user_id product_id qty) h = record {
  consistent = set_item-IsConsistent user_id product_id qty s.db h.consistent;
  snapshots = h.snapshots;
}
Step-IsSound (remove s user_id product_id) h = record {
  consistent = remove_item-IsConsistent user_id product_id s.db h.consistent;
  snapshots = h.snapshots;
}
Step-IsSound (clear_all s user_id) h = record {
  consistent = clear-IsConsistent user_id s.db h.consistent;
  snapshots = h.snapshots;
}

-- From a sound shop, whatever the requests and their order, the constraints of the schema stay true.
pub Reach-IsSound : {s t : Shop} → IsSound s → Reach s t → IsSound t
Reach-IsSound h here = h
Reach-IsSound h (next r st) = Step-IsSound st (Reach-IsSound h r)

-- A product that is there, with so many units in stock and in open orders.
abbrev Has : Uuid → ℕ → Db → Type 0
Has id n s = (is_product id s.products ≡ true) × (units id s ≡ n)

Step-Has : {s t : Shop} (id : Uuid) (n : ℕ) → Step s t → IsSound s → Has id n s.db → Has id n t.db
Step-Has id n (read_cart s user_id) h k = k
Step-Has id n (finish s i now user_id cs before after e) h k =
    let (snapshot, rest) =
      All-split (λ w. IsSnapshot w.1) before after (user_id, cs)
        (subst (All (λ w. IsSnapshot w.1)) e h.snapshots) in
    (
      is_product-resume id i now user_id cs s.db h.consistent snapshot ∙ k.0,
      units-resume id i now user_id cs s.db h.consistent snapshot k.0 ∙ k.1,
    )
Step-Has id n (cancel_order s now user_id order_id) h k = (
  is_product-cancel id now user_id order_id s.db h.consistent ∙ k.0,
  units-cancel id now user_id order_id s.db h.consistent k.0 ∙ k.1,
)
Step-Has id n (add s now user_id product_id qty) h k =
    rw (add_item_rest now user_id product_id qty s.db) k
Step-Has id n (set s user_id product_id qty) h k = rw (set_item_rest user_id product_id qty s.db) k
Step-Has id n (remove s user_id product_id) h k = unfold remove_item in k
Step-Has id n (clear_all s user_id) h k = unfold clear in k

-- From a sound shop that has the product, whatever the requests of the users and however their
-- checkouts interleave, the units of a product
-- in stock and in open orders stay the same in sum: what is sold came out of the stock.
pub units-Reach :
    {s t : Shop} (id : Uuid)
    → IsSound s
    → is_product id s.db.products ≡ true
    → Reach s t
    → stock_of id t.db.products + sold id t.db.orders t.db.order_items ≡ units id s.db
units-Reach {s} id h there r = (run r).1
  where
    run : {t : Shop} → Reach s t → Has id (units id s.db) t.db
    run here = (there, refl)
    run (next r st) = Step-Has id (units id s.db) st (Reach-IsSound h r) (run r)
