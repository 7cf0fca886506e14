-- ===== src/Prelude/Sort.antt =====
-- ORDER BY: a stable insertion sort by a Boolean test.
use Prim.Native.Nat.{ℕ, ◌+◌}
use mathlib.Core.Path.{◌≡◌, refl}
use mathlib.Core.Bool.{Bool}
use mathlib.Core.List.{List, [], ◌∷◌}
use native.Mathlib.Omega.{arith}
use polyglot_commerce.Prelude.Tests.{if◌then◌else◌}
use polyglot_commerce.Prelude.Lists.{sum_by}

module _ {ℓ} {A : Type ℓ} where
  -- `x` goes in front of the first row that does not come before it.
  abbrev pub insert_by : (A → A → Bool) → A → List A → List A
  insert_by before x [] = x ∷ []
  insert_by before x (y ∷ ys) =
      let rest = insert_by before x ys in if before y x then y ∷ rest else x ∷ y ∷ ys

  abbrev pub sort_by : (A → A → Bool) → List A → List A
  sort_by before [] = []
  sort_by before (x ∷ xs) = insert_by before x (sort_by before xs)

  sum_by-insert_by :
      (f : A → ℕ) (before : A → A → Bool) (x : A) (xs : List A)
      → sum_by f (insert_by before x xs) ≡ f x + sum_by f xs
  sum_by-insert_by f before x [] = refl
  sum_by-insert_by f before x (y ∷ ys) = ground (arith, sum_by-insert_by f before x ys)

  pub sum_by-sort_by :
      (f : A → ℕ) (before : A → A → Bool) (xs : List A) → sum_by f (sort_by before xs) ≡ sum_by f xs
  sum_by-sort_by f before [] = refl
  sum_by-sort_by f before (x ∷ xs) =
      ground (arith, sum_by-insert_by f before x (sort_by before xs), sum_by-sort_by f before xs)
