-- ===== src/Prelude/Find.antt =====
-- `find` through an insertion at the end and through an update of rows.
use mathlib.Core.Path.{◌≡◌, refl}
use mathlib.Core.Bool.{Bool, true, false}
use mathlib.Core.Option.{some}
use mathlib.Core.List.{List, [], ◌∷◌, ◌++◌}
use native.Mathlib.Omega.{arith}
use polyglot_commerce.Prelude.Tests.{if◌then◌else◌}
use polyglot_commerce.Prelude.Lists.{any, find, update_where}

module _ {ℓ} {A : Type ℓ} (p : A → Bool) where
  pub find-append-found : (xs ys : List A) {x : A} → find p xs ≡ some x → find p (xs ++ ys) ≡ some x
  find-append-found [] ys h = ground arith
  find-append-found (x ∷ xs) ys {x = r} h = ground (arith, find-append-found xs ys {x = r})

  pub find-append-absent : (xs ys : List A) → any p xs ≡ false → find p (xs ++ ys) ≡ find p ys
  find-append-absent [] ys h = refl
  find-append-absent (x ∷ xs) ys h = ground (arith, find-append-absent xs ys)

  pub find-update_where :
      (q : A → Bool) (f : A → A) (xs : List A) {x : A}
      → ((y : A) → p (f y) ≡ p y)
      → find p xs ≡ some x
      → find p (update_where q f xs) ≡ some (if q x then f x else x)
  find-update_where q f [] same h = ground arith
  find-update_where q f (x ∷ xs) {x = r} same h =
      ground (arith, same x, find-update_where q f xs {x = r} same)

  -- What is found satisfies the test.
  pub find-holds : (xs : List A) {x : A} → find p xs ≡ some x → p x ≡ true
  find-holds [] h = ground arith
  find-holds (x ∷ xs) {x = r} h = ground (arith, find-holds xs {x = r})
