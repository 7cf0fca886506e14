-- ===== src/Prelude/Bags.antt =====
-- Sums over lists that are rearranged.
use mathlib.Core.Logic.{∥∥₁_elim}
use mathlib.Core.List.{Perm, Permᴰ}
use native.Mathlib.Nat.{ℕ_set}
use Prim.Native.Nat.{ℕ}
use mathlib.Core.Path.{◌≡◌, refl, ◌∙◌}
use mathlib.Core.List.{List}
use native.Mathlib.Omega.{arith}
use polyglot_commerce.Prelude.Lists.{sum_by}

module _ {ℓ} {A : Type ℓ} (f : A → ℕ) where
  sum_by-Permᴰ : {xs ys : List A} → Permᴰ xs ys → sum_by f xs ≡ sum_by f ys
  sum_by-Permᴰ Permᴰ.nil = refl
  sum_by-Permᴰ (Permᴰ.cons e p) = rw (e, sum_by-Permᴰ p) refl
  sum_by-Permᴰ (Permᴰ.swap {l = l} e d) = rw (e, d) omega arith
  sum_by-Permᴰ (Permᴰ.trans p q) = sum_by-Permᴰ p ∙ sum_by-Permᴰ q

  pub sum_by-perm : {xs ys : List A} → Perm xs ys → sum_by f xs ≡ sum_by f ys
  sum_by-perm p = ∥∥₁_elim p (ℕ_set _ _) sum_by-Permᴰ
