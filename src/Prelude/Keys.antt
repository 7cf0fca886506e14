-- ===== src/Prelude/Keys.antt =====
-- Uniqueness of keys under what statements do to a table: rows mapped, updated, appended.
use mathlib.Core.Path.{◌≡◌, refl, ◌∙◌}
use mathlib.Core.Bool.{Bool, false}
use mathlib.Core.List.{List, [], ◌∷◌, ◌++◌, map}
use mathlib.Core.Logic.{inl, inr}
use native.Mathlib.Omega.{arith}
use polyglot_commerce.Prelude.Tests.{Bool-cases, if◌then◌else◌}
use polyglot_commerce.Prelude.Lists.{any, update_where, All, UniqueBy, any-append}

module _ {ℓ} {A : Type ℓ} where
  pub any-map :
      (p q : A → Bool) (f : A → A) (xs : List A)
      → ((x : A) → q (f x) ≡ p x)
      → any q (map f xs) ≡ any p xs
  any-map p q f [] h = refl
  any-map p q f (x ∷ xs) h = ground (arith, h x, any-map p q f xs h)

  pub UniqueBy-map :
      (same : A → A → Bool) (f : A → A) (xs : List A)
      → ((x y : A) → same (f x) (f y) ≡ same x y)
      → UniqueBy same xs
      → UniqueBy same (map f xs)
  UniqueBy-map same f [] h u = tt
  UniqueBy-map same f (x ∷ xs) h u =
      (any-map (same x) (same (f x)) f xs (h x) ∙ u.0, UniqueBy-map same f xs h u.1)

  pub update_where-eq-map :
      (p : A → Bool) (f : A → A) (xs : List A)
      → update_where p f xs ≡ map (λ x. if p x then f x else x) xs
  update_where-eq-map p f [] = refl
  update_where-eq-map p f (x ∷ xs) = rw (update_where-eq-map p f xs)

  pub update_where_none :
      (p : A → Bool) (f : A → A) (xs : List A) → any p xs ≡ false → update_where p f xs ≡ xs
  update_where_none p f [] h = refl
  update_where_none p f (x ∷ xs) h = ground (arith, update_where_none p f xs)

  -- An update that leaves a test alone does not change whether some row passes it.
  pub any-update_where :
      (q p : A → Bool) (f : A → A) (xs : List A)
      → ((x : A) → q (f x) ≡ q x)
      → any q (update_where p f xs) ≡ any q xs
  any-update_where q p f [] h = refl
  any-update_where q p f (x ∷ xs) h = ground (arith, h x, any-update_where q p f xs h)

  pub any_same : (p q : A → Bool) (xs : List A) → ((x : A) → p x ≡ q x) → any p xs ≡ any q xs
  any_same p q [] h = refl
  any_same p q (x ∷ xs) h = ground (arith, h x, any_same p q xs h)

  pub UniqueBy-update_where :
      (same : A → A → Bool) (p : A → Bool) (f : A → A) (xs : List A)
      → ((x y : A) → same (f x) y ≡ same x y)
      → ((x y : A) → same x (f y) ≡ same x y)
      → UniqueBy same xs
      → UniqueBy same (update_where p f xs)
  UniqueBy-update_where same p f [] h k u = tt
  UniqueBy-update_where same p f (x ∷ xs) h k u = elim (Bool-cases (p x)) [
    | inl hit ↦ rw hit (
      any-update_where (same (f x)) p f xs (k (f x))
          ∙ any_same (same (f x)) (same x) xs (h x)
          ∙ u.0,
      UniqueBy-update_where same p f xs h k u.1,
    )
    | inr miss ↦
        rw miss
          (any-update_where (same x) p f xs (k x) ∙ u.0, UniqueBy-update_where same p f xs h k u.1)
  ]

  pub UniqueBy-snoc :
      (same : A → A → Bool) (xs : List A) (y : A)
      → any (λ x. same x y) xs ≡ false
      → UniqueBy same xs
      → UniqueBy same (xs ++ y ∷ [])
  UniqueBy-snoc same [] y h u = (refl, tt)
  UniqueBy-snoc same (x ∷ xs) y h u =
      ground (arith, any-append (same x) xs (y ∷ []), UniqueBy-snoc same xs y)

pub All-update_where {ℓ κ} :
    {A : Type ℓ} (P : A → Type κ) (q : A → Bool) (f : A → A) (xs : List A)
    → ((a : A) → P a → P (f a))
    → All P xs
    → All P (update_where q f xs)
All-update_where P q f [] kept h = tt
All-update_where P q f (x ∷ xs) kept h = elim (Bool-cases (q x)) [
  | inl hit ↦ rw hit (kept x h.0, All-update_where P q f xs kept h.1)
  | inr miss ↦ rw miss (h.0, All-update_where P q f xs kept h.1)
]
