-- ===== src/Pagination/Sorted.antt =====
-- The newest rows first, where no two rows have one id, is a strictly falling order.
use polyglot_commerce.Prelude.{
  ◌≡◌, refl, ◌∙◌, Bool, true, false, ◌||◌, List, [], ◌∷◌, arith, any, All, All-map, UniqueBy,
  insert_by, Bool-cases, inl, inr,
}
use polyglot_commerce.Pagination.{Key, newer, newest_first}
use polyglot_commerce.Pagination.Keyset.{Falling, key_lt_trans}

module _ {A : Type 0} (key : A → Key) (same : A → A → Bool)
    (apart : (x y : A) → same x y ≡ false → newer key y x ≡ false → newer key x y ≡ true) where
  All-insert_by :
      (P : A → Type 0) (x : A) (ys : List A) → P x → All P ys → All P (insert_by (newer key) x ys)
  All-insert_by P x [] h k = (h, tt)
  All-insert_by P x (y ∷ ys) h k = elim (Bool-cases (newer key y x)) [
    | inl earlier ↦ rw earlier (k.0, All-insert_by P x ys h k.1)
    | inr later ↦ rw later (h, k)
  ]

  Falling-insert_by :
      (x : A) (ys : List A)
      → any (same x) ys ≡ false
      → Falling key ys
      → Falling key (insert_by (newer key) x ys)
  Falling-insert_by x [] h k = (tt, tt)
  Falling-insert_by x (y ∷ ys) h k = elim (Bool-cases (newer key y x)) [
    | inl earlier ↦ rw earlier (
      All-insert_by (λ z. newer key y z ≡ true) x ys earlier k.0,
      Falling-insert_by x ys (ground (arith, h)) k.1,
    )
    | inr later ↦
        let first : newer key x y ≡ true = apart x y (ground (arith, h)) later in
        rw later
          ((first, All-map ys (λ z older. key_lt_trans (key z) (key y) (key x) older first) k.0), k)
  ]

  any-insert_by :
      (p : A → Bool) (x : A) (ys : List A) → any p (insert_by (newer key) x ys) ≡ (p x || any p ys)
  any-insert_by p x [] = refl
  any-insert_by p x (y ∷ ys) = ground (arith, any-insert_by p x ys)

  any-newest_first : (p : A → Bool) (xs : List A) → any p (newest_first key xs) ≡ any p xs
  any-newest_first p [] = refl
  any-newest_first p (x ∷ xs) =
      ground (arith, any-insert_by p x (newest_first key xs), any-newest_first p xs)

  pub Falling-newest_first : (xs : List A) → UniqueBy same xs → Falling key (newest_first key xs)
  Falling-newest_first [] h = tt
  Falling-newest_first (x ∷ xs) h =
      Falling-insert_by x (newest_first key xs) (any-newest_first (same x) xs ∙ h.0)
        (Falling-newest_first xs h.1)
