-- ===== src/CatalogApi/Entries.antt =====
-- What the cache returns for one product after it stored or dropped another.
use text.Mathlib.TextLemmas.{append_cancel_left}
use mathlib.Core.Path.{subst}
use polyglot_commerce.Prelude.{
  ◌≡◌, ◌⊎◌, refl, ◌∙◌, sym, ap, String, str_eq, eq_iff, Bool, true, false, not, Option, none, some,
  List, [], ◌∷◌, arith, select, find, Bool-cases, inl, inr,
}
use polyglot_commerce.Store.{Uuid, Product}
use polyglot_commerce.Crates.{UuidText}
use polyglot_commerce.CatalogApi.{ProductText, key_of, has_key, read, set, get, put, invalidate}

module _ {A : Type 0} (p q : A → Bool) where
  find-select :
      (xs : List A) → ((x : A) → p x ≡ true → q x ≡ true) → find p (select q xs) ≡ find p xs
  find-select [] h = refl
  find-select (x ∷ xs) h = elim (Bool-cases (p x)) [
    | inl hit ↦ ground (arith, hit, h x hit)
    | inr miss ↦ ground (arith, miss, find-select xs h)
  ]

find-dropped :
    {A : Type 0} (p : A → Bool) (xs : List A) → find p (select (λ x. not (p x)) xs) ≡ none
find-dropped p [] = refl
find-dropped p (x ∷ xs) = ground (arith, find-dropped p xs)

other_key :
    (j k : String) (e : String × String)
    → str_eq k j ≡ false
    → has_key j e ≡ true
    → not (has_key k e) ≡ true
other_key j k (i, raw) ne h = ground (arith, ne, h, eq_iff i j, eq_iff i k, eq_iff k j)

module _ (uuids : UuidText) (json : ProductText) where
  pub key_of-inj : (i j : Uuid) → str_eq (key_of uuids i) (key_of uuids j) ≡ true → i ≡ j
  key_of-inj i j e =
      let texts : uuids.to_string i ≡ uuids.to_string j =
        append_cancel_left "catalog:product:" _ _
          (ground (arith, e, eq_iff (key_of uuids i) (key_of uuids j))) in
      let same : ◌≡◌ {A = Option Uuid} (some i) (some j) =
        sym (uuids.parse_to_string i) ∙ ap uuids.parse_str texts ∙ uuids.parse_to_string j in
      ground (arith, same)

  -- After `invalidate` an entry is as before, or is that of the product and gone.
  pub get-invalidate :
      (id j : Uuid) (cache : List (String × String))
      → ((j ≡ id) × (get uuids json true j (invalidate uuids json true id cache) ≡ none))
        ⊎ (get uuids json true j (invalidate uuids json true id cache)
            ≡ get uuids json true j cache)
  unfolding get invalidate
  get-invalidate id j cache = elim (Bool-cases (str_eq (key_of uuids id) (key_of uuids j))) [
    | inl same ↦
        let keys : key_of uuids id ≡ key_of uuids j =
          ground (arith, same, eq_iff (key_of uuids id) (key_of uuids j)) in
        inl (
          sym (key_of-inj id j same),
          ap (read uuids json) (
              subst
                (λ k.
                  find (has_key (key_of uuids j)) (select (λ e. not (has_key k e)) cache) ≡ none)
                (sym keys) (find-dropped (has_key (key_of uuids j)) cache)),
        )
    | inr differ ↦ inr (
        ap (read uuids json) (
          find-select (has_key (key_of uuids j)) (λ e. not (has_key (key_of uuids id) e)) cache
            (λ e. other_key (key_of uuids j) (key_of uuids id) e differ)))
  ]

  pub get-dropped :
      (id : Uuid) (cache : List (String × String))
      → get uuids json true id (invalidate uuids json true id cache) ≡ none
  unfolding get invalidate
  get-dropped id cache = ap (read uuids json) (find-dropped (has_key (key_of uuids id)) cache)

  -- After `put` an entry is as before, or is that of the product and reads back as it.
  pub get-put :
      (up : Bool) (p : Product) (j : Uuid) (cache : List (String × String))
      → ((j ≡ p.id) × (get uuids json true j (put uuids json up p cache) ≡ some p))
        ⊎ (get uuids json true j (put uuids json up p cache) ≡ get uuids json true j cache)
  unfolding get put
  get-put false p j cache = inr refl
  get-put true p j cache = stored (json.to_string p) refl
    where
      stored :
          (text : Option String)
          → json.to_string p ≡ text
          → ((j ≡ p.id)
              × (read uuids json (
                    find (has_key (key_of uuids j)) (set uuids json (key_of uuids p.id) text cache))
                  ≡ some p))
            ⊎ (read uuids json
                  (find (has_key (key_of uuids j)) (set uuids json (key_of uuids p.id) text cache))
                ≡ read uuids json (find (has_key (key_of uuids j)) cache))
      stored none e = inr refl
      stored (some raw) e = elim (Bool-cases (str_eq (key_of uuids p.id) (key_of uuids j))) [
        | inl same ↦ inl (sym (key_of-inj p.id j same), rw same (json.from_str_to_string p raw e))
        | inr differ ↦ inr (
            rw differ (
              ap (read uuids json) (
                find-select (has_key (key_of uuids j)) (λ e. not (has_key (key_of uuids p.id) e))
                  cache (λ e. other_key (key_of uuids j) (key_of uuids p.id) e differ))))
      ]
