-- ===== src/Catalog/Table.antt =====
-- The constraints on the table of products, and what an inserted, a replaced and an archived row do to
-- them.
use mathlib.Core.Path.{subst}
use polyglot_commerce.Prelude.{
  any_same, ◌^◌, ◌<◌, ◌≡◌, refl, ◌∙◌, sym, ap, str_eq, Bool, true, false, Option, none, some, List,
  [], ◌∷◌, ◌++◌, arith, ◌==◌, find, any, update_where, All, All-append, UniqueBy, UniqueBy-snoc,
  UniqueBy-update_where, update_where_none, Bool-cases, inl, inr,
}
use polyglot_commerce.Store.{Uuid, Time, Product, Category}
use polyglot_commerce.Store.Consistent.{same_id}
use polyglot_commerce.Catalog.{is_product, known_status, archived_at}

abbrev pub same_sku : Product → Product → Bool
same_sku p q = str_eq p.sku q.sku

abbrev pub same_slug : Product → Product → Bool
same_slug p q = str_eq p.slug q.slug

-- A reference to a category that is there, or none.
abbrev pub known_in : List Category → Option Uuid → Bool
known_in cs none = true
known_in cs (some id) = any (λ (c : Category). c.id == id) cs

-- What the CHECKs and the reference say of one row.
pub record IsRow (cs : List Category) (p : Product) : Type 0 where
  pub stock : p.stock_quantity < 2 ^ 31
  pub status : known_status p.status ≡ true
  pub category : known_in cs p.category_id ≡ true

pub record AreProducts (cs : List Category) (ps : List Product) : Type 0 where
  pub ids : UniqueBy same_id ps
  pub skus : UniqueBy same_sku ps
  pub slugs : UniqueBy same_slug ps
  pub rows : All (IsRow cs) ps

same_id-flip :
    (p : Product) (ps : List Product)
    → any (is_product p.id) ps ≡ false
    → any (λ q. same_id q p) ps ≡ false
same_id-flip p [] h = refl
same_id-flip p (q ∷ ps) h = ground (arith, same_id-flip p ps)

pub AreProducts-snoc :
    (cs : List Category) (ps : List Product) (p : Product)
    → any (is_product p.id) ps ≡ false
    → any (λ (q : Product). str_eq q.sku p.sku) ps ≡ false
    → any (λ (q : Product). str_eq q.slug p.slug) ps ≡ false
    → IsRow cs p
    → AreProducts cs ps
    → AreProducts cs (ps ++ p ∷ [])
AreProducts-snoc cs ps p new_id new_sku new_slug row h = record {
  ids = UniqueBy-snoc same_id ps p (same_id-flip p ps new_id) h.ids;
  skus = UniqueBy-snoc same_sku ps p new_sku h.skus;
  slugs = UniqueBy-snoc same_slug ps p new_slug h.slugs;
  rows = All-append (IsRow cs) ps (p ∷ []) h.rows (row, tt);
}

-- One row is in place of the only one that passes a test.
module _ (id : Uuid) (row p : Product) where
  abbrev put : List Product → List Product
  put ps = update_where (is_product id) (λ q. row) ps

  once :
      (q : Product) (ps : List Product)
      → (q.id == id) ≡ true
      → any (same_id q) ps ≡ false
      → any (is_product id) ps ≡ false
  once q [] e h = refl
  once q (r ∷ ps) e h = ground (arith, once q ps)

  any-put :
      (test : Product → Bool) (ps : List Product)
      → test row ≡ test p
      → UniqueBy same_id ps
      → find (is_product id) ps ≡ some p
      → any test (put ps) ≡ any test ps
  any-put test [] same u found = refl
  any-put test (q ∷ ps) same u found = elim (Bool-cases (q.id == id)) [
    | inl hit ↦
        let it : q ≡ p = ground (arith, found, hit) in
        rw hit (
          ground (
            arith,
            same,
            ap test it,
            update_where_none (is_product id) (λ r. row) ps (once q ps hit u.0),
          ))
    | inr miss ↦ rw miss (ground (arith, any-put test ps same u.1 (ground (arith, found, miss))))
  ]

  UniqueBy-put :
      (same : Product → Product → Bool) (ps : List Product)
      → ((q : Product) → same row q ≡ same p q)
      → ((q : Product) → same q row ≡ same q p)
      → UniqueBy same_id ps
      → find (is_product id) ps ≡ some p
      → UniqueBy same ps
      → UniqueBy same (put ps)
  UniqueBy-put same [] left right u found h = tt
  UniqueBy-put same (q ∷ ps) left right u found h = elim (Bool-cases (q.id == id)) [
    | inl hit ↦
        let it : q ≡ p = ground (arith, found, hit) in
        let rest : put ps ≡ ps =
          update_where_none (is_product id) (λ r. row) ps (once q ps hit u.0) in
        let apart : any (same row) ps ≡ false =
          any_same (same row) (same q) ps (λ r. left r ∙ ap (λ (x : Product). same x r) (sym it))
          ∙ h.0 in
        rw hit (
          subst (λ (qs : List Product). (any (same row) qs ≡ false) × UniqueBy same qs) (sym rest)
            (apart, h.1))
    | inr miss ↦ rw miss (
      any-put (same q) ps (right q) u.1 (ground (arith, found, miss)) ∙ h.0,
      UniqueBy-put same ps left right u.1 (ground (arith, found, miss)) h.1,
    )
  ]

All-put :
    (P : Product → Type 0) (id : Uuid) (row : Product) (ps : List Product)
    → P row
    → All P ps
    → All P (put id row row ps)
All-put P id row [] r h = tt
All-put P id row (q ∷ ps) r h = elim (Bool-cases (q.id == id)) [
  | inl hit ↦ rw hit (r, All-put P id row ps r h.1)
  | inr miss ↦ rw miss (h.0, All-put P id row ps r h.1)
]

pub AreProducts-put :
    (cs : List Category) (ps : List Product) (row p : Product)
    → find (is_product p.id) ps ≡ some p
    → row.id ≡ p.id
    → row.sku ≡ p.sku
    → row.slug ≡ p.slug
    → IsRow cs row
    → AreProducts cs ps
    → AreProducts cs (update_where (is_product p.id) (λ q. row) ps)
AreProducts-put cs ps row p found same_i same_k same_s r h = record {
  ids =
      UniqueBy-put p.id row p same_id ps (λ q. rw same_i refl) (λ q. rw same_i refl) h.ids found
        h.ids;
  skus =
      UniqueBy-put p.id row p same_sku ps (λ q. rw same_k refl) (λ q. rw same_k refl) h.ids found
        h.skus;
  slugs =
      UniqueBy-put p.id row p same_slug ps (λ q. rw same_s refl) (λ q. rw same_s refl) h.ids found
        h.slugs;
  rows = All-put (IsRow cs) p.id row ps r h.rows;
}

All-archived :
    (cs : List Category) (now : Time) (id : Uuid) (ps : List Product)
    → All (IsRow cs) ps
    → All (IsRow cs) (update_where (is_product id) (archived_at now) ps)
All-archived cs now id [] h = tt
All-archived cs now id (q ∷ ps) h = elim (Bool-cases (q.id == id)) [
  | inl hit ↦ rw hit (
    record { stock = h.0.stock; status = refl; category = h.0.category },
    All-archived cs now id ps h.1,
  )
  | inr miss ↦ rw miss (h.0, All-archived cs now id ps h.1)
]

pub AreProducts-archived :
    (cs : List Category) (now : Time) (id : Uuid) (ps : List Product)
    → AreProducts cs ps
    → AreProducts cs (update_where (is_product id) (archived_at now) ps)
AreProducts-archived cs now id ps h = record {
  ids =
      UniqueBy-update_where same_id (is_product id) (archived_at now) ps (λ x y. refl) (λ x y. refl)
        h.ids;
  skus =
      UniqueBy-update_where same_sku (is_product id) (archived_at now) ps (λ x y. refl)
        (λ x y. refl) h.skus;
  slugs =
      UniqueBy-update_where same_slug (is_product id) (archived_at now) ps (λ x y. refl)
        (λ x y. refl) h.slugs;
  rows = All-archived cs now id ps h.rows;
}
