-- ===== src/Pagination/Keyset.antt =====
-- Following the keys from page to page passes every row once, in order.
use mathlib.Core.Path.{subst}
use polyglot_commerce.Prelude.{
  ltb→lt, lt→ltb, ℕ, zero, suc, ◌≤◌, ◌<◌, ◌≡◌, refl, ◌∙◌, sym, ap, Bool, true, false, Option, none,
  some, List, [], ◌∷◌, ◌++◌, arith, ltb, length, take, drop, select, All, All-select, Bool-cases,
  inl, inr,
}
use polyglot_commerce.Pagination.{Key, key_lt, newer, after, last_of, last_key, cut, next_key}

pub key_lt_trans : (a b c : Key) → key_lt a b ≡ true → key_lt b c ≡ true → key_lt a c ≡ true
key_lt_trans (t, i) (u, j) (v, k) h e = ground arith

key_lt_asym : (a b : Key) → key_lt a b ≡ true → key_lt b a ≡ false
key_lt_asym (t, i) (u, j) h = ground arith

key_lt_irrefl : (a : Key) → key_lt a a ≡ false
key_lt_irrefl (t, i) = ground arith

module _ {A : Type 0} (key : A → Key) where
  -- The keys fall strictly.
  abbrev pub Falling : List A → Type 0
  Falling [] = Unit
  Falling (x ∷ xs) = All (λ y. newer key x y ≡ true) xs × Falling xs

  pub Falling-select : (p : A → Bool) (xs : List A) → Falling xs → Falling (select p xs)
  Falling-select p [] h = tt
  Falling-select p (x ∷ xs) h = elim (Bool-cases (p x)) [
    | inl keep ↦ rw keep (All-select _ p xs h.0, Falling-select p xs h.1)
    | inr dropped ↦ rw dropped (Falling-select p xs h.1)
  ]

  select-All : (p : A → Bool) (xs : List A) → All (λ y. p y ≡ true) xs → select p xs ≡ xs
  select-All p [] h = refl
  select-All p (x ∷ xs) h = ground (arith, select-All p xs)

  last_of-All :
      (P : A → Type 0) (x : A) (n : ℕ) (xs : List A)
      → P x
      → All P xs
      → P (last_of key x (take n xs))
  last_of-All P x zero xs h k = h
  last_of-All P x (suc n) [] h k = h
  last_of-All P x (suc n) (y ∷ ys) h k = last_of-All P y n ys k.0 k.1

  -- What is older than the last of the first rows is what comes after them.
  select-last :
      (x : A) (n : ℕ) (xs : List A)
      → Falling (x ∷ xs)
      → select (after key (some (key (last_of key x (take n xs))))) (x ∷ xs) ≡ drop n xs
  select-last x zero xs h = rw (key_lt_irrefl (key x)) (select-All _ xs h.0)
  select-last x (suc n) [] h = rw (key_lt_irrefl (key x)) refl
  select-last x (suc n) (y ∷ ys) h =
      let later : newer key x (last_of key y (take n ys)) ≡ true =
        last_of-All (λ z. newer key x z ≡ true) y n ys h.0.0 h.0.1 in
      rw (key_lt_asym (key (last_of key y (take n ys))) (key x) later) (select-last y n ys h.1)

  select-select :
      (p q : A → Bool) (xs : List A)
      → ((x : A) → q x ≡ true → p x ≡ true)
      → select q (select p xs) ≡ select q xs
  select-select p q [] h = refl
  select-select p q (x ∷ xs) h = elim (Bool-cases (q x)) [
    | inl hit ↦ ground (arith, hit, h x hit, select-select p q xs h)
    | inr miss ↦ ground (arith, miss, select-select p q xs h)
  ]

  abbrev pub going_on : {B : Type 0} → Option Key → (Key → List B) → List B
  going_on none f = []
  going_on (some k) f = f k

  module _ (limit : ℕ) (rows : List A) where
    -- The rows of all pages, from the one at a key on: each page asks for one row more than it shows
    -- and goes on from its last row if that one came.
    unfoldable pub pages : ℕ → Option Key → List A
    pages zero c = []
    pages (suc fuel) c =
        let page = take (suc limit) (select (after key c) rows) in
        cut key limit page ++ going_on (next_key key limit page) (λ k. pages fuel (some k))

  take-length : (n : ℕ) (xs : List A) → length xs ≤ n → take n xs ≡ xs
  take-length zero [] h = refl
  take-length zero (x ∷ xs) h = ground arith
  take-length (suc n) [] h = refl
  take-length (suc n) (x ∷ xs) h = ground (arith, take-length n xs)

  length-take_more : (n : ℕ) (xs : List A) → n < length xs → length (take (suc n) xs) ≡ suc n
  length-take_more zero (x ∷ xs) h = refl
  length-take_more (suc n) (x ∷ xs) h = ground (arith, length-take_more n xs)
  length-take_more n [] h = ground arith

  take-take_more : (n : ℕ) (xs : List A) → take n (take (suc n) xs) ≡ take n xs
  take-take_more zero xs = refl
  take-take_more (suc n) [] = refl
  take-take_more (suc n) (x ∷ xs) = ap (λ ys. x ∷ ys) (take-take_more n xs)

  take-drop : (n : ℕ) (xs : List A) → take n xs ++ drop n xs ≡ xs
  take-drop zero xs = refl
  take-drop (suc n) [] = refl
  take-drop (suc n) (x ∷ xs) = ap (λ ys. x ∷ ys) (take-drop n xs)

  length-drop : (n : ℕ) (xs : List A) → length (drop n xs) ≤ length xs
  length-drop zero xs = omega arith
  length-drop (suc n) [] = omega arith
  length-drop (suc n) (x ∷ xs) = ground (arith, length-drop n xs)

  All-after :
      (c : Option Key) (xs : List A) → All (λ y. after key c y ≡ true) (select (after key c) xs)
  All-after c [] = tt
  All-after c (x ∷ xs) = elim (Bool-cases (after key c x)) [
    | inl hit ↦ rw hit (hit, All-after c xs)
    | inr miss ↦ rw miss (All-after c xs)
  ]

  older_still :
      (c : Option Key) (z : A)
      → after key c z ≡ true
      → (y : A) → after key (some (key z)) y ≡ true
      → after key c y ≡ true
  older_still none z h y k = refl
  older_still (some c) z h y k = key_lt_trans (key y) (key z) c k h

  -- From the last row of a page on, what is left is what the page has not shown.
  select-page :
      (c : Option Key) (rows : List A) (m : ℕ) (x : A) (xs : List A)
      → Falling rows
      → select (after key c) rows ≡ x ∷ xs
      → select (after key (some (key (last_of key x (take m xs))))) rows ≡ drop m xs
  select-page c rows m x xs h e =
      let all : All (λ y. after key c y ≡ true) (x ∷ xs) =
        subst (λ ys. All (λ y. after key c y ≡ true) ys) e (All-after c rows) in
      let falls : Falling (x ∷ xs) = subst Falling e (Falling-select (after key c) rows h) in
      let z = last_of key x (take m xs) in
      sym (
        select-select (after key c) (after key (some (key z))) rows
          (older_still c z (last_of-All (λ y. after key c y ≡ true) x m xs all.0 all.1)))
      ∙ ap (select (after key (some (key z)))) e
      ∙ select-last x m xs falls

  pub append-nil : (xs : List A) → xs ++ [] ≡ xs
  append-nil [] = refl
  append-nil (x ∷ xs) = ap (λ ys. x ∷ ys) (append-nil xs)

  cut-take :
      (n : ℕ) (xs : List A)
      → n < length xs
      → (cut key n (take (suc n) xs) ≡ take n xs)
        × (next_key key n (take (suc n) xs) ≡ last_key key (take n xs))
  cut-take n xs h =
      let more : ltb n (length (take (suc n) xs)) ≡ true =
        rw (length-take_more n xs h) (lt→ltb n (suc n) (omega arith)) in
      rw more (take-take_more n xs, ap (last_key key) (take-take_more n xs))

  cut-all :
      (n : ℕ) (xs : List A)
      → length xs ≤ n
      → (cut key n (take (suc n) xs) ≡ xs) × (next_key key n (take (suc n) xs) ≡ none)
  cut-all n xs h =
      let same : take (suc n) xs ≡ xs = take-length (suc n) xs (omega arith) in
      let short : ltb n (length xs) ≡ false = ground (arith, h) in rw same (rw short (refl, refl))

  pub pages_lem :
      (fuel m : ℕ) (c : Option Key) (rows : List A)
      → Falling rows
      → length (select (after key c) rows) < fuel
      → pages (suc m) rows fuel c ≡ select (after key c) rows
  unfolding pages
  pages_lem zero m c rows h enough = absurd (omega arith)
  pages_lem (suc fuel) m c rows h enough =
      page (λ k. pages_lem fuel m (some k) rows h) (select (after key c) rows) refl enough
    where
      page :
          ((k : Key)
            → length (select (after key (some k)) rows) < fuel
            → pages (suc m) rows fuel (some k) ≡ select (after key (some k)) rows)
          → (left : List A) → select (after key c) rows ≡ left
          → length left < suc fuel
          → cut key (suc m) (take (suc (suc m)) left)
              ++ going_on
                  (next_key key (suc m) (take (suc (suc m)) left))
                  (λ k. pages (suc m) rows fuel (some k))
            ≡ left
      page on [] e more =
          let (shown, next) = cut-all (suc m) [] (omega arith) in rw (shown, next) refl
      page on (x ∷ xs) e more = elim (Bool-cases (ltb (suc m) (length (x ∷ xs)))) [
        | inl longer ↦
            let (shown, next) =
              cut-take (suc m) (x ∷ xs) (ltb→lt (suc m) (length (x ∷ xs)) longer) in
            let k = key (last_of key x (take m xs)) in
            let left : select (after key (some k)) rows ≡ drop m xs =
              select-page c rows m x xs h e in
            let fewer : length (select (after key (some k)) rows) < fuel =
              rw left (omega (arith, length-drop m xs)) in
            rw (shown, next)
              (ap (λ ys. x ∷ take m xs ++ ys) (on k fewer ∙ left)
                ∙ ap (λ ys. x ∷ ys) (take-drop m xs))
        | inr short ↦
            let (shown, next) = cut-all (suc m) (x ∷ xs) (ground (arith, short)) in
            rw (shown, next) (append-nil (x ∷ xs))
      ]
