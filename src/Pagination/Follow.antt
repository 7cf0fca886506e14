-- ===== src/Pagination/Follow.antt =====
-- A client that follows the cursors of a listing.
use polyglot_commerce.Prelude.{
  ℕ, zero, suc, ◌<◌, ◌≡◌, refl, ◌∙◌, sym, ap, ℤ, pos, negsuc, ◌+ℤ◌, String, true, Option, none,
  some, List, [], ◌∷◌, ◌++◌, map, arith, ltb, length, take, select, Bool-cases, inl, inr,
}
use polyglot_commerce.Store.{Result, ok, and_then}
use polyglot_commerce.Crates.{UuidText, TimeText, CursorText}
use polyglot_commerce.Pagination.{
  Cursor, Page, Key, limit_of, rows_of, encode, decode, new_page, parse_key, cursor_key, decoded,
  encoded, cut, next_key, after,
}
use polyglot_commerce.Pagination.Keyset.{Falling, pages, pages_lem, going_on, append-nil}

-- Whatever is asked for, the limit of a page is from 1 to 100.
pub limit_of_lem : (limit : Option ℤ) → (m : ℕ) × (limit_of limit ≡ pos (suc m)) × (m < 100)
unfolding limit_of
limit_of_lem none = (19, ground arith, omega arith)
limit_of_lem (some (negsuc n)) = (0, ground arith, omega arith)
limit_of_lem (some (pos zero)) = (0, ground arith, omega arith)
limit_of_lem (some (pos (suc n))) = elim (Bool-cases (ltb 100 (suc n))) [
  | inl large ↦ (99, ground (arith, large), omega arith)
  | inr small ↦ (n, ground (arith, small), ground (arith, small))
]

pub rows_of_more : (m : ℕ) → rows_of (pos (suc m) +ℤ pos 1) ≡ suc (suc m)
unfolding ◌+ℤ◌
rows_of_more m = ground arith

map-append : {A B : Type 0} (f : A → B) (xs ys : List A) → map f (xs ++ ys) ≡ map f xs ++ map f ys
map-append f [] ys = refl
map-append f (x ∷ xs) ys = ap (λ zs. f x ∷ zs) (map-append f xs ys)

select-true : {A : Type 0} (xs : List A) → select (λ x. true) xs ≡ xs
select-true [] = refl
select-true (x ∷ xs) = ap (λ ys. x ∷ ys) (select-true xs)

abbrev pub joined :
    {B : Type 0} → List B → Option String → (String → Result (List B)) → Result (List B)
joined items none rest = ok items
joined items (some c) rest = and_then (rest c) λ more. ok (items ++ more)

-- It asks for a page, and then for each next one, of which it gets the cursor.
unfoldable pub follow :
    {B : Type 0} → ℕ → (Option String → Result (Page B)) → Option String → Result (List B)
follow zero fetch cursor = ok []
follow (suc fuel) fetch cursor =
    and_then (fetch cursor)
      λ page. joined page.items page.next_cursor (λ c. follow fuel fetch (some c))

module _ {Bytes : Type 0} (uuids : UuidText) (times : TimeText)
    (text : CursorText Bytes Cursor) where
  -- A cursor that was made of a key reads back as the key.
  pub decoded-encoded :
      (c : Option Key)
      → (cursor : Option Cursor) × (decoded text (encoded uuids times text c) ≡ ok cursor)
        × (cursor_key uuids times cursor ≡ ok c)
  unfolding encode decode parse_key
  decoded-encoded none = (none, refl, refl)
  decoded-encoded (some (ts, id)) =
      let cursor : Cursor = record { ts = times.to_rfc3339 ts; id = uuids.to_string id } in
      (
        some cursor,
        rw (text.decode_encode (text.to_vec cursor), text.from_slice_to_vec cursor) refl,
        rw (times.parse_to_rfc3339 ts, uuids.parse_to_string id) refl,
      )

  module _ {A B : Type 0} (key : A → Key) (show : A → B) (m : ℕ) (rows : List A) where
    -- The page that a handler answers at a key.
    abbrev pub page_at : Option Key → Page B
    page_at c =
        let found = take (suc (suc m)) (select (after key c) rows) in
        new_page (map show (cut key (suc m) found))
          (encoded uuids times text (next_key key (suc m) found))

    module _ (fetch : Option String → Result (Page B))
        (answers : (c : Option Key) → fetch (encoded uuids times text c) ≡ ok (page_at c)) where
      follow-pages :
          (fuel : ℕ) (c : Option Key)
          → follow fuel fetch (encoded uuids times text c)
            ≡ ok (map show (pages key (suc m) rows fuel c))
      unfolding follow pages
      follow-pages zero c = refl
      follow-pages (suc fuel) c =
          rw (answers c) (rest (next_key key (suc m) found) (λ k. follow-pages fuel (some k)))
        where
          found : List A
          found = take (suc (suc m)) (select (after key c) rows)

          rest :
              (k : Option Key)
              → ((k : Key)
                  → follow fuel fetch (encoded uuids times text (some k))
                    ≡ ok (map show (pages key (suc m) rows fuel (some k))))
              → joined
                  (map show (cut key (suc m) found))
                  (encoded uuids times text k)
                  (λ c. follow fuel fetch (some c))
                ≡ ok (
                    map show (
                      cut key (suc m) found
                      ++ going_on key k (λ k. pages key (suc m) rows fuel (some k))))
          rest none on = ap (λ xs. ok (map show xs)) (sym (append-nil key (cut key (suc m) found)))
          rest (some k) on =
              rw (on k) (ap (λ xs. ok xs) (sym (map-append show (cut key (suc m) found) _)))

      -- The pages are all rows, in order.
      pub follow_lem :
          (fuel : ℕ)
          → Falling key rows
          → length rows < fuel
          → follow fuel fetch none ≡ ok (map show rows)
      follow_lem fuel falls enough =
          follow-pages fuel none
          ∙ ap (λ xs. ok (map show xs))
              (pages_lem key fuel m none rows falls (rw (select-true rows) enough)
                ∙ select-true rows)
