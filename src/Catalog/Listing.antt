-- ===== src/Catalog/Listing.antt =====
-- server/src/products: `list_products` of repo.rs and of handlers.rs. How PostgreSQL's text search
-- matches a term (`search_vector @@ websearch_to_tsquery`) is an argument.
use Prim.Native.Char.{code}
use polyglot_commerce.Prelude.{
  ℕ, suc, ◌<◌, ◌≡◌, refl, ◌∙◌, ap, ℤ, pos, ◌+ℤ◌, String, str_eq, Bool, true, false, ◌&&◌, ◌||◌,
  Option, none, some, List, [], ◌∷◌, map, arith, leb, ◌==◌, if◌then◌else◌, length, select,
}
use polyglot_commerce.Store.{Uuid, Product, Db, Result, ok, and_then}
use polyglot_commerce.Store.Consistent.{IsConsistent, same_id}
use polyglot_commerce.Crates.{UuidText, TimeText, CursorText}
use polyglot_commerce.Pagination.{
  Cursor, Page, Key, newer, newest_first, limit_of, rows_of, new_page, cursor_key, decoded, encoded,
  keyset, cut, next_key,
}
use polyglot_commerce.Pagination.Keyset.{Falling-select}
use polyglot_commerce.Pagination.Sorted.{Falling-newest_first}
use polyglot_commerce.Pagination.Follow.{
  follow, follow_lem, page_at, decoded-encoded, limit_of_lem, rows_of_more,
}

-- `ListQuery`, without its limit and its cursor
pub record Filter : Type 0 where
  pub category_id : Option Uuid
  pub q : Option String

-- `ListQuery`
pub record ListQuery : Type 0 where
  pub limit : Option ℤ
  pub cursor : Option String
  pub filter : Filter

-- `char::is_whitespace`: the characters with the Unicode property White_Space
abbrev is_whitespace : ℕ → Bool
is_whitespace c =
    leb 9 c && leb c 13
    || c == 32
    || c == 133
    || c == 160
    || c == 5760
    || leb 8192 c && leb c 8202
    || c == 8232
    || c == 8233
    || c == 8239
    || c == 8287
    || c == 12288

-- `t.trim().is_empty()`
unfoldable pub is_blank : String → Bool
is_blank String.[] = true
is_blank (String.◌∷◌ c s) = is_whitespace (code c) && is_blank s

abbrev same_category : Uuid → Option Uuid → Bool
same_category id none = false
same_category id (some c) = c == id

-- `AND category_id = ...`: a product without a category matches none
abbrev pub in_category : Option Uuid → Product → Bool
in_category none p = true
in_category (some id) p = same_category id p.category_id

module _ (search : String → Product → Bool) where
  abbrev pub matches_term : Option String → Product → Bool
  matches_term none p = true
  matches_term (some term) p = if is_blank term then true else search term p

  -- the WHERE of `list_products`, without the cursor
  abbrev pub is_wanted : Filter → Product → Bool
  is_wanted f p = str_eq p.status "active" && in_category f.category_id p && matches_term f.q p

  abbrev pub product_key : Product → Key
  product_key p = (p.created_at, p.id)

  -- The products that a filter wants, the newest first.
  abbrev pub catalog : Filter → Db → List Product
  catalog f s = select (is_wanted f) (newest_first product_key s.products)

  product_apart :
      (x y : Product)
      → same_id x y ≡ false
      → newer product_key y x ≡ false
      → newer product_key x y ≡ true
  product_apart x y h e = ground (arith, h, e)

  module _ {Bytes : Type 0} (uuids : UuidText) (times : TimeText)
      (text : CursorText Bytes Cursor) where
    -- `list_products` of repo.rs
    unfoldable pub find_products : Filter → ℤ → Option Cursor → Db → Result (List Product)
    find_products f limit cursor s =
        and_then (cursor_key uuids times cursor)
          λ k. ok (keyset product_key (is_wanted f) k (rows_of (limit +ℤ pos 1)) s.products)

    -- `list_products`
    unfoldable pub list_products : ListQuery → Db → Result (Page Product)
    list_products q s = and_then (decoded text q.cursor) λ cursor.
        and_then (find_products q.filter (limit_of q.limit) cursor s) λ rows. ok (
          new_page (cut product_key (rows_of (limit_of q.limit)) rows)
            (encoded uuids times text (next_key product_key (rows_of (limit_of q.limit)) rows)))

    map_same : (ps : List Product) → map (λ p. p) ps ≡ ps
    map_same [] = refl
    map_same (p ∷ ps) = ap (λ qs. p ∷ qs) (map_same ps)

    list-encoded :
        (f : Filter) (limit : Option ℤ) (s : Db) (m : ℕ) (c : Option Key)
        → limit_of limit ≡ pos (suc m)
        → list_products
            (record { limit = limit; cursor = encoded uuids times text c; filter = f })
            s
          ≡ ok (page_at uuids times text product_key (λ p. p) m (catalog f s) c)
    unfolding list_products find_products
    list-encoded f limit s m c size =
        let (cursor, read, key) = decoded-encoded uuids times text c in
        rw (size, rows_of_more m, read, key, map_same) refl

    -- On a consistent database, the pages that anyone gets by following the cursors, with whatever limit and filter, are all
    -- active products that the filter wants, each once, the newest first, where the products do not
    -- change meanwhile; one request more than there are such products is always enough.
    pub follow-list_products :
        (f : Filter) (limit : Option ℤ) (s : Db) (fuel : ℕ)
        → IsConsistent s
        → length (catalog f s) < fuel
        → follow fuel (λ c. list_products (record { limit = limit; cursor = c; filter = f }) s) none
          ≡ ok (catalog f s)
    follow-list_products f limit s fuel h enough =
        let (m, size, small) = limit_of_lem limit in
        follow_lem uuids times text product_key (λ p. p) m (catalog f s) _
          (λ c. list-encoded f limit s m c size) fuel
          (Falling-select product_key (is_wanted f) (newest_first product_key s.products)
            (Falling-newest_first product_key same_id product_apart s.products h.product_ids))
          enough
        ∙ ap (λ ps. ok ps) (map_same (catalog f s))
