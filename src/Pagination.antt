-- ===== src/Pagination.antt =====
-- common/src/pagination.rs, and the keyset queries of the repositories that it describes.
pub mod Keyset
pub mod Sorted
pub mod Follow
use polyglot_commerce.Prelude.{
  ℕ, ℤ, pos, negsuc, ltb_ℤ, String, Bool, true, false, ◌&&◌, ◌||◌, Option, none, some, List, [],
  ◌∷◌, ltb, ◌==◌, if◌then◌else◌, length, take, select, sort_by,
}
use polyglot_commerce.Errors.{bad_request}
use polyglot_commerce.Store.{Uuid, Time, Result, ok, ok_or, and_then}
use polyglot_commerce.Crates.{UuidText, TimeText, CursorText}

-- `DEFAULT_LIMIT`
abbrev pub default_limit : ℤ
default_limit = pos 20

-- `MAX_LIMIT`
abbrev pub max_limit : ℤ
max_limit = pos 100

-- `PageQuery`
pub record PageQuery : Type 0 where
  pub limit : Option ℤ
  pub cursor : Option String

-- `clamp`
abbrev pub clamp : ℤ → ℤ → ℤ → ℤ
clamp n least most = if ltb_ℤ n least then least else if ltb_ℤ most n then most else n

abbrev unwrap_or : Option ℤ → ℤ → ℤ
unwrap_or none d = d
unwrap_or (some n) d = n

-- `PageQuery::limit`, which the handlers write out
unfoldable pub limit_of : Option ℤ → ℤ
limit_of limit = clamp (unwrap_or limit default_limit) (pos 1) max_limit

-- `Cursor`
pub record Cursor : Type 0 where
  pub ts : String
  pub id : String

module _ {Bytes : Type 0} (text : CursorText Bytes Cursor) where
  -- `Cursor::encode`
  unfoldable pub encode : Cursor → String
  encode c = text.encode (text.to_vec c)

  -- `Cursor::decode`
  unfoldable pub decode : String → Result Cursor
  decode raw =
      and_then (ok_or (text.decode raw) (bad_request "invalid cursor"))
        λ bytes. ok_or (text.from_slice bytes) (bad_request "invalid cursor")

-- `Page`
pub record Page (A : Type 0) : Type 0 where
  pub items : List A
  pub next_cursor : Option String
  pub has_more : Bool

abbrev is_some : {A : Type 0} → Option A → Bool
is_some none = false
is_some (some a) = true

-- `Page::new`
abbrev pub new_page : {A : Type 0} → List A → Option String → Page A
new_page items next_cursor = record {
  items = items;
  next_cursor = next_cursor;
  has_more = is_some next_cursor;
}

-- A position in a listing: `created_at` and `id` of its last row.
abbrev pub Key : Type 0
Key = Time × Uuid

-- `(created_at, id) < ($2, $3)`: rows compare from the left, and a UUID by its bytes.
abbrev pub key_lt : Key → Key → Bool
key_lt (t, i) (u, j) = ltb t u || t == u && ltb i j

-- The key that a cursor spells: the time is read first.
unfoldable pub parse_key : UuidText → TimeText → Cursor → Result Key
parse_key uuids times c =
    and_then (ok_or (times.parse c.ts) (bad_request "invalid cursor"))
      λ ts. and_then (ok_or (uuids.parse_str c.id) (bad_request "invalid cursor")) λ id. ok (ts, id)

-- a limit is at least 1 here
abbrev pub rows_of : ℤ → ℕ
rows_of (pos n) = n
rows_of (negsuc n) = 0

abbrev pub cursor_key : UuidText → TimeText → Option Cursor → Result (Option Key)
cursor_key uuids times none = ok none
cursor_key uuids times (some c) = and_then (parse_key uuids times c) λ k. ok (some k)

module _ {Bytes : Type 0} (text : CursorText Bytes Cursor) where
  -- the `match` on the cursor of a request
  abbrev pub decoded : Option String → Result (Option Cursor)
  decoded none = ok none
  decoded (some raw) = and_then (decode text raw) λ c. ok (some c)

-- the cursor that is made of the last row of a page
abbrev pub encoded :
    {Bytes : Type 0} → UuidText → TimeText → CursorText Bytes Cursor → Option Key → Option String
encoded uuids times text none = none
encoded uuids times text (some (ts, id)) =
    some (encode text (record { ts = times.to_rfc3339 ts; id = uuids.to_string id }))

module _ {A : Type 0} (key : A → Key) where
  -- `ORDER BY created_at DESC, id DESC`
  abbrev pub newer : A → A → Bool
  newer x y = key_lt (key y) (key x)

  abbrev pub newest_first : List A → List A
  newest_first = sort_by newer

  -- the WHERE of a page: everything on the first one, else what is older than the cursor's row
  abbrev pub after : Option Key → A → Bool
  after none x = true
  after (some k) x = key_lt (key x) k

  -- `WHERE mine AND (created_at, id) < cursor ORDER BY created_at DESC, id DESC LIMIT n`
  abbrev pub keyset : (A → Bool) → Option Key → ℕ → List A → List A
  keyset mine cursor n rows = take n (select (after cursor) (select mine (newest_first rows)))

  -- `rows.last()`
  abbrev pub last_of : A → List A → A
  last_of x [] = x
  last_of x (y ∷ ys) = last_of y ys

  abbrev pub last_key : List A → Option Key
  last_key [] = none
  last_key (x ∷ xs) = some (key (last_of x xs))

  -- `truncate` where more than `limit` rows came
  abbrev pub cut : ℕ → List A → List A
  cut limit rows = if ltb limit (length rows) then take limit rows else rows

  -- the key of the next page, if more than `limit` rows came
  abbrev pub next_key : ℕ → List A → Option Key
  next_key limit rows = if ltb limit (length rows) then last_key (take limit rows) else none
