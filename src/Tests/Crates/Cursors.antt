-- ===== src/Tests/Crates/Cursors.antt =====
-- Cursors as text: each character of the time after an x, then a y and the id.
use polyglot_commerce.Prelude.{◌≡◌, refl, ap, String, Option, none, some, ◌==◌, if◌then◌else◌}
use Prim.Native.Char.{Char, code}
use polyglot_commerce.Crates.{CursorText}
use polyglot_commerce.Pagination.{Cursor}

unfoldable pub pack : String → String → String
pack String.[] id = String.◌∷◌ "y" id
pack (String.◌∷◌ c ts) id = String.◌∷◌ "x" (String.◌∷◌ c (pack ts id))

abbrev push : Char → Option Cursor → Option Cursor
push c none = none
push c (some k) = some (record { ts = String.◌∷◌ c k.ts; id = k.id })

unfoldable pub unpack : String → Option Cursor
unpack String.[] = none
unpack (String.◌∷◌ k String.[]) =
    if code k == code "y" then some (record { ts = ""; id = "" }) else none
unpack (String.◌∷◌ k (String.◌∷◌ c rest)) =
    let more = unpack rest in
    if code k == code "y" then some (record { ts = ""; id = String.◌∷◌ c rest }) else push c more

pub unpack-pack : (ts id : String) → unpack (pack ts id) ≡ some (record { ts = ts; id = id })
unfolding pack unpack
unpack-pack String.[] String.[] = refl
unpack-pack String.[] (String.◌∷◌ c id) = refl
unpack-pack (String.◌∷◌ c ts) id = ap (push c) (unpack-pack ts id)

abbrev pub packed_cursors : CursorText Cursor Cursor
packed_cursors = record {
  to_vec = λ c. c;
  from_slice = some;
  encode = λ c. pack c.ts c.id;
  decode = unpack;
  from_slice_to_vec = λ c. refl;
  decode_encode = λ c. unpack-pack c.ts c.id;
}
