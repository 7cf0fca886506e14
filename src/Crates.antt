-- ===== src/Crates.antt =====
-- What the server takes from crates that are not part of this repository, with what it relies on:
-- `uuid`, `chrono`, `base64` and `serde_json`, `jsonwebtoken`, `argon2`.
use polyglot_commerce.Prelude.{◌≡◌, String, Bool, true, Option, some, ℤ, ◌+ℤ◌, ◌≤ℤ◌, pos}
use polyglot_commerce.Store.{Uuid, Time}

-- The text of UUIDs.
pub record UuidText : Type 0 where
  pub parse_str : String → Option Uuid
  pub to_string : Uuid → String
  pub parse_to_string : (id : Uuid) → parse_str (to_string id) ≡ some id

-- The text of times, and the time of a number of seconds.
pub record TimeText : Type 0 where
  pub parse : String → Option Time
  pub to_rfc3339 : Time → String
  pub from_timestamp : ℤ → Option Time
  pub parse_to_rfc3339 : (t : Time) → parse (to_rfc3339 t) ≡ some t

-- `serde_json` (values of type `A` to bytes and back) and the URL-safe `base64` engine.
pub record CursorText (Bytes A : Type 0) : Type 0 where
  pub to_vec : A → Bytes
  pub from_slice : Bytes → Option A
  pub encode : Bytes → String
  pub decode : String → Option Bytes
  pub from_slice_to_vec : (a : A) → from_slice (to_vec a) ≡ some a
  pub decode_encode : (b : Bytes) → decode (encode b) ≡ some b

-- `jsonwebtoken` with HS256: `encode` signs claims of type `C` with a secret, and `decode` returns
-- claims only of a token that was signed with the secret, for the issuer and the audience that are
-- demanded, and that is not expired, where the default leeway is 60 seconds.
pub record Jwt (C : Type 0) (iss aud : C → String) (exp : C → ℤ) : Type 0 where
  pub encode : String → C → Option String
  pub decode : String → String → String → ℤ → String → Option C
  pub decode_sound :
      (secret issuer audience : String) (now : ℤ) (token : String) (c : C)
      → decode secret issuer audience now token ≡ some c
      → (encode secret c ≡ some token)
        × (iss c ≡ issuer)
        × (aud c ≡ audience)
        × (now ≤ℤ exp c +ℤ pos 60)
  pub decode_complete :
      (secret : String) (now : ℤ) (token : String) (c : C)
      → encode secret c ≡ some token
      → now ≤ℤ exp c +ℤ pos 60
      → decode secret (iss c) (aud c) now token ≡ some c

-- `argon2`: a PHC string is parsed and verified; what `hash_password` makes with a salt verifies.
pub record Argon2 (Salt Parsed : Type 0) : Type 0 where
  pub encode_b64 : Salt → Option String
  pub hash_password : String → String → Option String
  pub parse_phc : String → Option Parsed
  pub verify : String → Parsed → Bool
  pub verify_hash_password :
      (password salt phc : String)
      → hash_password password salt ≡ some phc
      → (parsed : Parsed) × (parse_phc phc ≡ some parsed) × (verify password parsed ≡ true)
