-- ===== src/Tests/Crates.antt =====
-- Small crates for the tests: unary UUIDs, a signer that knows one set of claims, and a hash that is
-- the password itself.
pub mod Signer
pub mod Refresh
pub mod Cursors
use polyglot_commerce.Prelude.{
  ℕ, zero, suc, ◌-◌, ◌≡◌, refl, ℤ, pos, negsuc, String, str_eq, eq_iff, true, Option, none, some,
  [], ◌∷◌, map, arith,
}
use Prim.Native.String
use mathlib.Core.Option
use polyglot_commerce.Crates.{UuidText, TimeText, Argon2}

unfoldable pub unary : ℕ → String
unary zero = ""
unary (suc n) = String.◌∷◌ "u" (unary n)

unfoldable pub counted : String → Option ℕ
counted String.[] = some 0
counted (String.◌∷◌ c s) = Option.map suc (counted s)

pub counted-unary : (n : ℕ) → counted (unary n) ≡ some n
unfolding unary counted
counted-unary zero = refl
counted-unary (suc n) = rw (counted-unary n) refl

abbrev pub unary_ids : UuidText
unary_ids = record { parse_str = counted; to_string = unary; parse_to_string = counted-unary }

pub verifies : (password phc : String) → some password ≡ some phc → str_eq password phc ≡ true
verifies password phc e = ground (arith, e, eq_iff password phc)

-- The salt and the hash are texts, and a password verifies against itself.
abbrev pub plain_hash : Argon2 String String
plain_hash = record {
  encode_b64 = some;
  hash_password = λ password salt. some password;
  parse_phc = some;
  verify = str_eq;
  verify_hash_password = λ password salt phc e. (phc, refl, verifies password phc e);
}

abbrev pub seconds : ℤ → Option ℕ
seconds (pos n) = some n
seconds (negsuc n) = none

-- Times in unary, and seconds as they are.
abbrev pub unary_times : TimeText
unary_times = record {
  parse = counted;
  to_rfc3339 = unary;
  from_timestamp = seconds;
  parse_to_rfc3339 = counted-unary;
}
