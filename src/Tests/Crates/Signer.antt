-- ===== src/Tests/Crates/Signer.antt =====
-- A signer that signs one set of claims with one secret.
use polyglot_commerce.Prelude.{
  ◌≡◌, ℤ, pos, ◌+ℤ◌, ◌≤ℤ◌, leb_ℤ, String, str_eq, eq_iff, Bool, true, ◌&&◌, Option, none, some,
  arith, if◌then◌else◌,
}
use polyglot_commerce.Crates.{Jwt}

module _ {C : Type 0} (iss aud : C → String) (exp : C → ℤ) (sample : C) (is_sample : C → Bool) where
  abbrev encode : String → C → Option String
  encode secret c = if str_eq secret "key" && is_sample c then some "token" else none

  abbrev decode : String → String → String → ℤ → String → Option C
  decode secret issuer audience now token =
      if str_eq secret "key"
        && str_eq token "token"
        && str_eq issuer (iss sample)
        && str_eq audience (aud sample)
        && leb_ℤ now (exp sample +ℤ pos 60)
      then some sample
      else none

  module _ (only : (c : C) → is_sample c ≡ true → c ≡ sample) where
    pub decode_sound :
        (secret issuer audience : String) (now : ℤ) (token : String) (c : C)
        → is_sample sample ≡ true
        → decode secret issuer audience now token ≡ some c
        → (encode secret c ≡ some token)
          × (iss c ≡ issuer)
          × (aud c ≡ audience)
          × (now ≤ℤ exp c +ℤ pos 60)
    decode_sound secret issuer audience now token c here e = ground (
      arith,
      here,
      e,
      eq_iff token "token",
      eq_iff issuer (iss sample),
      eq_iff audience (aud sample),
    )

    pub decode_complete :
        (secret : String) (now : ℤ) (token : String) (c : C)
        → encode secret c ≡ some token
        → now ≤ℤ exp c +ℤ pos 60
        → decode secret (iss c) (aud c) now token ≡ some c
    decode_complete secret now token c e fresh = ground (
      arith,
      e,
      only c,
      fresh,
      eq_iff token token,
      eq_iff (iss sample) (iss sample),
      eq_iff (aud sample) (aud sample),
    )

    abbrev pub signer : is_sample sample ≡ true → Jwt C iss aud exp
    signer here = record {
      encode = encode;
      decode = decode;
      decode_sound = λ secret issuer audience now token c e.
          decode_sound secret issuer audience now token c here e;
      decode_complete = decode_complete;
    }
