-- ===== src/Tests/Crates/Refresh.antt =====
-- A signer that signs two sets of refresh claims with one secret.
use polyglot_commerce.Prelude.{
  ◌≡◌, ◌∙◌, sym, ap, ℤ, pos, negsuc, ◌+ℤ◌, ◌≤ℤ◌, leb_ℤ, String, str_eq, eq_iff, Bool, true, false,
  ◌&&◌, Option, none, some, arith, ◌==◌, if◌then◌else◌, Bool-cases, inl, inr,
}
use polyglot_commerce.Access.{RefreshClaims, RefreshJwt}

abbrev same_int : ℤ → ℤ → Bool
same_int (pos m) (pos n) = m == n
same_int (negsuc m) (negsuc n) = m == n
same_int _ _ = false

same_int-eq : (i j : ℤ) → same_int i j ≡ true → i ≡ j
same_int-eq (pos m) (pos n) h = ground (arith, h)
same_int-eq (negsuc m) (negsuc n) h = ground (arith, h)
same_int-eq (pos m) (negsuc n) h = ground (arith, h)
same_int-eq (negsuc m) (pos n) h = ground (arith, h)

unfoldable pub same_claims : RefreshClaims → RefreshClaims → Bool
same_claims c d =
    str_eq c.sub d.sub
    && str_eq c.family d.family
    && str_eq c.iss d.iss
    && str_eq c.aud d.aud
    && same_int c.iat d.iat
    && same_int c.exp d.exp
    && str_eq c.jti d.jti
    && str_eq c.typ d.typ

pub same_claims-eq : (c d : RefreshClaims) → same_claims c d ≡ true → c ≡ d
unfolding same_claims
same_claims-eq c d h = ground (
  arith,
  h,
  eq_iff c.sub d.sub,
  eq_iff c.family d.family,
  eq_iff c.iss d.iss,
  eq_iff c.aud d.aud,
  same_int-eq c.iat d.iat,
  same_int-eq c.exp d.exp,
  eq_iff c.jti d.jti,
  eq_iff c.typ d.typ,
)

module _ (a b : RefreshClaims) where
  abbrev pub encode : String → RefreshClaims → Option String
  encode secret c =
      if str_eq secret "key"
      then (if same_claims c a then some "a" else if same_claims c b then some "b" else none)
      else none

  abbrev known : String → Option RefreshClaims
  known token = if str_eq token "a" then some a else if str_eq token "b" then some b else none

  abbrev current : String → String → ℤ → Option RefreshClaims → Option RefreshClaims
  current issuer audience now none = none
  current issuer audience now (some c) =
      if str_eq c.iss issuer && str_eq c.aud audience && leb_ℤ now (c.exp +ℤ pos 60)
      then some c
      else none

  abbrev pub decode : String → String → String → ℤ → String → Option RefreshClaims
  decode secret issuer audience now token =
      if str_eq secret "key" then current issuer audience now (known token) else none

  encode-key :
      (secret token : String) (c : RefreshClaims)
      → encode secret c ≡ some token
      → str_eq secret "key" ≡ true
  encode-key secret token c e = ground (arith, e)

  encode-known :
      (secret token : String) (c : RefreshClaims)
      → encode secret c ≡ some token
      → known token ≡ some c
  encode-known secret token c e = elim (Bool-cases (same_claims c a)) [
    | inl first ↦
        let name : "a" ≡ token = ground (arith, e, first) in
        ap known (sym name) ∙ ap some (sym (same_claims-eq c a first))
    | inr other ↦ elim (Bool-cases (same_claims c b)) [
      | inl second ↦
          let name : "b" ≡ token = ground (arith, e, other, second) in
          ap known (sym name) ∙ ap some (sym (same_claims-eq c b second))
      | inr neither ↦ absurd (ground (arith, e, other, neither))
    ]
  ]

  current_self :
      (now : ℤ) (c : RefreshClaims)
      → now ≤ℤ c.exp +ℤ pos 60
      → current c.iss c.aud now (some c) ≡ some c
  current_self now c fresh = ground (arith, eq_iff c.iss c.iss, eq_iff c.aud c.aud)

  module _ (a_known : same_claims a a ≡ true) (b_known : same_claims b b ≡ true)
      (apart : same_claims b a ≡ false) where
    pub decode_sound :
        (secret issuer audience : String) (now : ℤ) (token : String) (c : RefreshClaims)
        → decode secret issuer audience now token ≡ some c
        → (encode secret c ≡ some token)
          × (c.iss ≡ issuer)
          × (c.aud ≡ audience)
          × (now ≤ℤ c.exp +ℤ pos 60)
    decode_sound secret issuer audience now token c e = ground (
      arith,
      e,
      a_known,
      b_known,
      apart,
      eq_iff token "a",
      eq_iff token "b",
      eq_iff a.iss issuer,
      eq_iff b.iss issuer,
      eq_iff a.aud audience,
      eq_iff b.aud audience,
    )

    pub decode_complete :
        (secret : String) (now : ℤ) (token : String) (c : RefreshClaims)
        → encode secret c ≡ some token
        → now ≤ℤ c.exp +ℤ pos 60
        → decode secret c.iss c.aud now token ≡ some c
    decode_complete secret now token c e fresh =
        rw (encode-key secret token c e, encode-known secret token c e) (current_self now c fresh)

    abbrev pub pair_signer : RefreshJwt
    pair_signer = record {
      encode = encode;
      decode = decode;
      decode_sound = decode_sound;
      decode_complete = decode_complete;
    }
