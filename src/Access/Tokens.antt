-- ===== src/Access/Tokens.antt =====
-- What an accepted token, a granted permission and a verified password say.
use polyglot_commerce.Prelude.{
  ◌≡◌, inl, inr, String, true, some, Option, List, ℤ, pos, ◌+ℤ◌, ◌≤ℤ◌, arith, eq_iff, Option-cases,
}
use polyglot_commerce.Errors.{AppError, unauthorized}
use polyglot_commerce.Store.{Uuid, ok, err}
use polyglot_commerce.Crates.{UuidText, Argon2}
use polyglot_commerce.Access.{
  AccessClaims, RefreshClaims, JwtConfig, IssuedToken, AccessJwt, RefreshJwt, HeaderValue,
  access_claims, refresh_claims, issue_access, issue_refresh, verify_access, verify_refresh,
  from_request_parts, hash_password, verify_password, user_id,
}

module _ (uuids : UuidText) (jwt : AccessJwt) (cfg : JwtConfig) where
  -- An access token that was issued is accepted up to 60 seconds after it expires, with the claims
  -- that were signed, and its subject reads back as the user.
  pub verify-issue_access :
      (now later : ℤ) (jti user : Uuid) (roles permissions : List String) {issued : IssuedToken}
      → issue_access uuids jwt cfg now jti user roles permissions ≡ ok issued
      → later ≤ℤ issued.expires_at +ℤ pos 60
      → (verify_access jwt cfg later issued.token
          ≡ ok (access_claims uuids cfg now jti user roles permissions))
        × (user_id uuids (access_claims uuids cfg now jti user roles permissions) ≡ ok user)
  unfolding issue_access verify_access user_id
  verify-issue_access now later jti user roles permissions {issued} e fresh =
      let claims = access_claims uuids cfg now jti user roles permissions in
      elim (Option-cases (jwt.encode cfg.access_secret claims)) [
        | inl failed ↦ cc (rw failed at e)
        | inr (token, signed) ↦ ground (
          arith,
          signed,
          jwt.decode_complete cfg.access_secret later token claims,
          uuids.parse_to_string user,
        )
      ]

  -- What is known of a token that `verify_access` accepts: it was signed with the access secret, for
  -- this issuer and audience, is not expired past the leeway, and is an access token.
  pub verify_access_sound :
      (now : ℤ) (token : String) (claims : AccessClaims)
      → verify_access jwt cfg now token ≡ ok claims
      → (jwt.encode cfg.access_secret claims ≡ some token)
        × (claims.iss ≡ cfg.issuer)
        × (claims.aud ≡ cfg.audience)
        × (now ≤ℤ claims.exp +ℤ pos 60)
        × (claims.typ ≡ "access")
  unfolding verify_access
  verify_access_sound now token claims e = ground (
    arith,
    jwt.decode_sound cfg.access_secret cfg.issuer cfg.audience now token claims,
    eq_iff claims.typ "access",
  )

module _ (uuids : UuidText) (jwt : RefreshJwt) (cfg : JwtConfig) where
  -- A refresh token that was issued is accepted up to 60 seconds after it expires, and its id and
  -- its family read back as those that it was issued for.
  pub verify-issue_refresh :
      (now later : ℤ) (jti user family : Uuid) {issued : IssuedToken}
      → issue_refresh uuids jwt cfg now jti user family ≡ ok issued
      → later ≤ℤ issued.expires_at +ℤ pos 60
      → (claims : RefreshClaims) × (verify_refresh jwt cfg later issued.token ≡ ok claims)
        × (uuids.parse_str claims.jti ≡ some jti)
        × (uuids.parse_str claims.family ≡ some family)
  unfolding issue_refresh verify_refresh
  verify-issue_refresh now later jti user family {issued} e fresh =
      let claims = refresh_claims uuids cfg now jti user family in
      elim (Option-cases (jwt.encode cfg.refresh_secret claims)) [
        | inl failed ↦ cc (rw failed at e)
        | inr (token, signed) ↦ (
          claims,
          ground (arith, signed, jwt.decode_complete cfg.refresh_secret later token claims),
          uuids.parse_to_string jti,
          uuids.parse_to_string family,
        )
      ]

-- The extractor refuses with 401 only.
pub from_request_parts-err :
    (jwt : AccessJwt) (cfg : JwtConfig) (now : ℤ) (authorization : Option HeaderValue)
    {e : AppError}
    → from_request_parts jwt cfg now authorization ≡ err e
    → e ≡ unauthorized
unfolding from_request_parts
from_request_parts-err jwt cfg now authorization h = ground arith

module _ {Salt Parsed : Type 0} (argon2 : Argon2 Salt Parsed) where
  -- A password verifies against the hash that `hash_password` made of it, whatever the salt.
  pub verify-hash_password :
      (salt_bytes : Salt) (password : String) {phc : String}
      → hash_password argon2 salt_bytes password ≡ ok phc
      → verify_password argon2 password phc ≡ true
  unfolding hash_password verify_password
  verify-hash_password salt_bytes password {phc} e =
      elim (Option-cases (argon2.encode_b64 salt_bytes)) [
        | inl failed ↦ cc (rw failed at e)
        | inr (salt, encoded) ↦
            let made : argon2.hash_password password salt ≡ some phc = ground arith in
            let (parsed, reads, verifies) = argon2.verify_hash_password password salt phc made in
            rw reads verifies
      ]
