-- ===== src/Access.antt =====
-- common/src/auth.rs: passwords, access and refresh tokens, and the guards of the routes. The time
-- of `Utc::now()` in seconds, the random salt and the UUIDs of `new_v4` are arguments.
pub mod Tokens
use polyglot_commerce.Prelude.{
  String, str_eq, Bool, false, ◌||◌, Option, none, some, List, ℤ, add_i64, any, if◌then◌else◌,
  strip_prefix,
}
use polyglot_commerce.Errors.{unauthorized, forbidden, internal}
use polyglot_commerce.Store.{Uuid, Result, ok, err, ok_or, and_then}
use polyglot_commerce.Crates.{UuidText, Jwt, Argon2}

-- `AccessClaims`
pub record AccessClaims : Type 0 where
  pub sub : String
  pub roles : List String
  pub permissions : List String
  pub iss : String
  pub aud : String
  pub iat : ℤ
  pub exp : ℤ
  pub jti : String
  pub typ : String

-- `RefreshClaims`
pub record RefreshClaims : Type 0 where
  pub sub : String
  pub family : String
  pub iss : String
  pub aud : String
  pub iat : ℤ
  pub exp : ℤ
  pub jti : String
  pub typ : String

-- `JwtConfig`
pub record JwtConfig : Type 0 where
  pub access_secret : String
  pub refresh_secret : String
  pub access_ttl_secs : ℤ
  pub refresh_ttl_secs : ℤ
  pub issuer : String
  pub audience : String

-- `IssuedToken`
pub record IssuedToken : Type 0 where
  pub token : String
  pub jti : String
  pub expires_at : ℤ

abbrev pub AccessJwt : Type 0
AccessJwt = Jwt AccessClaims (λ c. c.iss) (λ c. c.aud) (λ c. c.exp)

abbrev pub RefreshJwt : Type 0
RefreshJwt = Jwt RefreshClaims (λ c. c.iss) (λ c. c.aud) (λ c. c.exp)

-- `AccessClaims::has_permission`
unfoldable pub has_permission : AccessClaims → String → Bool
has_permission claims perm = any (λ p. str_eq p perm || str_eq p "*") claims.permissions

-- `AccessClaims::has_role`
unfoldable pub has_role : AccessClaims → String → Bool
has_role claims role = any (λ r. str_eq r role) claims.roles

-- `AuthUser::require`
unfoldable pub require : AccessClaims → String → Result (Unit {0})
unfolding has_permission
require user permission = if has_permission user permission then ok tt else err forbidden

module _ (uuids : UuidText) where
  -- `AccessClaims::user_id`
  unfoldable pub user_id : AccessClaims → Result Uuid
  user_id claims = ok_or (uuids.parse_str claims.sub) unauthorized

  -- the claims of `JwtManager::issue_access`
  unfoldable pub access_claims :
      JwtConfig → ℤ → Uuid → Uuid → List String → List String → AccessClaims
  access_claims cfg now jti user roles permissions = record {
    sub = uuids.to_string user;
    roles = roles;
    permissions = permissions;
    iss = cfg.issuer;
    aud = cfg.audience;
    iat = now;
    exp = add_i64 now cfg.access_ttl_secs;
    jti = uuids.to_string jti;
    typ = "access";
  }

  -- the claims of `JwtManager::issue_refresh`
  unfoldable pub refresh_claims : JwtConfig → ℤ → Uuid → Uuid → Uuid → RefreshClaims
  refresh_claims cfg now jti user family = record {
    sub = uuids.to_string user;
    family = uuids.to_string family;
    iss = cfg.issuer;
    aud = cfg.audience;
    iat = now;
    exp = add_i64 now cfg.refresh_ttl_secs;
    jti = uuids.to_string jti;
    typ = "refresh";
  }

  -- `JwtManager::issue_access`
  unfoldable pub issue_access :
      AccessJwt → JwtConfig → ℤ → Uuid → Uuid → List String → List String → Result IssuedToken
  unfolding access_claims
  issue_access jwt cfg now jti user roles permissions =
      let claims = access_claims cfg now jti user roles permissions in
      and_then (ok_or (jwt.encode cfg.access_secret claims) (internal "encode"))
        λ token. ok (record { token = token; jti = claims.jti; expires_at = claims.exp })

  -- `JwtManager::issue_refresh`
  unfoldable pub issue_refresh :
      RefreshJwt → JwtConfig → ℤ → Uuid → Uuid → Uuid → Result IssuedToken
  unfolding refresh_claims
  issue_refresh jwt cfg now jti user family =
      let claims = refresh_claims cfg now jti user family in
      and_then (ok_or (jwt.encode cfg.refresh_secret claims) (internal "encode"))
        λ token. ok (record { token = token; jti = claims.jti; expires_at = claims.exp })

-- `JwtManager::verify_access`
unfoldable pub verify_access : AccessJwt → JwtConfig → ℤ → String → Result AccessClaims
verify_access jwt cfg now token =
    and_then (ok_or (jwt.decode cfg.access_secret cfg.issuer cfg.audience now token) unauthorized)
      λ claims. if str_eq claims.typ "access" then ok claims else err unauthorized

-- `JwtManager::verify_refresh`
unfoldable pub verify_refresh : RefreshJwt → JwtConfig → ℤ → String → Result RefreshClaims
verify_refresh jwt cfg now token =
    and_then (ok_or (jwt.decode cfg.refresh_secret cfg.issuer cfg.audience now token) unauthorized)
      λ claims. if str_eq claims.typ "refresh" then ok claims else err unauthorized

-- A header's value: `to_str` fails where it is not visible ASCII.
pub data HeaderValue : Type 0 where
  visible : String → HeaderValue
  opaque : HeaderValue

abbrev pub bearer : Option HeaderValue → Option String
bearer (some (visible v)) = strip_prefix "Bearer " v
bearer (some opaque) = none
bearer none = none

-- `FromRequestParts for AuthUser`, on the value of the header `Authorization`
unfoldable pub from_request_parts :
    AccessJwt → JwtConfig → ℤ → Option HeaderValue → Result AccessClaims
unfolding verify_access
from_request_parts jwt cfg now authorization =
    and_then (ok_or (bearer authorization) unauthorized) (verify_access jwt cfg now)

module _ {Salt Parsed : Type 0} (argon2 : Argon2 Salt Parsed) where
  -- `hash_password`, with the bytes that `OsRng` fills in
  unfoldable pub hash_password : Salt → String → Result String
  hash_password salt_bytes password =
      and_then (ok_or (argon2.encode_b64 salt_bytes) (internal "salt encode"))
        λ salt. ok_or (argon2.hash_password password salt) (internal "hash")

  abbrev verified : String → Option Parsed → Bool
  verified password none = false
  verified password (some parsed) = argon2.verify password parsed

  -- `verify_password`
  unfoldable pub verify_password : String → String → Bool
  verify_password password phc_hash = verified password (argon2.parse_phc phc_hash)
