-- ===== src/Tests/Access.antt =====
-- Tokens and passwords with the small crates.
use polyglot_commerce.Prelude.{
  add_i64, ℕ, ◌≡◌, refl, ℤ, pos, negsuc, ◌+ℤ◌, ◌≤ℤ◌, int_laws, String, str_eq, eq_iff, Bool, true,
  false, ◌&&◌, some, List, [], ◌∷◌, arith, ◌==◌,
}
use polyglot_commerce.Store.{ok}
use polyglot_commerce.Access.{
  AccessClaims, JwtConfig, AccessJwt, access_claims, issue_access, verify_access, user_id,
  hash_password, verify_password,
}
use polyglot_commerce.Access.Tokens.{verify-issue_access, verify_access_sound, verify-hash_password}
use polyglot_commerce.Tests.Crates.{unary_ids, unary, plain_hash}
use polyglot_commerce.Tests.Crates.Signer.{signer}

abbrev pub cfg : JwtConfig
cfg = record {
  access_secret = "key";
  refresh_secret = "key";
  access_ttl_secs = pos 10;
  refresh_ttl_secs = pos 10;
  issuer = "shop";
  audience = "shop";
}

abbrev pub access : AccessClaims
access = record {
  sub = "uuuuuuu";
  roles = "customer" ∷ [];
  permissions = "order:write" ∷ [];
  iss = "shop";
  aud = "shop";
  iat = pos 12;
  exp = pos 22;
  jti = "uuu";
  typ = "access";
}

abbrev pub is_only : String → List String → Bool
is_only s [] = false
is_only s (p ∷ []) = str_eq p s
is_only s (p ∷ q ∷ ps) = false

abbrev pub is_pos : ℕ → ℤ → Bool
is_pos n (pos m) = n == m
is_pos n (negsuc m) = false

abbrev pub is_access : AccessClaims → Bool
is_access c =
    str_eq c.sub "uuuuuuu"
    && is_only "customer" c.roles
    && is_only "order:write" c.permissions
    && str_eq c.iss "shop"
    && str_eq c.aud "shop"
    && is_pos 12 c.iat
    && is_pos 22 c.exp
    && str_eq c.jti "uuu"
    && str_eq c.typ "access"

is_only-eq : (s : String) (ps : List String) → is_only s ps ≡ true → ps ≡ s ∷ []
is_only-eq s [] h = ground arith
is_only-eq s (p ∷ []) h = ground (arith, h, eq_iff p s)
is_only-eq s (p ∷ q ∷ ps) h = ground arith

is_pos-eq : (n : ℕ) (i : ℤ) → is_pos n i ≡ true → i ≡ pos n
is_pos-eq n i h = ground arith

pub only_access : (c : AccessClaims) → is_access c ≡ true → c ≡ access
only_access c h = ground (
  arith,
  h,
  eq_iff c.sub "uuuuuuu",
  is_only-eq "customer" c.roles,
  is_only-eq "order:write" c.permissions,
  eq_iff c.iss "shop",
  eq_iff c.aud "shop",
  is_pos-eq 12 c.iat,
  is_pos-eq 22 c.exp,
  eq_iff c.jti "uuu",
  eq_iff c.typ "access",
)

abbrev pub jwt : AccessJwt
jwt = signer (λ c. c.iss) (λ c. c.aud) (λ c. c.exp) access is_access only_access refl

issued_token :
    issue_access unary_ids jwt cfg (pos 12) 3 7 ("customer" ∷ []) ("order:write" ∷ [])
    ≡ ok (record { token = "token"; jti = "uuu"; expires_at = pos 22 })
unfolding issue_access access_claims ◌+ℤ◌ add_i64 unary
issued_token = refl

in_leeway : pos 80 ≤ℤ pos 22 +ℤ pos 60
in_leeway = omega int_laws

verify-issue_access_example :
    (verify_access jwt cfg (pos 80) "token"
      ≡ ok (access_claims unary_ids cfg (pos 12) 3 7 ("customer" ∷ []) ("order:write" ∷ [])))
    × (user_id unary_ids
          (access_claims unary_ids cfg (pos 12) 3 7 ("customer" ∷ []) ("order:write" ∷ []))
        ≡ ok 7)
verify-issue_access_example =
    verify-issue_access unary_ids jwt cfg (pos 12) (pos 80) 3 7 ("customer" ∷ [])
      ("order:write" ∷ []) {issued = record { token = "token"; jti = "uuu"; expires_at = pos 22 }}
      issued_token in_leeway

accepted : verify_access jwt cfg (pos 80) "token" ≡ ok access
unfolding verify_access ◌+ℤ◌ add_i64
accepted = refl

verify_access_sound_test :
    (jwt.encode "key" access ≡ some "token")
    × (access.iss ≡ cfg.issuer)
    × (access.aud ≡ cfg.audience)
    × (pos 80 ≤ℤ pos 22 +ℤ pos 60)
    × (access.typ ≡ "access")
verify_access_sound_test = verify_access_sound unary_ids jwt cfg (pos 80) "token" access accepted

hashed : hash_password plain_hash "salt" "secret" ≡ ok "secret"
unfolding hash_password
hashed = refl

verify-hash_password_test : verify_password plain_hash "secret" "secret" ≡ true
verify-hash_password_test = verify-hash_password plain_hash "salt" "secret" {phc = "secret"} hashed
