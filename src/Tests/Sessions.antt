-- ===== src/Tests/Sessions.antt =====
-- Sessions with the small crates: one family with one unused refresh token.
use polyglot_commerce.Prelude.{
  add_i64, sub_i64, ◌≡◌, refl, pos, ◌+ℤ◌, ◌-ℤ◌, ◌≤ℤ◌, int_laws, String, str_eq, eq_iff, true, false,
  some, [], ◌∷◌, arith, if◌then◌else◌,
}
use polyglot_commerce.Errors.{unauthorized}
use polyglot_commerce.Store.{Uuid, RefreshRow, Db, ok, err, RefreshRow}
use polyglot_commerce.Access.{
  RefreshClaims, RefreshJwt, refresh_claims, access_claims, issue_access, issue_refresh,
  verify_refresh,
}
use polyglot_commerce.Access.Tokens.{verify-issue_refresh}
use polyglot_commerce.Accounts.{
  EmailText, get_refresh, mark_refresh_used, store_refresh, roles, permissions,
}
use polyglot_commerce.Sessions.{
  Server, Draw, TokenResponse, issue_session, rotate, rotate_row, refresh, logout,
}
use polyglot_commerce.Sessions.Refreshed.{Names, revoked_all}
use polyglot_commerce.Sessions.Rotation.{used_before, refresh-refresh, refresh-err, refresh-logout}
use polyglot_commerce.Tests.{shop_db}
use polyglot_commerce.Tests.Access.{cfg, jwt}
use polyglot_commerce.Tests.Crates.{unary_times, unary_ids, unary, counted, plain_hash}
use polyglot_commerce.Tests.Crates.Refresh.{pair_signer, same_claims}

abbrev pub old_claims : RefreshClaims
old_claims = record {
  sub = "uuuuuuu";
  family = "uuuu";
  iss = "shop";
  aud = "shop";
  iat = pos 10;
  exp = pos 20;
  jti = "u";
  typ = "refresh";
}

abbrev pub new_claims : RefreshClaims
new_claims = record old_claims { iat = pos 12; exp = pos 22; jti = "uu" }

pub old_known : same_claims old_claims old_claims ≡ true
unfolding same_claims
old_known = refl

pub new_known : same_claims new_claims new_claims ≡ true
unfolding same_claims
new_known = refl

pub apart : same_claims new_claims old_claims ≡ false
unfolding same_claims
apart = refl

abbrev pub refresh_jwt : RefreshJwt
refresh_jwt = pair_signer old_claims new_claims old_known new_known apart

pub same_text : (e : String) → str_eq e e ≡ true
same_text e = ground (arith, eq_iff e e)

abbrev pub exact : EmailText
exact = record {
  same = str_eq;
  matches = str_eq;
  matches_refl = same_text;
  same_of_matches = λ d e h. h;
}

abbrev pub server : Server String String
server = record {
  uuids = unary_ids;
  times = unary_times;
  argon2 = plain_hash;
  access_jwt = jwt;
  refresh_jwt = refresh_jwt;
  cfg = cfg;
  emails = exact;
  is_email = λ e. true;
}

abbrev pub draw : Draw
draw = record {
  access_jti = 3;
  refresh_jti = 2;
  access_at = pos 12;
  refresh_at = pos 12;
  answered_at = pos 12;
  now = 0;
}

abbrev pub first_row : RefreshRow
first_row = record {
  jti = 1;
  family = 4;
  user_id = 7;
  used = false;
  revoked = false;
  expires_at = 20;
}

abbrev pub session_db : Db
session_db = record shop_db { refresh_tokens = first_row ∷ [] }

abbrev rotated : Db
rotated = record shop_db {
  refresh_tokens =
      record first_row { used = true }
      ∷ record { jti = 2; family = 4; user_id = 7; used = false; revoked = false; expires_at = 22 }
      ∷ [];
}

abbrev pub tokens : TokenResponse
tokens = record {
  access_token = "token";
  refresh_token = "b";
  token_type = "Bearer";
  expires_in = pos 10;
}

sample_refresh : refresh server draw (pos 12) "a" session_db ≡ (ok tokens, rotated)
unfolding refresh verify_refresh ◌+ℤ◌ add_i64 counted get_refresh rotate_row rotate
    mark_refresh_used issue_session roles permissions issue_access issue_refresh access_claims
    refresh_claims unary store_refresh same_claims ◌-ℤ◌ sub_i64
sample_refresh = refl

old_named : Names server (pos 12) "a" 1 4
unfolding verify_refresh ◌+ℤ◌ add_i64 counted
old_named = record { claims = old_claims; accepted = refl; jti_text = refl; family_text = refl }

pub old_named_later : Names server (pos 15) "a" 1 4
unfolding verify_refresh ◌+ℤ◌ add_i64 counted
old_named_later = record {
  claims = old_claims;
  accepted = refl;
  jti_text = refl;
  family_text = refl;
}

in_time : pos 30 ≤ℤ add_i64 (pos 12) (pos 10) +ℤ pos 60
unfolding add_i64 ◌+ℤ◌
in_time = omega arith

refresh-refresh_example :
    (refresh server draw (pos 15) "a" rotated ≡ (err unauthorized, revoked_all server 4 rotated))
    × (refresh server draw (pos 30) "b" (revoked_all server 4 rotated)
        ≡ (err unauthorized, revoked_all server 4 rotated))
refresh-refresh_example =
    refresh-refresh server draw draw draw (pos 12) (pos 15) (pos 30) {token = "a"} {jti = 1}
      {family = 4} session_db {answer = tokens} {s' = rotated} old_named sample_refresh
      old_named_later in_time

reused : refresh server draw (pos 15) "a" rotated ≡ (err unauthorized, revoked_all server 4 rotated)
reused = refresh-refresh_example.0

refresh-err_example :
    ((jti family : Uuid)
      → Names server (pos 15) "a" jti family
      → revoked_all server 4 rotated ≡ (
          if used_before server (get_refresh jti rotated)
          then revoked_all server family rotated
          else rotated))
    × (((jti family : Uuid) → ¬ Names server (pos 15) "a" jti family)
        → revoked_all server 4 rotated ≡ rotated)
refresh-err_example =
    refresh-err server draw (pos 15) "a" rotated {s' = revoked_all server 4 rotated} reused

stored : get_refresh 1 session_db ≡ some first_row
unfolding get_refresh
stored = refl

refresh-logout_example :
    refresh server draw (pos 15) "a" (logout server (pos 12) "a" session_db).1
    ≡ (err unauthorized, (logout server (pos 12) "a" session_db).1)
refresh-logout_example =
    refresh-logout server draw (pos 12) (pos 15) {token = "a"} {other = "a"} {jti = 1} {k = 1}
      {family = 4} session_db {row = first_row} old_named old_named_later stored refl

issued_refresh :
    issue_refresh unary_ids refresh_jwt cfg (pos 12) 2 7 4
    ≡ ok (record { token = "b"; jti = "uu"; expires_at = pos 22 })
unfolding issue_refresh refresh_claims ◌+ℤ◌ add_i64 unary same_claims
issued_refresh = refl

in_leeway : pos 80 ≤ℤ pos 22 +ℤ pos 60
in_leeway = omega int_laws

verify-issue_refresh_example :
    (claims : RefreshClaims) × (verify_refresh refresh_jwt cfg (pos 80) "b" ≡ ok claims)
    × (counted claims.jti ≡ some 2)
    × (counted claims.family ≡ some 4)
verify-issue_refresh_example =
    verify-issue_refresh unary_ids refresh_jwt cfg (pos 12) (pos 80) 2 7 4
      {issued = record { token = "b"; jti = "uu"; expires_at = pos 22 }} issued_refresh in_leeway
