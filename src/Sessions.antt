-- ===== src/Sessions.antt =====
-- server/src/auth: handlers.rs and models.rs. What the runtime and the database make during a request
-- (times, ids, the salt) is an argument of its handler.
pub mod Issue
pub mod Enrolment
pub mod Refreshed
pub mod Rotation
pub mod Race
pub mod Service
pub mod Live
pub mod Minted
pub mod Given
pub mod Stored
pub mod Steady
pub mod Whole
pub mod Effect
pub mod Dead
pub mod Registry
pub mod Suspended
use polyglot_commerce.Prelude.{
  ℕ, suc, ◌-◌, ℤ, sub_i64, String, str_eq, Bool, true, false, not, ◌&&◌, Option, none, some, List,
  [], ◌∷◌, leb, if◌then◌else◌,
}
use Prim.Native.String
use polyglot_commerce.Errors.{unauthorized, forbidden, not_found, internal, validation}
use polyglot_commerce.Store.{
  Uuid, Time, UserRow, RefreshRow, Db, Result, ok, err, Exec, pure, fail, gets, lift, ok_or,
  transaction, fail_if, ◌>>=◌, ◌>>◌,
}
use polyglot_commerce.Crates.{UuidText, TimeText, Argon2}
use polyglot_commerce.Access.{
  AccessClaims, RefreshClaims, JwtConfig, AccessJwt, RefreshJwt, IssuedToken, issue_access,
  issue_refresh, verify_refresh, user_id, hash_password, verify_password,
}
use polyglot_commerce.Accounts.{
  EmailText, create_user, assign_role, find_by_email, find_by_id, roles, permissions, store_refresh,
  get_refresh, mark_refresh_used, revoke_family,
}

-- What the handlers use of `AppState` and of the crates; `is_email` is the test of `validator`.
pub record Server (Salt Parsed : Type 0) : Type 0 where
  pub uuids : UuidText
  pub times : TimeText
  pub argon2 : Argon2 Salt Parsed
  pub access_jwt : AccessJwt
  pub refresh_jwt : RefreshJwt
  pub cfg : JwtConfig
  pub emails : EmailText
  pub is_email : String → Bool

-- What `issue_session` draws: the ids of the two tokens, the clock (in seconds) at each of its
-- readings, and the time that `ts` falls back on.
pub record Draw : Type 0 where
  pub access_jti : Uuid
  pub refresh_jti : Uuid
  pub access_at : ℤ
  pub refresh_at : ℤ
  pub answered_at : ℤ
  pub now : Time

-- `TokenResponse`
pub record TokenResponse : Type 0 where
  pub access_token : String
  pub refresh_token : String
  pub token_type : String
  pub expires_in : ℤ

-- `UserResponse`
pub record UserResponse : Type 0 where
  pub id : Uuid
  pub email : String
  pub full_name : String
  pub email_verified : Bool
  pub status : String
  pub roles : List String
  pub created_at : Time

-- `UserResponse::from_row`
abbrev pub from_row : UserRow → List String → UserResponse
from_row u rs = record {
  id = u.id;
  email = u.email;
  full_name = u.full_name;
  email_verified = u.email_verified;
  status = u.status;
  roles = rs;
  created_at = u.created_at;
}

-- `RegisterRequest`
pub record RegisterRequest : Type 0 where
  pub email : String
  pub password : String
  pub full_name : String

-- `LoginRequest`
pub record LoginRequest : Type 0 where
  pub email : String
  pub password : String

-- `RegisterResponse`
pub record RegisterResponse : Type 0 where
  pub user : UserResponse
  pub tokens : TokenResponse

-- the number of characters
unfoldable pub chars : String → ℕ
chars String.[] = 0
chars (String.◌∷◌ c s) = suc (chars s)

-- `length(min = .., max = ..)`
abbrev pub length_within : ℕ → ℕ → String → Bool
length_within least most s = leb least (chars s) && leb (chars s) most

abbrev failed : Bool → String → List String → List String
failed true field rest = rest
failed false field rest = field ∷ rest

abbrev pub checked : List String → Result (Unit {0})
checked [] = ok tt
checked (f ∷ fs) = err (validation (f ∷ fs))

-- `ts`
abbrev or_now : Option Time → Time → Time
or_now none now = now
or_now (some t) now = t

module _ {Salt Parsed : Type 0} (st : Server Salt Parsed) where
  -- `validate` of `RegisterRequest`
  unfoldable pub validate_register : RegisterRequest → Result (Unit {0})
  validate_register req = checked (
      failed (st.is_email req.email) "email" (
        failed (length_within 8 128 req.password) "password"
          (failed (length_within 1 200 req.full_name) "full_name" [])))

  -- `validate` of `LoginRequest`
  unfoldable pub validate_login : LoginRequest → Result (Unit {0})
  validate_login req =
      checked
        (failed (st.is_email req.email) "email" (failed (leb 1 (chars req.password)) "password" []))

  abbrev pub ts : ℤ → Time → Time
  ts secs now = or_now (st.times.from_timestamp secs) now

  abbrev pub answer : ℤ → IssuedToken → IssuedToken → TokenResponse
  answer answered_at access refresh = record {
    access_token = access.token;
    refresh_token = refresh.token;
    token_type = "Bearer";
    expires_in = sub_i64 access.expires_at answered_at;
  }

  -- `issue_session`
  unfoldable pub issue_session : Draw → Uuid → Uuid → Exec TokenResponse
  issue_session draw user family = do
    rs ← gets (roles user)
    perms ← gets (permissions user)
    access ←
        lift
          (issue_access st.uuids st.access_jwt st.cfg draw.access_at draw.access_jti user rs perms)
    refresh ←
        lift (
          issue_refresh st.uuids st.refresh_jwt st.cfg draw.refresh_at draw.refresh_jti user family)
    jti ← lift (ok_or (st.uuids.parse_str refresh.jti) (internal "uuid"))
    store_refresh jti family user (ts refresh.expires_at draw.now)
    pure (answer draw.answered_at access refresh)

  -- what `register` does in its transaction
  unfoldable pub enrol :
      Draw → Uuid → Time → Uuid → String → RegisterRequest → Exec (UserRow × TokenResponse)
  enrol draw id now family hash req = do
    user ← create_user st.emails id now req.email hash req.full_name
    assign_role user.id "customer"
    tokens ← issue_session draw user.id family
    pure (user, tokens)

  -- `register`, which answers 201
  unfoldable pub register :
      Draw → Salt → Uuid → Time → Uuid → RegisterRequest → Exec (ℕ × RegisterResponse)
  register draw salt_bytes id now family req = do
    lift (validate_register req)
    hash ← lift (hash_password st.argon2 salt_bytes req.password)
    made ← transaction (enrol draw id now family hash req)
    rs ← gets (roles made.0.id)
    pure (201, record { user = from_row made.0 rs; tokens = made.1 })

  -- `login`
  unfoldable pub login : Draw → Uuid → LoginRequest → Exec TokenResponse
  login draw family req = do
    lift (validate_login req)
    found ← gets (find_by_email st.emails req.email)
    user ← lift (ok_or found unauthorized)
    fail_if (not (verify_password st.argon2 req.password user.password_hash)) unauthorized
    fail_if (not (str_eq user.status "active")) forbidden
    issue_session draw user.id family

  -- the transaction of `refresh`
  unfoldable pub rotate : Draw → Uuid → Uuid → Uuid → Exec TokenResponse
  rotate draw jti family user = transaction do mark_refresh_used jti; issue_session draw user family

  -- `refresh` on the row that `get_refresh` returned
  unfoldable pub rotate_row : Draw → Uuid → Uuid → RefreshRow → Exec TokenResponse
  rotate_row draw jti family row =
      if row.revoked
      then fail unauthorized
      else if row.used
      then (do revoke_family family; fail unauthorized)
      else rotate draw jti family row.user_id

  -- `refresh`
  unfoldable pub refresh : Draw → ℤ → String → Exec TokenResponse
  refresh draw now refresh_token = do
    claims ← lift (verify_refresh st.refresh_jwt st.cfg now refresh_token)
    jti ← lift (ok_or (st.uuids.parse_str claims.jti) unauthorized)
    family ← lift (ok_or (st.uuids.parse_str claims.family) unauthorized)
    found ← gets (get_refresh jti)
    row ← lift (ok_or found unauthorized)
    rotate_row draw jti family row

  abbrev log_out_family : Option Uuid → Db → Db
  log_out_family none s = s
  log_out_family (some family) s = (revoke_family family s).1

  abbrev log_out_claims : Result RefreshClaims → Db → Db
  log_out_claims (err e) s = s
  log_out_claims (ok claims) s = log_out_family (st.uuids.parse_str claims.family) s

  -- `logout`, which answers 204 always
  unfoldable pub logout : ℤ → String → Db → ℕ × Db
  logout now refresh_token s =
      (204, log_out_claims (verify_refresh st.refresh_jwt st.cfg now refresh_token) s)

  -- `me`
  unfoldable pub me : AccessClaims → Exec UserResponse
  me claims = do
    id ← lift (user_id st.uuids claims)
    found ← gets (find_by_id id)
    user ← lift (ok_or found (not_found "user"))
    rs ← gets (roles id)
    pure (from_row user rs)
