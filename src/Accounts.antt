-- ===== src/Accounts.antt =====
-- server/src/auth/repo.rs: users, their roles and permissions, and the refresh tokens. The id and the
-- time that the database gives a new user are arguments.
use polyglot_commerce.Prelude.{
  ◌≡◌, String, str_eq, Bool, true, false, not, ◌&&◌, Option, List, [], ◌∷◌, ◌++◌, map, ◌==◌,
  if◌then◌else◌, select, find, any, update_where,
}
use polyglot_commerce.Store.{
  Uuid, Time, UserRow, Named, RefreshRow, Db, ok, err, Exec, modify, unique_violation,
  foreign_key_violation,
}

-- How the database compares e-mail addresses: `same` is that of the UNIQUE index on the CITEXT
-- column, `matches` that of `WHERE email = $1` with a TEXT parameter, which is no coarser.
pub record EmailText : Type 0 where
  pub same : String → String → Bool
  pub matches : String → String → Bool
  pub matches_refl : (e : String) → matches e e ≡ true
  pub same_of_matches : (d e : String) → matches d e ≡ true → same d e ≡ true

abbrev pub new_user : Uuid → Time → String → String → String → UserRow
new_user id now email password_hash full_name = record {
  id = id;
  email = email;
  password_hash = password_hash;
  full_name = full_name;
  email_verified = false;
  status = "active";
  created_at = now;
  updated_at = now;
}

abbrev pub is_user : Uuid → UserRow → Bool
is_user id u = u.id == id

-- `create_user`: the primary key and the UNIQUE constraint on the address.
unfoldable pub create_user : EmailText → Uuid → Time → String → String → String → Exec UserRow
create_user emails id now email password_hash full_name s =
    let user = new_user id now email password_hash full_name in
    if any (is_user id) s.users
    then (err unique_violation, s)
    else if any (λ u. emails.same u.email email) s.users
    then (err unique_violation, s)
    else (ok user, record s { users = s.users ++ user ∷ [] })

abbrev pub is_grant : Uuid → Uuid → Uuid × Uuid → Bool
is_grant user_id role_id (u, r) = u == user_id && r == role_id

-- `INSERT INTO user_roles ... ON CONFLICT DO NOTHING`, for the roles that were selected
unfoldable pub granted : Uuid → List Named → List (Uuid × Uuid) → List (Uuid × Uuid)
granted user_id [] grants = grants
granted user_id (r ∷ rs) grants =
    granted user_id rs
      (if any (is_grant user_id r.id) grants then grants else grants ++ (user_id, r.id) ∷ [])

abbrev is_empty : {A : Type 0} → List A → Bool
is_empty [] = true
is_empty (x ∷ xs) = false

-- `assign_role`: a role that does not exist is no error, and inserts nothing.
unfoldable pub assign_role : Uuid → String → Exec Unit
unfolding granted
assign_role user_id role s =
    let found = select (λ (r : Named). str_eq r.name role) s.roles in
    if is_empty found
    then (ok tt, s)
    else if not (any (is_user user_id) s.users)
    then (err foreign_key_violation, s)
    else (ok tt, record s { user_roles = granted user_id found s.user_roles })

-- `find_by_email`
unfoldable pub find_by_email : EmailText → String → Db → Option UserRow
find_by_email emails email s = find (λ u. emails.matches u.email email) s.users

-- `find_by_id`
unfoldable pub find_by_id : Uuid → Db → Option UserRow
find_by_id id s = find (is_user id) s.users

abbrev names_of : Uuid → List Named → List String
names_of id rows = map (λ (r : Named). r.name) (select (λ (r : Named). r.id == id) rows)

-- `JOIN user_roles ur ON ur.role_id = r.id WHERE ur.user_id = $1`
unfoldable pub role_names : Uuid → List (Uuid × Uuid) → List Named → List String
role_names user_id [] roles = []
role_names user_id ((u, r) ∷ grants) roles =
    let rest = role_names user_id grants roles in
    if u == user_id then names_of r roles ++ rest else rest

-- `roles`
unfoldable pub roles : Uuid → Db → List String
unfolding role_names
roles user_id s = role_names user_id s.user_roles s.roles

-- `JOIN role_permissions rp ON rp.permission_id = p.id`, for one role
unfoldable pub permission_names : Uuid → List (Uuid × Uuid) → List Named → List String
permission_names role_id [] permissions = []
permission_names role_id ((r, p) ∷ links) permissions =
    let rest = permission_names role_id links permissions in
    if r == role_id then names_of p permissions ++ rest else rest

unfoldable pub user_permissions : Uuid → List (Uuid × Uuid) → Db → List String
unfolding permission_names
user_permissions user_id [] s = []
user_permissions user_id ((u, r) ∷ grants) s =
    let rest = user_permissions user_id grants s in
    if u == user_id then permission_names r s.role_permissions s.permissions ++ rest else rest

-- `SELECT DISTINCT`
unfoldable pub distinct : List String → List String
distinct [] = []
distinct (n ∷ ns) = let rest = distinct ns in if any (str_eq n) rest then rest else n ∷ rest

-- `permissions`
unfoldable pub permissions : Uuid → Db → List String
unfolding user_permissions distinct
permissions user_id s = distinct (user_permissions user_id s.user_roles s)

abbrev pub is_token : Uuid → RefreshRow → Bool
is_token jti t = t.jti == jti

abbrev pub new_token : Uuid → Uuid → Uuid → Time → RefreshRow
new_token jti family user_id expires_at = record {
  jti = jti;
  family = family;
  user_id = user_id;
  used = false;
  revoked = false;
  expires_at = expires_at;
}

-- `store_refresh`: the primary key, and the reference to the user.
unfoldable pub store_refresh : Uuid → Uuid → Uuid → Time → Exec Unit
store_refresh jti family user_id expires_at s =
    if any (is_token jti) s.refresh_tokens
    then (err unique_violation, s)
    else if not (any (is_user user_id) s.users)
    then (err foreign_key_violation, s)
    else (
      ok tt,
      record s {
        refresh_tokens = s.refresh_tokens ++ new_token jti family user_id expires_at ∷ [];
      },
    )

-- `get_refresh`
unfoldable pub get_refresh : Uuid → Db → Option RefreshRow
get_refresh jti s = find (is_token jti) s.refresh_tokens

abbrev pub used_up : RefreshRow → RefreshRow
used_up t = record t { used = true }

abbrev pub withdrawn : RefreshRow → RefreshRow
withdrawn t = record t { revoked = true }

-- `mark_refresh_used`
unfoldable pub mark_refresh_used : Uuid → Exec Unit
mark_refresh_used jti =
    modify λ s. record s { refresh_tokens = update_where (is_token jti) used_up s.refresh_tokens }

abbrev pub in_family : Uuid → RefreshRow → Bool
in_family family t = t.family == family

-- `revoke_family`
unfoldable pub revoke_family : Uuid → Exec Unit
revoke_family family =
    modify
      λ s. record s { refresh_tokens = update_where (in_family family) withdrawn s.refresh_tokens }
