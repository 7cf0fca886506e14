-- ===== src/Sessions/Suspended.antt =====
-- A user who is suspended while a session is open.
use polyglot_commerce.Prelude.{
  ◌≡◌, refl, ◌∙◌, sym, ap, ℤ, String, Option, none, some, List, [], ◌∷◌, arith, if◌then◌else◌, any,
  update_where, any-update_where, find-update_where,
}
use polyglot_commerce.Errors.{unauthorized, forbidden}
use polyglot_commerce.Store.{Uuid, Time, UserRow, RefreshRow, Db, Result, ok, err}
use polyglot_commerce.Access.{verify_password}
use polyglot_commerce.Accounts.{
  is_user, roles, permissions, user_permissions, store_refresh, mark_refresh_used, revoke_family,
  get_refresh, find_by_email,
}
use polyglot_commerce.Sessions.Refreshed.{Names, refresh-Names, rotate_found}
use polyglot_commerce.Sessions.{
  Server, Draw, LoginRequest, issue_session, rotate, rotate_row, refresh, login, validate_login,
}

abbrev pub suspended_at : Time → UserRow → UserRow
suspended_at now u = record u { status = "suspended"; updated_at = now }

-- What an administrator writes to suspend a user.
abbrev pub suspend : Time → Uuid → Db → Db
suspend now id s = record s { users = update_where (is_user id) (suspended_at now) s.users }

abbrev pub with_users : {A : Type 0} → List UserRow → Result A × Db → Result A × Db
with_users us (r, s) = (r, record s { users = us })

user_permissions-users :
    (us : List UserRow) (user : Uuid) (grants : List (Uuid × Uuid)) (s : Db)
    → user_permissions user grants (record s { users = us }) ≡ user_permissions user grants s
unfolding user_permissions
user_permissions-users us user [] s = refl
user_permissions-users us user ((u, r) ∷ grants) s =
    ground (arith, user_permissions-users us user grants s)

permissions-users :
    (us : List UserRow) (user : Uuid) (s : Db)
    → permissions user (record s { users = us }) ≡ permissions user s
unfolding permissions
permissions-users us user s = rw (user_permissions-users us user s.user_roles s) refl

module _ {Salt Parsed : Type 0} (st : Server Salt Parsed) (us : List UserRow) where
  issue_session-users :
      (draw : Draw) (user family : Uuid) (s : Db)
      → any (is_user user) us ≡ any (is_user user) s.users
      → issue_session st draw user family (record s { users = us })
        ≡ with_users us (issue_session st draw user family s)
  unfolding issue_session store_refresh roles
  issue_session-users draw user family s same = ground (arith, same, permissions-users us user s)

  rotate_row-users :
      (draw : Draw) (jti family : Uuid) (row : RefreshRow) (s : Db)
      → any (is_user row.user_id) us ≡ any (is_user row.user_id) s.users
      → rotate_row st draw jti family row (record s { users = us })
        ≡ with_users us (rotate_row st draw jti family row s)
  unfolding rotate_row rotate mark_refresh_used revoke_family
  rotate_row-users draw jti family row s same =
      ground
        (arith, same, issue_session-users draw row.user_id family (mark_refresh_used jti s).1 same)

  rotate_found-users :
      (draw : Draw) (jti family : Uuid) (found : Option RefreshRow) (s : Db)
      → ((user : Uuid) → any (is_user user) us ≡ any (is_user user) s.users)
      → rotate_found st draw jti family found (record s { users = us })
        ≡ with_users us (rotate_found st draw jti family found s)
  rotate_found-users draw jti family none s same = refl
  rotate_found-users draw jti family (some row) s same =
      rotate_row-users draw jti family row s (same row.user_id)

module _ {Salt Parsed : Type 0} (st : Server Salt Parsed) where
  found-suspended :
      (now : Time) (email : String) (s : Db) {u : UserRow}
      → find_by_email st.emails email s ≡ some u
      → find_by_email st.emails email (suspend now u.id s) ≡ some (suspended_at now u)
  unfolding find_by_email
  found-suspended now email s {u} found =
      find-update_where (λ (v : UserRow). st.emails.matches v.email email) (is_user u.id)
        (suspended_at now) s.users (λ v. refl) found
      ∙ ground arith

  -- A user who is suspended can no longer log in, whatever the password, but every refresh with an
  -- accepted token, one of that user's included, answers and writes what it would have without the
  -- suspension.
  pub refresh-suspend :
      (draw : Draw) (now : ℤ) (at : Time) {token : String} {jti family : Uuid} (other : Uuid)
      (req : LoginRequest) (s : Db) {u : UserRow}
      → Names st now token jti family
      → validate_login st req ≡ ok tt
      → find_by_email st.emails req.email s ≡ some u
      → let s' = suspend at u.id s in
        (login st draw other req s' ≡ (
          err (
              if verify_password st.argon2 req.password u.password_hash
              then forbidden
              else unauthorized),
          s',
        ))
        × (refresh st draw now token s' ≡ with_users s'.users (refresh st draw now token s))
  unfolding login get_refresh
  refresh-suspend draw now at {token} {jti} {family} other req s {u} n valid found =
      let s' = suspend at u.id s in
      (
        ground (arith, valid, found-suspended at req.email s {u = u} found),
        refresh-Names st draw now s' n
            ∙ rotate_found-users st s'.users draw jti family (get_refresh jti s) s (λ user.
              any-update_where (is_user user) (is_user u.id) (suspended_at at) s.users (λ v. refl))
            ∙ ap (with_users s'.users) (sym (refresh-Names st draw now s n)),
      )
