-- ===== src/Sessions/Rotation.antt =====
-- The rotation of refresh tokens: what a refresh answers and writes on every branch, and that a token
-- that is used twice takes its whole family down.
use polyglot_commerce.Prelude.{
  add_i64, ℕ, ◌≡◌, refl, ◌∙◌, sym, ap, ℤ, pos, ◌+ℤ◌, ◌≤ℤ◌, String, Bool, false, not, ◌&&◌, Option,
  none, some, arith, if◌then◌else◌, find, find-append-found, find-append-absent, find-update_where,
  find-holds,
}
use polyglot_commerce.Errors.{AppError, unauthorized}
use polyglot_commerce.Store.{Uuid, RefreshRow, Db, Result, ok, err}
use polyglot_commerce.Accounts.{is_token, in_family, used_up, withdrawn, get_refresh, revoke_family}
use polyglot_commerce.Sessions.{Server, Draw, TokenResponse, rotate, rotate_row, refresh, logout}
use polyglot_commerce.Sessions.Issue.{issued_row}
use polyglot_commerce.Sessions.Refreshed.{
  Names, Rotated, revoked_all, rotate_found, refresh-Names, refresh-Rotated, Issued-Names,
}
use polyglot_commerce.Sessions.Whole.{refresh-unnamed}

module _ {Salt Parsed : Type 0} (st : Server Salt Parsed) where
  module _ {draw : Draw} {jti family : Uuid} {s : Db} {answer : TokenResponse} {s' : Db}
      (done : Rotated st draw jti family s answer s') where
    spent : find (is_token jti) s'.refresh_tokens ≡ some (used_up done.row)
    spent =
        ap (λ (t : Db). find (is_token jti) t.refresh_tokens) done.issued.after
        ∙ find-append-found (is_token jti) _ _ (
            find-update_where (is_token jti) (is_token jti) used_up s.refresh_tokens (λ t. refl)
              done.found
            ∙ rw (find-holds (is_token jti) s.refresh_tokens done.found) refl)

    minted :
        find (is_token draw.refresh_jti) s'.refresh_tokens
        ≡ some (issued_row st draw done.row.user_id family)
    minted =
        ap (λ (t : Db). find (is_token draw.refresh_jti) t.refresh_tokens) done.issued.after
        ∙ find-append-absent (is_token draw.refresh_jti) _ _ done.issued.fresh
        ∙ ground arith

    minted-revoked :
        find (is_token draw.refresh_jti) (revoked_all st family s').refresh_tokens
        ≡ some (withdrawn (issued_row st draw done.row.user_id family))
    minted-revoked =
        find-update_where (is_token draw.refresh_jti) (in_family family) withdrawn s'.refresh_tokens
          (λ t. refl) minted
        ∙ ground arith

  refused_used :
      (draw : Draw) (jti family : Uuid) (row : RefreshRow) (s : Db)
      → row.revoked ≡ false
      → rotate_row st draw jti family (used_up row) s ≡ (err unauthorized, revoked_all st family s)
  unfolding rotate_row revoke_family
  refused_used draw jti family row s live = rw live refl

  refused_revoked :
      (draw : Draw) (jti family : Uuid) (row : RefreshRow) (s : Db)
      → rotate_row st draw jti family (withdrawn row) s ≡ (err unauthorized, s)
  unfolding rotate_row
  refused_revoked draw jti family row s = refl

  -- A refresh with a token that is accepted and that a successful refresh has used is refused, and
  -- revokes every token of the family, the one issued by that refresh included: a refresh with the
  -- latter, while it is accepted, is refused as well and changes nothing more.
  pub refresh-refresh :
      (draw again third : Draw) (now later last : ℤ) {token : String} {jti family : Uuid} (s : Db)
      {answer : TokenResponse} {s' : Db}
      → Names st now token jti family
      → refresh st draw now token s ≡ (ok answer, s')
      → Names st later token jti family
      → last ≤ℤ add_i64 draw.refresh_at st.cfg.refresh_ttl_secs +ℤ pos 60
      → (refresh st again later token s' ≡ (err unauthorized, revoked_all st family s'))
        × (refresh st third last answer.refresh_token (revoked_all st family s')
            ≡ (err unauthorized, revoked_all st family s'))
  unfolding get_refresh
  refresh-refresh draw again third now later last {token} {jti} {family} s {answer} {s'} n e n'
        fresh =
      let done = refresh-Rotated st draw now s n e in
      (
        refresh-Names st again later s' n'
            ∙ ap (λ r. rotate_found st again jti family r s') (spent done)
            ∙ refused_used again jti family done.row s' done.live,
        refresh-Names st third last (revoked_all st family s')
              (Issued-Names st draw last done.issued fresh)
            ∙ ap (λ r. rotate_found st third draw.refresh_jti family r (revoked_all st family s'))
                (minted-revoked done)
            ∙ refused_revoked third draw.refresh_jti family
                (issued_row st draw done.row.user_id family) (revoked_all st family s'),
      )

  rotate_row-err :
      (draw : Draw) (jti family : Uuid) (row : RefreshRow) (s : Db) {x : AppError} {s' : Db}
      → rotate_row st draw jti family row s ≡ (err x, s')
      → s' ≡ (if row.used && not row.revoked then revoked_all st family s else s)
  unfolding rotate rotate_row revoke_family
  rotate_row-err draw jti family row s e = ground (arith, e)

  abbrev pub used_before : Option RefreshRow → Bool
  used_before none = false
  used_before (some row) = row.used && not row.revoked

  pub refresh-named_err :
      (draw : Draw) (now : ℤ) {token : String} {jti family : Uuid} (s : Db) {x : AppError} {s' : Db}
      → Names st now token jti family
      → refresh st draw now token s ≡ (err x, s')
      → s' ≡ (if used_before (get_refresh jti s) then revoked_all st family s else s)
  refresh-named_err draw now {token} {jti} {family} s {x} {s'} n e =
      branch (get_refresh jti s) (sym (refresh-Names st draw now s n) ∙ e)
    where
      branch :
          (found : Option RefreshRow)
          → rotate_found st draw jti family found s ≡ (err x, s')
          → s' ≡ (if used_before found then revoked_all st family s else s)
      branch none h = ground arith
      branch (some row) h = rotate_row-err draw jti family row s h

  -- A refresh that fails, with whatever text: if the text is a token that is accepted, names a stored
  -- row, and that row was used before and is not revoked, it revokes the family that the token
  -- carries, and nothing else changes; in every other case nothing changes.
  pub refresh-err :
      (draw : Draw) (now : ℤ) (token : String) (s : Db) {x : AppError} {s' : Db}
      → refresh st draw now token s ≡ (err x, s')
      → ((jti family : Uuid)
          → Names st now token jti family
          → s' ≡ (if used_before (get_refresh jti s) then revoked_all st family s else s))
        × (((jti family : Uuid) → ¬ Names st now token jti family) → s' ≡ s)
  refresh-err draw now token s e = (
    λ jti family n. refresh-named_err draw now s n e,
    λ no_names.
        sym (ap (λ (r : Result TokenResponse × Db). r.1) e)
        ∙ refresh-unnamed st draw now token s no_names,
  )

  logout-Names :
      (now : ℤ) {token : String} {jti family : Uuid} (s : Db)
      → Names st now token jti family
      → logout st now token s ≡ (204, revoked_all st family s)
  unfolding logout revoke_family
  logout-Names now s n = ground (arith, n.accepted, n.family_text)

  -- After a logout with an accepted token, a refresh with any token of its family that is accepted at
  -- the time of the refresh, and whose row is stored with that family, is refused and changes nothing.
  pub refresh-logout :
      (draw : Draw) (now later : ℤ) {token other : String} {jti k family : Uuid} (s : Db)
      {row : RefreshRow}
      → Names st now token jti family
      → Names st later other k family
      → get_refresh k s ≡ some row
      → row.family ≡ family
      → refresh st draw later other (logout st now token s).1
        ≡ (err unauthorized, (logout st now token s).1)
  unfolding get_refresh
  refresh-logout draw now later {token} {other} {jti} {k} {family} s {row} n n' found same =
      let out : (logout st now token s).1 ≡ revoked_all st family s =
        ap (λ (r : ℕ × Db). r.1) (logout-Names now s n) in
      let gone : find (is_token k) (revoked_all st family s).refresh_tokens ≡ some (withdrawn row) =
        find-update_where (is_token k) (in_family family) withdrawn s.refresh_tokens (λ t. refl)
          found
        ∙ ground (arith, same) in
      rw out (
        refresh-Names st draw later (revoked_all st family s) n'
        ∙ ap (λ r. rotate_found st draw k family r (revoked_all st family s)) gone
        ∙ refused_revoked draw k family row (revoked_all st family s))
